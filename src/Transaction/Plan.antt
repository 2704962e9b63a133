-- ===== src/Transaction/Plan.antt =====
-- What `CreateTransaction` (leafy.go) decides, over plain numbers: which coins are spent, and the
-- change.
pub mod Cover
pub mod Worth
pub mod Drawn
use leafy.Prelude.{
  ℕ, ◌+◌, ◌-◌, ◌*◌, ◌^◌, ◌<◌, ◌≡◌, Bool, ◌&&◌, List, [], ◌∷◌, ◌++◌, ℤ, pos_part, neg_part, ltb, leb,
  ◌==◌, if◌then◌else◌, All, Bytes, Result, ok, err, panic,
}
use leafy.Wire.{Utxo, decode_script}

abbrev pub dust : ℕ
dust = 330

module _ {O : Type 0} where
  abbrev pub amount_of : Utxo O → ℕ
  amount_of u = pos_part u.amount

  abbrev pub sum_amounts : List (Utxo O) → ℕ
  sum_amounts [] = 0
  sum_amounts (u ∷ us) = amount_of u + sum_amounts us

  -- The first coins that together are worth `need`, or all coins.
  abbrev pub covering : ℕ → List (Utxo O) → List (Utxo O)
  covering need [] = []
  covering need (u ∷ us) = if need == 0 then [] else u ∷ covering (need - amount_of u) us

  -- The coins behind them.
  abbrev pub uncovered : ℕ → List (Utxo O) → List (Utxo O)
  uncovered need [] = []
  uncovered need (u ∷ us) = if need == 0 then u ∷ us else uncovered (need - amount_of u) us

  -- The coins that are added to a change that is dust, while money is left outside the transaction.
  abbrev pub lifting : ℕ → ℕ → List (Utxo O) → List (Utxo O)
  lifting change left [] = []
  lifting change left (u ∷ us) =
      if leb change dust && ltb 0 left
      then u ∷ lifting (change + amount_of u) (left - amount_of u) us
      else []

  -- A coin of zero or more satoshi whose script is proper hex.
  pub record IsCoin (u : Utxo O) : Type 0 where
    pub nonneg : neg_part u.amount ≡ 0
    pub script_bytes : Bytes
    pub decodes : decode_script u ≡ ok script_bytes

  -- Coins whose sum is far from the end of int64: below 2 ^ 62 satoshi, where Bitcoin's whole
  -- supply is below 2 ^ 51.
  pub record IsFunds (us : List (Utxo O)) : Type 0 where
    pub coins : All IsCoin us
    pub small : sum_amounts us < 2 ^ 62

-- A plan: what is spent for the amount and the fee, what is added against dust, and the change.
pub data Plan (O : Type 0) : Type 0 where
  short_of_amount : Plan O
  short_of_fee : (missing left : ℕ) → Plan O
  spend : (spent lifted : List (Utxo O)) (change : ℕ) → Plan O

module _ {O : Type 0} where
  -- `change` is what is left over the amount and the fee; `left` is the worth of the coins that no
  -- input spends, and `candidates` are the coins that the loop against dust walks.
  unfoldable pub plan_change : List (Utxo O) → List (Utxo O) → ℕ → ℕ → Plan O
  plan_change spent candidates change left =
      let lifted = lifting change left candidates in
      if ltb 0 change
      then spend spent lifted (change + sum_amounts lifted)
      else spend spent [] change

  unfoldable pub plan_fee : ℕ → ℕ → List (Utxo O) → List (Utxo O) → Plan O
  plan_fee fee change matched unmatched =
      let missing = fee - change in
      let more = covering missing unmatched in
      if ltb change fee
      then if ltb (sum_amounts unmatched) missing
        then short_of_fee missing (sum_amounts unmatched)
        else plan_change (matched ++ more) unmatched (sum_amounts more - missing)
            (sum_amounts unmatched - sum_amounts more)
      else plan_change matched unmatched (change - fee) (sum_amounts unmatched)

  unfoldable pub plan : ℕ → ℕ → List (Utxo O) → Plan O
  plan amount fee us =
      if ltb (sum_amounts us) amount
      then short_of_amount
      else plan_fee fee (sum_amounts (covering amount us) - amount) (covering amount us)
          (uncovered amount us)
