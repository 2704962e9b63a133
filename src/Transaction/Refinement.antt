-- ===== src/Transaction/Refinement.antt =====
-- `CreateTransaction` (leafy.go) implements its plan: with the int64 sums, the loops and the early
-- returns of the source it returns what the plan says, for every list of coins.
pub mod Amounts
pub mod Select
pub mod Loops
pub mod Drafts
use native.Mathlib.Nat.{zero-add, add-zero, sub-zero}
use leafy.Prelude.{
  ℕ, ◌+◌, ◌-◌, ◌≤◌, ◌<◌, ◌^◌, ◌≡◌, refl, sym, true, false, List, [], ◌∷◌, ◌++◌, append-nil, arith,
  ℤ, pos, add64, sub64, sub64-pos, leb_ℤ, ltb_ℤ, Bytes, Bool-cases, inl, inr, All, All-left,
  All-right, if◌then◌else◌, leb, ltb, ltb→lt, ge→ltb, ◌==◌, ◌∙◌, ◌&&◌, Result, ok, err, panic,
  ◌>>=◌, ◌>>◌, ensure, Error,
}
use leafy.Wire.{Utxo, TxOut, TransactionInfo, Chain, FloatOps}
use leafy.Transaction.Coins.{select_utxos}
use leafy.Transaction.Inputs.{Draft, blank_witness, add_matched, top_up}
use leafy.Transaction.Create.{
  Funding, pay_from_change, pay_fee, add_change, finish, start, fee_for, create_transaction,
}
use leafy.Transaction.Plan.{
  amount_of, sum_amounts, covering, uncovered, lifting, IsCoin, IsFunds, Plan, short_of_amount,
  short_of_fee, spend, plan_change, plan_fee, plan,
}
use leafy.Transaction.Plan.Cover.{
  sum_amounts-append, covering-worth, sum-covering-uncovered, covering-IsCoin, uncovered-IsCoin,
  covering-all,
}
use leafy.Transaction.Refinement.Select.{selection, select_utxos-start, select_utxos-all}
use leafy.Transaction.Refinement.Loops.{
  with_inputs, with_inputs-append, add_matched-eq-ok, top_up-eq-ok, funding, lift_change-eq-ok,
}

-- The change comes back in an output of its own, if there is any.
abbrev pub change_outputs : Bytes → ℕ → List TxOut
change_outputs change_script change =
    if ltb 0 change then record { value = pos change; pk_script = change_script } ∷ [] else []

module _ (chain : Chain) (amount fee : ℕ) (output_script change_script : Bytes) where
  open chain use {OutPoint}

  abbrev with_change : ℕ → Draft OutPoint → Draft OutPoint
  with_change change d = record d {
    msg_tx = record d.msg_tx { tx_out = d.msg_tx.tx_out ++ change_outputs change_script change };
  }

  abbrev paid : List (Utxo OutPoint) → Draft OutPoint
  paid spent = with_inputs chain blank_witness spent (start chain (pos amount) output_script)

  -- What the code returns for a plan.
  abbrev pub realise : List (Utxo OutPoint) → Plan OutPoint → Result (TransactionInfo OutPoint)
  realise us short_of_amount = err (Error.insufficient_funds (pos amount) (pos (sum_amounts us)))
  realise us (short_of_fee missing left) =
      err (Error.insufficient_fee_funds (pos missing) (pos left))
  realise us (spend spent lifted change) = finish chain (pos fee) (
      funding chain (with_change change (with_inputs chain [] lifted (paid spent)))
        (sum_amounts spent + sum_amounts lifted) (pos 0) change)

  -- The money left outside is not reported.
  finish_left :
      (d : Draft OutPoint) (m : ℕ) (left : ℤ) (c : ℕ)
      → finish chain (pos fee) (funding chain d m left c)
        ≡ finish chain (pos fee) (funding chain d m (pos 0) c)
  unfolding finish
  finish_left d m left c = refl

  with_change-none :
      (change : ℕ) (d : Draft OutPoint) → ltb 0 change ≡ false → with_change change d ≡ d
  with_change-none change d h = rw (h, append-nil)

  add_change-plan :
      (us spent candidates : List (Utxo OutPoint)) (c k : ℕ)
      → All IsCoin candidates
      → k ≤ sum_amounts candidates
      → sum_amounts spent + sum_amounts candidates < 2 ^ 63
      → c + sum_amounts candidates < 2 ^ 63
      → (add_change chain change_script candidates
            (funding chain (paid spent) (sum_amounts spent) (pos k) c)
          >>= finish chain (pos fee))
        ≡ realise us (plan_change spent candidates c k)
  unfolding add_change plan_change
  add_change-plan us spent candidates c k co le hs hc = elim (Bool-cases (ltb 0 c)) [
    | inl some_change ↦
        let (left, e) =
          lift_change-eq-ok chain (sum_amounts spent) c k candidates (paid spent) co le hs hc in
        let still : ltb 0 (c + sum_amounts (lifting c k candidates)) ≡ true = ground arith in
        rw (some_change, e, still) (finish_left _ _ left _)
    | inr no_change ↦
        rw (no_change, add-zero, with_change-none c (paid spent) no_change)
          (finish_left _ _ (pos k) _)
  ]

  -- Behind the loop for the fee: the inputs, their worth and the change are those of the plan.
  topped_up :
      (us ms ns : List (Utxo OutPoint)) (missing : ℕ)
      → All IsCoin ns
      → sum_amounts ms + sum_amounts ns < 2 ^ 62
      → missing ≤ sum_amounts ns
      → (add_change chain change_script ns (record {
        draft = with_inputs chain blank_witness (covering (missing - 0) ns) (paid ms);
        matched_amount = pos (sum_amounts ms + sum_amounts (covering (missing - 0) ns));
        unmatched_amount = pos (sum_amounts ns - sum_amounts (covering (missing - 0) ns));
        change = sub64 (pos (0 + sum_amounts (covering (missing - 0) ns))) (pos missing);
      })
          >>= finish chain (pos fee))
        ≡ realise us (
            plan_change
              (ms ++ covering missing ns)
              ns
              (sum_amounts (covering missing ns) - missing)
              (sum_amounts ns - sum_amounts (covering missing ns)))
  topped_up us ms ns missing co hs hm =
      let more = covering missing ns in
      let worth : missing ≤ sum_amounts more = covering-worth missing ns hm in
      let within : sum_amounts more + sum_amounts (uncovered missing ns) ≡ sum_amounts ns =
        sum-covering-uncovered missing ns in
      let total : sum_amounts (ms ++ more) ≡ sum_amounts ms + sum_amounts more =
        sum_amounts-append ms more in
      rw
        (
          sub-zero,
          zero-add,
          sub64-pos (sum_amounts more) missing worth (omega arith),
          ← with_inputs-append chain blank_witness ms more,
          ← total,
        )
        (add_change-plan us (ms ++ more) ns (sum_amounts more - missing)
          (sum_amounts ns - sum_amounts more) co (omega arith) (omega arith) (omega arith))

  pay_from_change-plan :
      (us ms ns : List (Utxo OutPoint)) (c : ℕ)
      → All IsCoin ns
      → sum_amounts ms + sum_amounts ns < 2 ^ 62
      → c ≤ sum_amounts ms
      → fee < 2 ^ 63
      → (pay_from_change chain
            (pos fee)
            (pos c)
            (selection ms ns (sum_amounts ms) (sum_amounts ns))
            (paid ms)
          >>= λ f. add_change chain change_script ns f >>= finish chain (pos fee))
        ≡ realise us (plan_fee fee c ms ns)
  unfolding pay_from_change plan_fee
  pay_from_change-plan us ms ns c co hs hc hf = elim (Bool-cases (ltb c fee)) [
    | inr covered ↦
        rw (covered, sub64-pos c fee (ground arith) (omega arith))
          (add_change-plan us ms ns (c - fee) (sum_amounts ns) co (omega arith) (omega arith)
            (omega arith))
    | inl short ↦
        rw (short, sub64-pos fee c (ground arith) hf)
          (elim (Bool-cases (ltb (sum_amounts ns) (fee - c))) [
            | inl poor ↦ rw poor
            | inr rich ↦
                rw
                  (
                    rich,
                    top_up-eq-ok chain (fee - c) 0 (sum_amounts ms) (sum_amounts ns) ns (paid ms) co
                        (omega arith) (omega arith) (omega arith) (ground arith),
                  )
                  (topped_up us ms ns (fee - c) co hs (ground arith))
          ])
  ]

  module _ (float : FloatOps) where
    open float use {Float, is_nonpositive}
    open chain use {Address, pay_to_addr_script}

    -- With a positive fee rate, addresses that have a script, and a fee that comes out as `fee`, a
    -- payment of a positive amount from proper coins returns what the plan says: the same error, or
    -- the transaction with the plan's inputs, outputs and amounts.
    pub create_transaction-plan :
        (us : List (Utxo OutPoint)) (change_addr dest_addr : Address) (fee_rate : Float)
        → IsFunds us
        → 0 < amount
        → fee < 2 ^ 63
        → is_nonpositive fee_rate ≡ false
        → pay_to_addr_script dest_addr ≡ ok output_script
        → pay_to_addr_script change_addr ≡ ok change_script
        → fee_for chain float fee_rate (paid (covering amount us)).msg_tx ≡ pos fee
        → create_transaction chain float us change_addr dest_addr (pos amount) fee_rate
          ≡ realise us (plan amount fee us)
    unfolding create_transaction plan pay_fee
    create_transaction-plan us change_addr dest_addr fee_rate funds ha hf rate dest change fees =
        let positive : (amount == 0) ≡ false = ground arith in
        rw (rate, dest, change, positive, select_utxos-start amount us funds.coins (omega arith))
          (elim (Bool-cases (ltb (sum_amounts us) amount)) [
            | inl poor ↦
                let all : covering amount us ≡ us = covering-all amount us (ltb→lt _ _ poor) in
                rw (all, poor)
            | inr rich ↦
                let within : sum_amounts (covering amount us) + sum_amounts (uncovered amount us)
                    ≡ sum_amounts us =
                  sum-covering-uncovered amount us in
                let worth : amount ≤ sum_amounts (covering amount us) =
                  covering-worth amount us (ground arith) in
                rw
                  (
                    rich,
                    ge→ltb (sum_amounts (covering amount us)) amount worth,
                    add_matched-eq-ok chain (covering amount us)
                        (start chain (pos amount) output_script)
                        (covering-IsCoin amount us funds.coins),
                    fees,
                    sub64-pos (sum_amounts (covering amount us)) amount worth (omega arith),
                  )
                  (pay_from_change-plan us (covering amount us) (uncovered amount us)
                    (sum_amounts (covering amount us) - amount)
                    (uncovered-IsCoin amount us funds.coins) (omega arith) (omega arith) hf)
          ])
