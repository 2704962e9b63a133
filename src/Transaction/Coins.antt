-- ===== src/Transaction/Coins.antt =====
-- The first loop of `CreateTransaction` (leafy.go): it divides the coins into those that cover the
-- amount and the rest.
use leafy.Prelude.{Bool, ◌&&◌, not, List, [], ◌∷◌, ◌++◌, ℤ, add64, leb_ℤ, if◌then◌else◌}
use leafy.Wire.{Utxo}

-- The variables of the first loop.
pub record Selection (O : Type 0) : Type 0 where
  pub matched_utxos : List (Utxo O)
  pub unmatched_utxos : List (Utxo O)
  pub matched_amount : ℤ
  pub unmatched_amount : ℤ

module _ {O : Type 0} where
  unfoldable pub select_utxo : Bool → ℤ → Utxo O → Selection O → Selection O
  select_utxo spend_all amount u s =
      if not spend_all && leb_ℤ amount s.matched_amount
      then record s {
        unmatched_amount = add64 s.unmatched_amount u.amount;
        unmatched_utxos = s.unmatched_utxos ++ u ∷ [];
      }
      else record s {
        matched_amount = add64 s.matched_amount u.amount;
        matched_utxos = s.matched_utxos ++ u ∷ [];
      }

  unfoldable pub select_utxos : Bool → ℤ → List (Utxo O) → Selection O → Selection O
  select_utxos spend_all amount [] s = s
  select_utxos spend_all amount (u ∷ us) s =
      select_utxos spend_all amount us (select_utxo spend_all amount u s)
