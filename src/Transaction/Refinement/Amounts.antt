-- ===== src/Transaction/Refinement/Amounts.antt =====
-- The amount of a coin in int64 arithmetic (leafy.go), and its script.
use leafy.Prelude.{
  ℕ, ◌+◌, ◌-◌, ◌≤◌, ◌<◌, ◌^◌, ◌≡◌, arith, pos, add64, sub64, add64-pos, sub64-pos, sub64-eq, eq_pos,
  ltb_ℤ, false, ◌-ℤ◌, Bytes, ok, [],
}
use leafy.Wire.{Utxo, decode_script}
use leafy.Transaction.Plan.{amount_of, IsCoin}

module _ {O : Type 0} where
  -- The bytes of a coin's script, and none where it is no hex.
  unfoldable pub script_of : Utxo O → Bytes
  script_of u = elim (decode_script u) [ ok s ↦ s | _ ↦ [] ]

  pub decode_script-IsCoin : (u : Utxo O) → IsCoin u → decode_script u ≡ ok (script_of u)
  unfolding script_of
  decode_script-IsCoin u c = ground (arith, c.decodes)

  pub add64-coin :
      (m : ℕ) (u : Utxo O)
      → IsCoin u
      → m + amount_of u < 2 ^ 63
      → add64 (pos m) u.amount ≡ pos (m + amount_of u)
  add64-coin m u c h = rw (eq_pos u.amount c.nonneg) (add64-pos m (amount_of u) h)

  pub sub64-coin :
      (m : ℕ) (u : Utxo O)
      → IsCoin u
      → amount_of u ≤ m
      → m < 2 ^ 63
      → sub64 (pos m) u.amount ≡ pos (m - amount_of u)
  sub64-coin m u c le h = rw (eq_pos u.amount c.nonneg) (sub64-pos m (amount_of u) le h)

  -- A difference below zero is not positive.
  pub sub64-coin-nonpos :
      (m : ℕ) (u : Utxo O)
      → IsCoin u
      → m ≤ amount_of u
      → amount_of u < 2 ^ 63
      → ltb_ℤ (pos 0) (sub64 (pos m) u.amount) ≡ false
  unfolding ◌-ℤ◌
  sub64-coin-nonpos m u c le h =
      rw (eq_pos u.amount c.nonneg, sub64-eq m (amount_of u) (omega arith) h) (ground arith)
