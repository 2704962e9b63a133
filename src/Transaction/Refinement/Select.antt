-- ===== src/Transaction/Refinement/Select.antt =====
-- The first loop of `CreateTransaction` (leafy.go) divides the coins as the plan says.
use leafy.Prelude.{
  ℕ, ◌+◌, ◌-◌, ◌≤◌, ◌<◌, ◌^◌, ◌≡◌, true, false, List, [], ◌∷◌, ◌++◌, arith, ℤ, pos, append_assoc,
  append-nil, All, ◌∙◌,
}
use native.Mathlib.Nat.{add-zero, zero-add, sub-zero, add_assoc}
use native.Mathlib.Decide.{dec_le}
use leafy.Wire.{Utxo}
use leafy.Transaction.Coins.{Selection, select_utxo, select_utxos}
use leafy.Transaction.Refinement.Amounts.{add64-coin}
use leafy.Transaction.Plan.{amount_of, sum_amounts, covering, uncovered, IsCoin}
use leafy.Transaction.Plan.Cover.{covering-zero, uncovered-zero, covering_needed, uncovered_needed}

module _ {O : Type 0} where
  abbrev pub selection : List (Utxo O) → List (Utxo O) → ℕ → ℕ → Selection O
  selection matched unmatched m k = record {
    matched_utxos = matched;
    unmatched_utxos = unmatched;
    matched_amount = pos m;
    unmatched_amount = pos k;
  }

  select_utxo-skip :
      (amount m k : ℕ) (u : Utxo O) (ms ns : List (Utxo O))
      → IsCoin u
      → k + amount_of u < 2 ^ 63
      → amount ≤ m
      → select_utxo false (pos amount) u (selection ms ns m k)
        ≡ selection ms (ns ++ u ∷ []) m (k + amount_of u)
  unfolding select_utxo
  select_utxo-skip amount m k u ms ns c h le = ground (arith, add64-coin k u c h)

  select_utxo-take :
      (amount m k : ℕ) (u : Utxo O) (ms ns : List (Utxo O))
      → IsCoin u
      → m + amount_of u < 2 ^ 63
      → m < amount
      → select_utxo false (pos amount) u (selection ms ns m k)
        ≡ selection (ms ++ u ∷ []) ns (m + amount_of u) k
  unfolding select_utxo
  select_utxo-take amount m k u ms ns c h lt = ground (arith, add64-coin m u c h)

  -- The loop on the coins behind `u`, and the claim for all coins, where `u` is not needed.
  behind_skipped :
      (amount m k : ℕ) (u : Utxo O) (us ms ns : List (Utxo O))
      → amount ≤ m
      → selection
          (ms ++ covering (amount - m) us)
          ((ns ++ u ∷ []) ++ uncovered (amount - m) us)
          (m + sum_amounts (covering (amount - m) us))
          (k + amount_of u + sum_amounts (uncovered (amount - m) us))
        ≡ selection
            (ms ++ covering (amount - m) (u ∷ us))
            (ns ++ uncovered (amount - m) (u ∷ us))
            (m + sum_amounts (covering (amount - m) (u ∷ us)))
            (k + sum_amounts (uncovered (amount - m) (u ∷ us)))
  behind_skipped amount m k u us ms ns le =
      let none_missing : amount - m ≡ 0 = omega arith in
      rw (none_missing, covering-zero, uncovered-zero, append_assoc, add_assoc)

  -- The same, where `u` is needed.
  behind_taken :
      (amount m k : ℕ) (u : Utxo O) (us ms ns : List (Utxo O))
      → m < amount
      → selection
          ((ms ++ u ∷ []) ++ covering (amount - (m + amount_of u)) us)
          (ns ++ uncovered (amount - (m + amount_of u)) us)
          (m + amount_of u + sum_amounts (covering (amount - (m + amount_of u)) us))
          (k + sum_amounts (uncovered (amount - (m + amount_of u)) us))
        ≡ selection
            (ms ++ covering (amount - m) (u ∷ us))
            (ns ++ uncovered (amount - m) (u ∷ us))
            (m + sum_amounts (covering (amount - m) (u ∷ us)))
            (k + sum_amounts (uncovered (amount - m) (u ∷ us)))
  behind_taken amount m k u us ms ns lt =
      let missing : amount - (m + amount_of u) ≡ amount - m - amount_of u = omega arith in
      rw (covering_needed (amount - m) u us (omega arith), missing, append_assoc, add_assoc)
        (rw (uncovered_needed (amount - m) u us (omega arith)))

  -- What the loop has yet to do depends on the missing amount alone.
  pub select_utxos-pay :
      (amount m k : ℕ) (us ms ns : List (Utxo O))
      → All IsCoin us
      → m + k + sum_amounts us < 2 ^ 63
      → select_utxos false (pos amount) us (selection ms ns m k)
        ≡ selection
            (ms ++ covering (amount - m) us)
            (ns ++ uncovered (amount - m) us)
            (m + sum_amounts (covering (amount - m) us))
            (k + sum_amounts (uncovered (amount - m) us))
  unfolding select_utxos
  select_utxos-pay amount m k [] ms ns c h = simp (append-nil, add-zero)
  select_utxos-pay amount m k (u ∷ us) ms ns (c, cs) h = elim (dec_le amount m) [
    | yes le ↦ rw (select_utxo-skip amount m k u ms ns c (omega arith) le) (
        select_utxos-pay amount m (k + amount_of u) us ms (ns ++ u ∷ []) cs (omega arith)
        ∙ behind_skipped amount m k u us ms ns le)
    | no gt ↦ rw (select_utxo-take amount m k u ms ns c (omega arith) (omega arith)) (
        select_utxos-pay amount (m + amount_of u) k us (ms ++ u ∷ []) ns cs (omega arith)
        ∙ behind_taken amount m k u us ms ns (omega arith))
  ]

  -- A payment of everything takes every coin.
  pub select_utxos-all :
      (amount : ℤ) (m k : ℕ) (us ms ns : List (Utxo O))
      → All IsCoin us
      → m + sum_amounts us < 2 ^ 63
      → select_utxos true amount us (selection ms ns m k)
        ≡ selection (ms ++ us) ns (m + sum_amounts us) k
  unfolding select_utxos select_utxo
  select_utxos-all amount m k [] ms ns c h = rw (append-nil, add-zero)
  select_utxos-all amount m k (u ∷ us) ms ns (c, cs) h = rw (add64-coin m u c (omega arith)) (
      select_utxos-all amount (m + amount_of u) k us (ms ++ u ∷ []) ns cs (omega arith)
      ∙ rw (append_assoc, add_assoc))

  -- From the empty selection.
  pub select_utxos-start :
      (amount : ℕ) (us : List (Utxo O))
      → All IsCoin us
      → sum_amounts us < 2 ^ 63
      → select_utxos false (pos amount) us (selection [] [] 0 0)
        ≡ selection
            (covering amount us)
            (uncovered amount us)
            (sum_amounts (covering amount us))
            (sum_amounts (uncovered amount us))
  select_utxos-start amount us c h =
      select_utxos-pay amount 0 0 us [] [] c (omega arith) ∙ simp (sub-zero, zero-add)
