-- ===== src/Transaction/Refinement/Loops.antt =====
-- The loops of `CreateTransaction` (leafy.go) that add inputs, against the plan.
use native.Mathlib.Nat.{add-zero, add_assoc, sub-zero}
use native.Mathlib.Decide.{dec_le}
use leafy.Prelude.{
  ℕ, ◌+◌, ◌-◌, ◌≤◌, ◌<◌, ◌^◌, ◌≡◌, refl, true, false, List, [], ◌∷◌, ◌++◌, arith, ℤ, pos, sub64,
  ltb_ℤ, Bytes, Bool-cases, inl, inr, All, if◌then◌else◌, leb, ltb, ◌∙◌, ◌&&◌, ok,
}
use leafy.Wire.{Utxo, Chain}
use leafy.Transaction.Inputs.{
  Draft, TopUp, blank_witness, with_input, add_input, add_matched, top_up,
}
use leafy.Transaction.Create.{Funding, lift_change}
use leafy.Transaction.Refinement.Amounts.{
  script_of, decode_script-IsCoin, add64-coin, sub64-coin, sub64-coin-nonpos,
}
use leafy.Transaction.Plan.{amount_of, sum_amounts, covering, lifting, dust, IsCoin}
use leafy.Transaction.Plan.Cover.{covering-zero, covering_needed, lifting-none}

sub_assoc : (k a b : ℕ) → k - a - b ≡ k - (a + b)
sub_assoc k a b = omega arith

module _ (chain : Chain) where
  open chain use {OutPoint}

  -- The draft with an input for each coin.
  abbrev pub with_inputs : List Bytes → List (Utxo OutPoint) → Draft OutPoint → Draft OutPoint
  with_inputs witness [] d = d
  with_inputs witness (u ∷ us) d =
      with_inputs witness us (with_input chain witness u (script_of u) d)

  pub with_inputs-append :
      (witness : List Bytes) (us vs : List (Utxo OutPoint)) (d : Draft OutPoint)
      → with_inputs witness (us ++ vs) d ≡ with_inputs witness vs (with_inputs witness us d)
  with_inputs-append witness [] vs d = refl
  with_inputs-append witness (u ∷ us) vs d = with_inputs-append witness us vs _

  pub add_input-IsCoin :
      (witness : List Bytes) (u : Utxo OutPoint) (d : Draft OutPoint)
      → IsCoin u
      → add_input chain witness u d ≡ ok (with_input chain witness u (script_of u) d)
  unfolding add_input
  add_input-IsCoin witness u d c = rw (decode_script-IsCoin u c)

  pub add_matched-eq-ok :
      (us : List (Utxo OutPoint)) (d : Draft OutPoint)
      → All IsCoin us
      → add_matched chain us d ≡ ok (with_inputs blank_witness us d)
  unfolding add_matched
  add_matched-eq-ok [] d h = refl
  add_matched-eq-ok (u ∷ us) d (c, cs) =
      rw (add_input-IsCoin blank_witness u d c) (add_matched-eq-ok us _ cs)

  abbrev pub top_up_state : Draft OutPoint → ℕ → ℕ → ℕ → TopUp OutPoint
  top_up_state d f m k = record {
    draft = d;
    matched_fee_amount = pos f;
    matched_amount = pos m;
    unmatched_amount = pos k;
  }

  top_up_step :
      (need f m k : ℕ) (u : Utxo OutPoint) (us : List (Utxo OutPoint)) (d : Draft OutPoint)
      → IsCoin u
      → amount_of u ≤ k
      → m + k < 2 ^ 63
      → f + k < 2 ^ 63
      → top_up chain (pos need) (u ∷ us) (top_up_state d f m k) ≡ (
          let t =
            top_up_state
              (with_input chain blank_witness u (script_of u) d)
              (f + amount_of u)
              (m + amount_of u)
              (k - amount_of u) in
          if leb need (f + amount_of u) then ok t else top_up chain (pos need) us t)
  unfolding top_up
  top_up_step need f m k u us d c le hm hf =
      rw
        (
          add_input-IsCoin blank_witness u d c,
          add64-coin f u c (omega arith),
          add64-coin m u c (omega arith),
          sub64-coin k u c le (omega arith),
        )
        (ground arith)

  -- The loop for the fee adds the coins that cover what is missing.
  pub top_up-eq-ok :
      (need f m k : ℕ) (us : List (Utxo OutPoint)) (d : Draft OutPoint)
      → All IsCoin us
      → sum_amounts us ≤ k
      → m + k < 2 ^ 63
      → f + k < 2 ^ 63
      → f < need
      → top_up chain (pos need) us (top_up_state d f m k)
        ≡ ok (
            top_up_state
              (with_inputs blank_witness (covering (need - f) us) d)
              (f + sum_amounts (covering (need - f) us))
              (m + sum_amounts (covering (need - f) us))
              (k - sum_amounts (covering (need - f) us)))
  top_up-eq-ok need f m k [] d c le hm hf lt = unfold top_up in simp (add-zero, sub-zero)
  top_up-eq-ok need f m k (u ∷ us) d (c, cs) le hm hf lt =
      rw
        (
          top_up_step need f m k u us d c (omega arith) hm hf,
          covering_needed (need - f) u us (omega arith),
        )
        (elim (Bool-cases (leb need (f + amount_of u))) [
          | inl done ↦
              let none_missing : need - f - amount_of u ≡ 0 = ground arith in
              rw (done, none_missing, covering-zero, add-zero)
          | inr more ↦
              let missing : need - (f + amount_of u) ≡ need - f - amount_of u = omega arith in
              rw more (
                top_up-eq-ok need (f + amount_of u) (m + amount_of u) (k - amount_of u) us
                  (with_input chain blank_witness u (script_of u) d) cs (omega arith) (omega arith)
                  (omega arith) (ground arith)
                ∙ simp (missing, add_assoc, sub_assoc k (amount_of u)))
        ])

  abbrev pub funding : Draft OutPoint → ℕ → ℤ → ℕ → Funding OutPoint
  funding d m left c = record {
    draft = d;
    matched_amount = pos m;
    unmatched_amount = left;
    change = pos c;
  }

  -- The loop against dust stops where no money is left outside, also after it counted coins that
  -- the fee had already taken.
  lift_change-stop :
      (m c : ℕ) (left : ℤ) (us : List (Utxo OutPoint)) (d : Draft OutPoint)
      → (leb c dust && ltb_ℤ (pos 0) left) ≡ false
      → lift_change chain us (funding d m left c) ≡ ok (funding d m left c)
  unfolding lift_change
  lift_change-stop m c left [] d h = ground arith
  lift_change-stop m c left (u ∷ us) d h = ground arith

  lift_change_step :
      (m c k : ℕ) (u : Utxo OutPoint) (us : List (Utxo OutPoint)) (d : Draft OutPoint)
      → IsCoin u
      → m + amount_of u < 2 ^ 63
      → c + amount_of u < 2 ^ 63
      → (leb c dust && ltb 0 k) ≡ true
      → lift_change chain (u ∷ us) (funding d m (pos k) c)
        ≡ lift_change chain us (
            funding
              (with_input chain [] u (script_of u) d)
              (m + amount_of u)
              (sub64 (pos k) u.amount)
              (c + amount_of u))
  unfolding lift_change
  lift_change_step m c k u us d co hm hc go =
      rw (add_input-IsCoin [] u d co, add64-coin m u co hm, add64-coin c u co hc) (ground arith)

  -- The loop against dust never runs out of coins, and adds those that the plan lifts the change
  -- with. Its count of the money left outside may end below zero.
  pub lift_change-eq-ok :
      (m c k : ℕ) (us : List (Utxo OutPoint)) (d : Draft OutPoint)
      → All IsCoin us
      → k ≤ sum_amounts us
      → m + sum_amounts us < 2 ^ 63
      → c + sum_amounts us < 2 ^ 63
      → (left : ℤ) × (lift_change chain us (funding d m (pos k) c)
          ≡ ok (
              funding
                (with_inputs [] (lifting c k us) d)
                (m + sum_amounts (lifting c k us))
                left
                (c + sum_amounts (lifting c k us))))
  lift_change-eq-ok m c k [] d co le hm hc =
      (pos k, simp add-zero (lift_change-stop m c (pos k) [] d (ground arith)))
  lift_change-eq-ok m c k (u ∷ us) d (co, cs) le hm hc = elim (Bool-cases (leb c dust && ltb 0 k)) [
    | inr stop ↦
        (pos k, rw stop (simp add-zero (lift_change-stop m c (pos k) (u ∷ us) d (ground arith))))
    | inl go ↦
        rw (go, lift_change_step m c k u us d co (omega arith) (omega arith) go)
          (elim (dec_le (amount_of u) k) [
            | yes more ↦
                let (left, e) =
                  lift_change-eq-ok (m + amount_of u) (c + amount_of u) (k - amount_of u) us
                    (with_input chain [] u (script_of u) d) cs (omega arith) (omega arith)
                    (omega arith) in
                (left, rw (sub64-coin k u co more (omega arith)) (e ∙ simp add_assoc))
            | no over ↦
                let none_left : k - amount_of u ≡ 0 = omega arith in
                (
                  sub64 (pos k) u.amount,
                  rw (none_left, lifting-none, add-zero)
                      (lift_change-stop (m + amount_of u) (c + amount_of u) (sub64 (pos k) u.amount)
                        us (with_input chain [] u (script_of u) d)
                        (rw (sub64-coin-nonpos k u co (omega arith) (omega arith)) (ground arith))),
                )
          ])
  ]
