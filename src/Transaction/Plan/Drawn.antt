-- ===== src/Transaction/Plan/Drawn.antt =====
-- Where the coins of a plan come from: the first of the given coins, and, added against dust, the first
-- of those that are not needed for the amount.
use leafy.Prelude.{ℕ, ◌-◌, ◌≡◌, refl, ap, ◌∙◌, Bool-cases, inl, inr, List, ◌++◌, append_assoc, ltb}
use leafy.Wire.{Utxo}
use leafy.Transaction.Plan.{
  sum_amounts, covering, uncovered, Plan, short_of_amount, short_of_fee, spend, plan_change,
  plan_fee, plan,
}
use leafy.Transaction.Plan.Cover.{covering-append-uncovered}
use leafy.Transaction.Plan.Worth.{lifting-prefix}

module _ {O : Type 0} where
  -- What is spent begins `us`, and what is added begins `candidates`.
  abbrev pub IsDrawn : List (Utxo O) → List (Utxo O) → Plan O → Type 0
  IsDrawn us candidates short_of_amount = Unit
  IsDrawn us candidates (short_of_fee missing left) = Unit
  IsDrawn us candidates (spend spent lifted change) =
      ((rest : List (Utxo O)) × (spent ++ rest ≡ us))
      × ((left : List (Utxo O)) × (lifted ++ left ≡ candidates))

  plan_change-IsDrawn :
      (us spent rest candidates : List (Utxo O)) (change left : ℕ)
      → spent ++ rest ≡ us
      → IsDrawn us candidates (plan_change spent candidates change left)
  unfolding plan_change
  plan_change-IsDrawn us spent rest candidates change left e = elim (Bool-cases (ltb 0 change)) [
    | inl some_change ↦ rw some_change ((rest, e), lifting-prefix change left candidates)
    | inr no_change ↦ rw no_change ((rest, e), (candidates, refl))
  ]

  plan_fee-IsDrawn :
      (fee change : ℕ) (ms ns : List (Utxo O)) → IsDrawn (ms ++ ns) ns (plan_fee fee change ms ns)
  unfolding plan_fee
  plan_fee-IsDrawn fee change ms ns =
      let missing = fee - change in
      let more = covering missing ns in
      let parts : (ms ++ more) ++ uncovered missing ns ≡ ms ++ ns =
        append_assoc ms more (uncovered missing ns)
        ∙ ap (λ us. ms ++ us) (covering-append-uncovered missing ns) in
      elim (Bool-cases (ltb change fee)) [
        | inl short ↦ elim (Bool-cases (ltb (sum_amounts ns) missing)) [
          | inl poor ↦ rw (short, poor) tt
          | inr enough ↦
              rw (short, enough)
                (plan_change-IsDrawn (ms ++ ns) (ms ++ more) (uncovered missing ns) ns _ _ parts)
        ]
        | inr paid ↦ rw paid (plan_change-IsDrawn (ms ++ ns) ms ns ns _ _ refl)
      ]

  pub plan-IsDrawn :
      (amount fee : ℕ) (us : List (Utxo O)) → IsDrawn us (uncovered amount us) (plan amount fee us)
  unfolding plan
  plan-IsDrawn amount fee us = elim (Bool-cases (ltb (sum_amounts us) amount)) [
    | inl poor ↦ rw poor tt
    | inr rich ↦
        let drawn =
          plan_fee-IsDrawn fee (sum_amounts (covering amount us) - amount) (covering amount us)
            (uncovered amount us) in
        rw rich (rw (covering-append-uncovered amount us) at drawn)
  ]
