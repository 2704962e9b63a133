-- ===== src/Transaction/Plan/Worth.antt =====
-- What a plan is worth, which coins it spends, and when there is one.
use leafy.Prelude.{
  ℕ, ◌+◌, ◌-◌, ◌*◌, ◌≤◌, ◌<◌, ◌≡◌, refl, sym, true, false, List, [], ◌∷◌, ◌++◌, append_assoc,
  append-nil, arith, Bool-cases, inl, inr, ltb, leb, ge→ltb, lt→ltb, le→leb, ◌&&◌, ◌∙◌, ap,
}
use leafy.Wire.{Utxo}
use leafy.Transaction.Plan.{
  amount_of, sum_amounts, covering, uncovered, lifting, dust, Plan, short_of_amount, short_of_fee,
  spend, plan_change, plan_fee, plan,
}
use leafy.Transaction.Plan.Cover.{
  sum_amounts-append, covering-worth, sum-covering-uncovered, covering-append-uncovered,
  covering_needed, lifting-le,
}

module _ {O : Type 0} where
  -- The inputs pay the amount, the fee and the change, and nothing else.
  abbrev pub IsBalanced : ℕ → Plan O → Type 0
  IsBalanced due short_of_amount = Unit
  IsBalanced due (short_of_fee missing left) = Unit
  IsBalanced due (spend spent lifted change) = sum_amounts spent + sum_amounts lifted ≡ due + change

  plan_change-IsBalanced :
      (due : ℕ) (spent candidates : List (Utxo O)) (change left : ℕ)
      → sum_amounts spent ≡ due + change
      → IsBalanced due (plan_change spent candidates change left)
  unfolding plan_change
  plan_change-IsBalanced due spent candidates change left h = ground arith

  plan_fee-IsBalanced :
      (amount fee : ℕ) (ms ns : List (Utxo O))
      → amount ≤ sum_amounts ms
      → IsBalanced (amount + fee) (plan_fee fee (sum_amounts ms - amount) ms ns)
  unfolding plan_fee
  plan_fee-IsBalanced amount fee ms ns h = ground (
    arith,
    plan_change-IsBalanced (amount + fee) ms ns (sum_amounts ms - amount - fee) (sum_amounts ns),
    plan_change-IsBalanced (amount + fee) (ms ++ covering (fee - (sum_amounts ms - amount)) ns) ns
        (sum_amounts (covering (fee - (sum_amounts ms - amount)) ns)
          - (fee - (sum_amounts ms - amount)))
        (sum_amounts ns - sum_amounts (covering (fee - (sum_amounts ms - amount)) ns)),
    covering-worth (fee - (sum_amounts ms - amount)) ns,
    sum_amounts-append ms (covering (fee - (sum_amounts ms - amount)) ns),
  )

  pub plan-IsBalanced :
      (amount fee : ℕ) (us : List (Utxo O)) → IsBalanced (amount + fee) (plan amount fee us)
  unfolding plan
  plan-IsBalanced amount fee us = ground (
    arith,
    covering-worth amount us,
    plan_fee-IsBalanced amount fee (covering amount us) (uncovered amount us),
  )

  plan_change-spend :
      (spent candidates : List (Utxo O)) (change left : ℕ)
      → (lifted : List (Utxo O)) × (change' : ℕ) × (plan_change spent candidates change left
          ≡ spend spent lifted change')
  unfolding plan_change
  plan_change-spend spent candidates change left = elim (Bool-cases (ltb 0 change)) [
    | inl some_change ↦
        let lifted = lifting change left candidates in
        (lifted, change + sum_amounts lifted, rw some_change)
    | inr no_change ↦ ([], change, rw no_change)
  ]

  -- Coins that are worth the amount and the fee are enough.
  pub plan-funded :
      (amount fee : ℕ) (us : List (Utxo O))
      → amount + fee ≤ sum_amounts us
      → (spent lifted : List (Utxo O)) × (change : ℕ) × (plan amount fee us
          ≡ spend spent lifted change)
  unfolding plan plan_fee
  plan-funded amount fee us h =
      let ms = covering amount us in
      let ns = uncovered amount us in
      let change = sum_amounts ms - amount in
      let missing = fee - change in
      let within : sum_amounts ms + sum_amounts ns ≡ sum_amounts us =
        sum-covering-uncovered amount us in
      let worth : amount ≤ sum_amounts ms = covering-worth amount us (omega arith) in
      let rich : ltb (sum_amounts us) amount ≡ false = ge→ltb _ _ (omega arith) in
      elim (Bool-cases (ltb change fee)) [
        | inr covered ↦
            let (lifted, change', e) = plan_change-spend ms ns (change - fee) (sum_amounts ns) in
            (ms, lifted, change', rw (rich, covered) e)
        | inl short ↦
            let enough : ltb (sum_amounts ns) missing ≡ false = ge→ltb _ _ (omega arith) in
            let more = covering missing ns in
            let (lifted, change', e) =
              plan_change-spend (ms ++ more) ns (sum_amounts more - missing)
                (sum_amounts ns - sum_amounts more) in
            (ms ++ more, lifted, change', rw (rich, short, enough) e)
      ]

  -- Coins that are worth the amount and not the fee are refused for the fee.
  pub plan-short_of_fee :
      (amount fee : ℕ) (us : List (Utxo O))
      → amount ≤ sum_amounts us
      → sum_amounts us < amount + fee
      → plan amount fee us
        ≡ short_of_fee
            (fee - (sum_amounts (covering amount us) - amount))
            (sum_amounts (uncovered amount us))
  unfolding plan plan_fee
  plan-short_of_fee amount fee us h short =
      ground (arith, covering-worth amount us, sum-covering-uncovered amount us)

  -- Without further inputs for the fee the spent coins are the first ones, each once.
  pub lifting-prefix :
      (change left : ℕ) (us : List (Utxo O))
      → (rest : List (Utxo O)) × (lifting change left us ++ rest ≡ us)
  lifting-prefix change left [] = ([], refl)
  lifting-prefix change left (u ∷ us) = elim (Bool-cases (leb change dust && ltb 0 left)) [
    | inr stop ↦ (u ∷ us, rw stop)
    | inl go ↦
        let (rest, e) = lifting-prefix (change + amount_of u) (left - amount_of u) us in
        (rest, rw go (ap (λ vs. u ∷ vs) e))
  ]

  -- Where the change stays dust, everything that was left has been added.
  lifting-dust :
      (change left : ℕ) (us : List (Utxo O))
      → left ≤ sum_amounts us
      → change + sum_amounts (lifting change left us) ≤ dust
      → left ≤ sum_amounts (lifting change left us)
  lifting-dust change left [] h d = h
  lifting-dust change left (u ∷ us) h d =
      ground (arith, lifting-dust (change + amount_of u) (left - amount_of u) us)

  -- Where the coins for the amount pay the fee too, the plan spends first coins, each once; and its
  -- change is dust only if no money is left outside.
  pub plan-covered :
      (amount fee : ℕ) (us : List (Utxo O))
      → amount + fee ≤ sum_amounts (covering amount us)
      → (lifted rest : List (Utxo O)) × (change : ℕ) × (plan amount fee us
          ≡ spend (covering amount us) lifted change)
        × ((covering amount us ++ lifted) ++ rest ≡ us)
        × (0 < change → change ≤ dust → sum_amounts rest ≡ 0)
  unfolding plan plan_fee plan_change
  plan-covered amount fee us h =
      let ms = covering amount us in
      let ns = uncovered amount us in
      let change = sum_amounts ms - amount - fee in
      let lifted = lifting change (sum_amounts ns) ns in
      let within : sum_amounts ms + sum_amounts ns ≡ sum_amounts us =
        sum-covering-uncovered amount us in
      let rich : ltb (sum_amounts us) amount ≡ false = ge→ltb _ _ (omega arith) in
      let covered : ltb (sum_amounts ms - amount) fee ≡ false = ge→ltb _ _ (omega arith) in
      elim (Bool-cases (ltb 0 change)) [
        | inl some_change ↦
            let (rest, e) = lifting-prefix change (sum_amounts ns) ns in
            let parts : sum_amounts lifted + sum_amounts rest ≡ sum_amounts ns =
              sym (sum_amounts-append lifted rest) ∙ ap sum_amounts e in
            (
              lifted,
              rest,
              change + sum_amounts lifted,
              rw (rich, covered, some_change),
              rw (append_assoc, e) (covering-append-uncovered amount us),
              λ _ small. omega (arith, lifting-dust change (sum_amounts ns) ns (omega arith) small),
            )
        | inr no_change ↦ (
          [],
          ns,
          change,
          rw (rich, covered, no_change),
          rw append-nil (covering-append-uncovered amount us),
          λ positive _. ground arith,
        )
      ]

  -- Where further coins have been taken for the fee, a change of dust and money left outside make
  -- the plan take the first of them again.
  pub plan-respends :
      (amount fee : ℕ) (us ns : List (Utxo O)) (u : Utxo O)
      → uncovered amount us ≡ u ∷ ns
      → let missing = fee - (sum_amounts (covering amount us) - amount) in
        let more = covering missing (u ∷ ns) in
        amount ≤ sum_amounts us
        → 0 < missing
        → missing < sum_amounts more
        → sum_amounts more ≤ missing + dust
        → sum_amounts more < sum_amounts (u ∷ ns)
        → (more' lifted' : List (Utxo O)) × (change : ℕ) × (plan amount fee us
            ≡ spend (covering amount us ++ u ∷ more') (u ∷ lifted') change)
  unfolding plan plan_fee plan_change
  plan-respends amount fee us ns u e ha hm some_change small left =
      let missing = fee - (sum_amounts (covering amount us) - amount) in
      let more' = covering (missing - amount_of u) ns in
      let change = amount_of u + sum_amounts more' - missing in
      let outside = amount_of u + sum_amounts ns - (amount_of u + sum_amounts more') in
      let lifted' = lifting (change + amount_of u) (outside - amount_of u) ns in
      let taken : covering missing (u ∷ ns) ≡ u ∷ more' = covering_needed missing u ns hm in
      let worth : sum_amounts (covering missing (u ∷ ns)) ≡ amount_of u + sum_amounts more' =
        ap sum_amounts taken in
      let rich : ltb (sum_amounts us) amount ≡ false = ge→ltb _ _ ha in
      let short : ltb (sum_amounts (covering amount us) - amount) fee ≡ true =
        lt→ltb _ _ (omega arith) in
      let enough : ltb (amount_of u + sum_amounts ns) missing ≡ false = ge→ltb _ _ (omega arith) in
      let changed : ltb 0 change ≡ true = lt→ltb _ _ (omega arith) in
      let dusty : leb change dust ≡ true = le→leb _ _ (omega arith) in
      let more_left : ltb 0 outside ≡ true = lt→ltb _ _ (omega arith) in
      (
        more',
        lifted',
        change + (amount_of u + sum_amounts lifted'),
        rw (rich, short, e, taken, enough, changed, dusty, more_left),
      )

  -- What a plan spends is bounded, though it may name coins twice.
  abbrev pub IsWithin : ℕ → Plan O → Type 0
  IsWithin bound short_of_amount = Unit
  IsWithin bound (short_of_fee missing left) = Unit
  IsWithin bound (spend spent lifted change) = sum_amounts spent + sum_amounts lifted ≤ bound

  plan_change-IsWithin :
      (bound : ℕ) (spent candidates : List (Utxo O)) (change left : ℕ)
      → sum_amounts spent + sum_amounts candidates ≤ bound
      → IsWithin bound (plan_change spent candidates change left)
  unfolding plan_change
  plan_change-IsWithin bound spent candidates change left h =
      ground (arith, lifting-le change left candidates)

  plan_fee-IsWithin :
      (fee change : ℕ) (ms ns : List (Utxo O))
      → IsWithin (sum_amounts ms + 2 * sum_amounts ns) (plan_fee fee change ms ns)
  unfolding plan_fee
  plan_fee-IsWithin fee change ms ns =
      let more = covering (fee - change) ns in
      ground (
        arith,
        plan_change-IsWithin (sum_amounts ms + 2 * sum_amounts ns) ms ns (change - fee)
            (sum_amounts ns),
        plan_change-IsWithin (sum_amounts ms + 2 * sum_amounts ns) (ms ++ more) ns
            (sum_amounts more - (fee - change)) (sum_amounts ns - sum_amounts more),
        sum_amounts-append ms more,
        sum-covering-uncovered (fee - change) ns,
      )

  pub plan-IsWithin :
      (amount fee : ℕ) (us : List (Utxo O)) → IsWithin (2 * sum_amounts us) (plan amount fee us)
  unfolding plan
  plan-IsWithin amount fee us = elim (Bool-cases (ltb (sum_amounts us) amount)) [
    | inl poor ↦ rw poor tt
    | inr rich ↦ rw rich (
        within_more
          (plan_fee fee (sum_amounts (covering amount us) - amount) (covering amount us)
            (uncovered amount us))
          (plan_fee-IsWithin fee (sum_amounts (covering amount us) - amount) (covering amount us)
            (uncovered amount us)))
  ]
    where
      within_more :
          (p : Plan O)
          → IsWithin (sum_amounts (covering amount us) + 2 * sum_amounts (uncovered amount us)) p
          → IsWithin (2 * sum_amounts us) p
      within_more short_of_amount h = tt
      within_more (short_of_fee missing left) h = tt
      within_more (spend spent lifted change) h = omega (arith, sum-covering-uncovered amount us)

  pub plan-short_of_amount :
      (amount fee : ℕ) (us : List (Utxo O))
      → sum_amounts us < amount
      → plan amount fee us ≡ short_of_amount
  unfolding plan
  plan-short_of_amount amount fee us h = rw (lt→ltb _ _ h)
