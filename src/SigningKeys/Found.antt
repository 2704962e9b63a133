-- ===== src/SigningKeys/Found.antt =====
-- What the search for signing keys returns (leafy.go): an invariant of its steps holds at the end,
-- and every wanted address is mapped.
use leafy.Prelude.{
  ℕ, zero, suc, ◌+◌, ◌%◌, ◌*◌, ◌≡◌, true, Bool-cases, ltb, inl, inr, Option-cases, &&-eq-true, [],
  ◌∷◌, some, Bytes, Dict, lookup, contains, Result, ok, >>=-eq-ok, ok_injective, arith,
}
use leafy.SigningKeys.{Search, all_mapped, run_window, window, search_from}

module _ {V : Type 0} where
  -- Each of the values is in the mapping.
  abbrev pub AllFound : Dict Bytes → Dict V → Type 0
  AllFound [] mapping = Unit
  AllFound ((key, address) ∷ wanted) mapping =
      ((v : V) × (lookup address mapping ≡ some v)) × AllFound wanted mapping

  contains-found :
      (address : Bytes) (mapping : Dict V)
      → contains address mapping ≡ true
      → (v : V) × (lookup address mapping ≡ some v)
  contains-found address mapping h = elim (Option-cases (lookup address mapping)) [
    | inl missing ↦ absurd (ground (arith, missing, h))
    | inr found ↦ found
  ]

  all_mapped-AllFound :
      (wanted : Dict Bytes) (mapping : Dict V)
      → all_mapped wanted mapping ≡ true
      → AllFound wanted mapping
  unfolding all_mapped
  all_mapped-AllFound [] mapping h = tt
  all_mapped-AllFound ((key, address) ∷ wanted) mapping h =
      let (here, rest) = &&-eq-true (contains address mapping) (all_mapped wanted mapping) h in
      (contains-found address mapping here, all_mapped-AllFound wanted mapping rest)

module _ {S : Type 0} (step : S → Result S) (Inv : S → Type 0)
    (preserved : (s s' : S) → step s ≡ ok s' → Inv s → Inv s') where
  run_window-preserves :
      (fuel j limit : ℕ) (s s' : S) → run_window step fuel j limit s ≡ ok s' → Inv s → Inv s'
  unfolding run_window
  run_window-preserves zero j limit s s' h inv = rw (← ok_injective h) inv
  run_window-preserves (suc fuel) j limit s s' h inv = elim (Bool-cases (ltb j limit)) [
    | inl more ↦
        let (t, stepped, done) = >>=-eq-ok (step s) _ (rw more at h) in
        run_window-preserves fuel ((j + 1) % 256) limit t s' done (preserved s t stepped inv)
    | inr over ↦ rw (← ok_injective (rw over at h)) inv
  ]

module _ {K V : Type 0} (step : Search K V → Result (Search K V)) (wanted : Dict Bytes)
    (Inv : Search K V → Type 0)
    (preserved : (s s' : Search K V) → step s ≡ ok s' → Inv s → Inv s') where
  window-preserves : (i : ℕ) (s s' : Search K V) → window step i s ≡ ok s' → Inv s → Inv s'
  unfolding window
  window-preserves i s s' h inv =
      run_window-preserves step Inv preserved 256 ((i * 100) % 256) (((i * 100) % 256 + 100) % 256)
        s s' h inv

  pub search_from-preserves :
      (left i : ℕ) (s : Search K V) (mapping : Dict V)
      → search_from step wanted left i s ≡ ok mapping
      → Inv s
      → (s' : Search K V) × Inv s' × (s'.mapping ≡ mapping) × AllFound wanted mapping
  unfolding search_from
  search_from-preserves zero i s mapping h inv = cc
  search_from-preserves (suc left) i s mapping h inv =
      let (s', stepped, done) = >>=-eq-ok (window step i s) _ h in
      let inv' = window-preserves i s s' stepped inv in
      elim (Bool-cases (all_mapped wanted s'.mapping)) [
        | inl yes_all ↦
            let found = ok_injective (rw yes_all at done) in
            (s', inv', found, rw (← found) (all_mapped-AllFound wanted s'.mapping yes_all))
        | inr not_all ↦ search_from-preserves left (i + 1) s' mapping (rw not_all at done) inv'
      ]
