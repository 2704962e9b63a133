-- ===== src/SigningKeys/Windows.antt =====
-- The loops of the search for signing keys (leafy.go): how many keys they really try.
use leafy.Prelude.{
  ℕ, zero, suc, ◌+◌, ◌-◌, ◌*◌, ◌%◌, ◌<◌, ◌≡◌, refl, ◌∙◌, inl, inr, true, false, Bool-cases, lt→ltb,
  ge→ltb, if◌then◌else◌, Bytes, Dict, Result, ok, err, ◌>>=◌, >>=-cong, >>=-eq-ok, Error, arith,
}
use leafy.SigningKeys.{Search, all_mapped, run_window, window, search_from}

module _ {S : Type 0} (step : S → Result S) where
  -- `n` rounds of the inner loop.
  unfoldable pub iterate : ℕ → S → Result S
  iterate zero s = ok s
  iterate (suc n) s = do s' ← step s; iterate n s'

  iterate-append :
      (n a b : ℕ) (s s' : S)
      → n ≡ a + b
      → iterate n s ≡ ok s'
      → (t : S) × (iterate a s ≡ ok t) × (iterate b t ≡ ok s')
  unfolding iterate
  iterate-append n zero b s s' size h = let same : b ≡ n = omega arith in (s, refl, rw same h)
  iterate-append zero (suc a) b s s' size h = absurd (omega arith)
  iterate-append (suc n) (suc a) b s s' size h =
      let (t, stepped, more) = >>=-eq-ok (step s) _ h in
      let (u, first, second) = iterate-append n a b t s' (omega arith) more in
      (u, rw stepped first, second)

  run_window-iterate :
      (fuel n j limit : ℕ) (s : S)
      → limit < 256
      → n < fuel
      → n ≡ limit - j
      → run_window step fuel j limit s ≡ iterate n s
  unfolding run_window iterate
  run_window-iterate zero n j limit s small enough distance = absurd (omega arith)
  run_window-iterate (suc fuel) zero j limit s small enough distance =
      rw (ge→ltb j limit (omega arith))
  run_window-iterate (suc fuel) (suc n) j limit s small enough distance =
      rw (lt→ltb j limit (omega arith)) (
        >>=-cong (step s) _ _ (λ s'.
          run_window-iterate fuel n ((j + 1) % 256) limit s' small (omega arith) (omega arith)))

  pub window-iterate :
      (i n : ℕ) (s : S)
      → n ≡ ((i * 100) % 256 + 100) % 256 - (i * 100) % 256
      → window step i s ≡ iterate n s
  unfolding window
  window-iterate i n s h =
      run_window-iterate 256 n ((i * 100) % 256) (((i * 100) % 256 + 100) % 256) s (omega arith)
        (omega arith) h

module _ {K V : Type 0} (step : Search K V → Result (Search K V)) (wanted : Dict Bytes) where
  -- What the search comes to: after each hundred of steps it stops if every address is mapped.
  unfoldable pub by_hundreds : ℕ → Search K V → Result (Dict V)
  by_hundreds zero s = err Error.unmapped_addresses
  by_hundreds (suc n) s = do
    s' ← iterate step 100 s
    if all_mapped wanted s'.mapping then ok s'.mapping else by_hundreds n s'

  -- A full window is a hundred of steps.
  search_from-full :
      (left n i : ℕ) (s : Search K V)
      → 100 ≡ ((i * 100) % 256 + 100) % 256 - (i * 100) % 256
      → ((s' : Search K V)
          → all_mapped wanted s'.mapping ≡ false
          → search_from step wanted left (i + 1) s' ≡ by_hundreds n s')
      → search_from step wanted (suc left) i s ≡ by_hundreds (suc n) s
  unfolding search_from by_hundreds
  search_from-full left n i s full rest = rw (window-iterate step i 100 s full) (
      >>=-cong (iterate step 100 s) _ _ (λ s'. elim (Bool-cases (all_mapped wanted s'.mapping)) [
        | inl yes_all ↦ rw yes_all
        | inr not_all ↦ rw not_all (rest s' not_all)
      ]))

  -- A window that wraps around is empty.
  search_from-empty :
      (left i : ℕ) (s : Search K V)
      → 0 ≡ ((i * 100) % 256 + 100) % 256 - (i * 100) % 256
      → all_mapped wanted s.mapping ≡ false
      → search_from step wanted (suc left) i s ≡ search_from step wanted left (i + 1) s
  unfolding search_from iterate
  search_from-empty left i s empty unmapped = rw (window-iterate step i 0 s empty, unmapped)

  rest_after : (s : Search K V) → search_from step wanted 0 10 s ≡ by_hundreds 0 s
  unfolding search_from by_hundreds
  rest_after s = refl

  -- Of the ten windows three are empty, because their ends wrap around in a uint8; the search is the
  -- same as one that tries seven hundreds of keys.
  pub search_from-by_hundreds : (s : Search K V) → search_from step wanted 10 0 s ≡ by_hundreds 7 s
  search_from-by_hundreds s = search_from-full 9 6 0 s refl λ s1 u1.
      search_from-full 8 5 1 s1 refl λ s2 u2.
        search_from-empty 7 2 s2 refl u2
        ∙ search_from-full 6 4 3 s2 refl λ s3 u3. search_from-full 5 3 4 s3 refl λ s4 u4.
          search_from-empty 4 5 s4 refl u4
          ∙ search_from-full 3 2 6 s4 refl λ s5 u5.
            search_from-empty 2 7 s5 refl u5
            ∙ search_from-full 1 1 8 s5 refl
                λ s6 u6. search_from-full 0 0 9 s6 refl λ s7 u7. rest_after s7

  by_hundreds-hundred :
      (left : ℕ) (s t : Search K V)
      → iterate step 100 s ≡ ok t
      → by_hundreds (suc left) s
        ≡ (if all_mapped wanted t.mapping then ok t.mapping else by_hundreds left t)
  unfolding by_hundreds
  by_hundreds-hundred left s t first = rw first

  stop_here :
      (left : ℕ) (s t : Search K V)
      → iterate step 100 s ≡ ok t
      → all_mapped wanted t.mapping ≡ true
      → by_hundreds (suc left) s ≡ ok t.mapping
  stop_here left s t first mapped = rw mapped at (by_hundreds-hundred left s t first)

  go_on :
      (left : ℕ) (s t : Search K V)
      → iterate step 100 s ≡ ok t
      → all_mapped wanted t.mapping ≡ false
      → by_hundreds (suc left) s ≡ by_hundreds left t
  go_on left s t first unmapped = rw unmapped at (by_hundreds-hundred left s t first)

  by_hundreds_complete :
      (left n : ℕ) (s s' : Search K V)
      → n < left
      → iterate step ((n + 1) * 100) s ≡ ok s'
      → all_mapped wanted s'.mapping ≡ true
      → (mapping : Dict V) × (by_hundreds left s ≡ ok mapping)
  by_hundreds_complete zero n s s' within h mapped = absurd (omega arith)
  by_hundreds_complete (suc left) zero s s' within h mapped =
      (s'.mapping, stop_here left s s' h mapped)
  by_hundreds_complete (suc left) (suc n) s s' within h mapped =
      let (t, first, more) =
        iterate-append step ((suc n + 1) * 100) 100 ((n + 1) * 100) s s' (omega arith) h in
      elim (Bool-cases (all_mapped wanted t.mapping)) [
        | inl yes_all ↦ (t.mapping, stop_here left s t first yes_all)
        | inr not_all ↦
            let (m, found) = by_hundreds_complete left n t s' (omega arith) more mapped in
            (m, go_on left s t first not_all ∙ found)
      ]

  -- Where all wanted addresses are mapped after a whole number of hundreds of steps, seven at most,
  -- and none of these steps fails, the search returns a mapping.
  pub search_from_complete :
      (n : ℕ) (s s' : Search K V)
      → n < 7
      → iterate step ((n + 1) * 100) s ≡ ok s'
      → all_mapped wanted s'.mapping ≡ true
      → (mapping : Dict V) × (search_from step wanted 10 0 s ≡ ok mapping)
  search_from_complete n s s' within h mapped =
      let (mapping, found) = by_hundreds_complete 7 n s s' within h mapped in
      (mapping, search_from-by_hundreds s ∙ found)
