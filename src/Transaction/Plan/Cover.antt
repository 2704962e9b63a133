-- ===== src/Transaction/Plan/Cover.antt =====
-- How coins are divided: nothing is lost, the covering coins are worth what is needed where all
-- coins are, and no coin is taken that is not needed.
use leafy.Prelude.{
  ℕ, ◌+◌, ◌-◌, ◌≤◌, ◌<◌, ◌≡◌, refl, List, [], ◌∷◌, ◌++◌, arith, All, All-left, All-right,
}
use leafy.Wire.{Utxo}
use leafy.Transaction.Plan.{amount_of, sum_amounts, covering, uncovered, lifting, IsCoin}

module _ {O : Type 0} where
  pub sum_amounts-append :
      (us vs : List (Utxo O)) → sum_amounts (us ++ vs) ≡ sum_amounts us + sum_amounts vs
  sum_amounts-append [] vs = omega arith
  sum_amounts-append (u ∷ us) vs = omega (arith, sum_amounts-append us vs)

  pub covering-zero : (us : List (Utxo O)) → covering 0 us ≡ []
  covering-zero [] = refl
  covering-zero (u ∷ us) = refl

  pub uncovered-zero : (us : List (Utxo O)) → uncovered 0 us ≡ us
  uncovered-zero [] = refl
  uncovered-zero (u ∷ us) = refl

  pub covering_needed :
      (need : ℕ) (u : Utxo O) (us : List (Utxo O))
      → 0 < need
      → covering need (u ∷ us) ≡ u ∷ covering (need - amount_of u) us
  covering_needed need u us h = ground arith

  pub uncovered_needed :
      (need : ℕ) (u : Utxo O) (us : List (Utxo O))
      → 0 < need
      → uncovered need (u ∷ us) ≡ uncovered (need - amount_of u) us
  uncovered_needed need u us h = ground arith

  -- The covering coins and the others are the coins, in order.
  pub covering-append-uncovered :
      (need : ℕ) (us : List (Utxo O)) → covering need us ++ uncovered need us ≡ us
  covering-append-uncovered need [] = refl
  covering-append-uncovered need (u ∷ us) =
      ground (arith, covering-append-uncovered (need - amount_of u) us)

  pub sum-covering-uncovered :
      (need : ℕ) (us : List (Utxo O))
      → sum_amounts (covering need us) + sum_amounts (uncovered need us) ≡ sum_amounts us
  sum-covering-uncovered need [] = refl
  sum-covering-uncovered need (u ∷ us) =
      ground (arith, sum-covering-uncovered (need - amount_of u) us)

  pub covering-worth :
      (need : ℕ) (us : List (Utxo O))
      → need ≤ sum_amounts us
      → need ≤ sum_amounts (covering need us)
  covering-worth need [] h = h
  covering-worth need (u ∷ us) h = ground (arith, covering-worth (need - amount_of u) us)

  -- Where all coins are worth less than is needed, all are taken.
  pub covering-all : (need : ℕ) (us : List (Utxo O)) → sum_amounts us < need → covering need us ≡ us
  covering-all need [] h = refl
  covering-all need (u ∷ us) h = ground (arith, covering-all (need - amount_of u) us)

  -- Without its last coin a cover falls short of what is needed.
  pub covering-minimal :
      (need : ℕ) (us init : List (Utxo O)) (u : Utxo O)
      → covering need us ≡ init ++ u ∷ []
      → sum_amounts init < need
  covering-minimal need [] [] u h = cc
  covering-minimal need [] (v ∷ vs) u h = cc
  covering-minimal need (w ∷ us) [] u h = ground arith
  covering-minimal need (w ∷ us) (v ∷ vs) u h =
      ground (arith, covering-minimal (need - amount_of w) us vs u)

  pub lifting-le :
      (change left : ℕ) (us : List (Utxo O)) → sum_amounts (lifting change left us) ≤ sum_amounts us
  lifting-le change left [] = omega arith
  lifting-le change left (u ∷ us) =
      ground (arith, lifting-le (change + amount_of u) (left - amount_of u) us)

  pub lifting-none : (change : ℕ) (us : List (Utxo O)) → lifting change 0 us ≡ []
  lifting-none change [] = refl
  lifting-none change (u ∷ us) = ground arith

  pub covering-IsCoin :
      (need : ℕ) (us : List (Utxo O)) → All IsCoin us → All IsCoin (covering need us)
  covering-IsCoin need us h =
      All-left IsCoin (covering need us) (uncovered need us)
        (rw (covering-append-uncovered need us) h)

  pub uncovered-IsCoin :
      (need : ℕ) (us : List (Utxo O)) → All IsCoin us → All IsCoin (uncovered need us)
  uncovered-IsCoin need us h =
      All-right IsCoin (covering need us) (uncovered need us)
        (rw (covering-append-uncovered need us) h)
