-- ===== src/Prelude/Lists.antt =====
-- Lists measured and indexed by native numbers, and predicates over the elements of a list.
use Prim.Native.Nat.{ℕ, zero, suc, ◌+◌}
use mathlib.Core.Path.{◌≡◌, refl}
use mathlib.Core.Logic.{◌⊎◌, inl, inr}
use mathlib.Core.List.{List, [], ◌∷◌, ◌++◌}
use mathlib.Core.Option.{Option, none, some}
use native.Mathlib.Omega.{arith}

module _ {ℓ} {A : Type ℓ} where
  abbrev pub length : List A → ℕ
  length [] = 0
  length (x ∷ xs) = suc (length xs)

  abbrev pub get_elem? : List A → ℕ → Option A
  get_elem? [] i = none
  get_elem? (x ∷ xs) zero = some x
  get_elem? (x ∷ xs) (suc i) = get_elem? xs i

  abbrev pub take : ℕ → List A → List A
  take zero xs = []
  take (suc n) [] = []
  take (suc n) (x ∷ xs) = x ∷ take n xs

  abbrev pub replicate : ℕ → A → List A
  replicate zero a = []
  replicate (suc n) a = a ∷ replicate n a

  abbrev pub drop : ℕ → List A → List A
  drop zero xs = xs
  drop (suc n) [] = []
  drop (suc n) (x ∷ xs) = drop n xs

  pub length-append : (xs ys : List A) → length (xs ++ ys) ≡ length xs + length ys
  length-append [] ys = omega arith
  length-append (x ∷ xs) ys = omega (arith, length-append xs ys)

  pub take-append-drop : (n : ℕ) (xs : List A) → take n xs ++ drop n xs ≡ xs
  take-append-drop zero xs = refl
  take-append-drop (suc n) [] = refl
  take-append-drop (suc n) (x ∷ xs) = rw (take-append-drop n xs)

module _ {ℓ κ} {A : Type ℓ} (P : A → Type κ) where
  abbrev pub All : List A → Type κ
  All [] = Unit
  All (x ∷ xs) = P x × All xs

  pub All-append : (xs ys : List A) → All xs → All ys → All (xs ++ ys)
  All-append [] ys hx hy = hy
  All-append (x ∷ xs) ys (px, hx) hy = (px, All-append xs ys hx hy)

  pub All-left : (xs ys : List A) → All (xs ++ ys) → All xs
  All-left [] ys h = tt
  All-left (x ∷ xs) ys (px, h) = (px, All-left xs ys h)

  pub All-right : (xs ys : List A) → All (xs ++ ys) → All ys
  All-right [] ys h = h
  All-right (x ∷ xs) ys (px, h) = All-right xs ys h

module _ {A : Type 0} where
  -- One of the elements is `a`.
  abbrev pub IsIn : A → List A → Type 0
  IsIn a [] = ⊥
  IsIn a (b ∷ bs) = (b ≡ a) ⊎ IsIn a bs

  pub All-IsIn : (P : A → Type 0) (a : A) (xs : List A) → IsIn a xs → All P xs → P a
  All-IsIn P a [] here all = absurd here
  All-IsIn P a (x ∷ xs) (inl same) (px, all) = rw (← same) px
  All-IsIn P a (x ∷ xs) (inr later) (px, all) = All-IsIn P a xs later all

  pub all-IsIn : (P : A → Type 0) (xs : List A) → ((a : A) → IsIn a xs → P a) → All P xs
  all-IsIn P [] f = tt
  all-IsIn P (x ∷ xs) f = (f x (inl refl), all-IsIn P xs (λ a later. f a (inr later)))

  pub All-imp : (P Q : A → Type 0) → ((a : A) → P a → Q a) → (xs : List A) → All P xs → All Q xs
  All-imp P Q f [] h = tt
  All-imp P Q f (x ∷ xs) (px, h) = (f x px, All-imp P Q f xs h)
