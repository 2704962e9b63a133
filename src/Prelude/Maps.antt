-- ===== src/Prelude/Maps.antt =====
-- Go's map[string]V as an association list. The sources range over a map only to test that every
-- value is in another map, so the order in which Go walks it does not matter.

use Prim.Native.Char.{code}
use Prim.Native.String.{String}
use mathlib.Core.Path.{◌≡◌, refl}
use mathlib.Core.Logic.{◌↔◌}
use mathlib.Core.Bool.{Bool, true, false, ◌&&◌}
use mathlib.Core.Option.{Option, none, some}
use mathlib.Core.List.{List, [], ◌∷◌}
use native.Mathlib.Omega.{arith}
use leafy.Prelude.Tests.{◌==◌, if◌then◌else◌}
use leafy.Prelude.Outcomes.{Bytes}

unfoldable pub bytes_eq : Bytes → Bytes → Bool
bytes_eq [] [] = true
bytes_eq (a ∷ s) (b ∷ t) = a == b && bytes_eq s t
bytes_eq _ _ = false

pub bytes_eq_sound : (a b : Bytes) → bytes_eq a b ≡ true → a ≡ b
unfolding bytes_eq
bytes_eq_sound [] [] h = refl
bytes_eq_sound (a ∷ s) (b ∷ t) h = ground (arith, bytes_eq_sound s t)
bytes_eq_sound [] (b ∷ t) h = cc
bytes_eq_sound (a ∷ s) [] h = cc

pub bytes_eq_refl : (a : Bytes) → bytes_eq a a ≡ true
unfolding bytes_eq
bytes_eq_refl [] = refl
bytes_eq_refl (a ∷ s) = ground (arith, bytes_eq_refl s)

pub bytes_eq_iff : (a b : Bytes) → (bytes_eq a b ≡ true) ↔ (a ≡ b)
bytes_eq_iff a b = (bytes_eq_sound a b, λ e. rw e (bytes_eq_refl b))

-- The bytes of a literal, which is ASCII.
abbrev pub codes : String → Bytes
codes String.[] = []
codes (String.◌∷◌ c s) = code c ∷ codes s

abbrev pub Dict {ℓ} : Type ℓ → Type ℓ
Dict V = List (Bytes × V)

module _ {ℓ} {V : Type ℓ} where
  abbrev pub lookup : Bytes → Dict V → Option V
  lookup k [] = none
  lookup k ((j, v) ∷ m) = if bytes_eq j k then some v else lookup k m

  -- `m[k] = v`
  abbrev pub insert : Bytes → V → Dict V → Dict V
  insert k v [] = (k, v) ∷ []
  insert k v ((j, w) ∷ m) = if bytes_eq j k then (k, v) ∷ m else (j, w) ∷ insert k v m

  -- `_, found := m[k]`
  abbrev pub contains : Bytes → Dict V → Bool
  contains k m = elim (lookup k m) [ none ↦ false | some v ↦ true ]

  pub lookup-insert :
      (k j : Bytes) (v : V) (m : Dict V)
      → lookup j (insert k v m) ≡ (if bytes_eq k j then some v else lookup j m)
  lookup-insert k j v [] = refl
  lookup-insert k j v ((i, w) ∷ m) =
      ground (arith, bytes_eq_iff k j, bytes_eq_iff i k, bytes_eq_iff i j, lookup-insert k j v m)

  pub lookup-insert_self : (k : Bytes) (v : V) (m : Dict V) → lookup k (insert k v m) ≡ some v
  lookup-insert_self k v m = simp (lookup-insert, bytes_eq_refl)

  pub contains-lookup : (k : Bytes) (m : Dict V) {v : V} → lookup k m ≡ some v → contains k m ≡ true
  contains-lookup k m h = rw (contains, h)
