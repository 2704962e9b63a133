-- ===== src/Prelude/Int.antt =====
-- Signed integers over the native numbers, and Go's int64: an integer in range, whose operations
-- wrap around modulo 2 ^ 64.
use Prim.Native.Nat.{ℕ, suc, ◌+◌, ◌-◌, ◌*◌, ◌/◌, ◌%◌, ◌^◌, ◌≤◌, ◌<◌}
use mathlib.Core.Path.{◌≡◌, refl}
use mathlib.Core.Bool.{Bool, true, false}
use native.Mathlib.Omega.{arith}
use leafy.Prelude.Tests.{ltb, leb, ◌==◌, if◌then◌else◌}

-- `negsuc n` is -(n + 1).
pub data ℤ : Type 0 where
  pos : ℕ → ℤ
  negsuc : ℕ → ℤ

abbrev pub pos_part : ℤ → ℕ
pos_part (pos n) = n
pos_part (negsuc n) = 0

abbrev pub neg_part : ℤ → ℕ
neg_part (pos n) = 0
neg_part (negsuc n) = suc n

abbrev pub sub_ℕ : ℕ → ℕ → ℤ
sub_ℕ a b = if leb b a then pos (a - b) else negsuc (b - a - 1)

infixl 65 ◌+ℤ◌ ◌-ℤ◌
infixl 70 ◌*ℤ◌
unfoldable pub ◌+ℤ◌ : ℤ → ℤ → ℤ
a +ℤ b = sub_ℕ (pos_part a + pos_part b) (neg_part a + neg_part b)

unfoldable pub ◌-ℤ◌ : ℤ → ℤ → ℤ
a -ℤ b = sub_ℕ (pos_part a + neg_part b) (neg_part a + pos_part b)

unfoldable pub ◌*ℤ◌ : ℤ → ℤ → ℤ
a *ℤ b =
    sub_ℕ (pos_part a * pos_part b + neg_part a * neg_part b)
      (pos_part a * neg_part b + neg_part a * pos_part b)

abbrev pub ltb_ℤ : ℤ → ℤ → Bool
ltb_ℤ (pos a) (pos b) = ltb a b
ltb_ℤ (pos a) (negsuc b) = false
ltb_ℤ (negsuc a) (pos b) = true
ltb_ℤ (negsuc a) (negsuc b) = ltb b a

abbrev pub leb_ℤ : ℤ → ℤ → Bool
leb_ℤ (pos a) (pos b) = leb a b
leb_ℤ (pos a) (negsuc b) = false
leb_ℤ (negsuc a) (pos b) = true
leb_ℤ (negsuc a) (negsuc b) = leb b a

abbrev pub eq_ℤ : ℤ → ℤ → Bool
eq_ℤ (pos a) (pos b) = a == b
eq_ℤ (pos a) (negsuc b) = false
eq_ℤ (negsuc a) (pos b) = false
eq_ℤ (negsuc a) (negsuc b) = a == b

-- A 64-bit pattern read in two's complement.
abbrev pub signed64 : ℕ → ℤ
signed64 w = if ltb w (2 ^ 63) then pos w else negsuc (2 ^ 64 - w - 1)

-- The int64 that is congruent to an integer.
unfoldable pub wrap64 : ℤ → ℤ
wrap64 (pos n) = signed64 (n % 2 ^ 64)
wrap64 (negsuc n) = signed64 (2 ^ 64 - 1 - n % 2 ^ 64)

-- `a + b`, `a - b`, `a * b` of int64.
unfoldable pub add64 : ℤ → ℤ → ℤ
unfolding ◌+ℤ◌ wrap64
add64 a b = wrap64 (a +ℤ b)

unfoldable pub sub64 : ℤ → ℤ → ℤ
unfolding ◌-ℤ◌ wrap64
sub64 a b = wrap64 (a -ℤ b)

unfoldable pub mul64 : ℤ → ℤ → ℤ
unfolding ◌*ℤ◌ wrap64
mul64 a b = wrap64 (a *ℤ b)

-- `a / k` for a positive constant `k`: Go's division rounds towards zero.
unfoldable pub div64 : ℤ → ℕ → ℤ
unfolding ◌-ℤ◌
div64 (pos n) k = pos (n / k)
div64 (negsuc n) k = pos 0 -ℤ pos (suc n / k)

pub add64-pos : (a b : ℕ) → a + b < 2 ^ 63 → add64 (pos a) (pos b) ≡ pos (a + b)
unfolding add64
add64-pos a b h = ground arith

pub sub64-pos : (a b : ℕ) → b ≤ a → a < 2 ^ 63 → sub64 (pos a) (pos b) ≡ pos (a - b)
unfolding sub64
sub64-pos a b h k = ground arith

-- The difference of two numbers that fit an int64 fits too, also below zero.
pub sub64-eq : (a b : ℕ) → a < 2 ^ 63 → b < 2 ^ 63 → sub64 (pos a) (pos b) ≡ pos a -ℤ pos b
unfolding sub64
sub64-eq a b h k = ground arith

pub mul64-pos : (a b : ℕ) → a * b < 2 ^ 63 → mul64 (pos a) (pos b) ≡ pos (a * b)
unfolding mul64
mul64-pos a b h = ground arith

pub eq_pos : (a : ℤ) → neg_part a ≡ 0 → a ≡ pos (pos_part a)
eq_pos (pos n) h = refl
eq_pos (negsuc n) h = absurd (omega arith)

wraps : add64 (pos (2 ^ 63 - 1)) (pos 1) ≡ negsuc (2 ^ 63 - 1)
unfolding add64
wraps = refl
