-- ===== src/Text/Decimal.antt =====
-- strconv and fmt: what is printed of a uint32 is read back.
use native.Mathlib.Nat.{pow-suc}
use mathlib.Core.List.{cons-ne-nil}
use leafy.Prelude.{
  ℕ, zero, suc, ◌+◌, ◌/◌, ◌%◌, ◌^◌, ◌<◌, ◌≤◌, ◌≡◌, ◌≢◌, refl, false, [], ◌∷◌, ◌==◌, arith,
  Bool-cases, inl, inr, Bytes, All, ok,
}
use leafy.Text.{scan_uint32, parse_uint32, emit_digits, format_uint32}

abbrev pub IsDigit : ℕ → Type 0
IsDigit c = (b'0' ≤ c) × (c ≤ b'9')

scan_last :
    (n : ℕ) (out : Bytes)
    → n < 2 ^ 32
    → scan_uint32 (n / 10) ((b'0' + n % 10) ∷ out) ≡ scan_uint32 n out
unfolding scan_uint32
scan_last n out h = ground arith

-- Reading the digits of a number gives it back, where the fuel covers it.
scan-emit_digits :
    (fuel n : ℕ) (out : Bytes)
    → n < 10 ^ fuel
    → n < 2 ^ 32
    → scan_uint32 0 (emit_digits fuel n out) ≡ scan_uint32 n out
unfolding emit_digits
scan-emit_digits zero n out h k = let none_left : n ≡ 0 = omega arith in rw none_left
scan-emit_digits (suc fuel) n out h k = elim (Bool-cases (n == 0)) [
  | inl done ↦ let none_left : n ≡ 0 = ground arith in rw none_left
  | inr more ↦ rw more (
      rw
        (scan-emit_digits fuel (n / 10) ((b'0' + n % 10) ∷ out) (omega (arith, pow-suc 10 fuel))
          (omega arith))
        (scan_last n out k))
]

digits_all : (fuel n : ℕ) (out : Bytes) → All IsDigit out → All IsDigit (emit_digits fuel n out)
unfolding emit_digits
digits_all zero n out h = h
digits_all (suc fuel) n out h = ground (arith, digits_all fuel (n / 10) ((b'0' + n % 10) ∷ out))

-- A printed number is a row of digits.
pub format_uint32-IsDigit : (n : ℕ) → All IsDigit (format_uint32 n)
unfolding format_uint32
format_uint32-IsDigit n = ground (arith, digits_all 10 n [] tt)

emit_digits-ne-nil : (fuel n : ℕ) (out : Bytes) → out ≢ [] → emit_digits fuel n out ≢ []
unfolding emit_digits
emit_digits-ne-nil zero n out h = h
emit_digits-ne-nil (suc fuel) n out h = elim (Bool-cases (n == 0)) [
  | inl done ↦ rw done h
  | inr more ↦
      rw more (emit_digits-ne-nil fuel (n / 10) ((b'0' + n % 10) ∷ out) (cons-ne-nil _ out))
]

parse_uint32-scan : (s : Bytes) → s ≢ [] → parse_uint32 s ≡ scan_uint32 0 s
unfolding parse_uint32
parse_uint32-scan [] h = absurd (h refl)
parse_uint32-scan (c ∷ s) h = refl

emit_digits-pos : (fuel n : ℕ) → (n == 0) ≡ false → emit_digits (suc fuel) n [] ≢ []
unfolding emit_digits
emit_digits-pos fuel n more =
    rw more
      (emit_digits-ne-nil fuel (n / 10) ((b'0' + n % 10) ∷ []) (cons-ne-nil (b'0' + n % 10) []))

format_uint32-ne-nil : (n : ℕ) → format_uint32 n ≢ []
unfolding format_uint32
format_uint32-ne-nil n = elim (Bool-cases (n == 0)) [
  | inl zero_digit ↦ rw zero_digit (cons-ne-nil b'0' [])
  | inr more ↦ rw more (emit_digits-pos 9 n more)
]

pub parse-format_uint32 : (n : ℕ) → n < 2 ^ 32 → parse_uint32 (format_uint32 n) ≡ ok n
parse-format_uint32 n h = rw (parse_uint32-scan _ (format_uint32-ne-nil n)) (scanned n h)
  where
    scanned : (n : ℕ) → n < 2 ^ 32 → scan_uint32 0 (format_uint32 n) ≡ ok n
    scanned n h =
        unfold format_uint32 scan_uint32 in ground (arith, scan-emit_digits 10 n [] (omega arith) h)
