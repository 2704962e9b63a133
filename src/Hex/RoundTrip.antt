-- ===== src/Hex/RoundTrip.antt =====
-- encoding/hex: what is encoded is decoded to itself, and takes two digits for each byte.
use leafy.Prelude.{
  ℕ, ◌+◌, ◌*◌, ◌/◌, ◌%◌, ◌<◌, ◌≡◌, refl, some, [], ◌∷◌, arith, Bytes, ok, All, length,
}
use leafy.Hex.{hex_digit, hex_encode, from_hex_digit, hex_decode}

abbrev pub IsByte : ℕ → Type 0
IsByte b = b < 256

pub from_hex_digit-hex_digit : (n : ℕ) → n < 16 → from_hex_digit (hex_digit n) ≡ some n
unfolding from_hex_digit hex_digit
from_hex_digit-hex_digit n h = ground arith

pub hex_decode-hex_encode : (s : Bytes) → All IsByte s → hex_decode (hex_encode s) ≡ ok s
unfolding hex_decode hex_encode
hex_decode-hex_encode [] h = refl
hex_decode-hex_encode (b ∷ s) (hb, hs) =
    rw
      (
        from_hex_digit-hex_digit (b / 16) (omega arith),
        from_hex_digit-hex_digit (b % 16) (omega arith),
        hex_decode-hex_encode s hs,
      )
      (λ i. ok (byte i ∷ s))
  where
    byte : (b / 16) * 16 + b % 16 ≡ b
    byte = omega arith

pub length-hex_encode : (s : Bytes) → length (hex_encode s) ≡ 2 * length s
unfolding hex_encode
length-hex_encode [] = refl
length-hex_encode (b ∷ s) = omega (arith, length-hex_encode s)
