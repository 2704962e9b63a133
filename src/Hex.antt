-- ===== src/Hex.antt =====
-- Go's encoding/hex as the sources use it: `hex.EncodeToString`, which is also `%x` of
-- `fmt.Sprintf`, and `hex.DecodeString`.
pub mod RoundTrip
use leafy.Prelude.{
  ℕ, ◌+◌, ◌-◌, ◌*◌, ◌/◌, ◌%◌, ◌≡◌, refl, Bool, ◌&&◌, Option, none, some, List, [], ◌∷◌, Bytes, leb,
  if◌then◌else◌, Result, ok, err, ◌>>=◌, ◌>>◌, found_or, Error,
}

unfoldable pub hex_digit : ℕ → ℕ
hex_digit n = if leb n 9 then b'0' + n else b'a' + (n - 10)

unfoldable pub hex_encode : Bytes → Bytes
unfolding hex_digit
hex_encode [] = []
hex_encode (b ∷ s) = hex_digit (b / 16) ∷ hex_digit (b % 16) ∷ hex_encode s

-- Both cases of the letters are read.
unfoldable pub from_hex_digit : ℕ → Option ℕ
from_hex_digit c =
    if leb b'0' c && leb c b'9'
    then some (c - b'0')
    else if leb b'a' c && leb c b'f'
    then some (c - b'a' + 10)
    else if leb b'A' c && leb c b'F'
    then some (c - b'A' + 10)
    else none

unfoldable pub hex_decode : Bytes → Result Bytes
unfolding from_hex_digit
hex_decode [] = ok []
hex_decode (p ∷ []) = do
  found_or (from_hex_digit p) (Error.invalid_hex_byte p)
  err Error.odd_hex_length
hex_decode (p ∷ q ∷ s) = do
  a ← found_or (from_hex_digit p) (Error.invalid_hex_byte p)
  b ← found_or (from_hex_digit q) (Error.invalid_hex_byte q)
  r ← hex_decode s
  ok ((a * 16 + b) ∷ r)
