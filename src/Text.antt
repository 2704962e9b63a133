-- ===== src/Text.antt =====
-- The parts of Go's strings, strconv and fmt that the sources use, over the bytes of a string.
pub mod Cuts
pub mod Decimal
use leafy.Prelude.{
  ℕ, zero, suc, ◌+◌, ◌-◌, ◌*◌, ◌/◌, ◌%◌, ◌^◌, Bool, true, false, ◌&&◌, ◌||◌, List, [], ◌∷◌, ◌++◌, ℤ,
  pos, negsuc, ltb, leb, ◌==◌, if◌then◌else◌, length, take, drop, Bytes, Result, ok, err, panic,
  Error, Fault,
}

-- `s[lo:hi]`
unfoldable pub slice : Bytes → ℤ → ℤ → Result Bytes
slice s (pos lo) (pos hi) =
    if leb lo hi && leb hi (length s)
    then ok (take (hi - lo) (drop lo s))
    else panic Fault.index_out_of_range
slice s _ _ = panic Fault.index_out_of_range

-- `strings.HasPrefix`
unfoldable pub has_prefix : Bytes → Bytes → Bool
has_prefix s [] = true
has_prefix [] (c ∷ p) = false
has_prefix (d ∷ s) (c ∷ p) = d == c && has_prefix s p

-- `strings.HasSuffix` with a suffix of one byte.
unfoldable pub ends_with : Bytes → ℕ → Bool
ends_with [] c = false
ends_with (d ∷ []) c = d == c
ends_with (d ∷ e ∷ s) c = ends_with (e ∷ s) c

-- `strings.Index` of one byte, counted from `n`; -1 where there is none.
unfoldable pub index_from : ℕ → Bytes → ℕ → ℤ
index_from n [] c = negsuc 0
index_from n (d ∷ s) c = if d == c then pos n else index_from (n + 1) s c

unfoldable pub cons_head : ℕ → List Bytes → List Bytes
cons_head c [] = (c ∷ []) ∷ []
cons_head c (p ∷ ps) = (c ∷ p) ∷ ps

-- `strings.Split` at one byte.
unfoldable pub split : Bytes → ℕ → List Bytes
unfolding cons_head
split [] sep = [] ∷ []
split (c ∷ s) sep = let rest = split s sep in if c == sep then [] ∷ rest else cons_head c rest

unfoldable pub lower_letter : ℕ → ℕ
lower_letter c = if leb b'A' c && leb c b'Z' then c + 32 else c

-- `strings.ToLower`, of which the sources only ask whether it is a given ASCII text without a `k`:
-- of the letters beyond ASCII, the dotted capital I (bytes 196 and 176) alone has such a lower case;
-- the others are left as they are. `pending` says that byte 196 came just before.
unfoldable pub lower_from : Bool → Bytes → Bytes
unfolding lower_letter
lower_from pending [] = if pending then 196 ∷ [] else []
lower_from false (c ∷ s) =
    let after = lower_from true s in
    let rest = lower_from false s in if c == 196 then after else lower_letter c ∷ rest
lower_from true (c ∷ s) =
    let rest = lower_from false s in if c == 176 then b'i' ∷ rest else 196 ∷ lower_letter c ∷ rest

unfoldable pub to_lower : Bytes → Bytes
to_lower s = lower_from false s

-- The loop of `strconv.ParseUint(s, 10, 32)`.
unfoldable pub scan_uint32 : ℕ → Bytes → Result ℕ
scan_uint32 n [] = ok n
scan_uint32 n (c ∷ s) =
    let next = n * 10 + (c - b'0') in
    if ltb c b'0' || ltb b'9' c
    then err Error.invalid_syntax
    else if ltb (2 ^ 32 - 1) next
    then err Error.value_out_of_range
    else scan_uint32 next s

unfoldable pub parse_uint32 : Bytes → Result ℕ
parse_uint32 [] = err Error.invalid_syntax
parse_uint32 (c ∷ s) = scan_uint32 0 (c ∷ s)

-- The digits of `n` before `out`, at most `fuel` of them.
unfoldable pub emit_digits : ℕ → ℕ → Bytes → Bytes
emit_digits zero n out = out
emit_digits (suc fuel) n out =
    let rest = emit_digits fuel (n / 10) ((b'0' + n % 10) ∷ out) in if n == 0 then out else rest

-- `%d` and `%v` of a uint32, which has at most ten digits.
unfoldable pub format_uint32 : ℕ → Bytes
format_uint32 n = if n == 0 then b'0' ∷ [] else emit_digits 10 n []
