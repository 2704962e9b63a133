-- ===== src/Bip44/PathLaws.antt =====
-- The items of a derivation path (bip_44.go): the hardened mark, the text form, the next sibling.
use leafy.Prelude.{
  ℕ, ◌+◌, ◌-◌, ◌%◌, ◌^◌, ◌<◌, ◌≡◌, refl, ap, true, false, [], ◌∷◌, ◌++◌, append-nil, arith,
  Bool-cases, inl, inr, take, length, length-append, Bytes, All, ok,
}
use leafy.Text.{format_uint32}
use leafy.Text.Cuts.{Lacks, ends_with-last, ends_with-Lacks}
use leafy.Text.Decimal.{IsDigit, format_uint32-IsDigit, parse-format_uint32}
use leafy.Bip44.Path.{
  PathItem, is_hardened, get_path, path_item, path_hardened, get_derivation_value, without_last,
  parse_path, sibling_index,
}

-- Of any uint32, `Path` makes the unhardened and `PathHardened` the hardened item with its lower 31
-- bits as value.
pub path_items :
    (n : ℕ)
    → n < 2 ^ 32
    → (is_hardened (path_item n).path ≡ false)
      × (get_path (path_item n).path ≡ n % 2 ^ 31)
      × (is_hardened (path_hardened n).path ≡ true)
      × (get_path (path_hardened n).path ≡ n % 2 ^ 31)
      × ((path_hardened n).path < 2 ^ 32)
unfolding path_item path_hardened get_path is_hardened
path_items n h = ground arith

-- The next sibling has the same hardened mark and the next value, which goes round from 2 ^ 31 - 1
-- to 0.
pub sibling_index-next :
    (p : PathItem)
    → p.path < 2 ^ 32
    → (is_hardened (sibling_index p).path ≡ is_hardened p.path)
      × (get_path (sibling_index p).path ≡ (get_path p.path + 1) % 2 ^ 31)
      × ((sibling_index p).path < 2 ^ 32)
unfolding sibling_index path_item path_hardened get_path is_hardened
sibling_index-next p h = ground arith

-- Digits, with a quote or without, hold none of the bytes that stand between items.
pub digits-Lacks : (s : Bytes) (c : ℕ) → c < b'0' → All IsDigit s → Lacks c s
digits-Lacks [] c h d = tt
digits-Lacks (e ∷ s) c h (de, ds) = (omega arith, digits-Lacks s c h ds)

pub digits-Lacks_above : (s : Bytes) (c : ℕ) → b'9' < c → All IsDigit s → Lacks c s
digits-Lacks_above [] c h d = tt
digits-Lacks_above (e ∷ s) c h (de, ds) = (omega arith, digits-Lacks_above s c h ds)

take-append : (s rest : Bytes) → take (length s) (s ++ rest) ≡ s
take-append [] rest = refl
take-append (c ∷ s) rest = ap (λ t. c ∷ t) (take-append s rest)

without_last-append : (s : Bytes) (c : ℕ) → without_last (s ++ c ∷ []) ≡ s
unfolding without_last
without_last-append s c =
    let size : length (s ++ c ∷ []) - 1 ≡ length s = omega (arith, length-append s (c ∷ [])) in
    rw size (take-append s (c ∷ []))

-- An item is read back from its text, hardened or not.
pub parse_path-get_derivation_value :
    (p : PathItem) (level : Bytes)
    → p.path < 2 ^ 32
    → parse_path (get_derivation_value p) level ≡ ok p
unfolding parse_path get_derivation_value
parse_path-get_derivation_value p level h = elim (Bool-cases (is_hardened p.path)) [
  | inl hard ↦
      rw
        (
          hard,
          ends_with-last (format_uint32 (get_path p.path)) b'\'',
          without_last-append (format_uint32 (get_path p.path)) b'\'',
          parse-format_uint32 (get_path p.path) (small p h),
        )
        (ap ok (again p h hard))
  | inr soft ↦
      rw
        (
          soft,
          append-nil,
          ends_with-Lacks (format_uint32 (get_path p.path)) b'\''
              (digits-Lacks _ b'\'' (omega arith) (format_uint32-IsDigit (get_path p.path))),
          parse-format_uint32 (get_path p.path) (small p h),
        )
        (ap ok (same p soft))
]
  where
    small : (p : PathItem) → p.path < 2 ^ 32 → get_path p.path < 2 ^ 32
    small p h = unfold get_path in ground arith

    again :
        (p : PathItem)
        → p.path < 2 ^ 32
        → is_hardened p.path ≡ true
        → path_hardened (get_path p.path) ≡ p
    again p h e = unfold get_path path_hardened is_hardened in ground arith

    same : (p : PathItem) → is_hardened p.path ≡ false → path_item (get_path p.path) ≡ p
    same p e = unfold get_path path_item is_hardened in ground arith
