-- ===== src/Text/Cuts.antt =====
-- strings and slices: cutting a text at a separator that its parts do not hold.
use leafy.Prelude.{
  ℕ, ◌+◌, ◌-◌, ◌≤◌, ◌≡◌, ◌≢◌, refl, true, false, [], ◌∷◌, ◌++◌, ap, arith, pos, le→leb, length,
  length-append, take, drop, Bytes, All, ok,
}
use leafy.Text.{slice, ends_with, index_from, split}

abbrev pub Lacks : ℕ → Bytes → Type 0
Lacks c = All (λ d. d ≢ c)

pub index_from-append :
    (n : ℕ) (s rest : Bytes) (c : ℕ)
    → Lacks c s
    → index_from n (s ++ c ∷ rest) c ≡ pos (n + length s)
unfolding index_from
index_from-append n [] rest c h = ground arith
index_from-append n (d ∷ s) rest c (hd, hs) = ground (arith, index_from-append (n + 1) s rest c hs)

pub split-none : (s : Bytes) (sep : ℕ) → Lacks sep s → split s sep ≡ s ∷ []
unfolding split
split-none [] sep h = refl
split-none (c ∷ s) sep (hc, hs) = ground (arith, split-none s sep hs)

pub split-append :
    (s rest : Bytes) (sep : ℕ) → Lacks sep s → split (s ++ sep ∷ rest) sep ≡ s ∷ split rest sep
unfolding split
split-append [] rest sep h = ground arith
split-append (c ∷ s) rest sep (hc, hs) = ground (arith, split-append s rest sep hs)

take-append : (s rest : Bytes) → take (length s) (s ++ rest) ≡ s
take-append [] rest = refl
take-append (c ∷ s) rest = ap (λ t. c ∷ t) (take-append s rest)

drop-append : (s rest : Bytes) → drop (length s) (s ++ rest) ≡ rest
drop-append [] rest = refl
drop-append (c ∷ s) rest = drop-append s rest

-- The middle of a text, by its position.
pub slice-append :
    (before middle after : Bytes) (lo hi : ℕ)
    → lo ≡ length before
    → hi ≡ length before + length middle
    → slice (before ++ (middle ++ after)) (pos lo) (pos hi) ≡ ok middle
unfolding slice
slice-append before middle after lo hi el eh =
    let size : hi - lo ≡ length middle = omega arith in
    let whole : hi ≤ length (before ++ (middle ++ after)) =
      omega (arith, length-append before (middle ++ after), length-append middle after) in
    rw
      (
        le→leb lo hi (omega arith),
        le→leb hi _ whole,
        size,
        el,
        drop-append before (middle ++ after),
      )
      (ap ok (take-append middle after))

pub ends_with-last : (s : Bytes) (c : ℕ) → ends_with (s ++ c ∷ []) c ≡ true
unfolding ends_with
ends_with-last [] c = ground arith
ends_with-last (d ∷ []) c = ground arith
ends_with-last (d ∷ e ∷ s) c = ends_with-last (e ∷ s) c

pub ends_with-Lacks : (s : Bytes) (c : ℕ) → Lacks c s → ends_with s c ≡ false
unfolding ends_with
ends_with-Lacks [] c h = refl
ends_with-Lacks (d ∷ []) c h = ground arith
ends_with-Lacks (d ∷ e ∷ s) c (hd, hs) = ends_with-Lacks (e ∷ s) c hs
