-- ===== src/Bip44/Descriptor/Layout.antt =====
-- Where the parts of a descriptor stand in its text (bip_44.go): the positions that
-- `ImportFromTaprootDescriptorForParentWithoutChecksum` cuts at.
use leafy.Prelude.{
  ℕ, ◌+◌, ◌≡◌, refl, sym, ap, ◌∙◌, true, [], ◌∷◌, ◌++◌, append_assoc, arith, pos, ◌+ℤ◌, ◌-ℤ◌,
  length, length-append, codes, Bytes, All-append, ok,
}
use leafy.Text.{slice, has_prefix, index_from}
use leafy.Text.Cuts.{Lacks, index_from-append, slice-append}
use leafy.Bip44.Descriptor.{tr_descriptor}

+ℤ-pos : (a b : ℕ) → pos a +ℤ pos b ≡ pos (a + b)
unfolding ◌+ℤ◌
+ℤ-pos a b = ground arith

-ℤ-suc : (a : ℕ) → pos (a + 1) -ℤ pos 1 ≡ pos a
unfolding ◌-ℤ◌
-ℤ-suc a = ground arith

module _ (fingerprint derivation epub : Bytes) (eight : length fingerprint ≡ 8)
    (no_bracket : Lacks b']' fingerprint) (no_bracket' : Lacks b']' derivation) where
  abbrev text : Bytes
  text = tr_descriptor fingerprint derivation epub []

  -- Up to the bracket that closes the origin.
  abbrev head : Bytes
  head = codes "tr([" ++ (fingerprint ++ b'/' ∷ derivation)

  length-head : length head ≡ 13 + length derivation
  length-head = omega (arith, length-append {0} fingerprint (b'/' ∷ derivation))

  pub has_prefix-text : has_prefix text (codes "tr([") ≡ true
  unfolding tr_descriptor has_prefix
  has_prefix-text = refl

  pub fingerprint_slice : slice text (pos 4) (pos 12) ≡ ok fingerprint
  unfolding tr_descriptor
  fingerprint_slice =
      slice-append (codes "tr([") fingerprint (b'/' ∷ (derivation ++ b']' ∷ (epub ++ b')' ∷ []))) 4
        12 refl (omega arith)

  text-head : text ≡ head ++ b']' ∷ (epub ++ b')' ∷ [])
  unfolding tr_descriptor
  text-head = simp append_assoc

  head-Lacks : Lacks b']' head
  head-Lacks =
      All-append _ (codes "tr([") (fingerprint ++ b'/' ∷ derivation) (omega arith)
        (All-append _ fingerprint (b'/' ∷ derivation) no_bracket (omega arith, no_bracket'))

  pub end_index : index_from 0 text b']' ≡ pos (13 + length derivation)
  end_index =
      rw (text-head, index_from-append 0 head (epub ++ b')' ∷ []) b']' head-Lacks)
        (ap pos (omega (arith, length-head)))

  pub derivation_slice : slice text (pos 13) (pos (13 + length derivation)) ≡ ok derivation
  unfolding tr_descriptor
  derivation_slice = rw (regroup) (
      slice-append (codes "tr([" ++ (fingerprint ++ b'/' ∷ [])) derivation
        (b']' ∷ (epub ++ b')' ∷ [])) 13 (13 + length derivation) (sym origin)
        (omega (arith, origin)))
    where
      origin : length (codes "tr([" ++ (fingerprint ++ b'/' ∷ [])) ≡ 13
      origin = omega (arith, length-append {0} fingerprint (b'/' ∷ []))

      regroup :
          text
          ≡ (codes "tr([" ++ (fingerprint ++ b'/' ∷ []))
            ++ (derivation ++ (b']' ∷ (epub ++ b')' ∷ [])))
      regroup = simp append_assoc

  -- The key stands between the bracket and the last byte.
  pub epub_slice :
      slice text (pos (13 + length derivation) +ℤ pos 1) (pos (length text) -ℤ pos 1) ≡ ok epub
  epub_slice =
      rw
        (
          +ℤ-pos (13 + length derivation) 1,
          size,
          -ℤ-suc (14 + length derivation + length epub),
          regroup,
        )
        (slice-append (head ++ b']' ∷ []) epub (b')' ∷ []) (13 + length derivation + 1)
          (14 + length derivation + length epub) (omega (arith, before)) (omega (arith, before)))
    where
      before : length (head ++ b']' ∷ []) ≡ 14 + length derivation
      before = omega (arith, length-append {0} head (b']' ∷ []), length-head)

      regroup : text ≡ (head ++ b']' ∷ []) ++ (epub ++ b')' ∷ [])
      regroup = text-head ∙ sym (append_assoc head (b']' ∷ []) (epub ++ b')' ∷ []))

      size : length text ≡ 14 + length derivation + length epub + 1
      size = omega (
        arith,
        ap length regroup,
        length-append {0} (head ++ b']' ∷ []) (epub ++ b')' ∷ []),
        length-append {0} epub (b')' ∷ []),
        before,
      )
