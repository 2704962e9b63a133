-- ===== src/Bip44/Descriptor/Import.antt =====
-- `ImportFromTaprootDescriptorForParentWithoutChecksum` (bip_44.go): what it makes of a descriptor,
-- the way back from an exported one, and what a malformed item does.
use leafy.Prelude.{
  ◌<◌, ◌^◌, ◌≡◌, sym, ◌∙◌, [], ◌∷◌, ◌++◌, append-nil, arith, Bool-cases, inl, inr, ◌⊎◌, some,
  length, codes, Bytes, All, All-append, ok, err, panic, ◌>>=◌, Error, Fault,
}
use leafy.Text.{format_uint32, has_prefix, split}
use leafy.Text.Cuts.{Lacks, split-append, split-none}
use leafy.Text.Decimal.{IsDigit, format_uint32-IsDigit}
use leafy.Bip44.Path.{PathItem, is_hardened, get_path, get_derivation_value, parse_path}
use leafy.Bip44.PathLaws.{digits-Lacks, digits-Lacks_above, parse_path-get_derivation_value}
use leafy.Bip44.Key.{Keychain, Bip44Key}
use leafy.Bip44.Descriptor.{
  derivation_of, get_parent_derivation, slashed, tr_descriptor, unchecked, four_parts,
  get_taproot_parent_descriptor, import_from_taproot_descriptor,
}
use leafy.Bip44.Descriptor.Layout.{
  has_prefix-text, fingerprint_slice, end_index, derivation_slice, epub_slice,
}

-- A text that can stand between the slashes of a descriptor's origin.
abbrev pub IsPart : Bytes → Type 0
IsPart s = Lacks b'/' s × Lacks b']' s

-- An item prints to such a text.
pub get_derivation_value-IsPart : (p : PathItem) → IsPart (get_derivation_value p)
unfolding get_derivation_value
get_derivation_value-IsPart p = elim (Bool-cases (is_hardened p.path)) [
  | inl hard ↦ rw hard (
    All-append _ digits (b'\'' ∷ []) (digits-Lacks digits b'/' (omega arith) are_digits)
        (omega arith),
    All-append _ digits (b'\'' ∷ []) (digits-Lacks_above digits b']' (omega arith) are_digits)
        (omega arith),
  )
  | inr soft ↦
      rw (soft, append-nil)
        (
          digits-Lacks digits b'/' (omega arith) are_digits,
          digits-Lacks_above digits b']' (omega arith) are_digits,
        )
]
  where
    digits : Bytes
    digits = format_uint32 (get_path p.path)

    are_digits : All IsDigit digits
    are_digits = format_uint32-IsDigit (get_path p.path)

abbrev pub path_text : Bytes → Bytes → Bytes → Bytes → Bytes
path_text a b c d = a ++ b'/' ∷ (b ++ b'/' ∷ (c ++ b'/' ∷ d))

split-path_text :
    (a b c d : Bytes)
    → IsPart a
    → IsPart b
    → IsPart c
    → IsPart d
    → split (path_text a b c d) b'/' ≡ a ∷ b ∷ c ∷ d ∷ []
split-path_text a b c d ha hb hc hd = rw (
  split-append a (b ++ b'/' ∷ (c ++ b'/' ∷ d)) b'/' ha.0,
  split-append b (c ++ b'/' ∷ d) b'/' hb.0,
  split-append c d b'/' hc.0,
  split-none d b'/' hd.0,
)

path_text-Lacks :
    (a b c d : Bytes) → IsPart a → IsPart b → IsPart c → IsPart d → Lacks b']' (path_text a b c d)
path_text-Lacks a b c d ha hb hc hd = All-append _ a (b'/' ∷ (b ++ b'/' ∷ (c ++ b'/' ∷ d))) ha.1 (
  omega arith,
  All-append _ b (b'/' ∷ (c ++ b'/' ∷ d)) hb.1
      (omega arith, All-append _ c (b'/' ∷ d) hc.1 (omega arith, hd.1)),
)

module _ (keys : Keychain) where
  open keys use {ExtendedKey, neuter, derive, key_string, new_key_from_string}

  -- A descriptor with four items in its origin is imported to the key that its text says; an item
  -- that does not parse becomes nil.
  import-text :
      (fingerprint a b c d epub : Bytes) (index : PathItem)
      → length fingerprint ≡ 8
      → Lacks b']' fingerprint
      → IsPart a
      → IsPart b
      → IsPart c
      → IsPart d
      → import_from_taproot_descriptor keys
          (tr_descriptor fingerprint (path_text a b c d) epub [])
          index
        ≡ (do
          purpose ← unchecked (parse_path a (codes "purpose"))
          coin ← unchecked (parse_path b (codes "coin"))
          account ← unchecked (parse_path c (codes "account"))
          change ← unchecked (parse_path d (codes "change"))
          change_key ← new_key_from_string epub
          index_key ← derive change_key index.path
          ok (record {
            change_key = change_key;
            index_key = index_key;
            fingerprint = fingerprint;
            purpose = purpose;
            coin = coin;
            account = account;
            change = change;
            index = index;
          }))
  unfolding import_from_taproot_descriptor four_parts
  import-text fingerprint a b c d epub index eight hf ha hb hc hd =
      let path = path_text a b c d in
      let hp = path_text-Lacks a b c d ha hb hc hd in
      rw (
        has_prefix-text fingerprint path epub eight hf hp,
        fingerprint_slice fingerprint path epub eight hf hp,
        end_index fingerprint path epub eight hf hp,
        derivation_slice fingerprint path epub eight hf hp,
        epub_slice fingerprint path epub eight hf hp,
        split-path_text a b c d ha hb hc hd,
      )

  -- A key whose origin is complete is exported, with an empty suffix, to a descriptor that imports,
  -- at any index, to the public half of the same parent: the same fingerprint and items, the neutered
  -- change key, and its child at the index. The keys' own text is assumed to be read back.
  pub import-export :
      (b : Bip44Key ExtendedKey) (purpose coin account change index : PathItem)
      (epub child : ExtendedKey)
      → length b.fingerprint ≡ 8
      → Lacks b']' b.fingerprint
      → b.purpose ≡ some purpose
      → b.coin ≡ some coin
      → b.account ≡ some account
      → b.change ≡ some change
      → purpose.path < 2 ^ 32
      → coin.path < 2 ^ 32
      → account.path < 2 ^ 32
      → change.path < 2 ^ 32
      → neuter b.change_key ≡ ok epub
      → new_key_from_string (key_string epub) ≡ ok epub
      → derive epub index.path ≡ ok child
      → (get_taproot_parent_descriptor keys b [] >>= λ text.
          import_from_taproot_descriptor keys text index)
        ≡ ok (record b { change_key = epub; index_key = child; index = index })
  unfolding get_taproot_parent_descriptor get_parent_derivation derivation_of slashed unchecked
      has_prefix
  import-export b p c a d index epub child eight hf bp bc ba bd hp hc ha hd neutered read child_ok =
      rw (bp, bc, ba, bd, neutered)
        (import-text b.fingerprint (get_derivation_value p) (get_derivation_value c)
            (get_derivation_value a) (get_derivation_value d) (key_string epub) index eight hf
            (get_derivation_value-IsPart p) (get_derivation_value-IsPart c)
            (get_derivation_value-IsPart a) (get_derivation_value-IsPart d)
          ∙ rw (
            parse_path-get_derivation_value p (codes "purpose") hp,
            parse_path-get_derivation_value c (codes "coin") hc,
            parse_path-get_derivation_value a (codes "account") ha,
            parse_path-get_derivation_value d (codes "change") hd,
            read,
            child_ok,
          ))

  -- An item that does not parse is not reported: if the import succeeds, the key has no item there,
  -- and the first call that prints its derivation panics at nil.
  pub import-malformed :
      (fingerprint a b c d epub : Bytes) (index : PathItem) (k : Bip44Key ExtendedKey) (e : Error)
      → length fingerprint ≡ 8
      → Lacks b']' fingerprint
      → IsPart a
      → IsPart b
      → IsPart c
      → IsPart d
      → (parse_path a (codes "purpose") ≡ err e)
        ⊎ (parse_path b (codes "coin") ≡ err e)
        ⊎ (parse_path c (codes "account") ≡ err e)
        ⊎ (parse_path d (codes "change") ≡ err e)
      → import_from_taproot_descriptor keys
          (tr_descriptor fingerprint (path_text a b c d) epub [])
          index
        ≡ ok k
      → get_parent_derivation k ≡ panic Fault.nil_dereference
  unfolding get_parent_derivation derivation_of unchecked
  import-malformed fingerprint a b c d epub index k e eight hf ha hb hc hd bad h =
      let run = sym (import-text fingerprint a b c d epub index eight hf ha hb hc hd) ∙ h in
      ground arith
