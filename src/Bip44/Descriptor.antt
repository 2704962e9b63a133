-- ===== src/Bip44/Descriptor.antt =====
-- The taproot descriptor of a key (bip_44.go), without checksum: its three text forms, and
-- `ImportFromTaprootDescriptorForParentWithoutChecksum`, which reads one.
pub mod Layout
pub mod Import
use leafy.Prelude.{
  ℕ, Bool, ◌&&◌, not, List, [], ◌∷◌, ◌++◌, Option, none, some, ◌==◌, if◌then◌else◌, ℤ, pos, ◌+ℤ◌,
  ◌-ℤ◌, length, codes, Bytes, Result, ok, err, panic, deref, must, ensure, ◌>>=◌, ◌>>◌, Error,
}
use leafy.Text.{slice, has_prefix, index_from, split}
use leafy.Bip44.Path.{PathItem, get_derivation_value, parse_path}
use leafy.Bip44.Key.{Keychain, Bip44Key}

-- `p.getDerivationValue()`, which panics at nil.
unfoldable pub derivation_of : Option PathItem → Result Bytes
derivation_of item = do p ← deref item; ok (get_derivation_value p)

module _ {K : Type 0} where
  unfoldable pub get_parent_derivation : Bip44Key K → Result Bytes
  get_parent_derivation b = do
    purpose ← derivation_of b.purpose
    coin ← derivation_of b.coin
    account ← derivation_of b.account
    change ← derivation_of b.change
    ok (purpose ++ b'/' ∷ (coin ++ b'/' ∷ (account ++ b'/' ∷ change)))

  unfoldable pub get_derivation : Bip44Key K → Result Bytes
  get_derivation b = do
    parent ← get_parent_derivation b
    ok (parent ++ b'/' ∷ get_derivation_value b.index)

-- The suffix with a slash before it, unless it is empty or has one.
unfoldable pub slashed : Bytes → Bytes
slashed suffix =
    if not (has_prefix suffix (b'/' ∷ [])) && not (length suffix == 0)
    then b'/' ∷ suffix
    else suffix

-- `tr([%s/%s]%s%s)`
unfoldable pub tr_descriptor : Bytes → Bytes → Bytes → Bytes → Bytes
tr_descriptor fingerprint derivation epub suffix =
    codes "tr([" ++ (fingerprint ++ b'/' ∷ (derivation ++ b']' ∷ (epub ++ (suffix ++ b')' ∷ []))))

-- `purpose, err := parsePath(…)`, where `err` is overwritten unread: a failure leaves nil.
unfoldable pub unchecked : Result PathItem → Result (Option PathItem)
unchecked (ok p) = ok (some p)
unchecked (err e) = ok none
unchecked (panic fault) = panic fault

-- `len(derivations) != 4`
unfoldable pub four_parts : Bytes → List Bytes → Result (Bytes × Bytes × Bytes × Bytes)
four_parts path (a ∷ b ∷ c ∷ d ∷ []) = ok (a, b, c, d)
four_parts path _ = err (Error.invalid_derivations path)

module _ (keys : Keychain) where
  open keys use {ExtendedKey, neuter, derive, key_string, new_key_from_string}

  -- `GetTaprootDescriptorForParentWithoutChecksum`; the suffix does not reach the text.
  unfoldable pub get_taproot_descriptor_for_parent : Bip44Key ExtendedKey → Bytes → Result Bytes
  get_taproot_descriptor_for_parent b suffix_derivation = do
    epub ← must (neuter b.change_key)
    derivation ← get_parent_derivation b
    ok (tr_descriptor b.fingerprint derivation (key_string epub) [])

  -- `GetTaprootDescriptorWithoutChecksum`
  unfoldable pub get_taproot_descriptor : Bip44Key ExtendedKey → Bytes → Result Bytes
  get_taproot_descriptor b suffix_derivation = do
    epub ← must (neuter b.index_key)
    derivation ← get_derivation b
    ok (tr_descriptor b.fingerprint derivation (key_string epub) (slashed suffix_derivation))

  -- `GetTaprootParentDescriptorWithoutChecksum`
  unfoldable pub get_taproot_parent_descriptor : Bip44Key ExtendedKey → Bytes → Result Bytes
  get_taproot_parent_descriptor b suffix_derivation = do
    epub ← must (neuter b.change_key)
    derivation ← get_parent_derivation b
    ok (tr_descriptor b.fingerprint derivation (key_string epub) (slashed suffix_derivation))

  unfoldable pub import_from_taproot_descriptor : Bytes → PathItem → Result (Bip44Key ExtendedKey)
  import_from_taproot_descriptor descriptor index = do
    ensure (has_prefix descriptor (codes "tr([")) (Error.invalid_descriptor_prefix descriptor)
    fingerprint ← slice descriptor (pos 4) (pos 12)
    let end_index = index_from 0 descriptor b']'
    derivation_path ← slice descriptor (pos 13) end_index
    (a, b, c, d) ← four_parts derivation_path (split derivation_path b'/')
    purpose ← unchecked (parse_path a (codes "purpose"))
    coin ← unchecked (parse_path b (codes "coin"))
    account ← unchecked (parse_path c (codes "account"))
    change ← unchecked (parse_path d (codes "change"))
    change_epub ← slice descriptor (end_index +ℤ pos 1) (pos (length descriptor) -ℤ pos 1)
    change_key ← new_key_from_string change_epub
    index_key ← derive change_key index.path
    ok (record {
      change_key = change_key;
      index_key = index_key;
      fingerprint = fingerprint;
      purpose = purpose;
      coin = coin;
      account = account;
      change = change;
      index = index;
    })
