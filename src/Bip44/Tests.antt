-- ===== src/Bip44/Tests.antt =====
-- The theorems on bip_44.go at small inputs, with keys that are numbers.
use leafy.Prelude.{
  ◌≤◌, ℕ, ◌+◌, ◌*◌, ◌%◌, ◌^◌, ◌<◌, ◌-◌, ◌+ℤ◌, ◌-ℤ◌, ◌≡◌, refl, true, false, [], ◌∷◌, replicate,
  length, arith, some, none, inl, Bytes, codes, Result, ok, err, panic, ◌>>=◌, Error, Fault, All,
}
use leafy.Hex.{hex_decode}
use leafy.Hex.RoundTrip.{IsByte}
use leafy.Text.{
  slice, has_prefix, index_from, split, cons_head, ends_with, parse_uint32, scan_uint32,
}
use leafy.Text.Cuts.{Lacks}
use leafy.Bip44.Path.{
  PathItem, is_hardened, get_path, path_item, path_hardened, sibling_index, get_derivation_value,
  parse_path, without_last, copy,
}
use leafy.Bip44.PathLaws.{path_items, sibling_index-next, parse_path-get_derivation_value}
use leafy.Bip44.Key.{Keychain, Bip44Key}
use leafy.Bip44.Derive.{
  get_fingerprint, create_bip44_key, copy_with_new_master, derive_next_sibling,
}
use leafy.Bip44.DeriveLaws.{
  IsHexDigit, get_fingerprint-IsHexDigit, copy_with_new_master-create, derive_next_sibling-eq-ok,
}
use leafy.Bip44.Descriptor.{
  tr_descriptor, four_parts, unchecked, get_parent_derivation, get_taproot_parent_descriptor,
  import_from_taproot_descriptor,
}
use leafy.Bip44.Descriptor.Import.{path_text, import-export, import-malformed}

abbrev keys : Keychain
keys = record {
  ExtendedKey = ℕ;
  PublicKey = ℕ;
  PrivateKey = ℕ;
  derive = λ k i. ok (10 * k + i % 10);
  neuter = λ k. ok (k + 1000);
  ec_pub_key = λ k. ok k;
  ec_priv_key = λ k. ok k;
  key_string = λ k. k ∷ [];
  new_key_from_string = read_key;
  serialize_compressed = λ k. k ∷ [];
  hash160 = λ s. replicate 20 171;
}
  where
    read_key : Bytes → Result ℕ
    read_key (k ∷ []) = ok k
    read_key _ = err Error.invalid_public_key

abbrev item : ℕ → PathItem
item n = record { path = n }

abbrev hard : ℕ → PathItem
hard n = record { path = 2 ^ 31 + n }

abbrev key : Bip44Key ℕ
key = record {
  change_key = 5;
  index_key = 53;
  fingerprint = replicate 8 b'a';
  purpose = some (hard 44);
  coin = some (hard 0);
  account = some (hard 0);
  change = some (item 0);
  index = item 3;
}

path_items_example :
    (is_hardened (path_item (2 ^ 31 + 44)).path ≡ false)
    × (get_path (path_item (2 ^ 31 + 44)).path ≡ (2 ^ 31 + 44) % 2 ^ 31)
    × (is_hardened (path_hardened (2 ^ 31 + 44)).path ≡ true)
    × (get_path (path_hardened (2 ^ 31 + 44)).path ≡ (2 ^ 31 + 44) % 2 ^ 31)
    × ((path_hardened (2 ^ 31 + 44)).path < 2 ^ 32)
path_items_example = path_items (2 ^ 31 + 44) (omega arith)

-- The last index of the lower half goes round to 0.
sibling_index-next_example :
    (is_hardened (sibling_index (item (2 ^ 31 - 1))).path ≡ is_hardened (2 ^ 31 - 1))
    × (get_path (sibling_index (item (2 ^ 31 - 1))).path ≡ (get_path (2 ^ 31 - 1) + 1) % 2 ^ 31)
    × ((sibling_index (item (2 ^ 31 - 1))).path < 2 ^ 32)
sibling_index-next_example = sibling_index-next (item (2 ^ 31 - 1)) (omega arith)

parse_path-get_derivation_value_example :
    parse_path (get_derivation_value (hard 44)) (codes "purpose") ≡ ok (hard 44)
parse_path-get_derivation_value_example =
    parse_path-get_derivation_value (hard 44) (codes "purpose") (omega arith)

twenty_bytes : All IsByte (replicate 20 171)
twenty_bytes = omega arith

get_fingerprint-IsHexDigit_example :
    (fingerprint : Bytes) × (get_fingerprint keys 7 ≡ ok fingerprint)
    × (length fingerprint ≡ 8)
    × All IsHexDigit fingerprint
    × (hex_decode fingerprint ≡ ok (replicate 4 171))
get_fingerprint-IsHexDigit_example = get_fingerprint-IsHexDigit keys 7 refl twenty_bytes

copy_with_new_master-create_example :
    copy_with_new_master keys key 9
    ≡ create_bip44_key keys 9 (hard 44) (hard 0) (hard 0) (item 0) (item 3)
copy_with_new_master-create_example =
    copy_with_new_master-create keys key 9 (hard 44) (hard 0) (hard 0) (item 0) refl refl refl refl

-- At the last index of the lower half the sibling is at index 0.
abbrev last_key : Bip44Key ℕ
last_key = record key { index = item (2 ^ 31 - 1) }

abbrev first_key : Bip44Key ℕ
first_key = record key { index_key = 50; index = item 0 }

sibling_of_last : derive_next_sibling keys last_key ≡ ok first_key
unfolding derive_next_sibling sibling_index path_item path_hardened is_hardened copy
sibling_of_last = refl

derive_next_sibling-eq-ok_example :
    (last_key.index.path < 2 ^ 31 → first_key.index.path ≡ (last_key.index.path + 1) % 2 ^ 31)
    × (2 ^ 31 ≤ last_key.index.path
        → first_key.index.path ≡ 2 ^ 31 + (last_key.index.path - 2 ^ 31 + 1) % 2 ^ 31)
    × (keys.derive 5 0 ≡ ok first_key.index_key)
    × (first_key.change_key ≡ key.change_key)
    × (first_key.fingerprint ≡ key.fingerprint)
    × (first_key.purpose ≡ key.purpose)
    × (first_key.coin ≡ key.coin)
    × (first_key.account ≡ key.account)
    × (first_key.change ≡ key.change)
derive_next_sibling-eq-ok_example =
    derive_next_sibling-eq-ok keys last_key first_key (omega arith) sibling_of_last

no_bracket : Lacks b']' (replicate 8 b'a')
no_bracket = omega arith

-- A purpose that is no number.
abbrev half_read : Bip44Key ℕ
half_read = record key { purpose = none; change = some (item 0); index_key = 53 }

abbrev no_number : Error
no_number = Error.invalid_path (codes "purpose") Error.invalid_syntax

malformed : parse_path (b'x' ∷ []) (codes "purpose") ≡ err no_number
unfolding parse_path ends_with parse_uint32 scan_uint32
malformed = refl

half_imported :
    import_from_taproot_descriptor keys
      (tr_descriptor
        (replicate 8 b'a')
        (path_text (codes "x") (codes "0'") (codes "0'") (codes "0"))
        (5 ∷ [])
        [])
      (item 3)
    ≡ ok (record half_read { coin = some (hard 0); account = some (hard 0) })
unfolding import_from_taproot_descriptor tr_descriptor four_parts unchecked slice has_prefix
    index_from split cons_head parse_path ends_with parse_uint32 scan_uint32 without_last path_item
    path_hardened is_hardened ◌+ℤ◌ ◌-ℤ◌
half_imported = refl

import-malformed_example : get_parent_derivation half_read ≡ panic Fault.nil_dereference
import-malformed_example =
    import-malformed keys (replicate 8 b'a') (codes "x") (codes "0'") (codes "0'") (codes "0")
      (5 ∷ []) (item 3) half_read no_number refl no_bracket (omega arith) (omega arith)
      (omega arith) (omega arith) (inl malformed) half_imported

import-export_example :
    (get_taproot_parent_descriptor keys key [] >>= λ text.
    import_from_taproot_descriptor keys text (item 7))
    ≡ ok (record key { change_key = 1005; index_key = 10057; index = item 7 })
import-export_example =
    import-export keys key (hard 44) (hard 0) (hard 0) (item 0) (item 7) 1005 10057 refl no_bracket
      refl refl refl refl (omega arith) (omega arith) (omega arith) (omega arith) refl refl refl
