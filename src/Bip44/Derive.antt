-- ===== src/Bip44/Derive.antt =====
-- How a key is made (bip_44.go): `CreateBip44Key`, `CopyWithNewMaster`, `DeriveNextSibling`.
use leafy.Prelude.{some, pos, Bytes, Result, ok, deref, map_err, ◌>>=◌, Error}
use leafy.Hex.{hex_encode}
use leafy.Text.{slice}
use leafy.Bip44.Path.{PathItem, copy, sibling_index}
use leafy.Bip44.Key.{Keychain, Bip44Key}

module _ (keys : Keychain) where
  open keys use {ExtendedKey, PublicKey, derive, neuter, ec_pub_key, serialize_compressed, hash160}

  unfoldable pub get_fingerprint : PublicKey → Result Bytes
  get_fingerprint epub = do
    bytes ← slice (hash160 (serialize_compressed epub)) (pos 0) (pos 4)
    ok (hex_encode bytes)

  unfoldable pub create_bip44_key :
      ExtendedKey
      → PathItem
      → PathItem
      → PathItem
      → PathItem
      → PathItem
      → Result (Bip44Key ExtendedKey)
  create_bip44_key master purpose coin account change index = do
    master_epub ← map_err Error.invalid_master (neuter master)
    pub_key ← map_err Error.invalid_master_epub (ec_pub_key master_epub)
    fingerprint ← get_fingerprint pub_key
    purpose_key ← derive master purpose.path
    coin_key ← derive purpose_key coin.path
    account_key ← derive coin_key account.path
    change_key ← derive account_key change.path
    index_key ← derive change_key index.path
    ok (record {
      change_key = change_key;
      index_key = index_key;
      fingerprint = fingerprint;
      purpose = some purpose;
      coin = some coin;
      account = some account;
      change = some change;
      index = index;
    })

  -- A nil item panics at its `path`, in the middle of the derivation.
  unfoldable pub copy_with_new_master :
      Bip44Key ExtendedKey → ExtendedKey → Result (Bip44Key ExtendedKey)
  copy_with_new_master b master = do
    master_epub ← map_err Error.invalid_master (neuter master)
    pub_key ← map_err Error.invalid_master_epub (ec_pub_key master_epub)
    fingerprint ← get_fingerprint pub_key
    purpose ← deref b.purpose
    purpose_key ← derive master purpose.path
    coin ← deref b.coin
    coin_key ← derive purpose_key coin.path
    account ← deref b.account
    account_key ← derive coin_key account.path
    change ← deref b.change
    change_key ← derive account_key change.path
    index_key ← derive change_key b.index.path
    ok (record {
      change_key = change_key;
      index_key = index_key;
      fingerprint = fingerprint;
      purpose = some (copy purpose);
      coin = some (copy coin);
      account = some (copy account);
      change = some (copy change);
      index = copy b.index;
    })

  -- The copies of the other items come last, so that a nil item panics only once the sibling exists.
  unfoldable pub derive_next_sibling : Bip44Key ExtendedKey → Result (Bip44Key ExtendedKey)
  derive_next_sibling b = do
    sibling ← derive b.change_key (sibling_index b.index).path
    purpose ← deref b.purpose
    coin ← deref b.coin
    account ← deref b.account
    change ← deref b.change
    ok (record {
      change_key = b.change_key;
      index_key = sibling;
      fingerprint = b.fingerprint;
      purpose = some (copy purpose);
      coin = some (copy coin);
      account = some (copy account);
      change = some (copy change);
      index = sibling_index b.index;
    })
