-- ===== src/Bip44/Key.antt =====
-- `Bip44Key` (bip_44.go), its accessors, and what package hdkeychain does for it.
use leafy.Prelude.{ℕ, Bool, Option, Bytes, Result, ok, deref, ◌>>=◌}
use leafy.Bip44.Path.{PathItem, is_hardened, get_path}

-- The operations of hdkeychain, btcec and btcutil that a key is made with.
pub record Keychain : Type 1 where
  pub ExtendedKey : Type 0
  pub PublicKey : Type 0
  pub PrivateKey : Type 0
  -- `Derive`, `Neuter`, `ECPubKey`, `ECPrivKey` and `String` of an extended key
  pub derive : ExtendedKey → ℕ → Result ExtendedKey
  pub neuter : ExtendedKey → Result ExtendedKey
  pub ec_pub_key : ExtendedKey → Result PublicKey
  pub ec_priv_key : ExtendedKey → Result PrivateKey
  pub key_string : ExtendedKey → Bytes
  -- `hdkeychain.NewKeyFromString`
  pub new_key_from_string : Bytes → Result ExtendedKey
  -- `SerializeCompressed`, `btcutil.Hash160`
  pub serialize_compressed : PublicKey → Bytes
  pub hash160 : Bytes → Bytes

-- The first four path items are pointers that an imported key may leave nil; the index never is.
pub record Bip44Key (K : Type 0) : Type 0 where
  pub change_key : K
  pub index_key : K
  pub fingerprint : Bytes
  pub purpose : Option PathItem
  pub coin : Option PathItem
  pub account : Option PathItem
  pub change : Option PathItem
  pub index : PathItem

-- `item.path`, which panics at nil.
unfoldable pub raw : Option PathItem → Result ℕ
raw item = do p ← deref item; ok p.path

-- `isHardened(item.path)` and `getPath(item.path)`
unfoldable pub hardened_of : Option PathItem → Result Bool
unfolding raw
hardened_of item = do path ← raw item; ok (is_hardened path)

unfoldable pub value_of : Option PathItem → Result ℕ
unfolding raw
value_of item = do path ← raw item; ok (get_path path)

module _ {K : Type 0} where
  unfoldable pub get_purpose_raw : Bip44Key K → Result ℕ
  unfolding raw
  get_purpose_raw b = raw b.purpose

  unfoldable pub is_purpose_hardened : Bip44Key K → Result Bool
  unfolding hardened_of
  is_purpose_hardened b = hardened_of b.purpose

  unfoldable pub get_purpose : Bip44Key K → Result ℕ
  unfolding value_of
  get_purpose b = value_of b.purpose

  unfoldable pub get_coin_raw : Bip44Key K → Result ℕ
  unfolding raw
  get_coin_raw b = raw b.coin

  unfoldable pub is_coin_hardened : Bip44Key K → Result Bool
  unfolding hardened_of
  is_coin_hardened b = hardened_of b.coin

  unfoldable pub get_coin : Bip44Key K → Result ℕ
  unfolding value_of
  get_coin b = value_of b.coin

  unfoldable pub get_account_raw : Bip44Key K → Result ℕ
  unfolding raw
  get_account_raw b = raw b.account

  unfoldable pub is_account_hardened : Bip44Key K → Result Bool
  unfolding hardened_of
  is_account_hardened b = hardened_of b.account

  unfoldable pub get_account : Bip44Key K → Result ℕ
  unfolding value_of
  get_account b = value_of b.account

  unfoldable pub get_change_raw : Bip44Key K → Result ℕ
  unfolding raw
  get_change_raw b = raw b.change

  unfoldable pub is_change_hardened : Bip44Key K → Result Bool
  unfolding hardened_of
  is_change_hardened b = hardened_of b.change

  unfoldable pub get_change : Bip44Key K → Result ℕ
  unfolding value_of
  get_change b = value_of b.change

  unfoldable pub get_index_raw : Bip44Key K → ℕ
  get_index_raw b = b.index.path

  unfoldable pub is_index_hardened : Bip44Key K → Bool
  is_index_hardened b = is_hardened b.index.path

  unfoldable pub get_index : Bip44Key K → ℕ
  get_index b = get_path b.index.path

  unfoldable pub get_fingerprint_of : Bip44Key K → Bytes
  get_fingerprint_of b = b.fingerprint

module _ (keys : Keychain) where
  open keys use {ExtendedKey, PublicKey, PrivateKey, ec_pub_key, ec_priv_key}

  unfoldable pub get_public_key : Bip44Key ExtendedKey → Result PublicKey
  get_public_key b = ec_pub_key b.index_key

  unfoldable pub get_private_key : Bip44Key ExtendedKey → Result PrivateKey
  get_private_key b = ec_priv_key b.index_key
