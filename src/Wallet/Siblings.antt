-- ===== src/Wallet/Siblings.antt =====
-- The key of a wallet at one index and at the next (leafy.go, bip_44.go).
use leafy.Prelude.{
  ℕ, ◌+◌, ◌^◌, ◌<◌, ◌≡◌, ap, some, Bytes, ok, >>=-eq-ok, ok_injective, map_err, Error, arith,
}
use leafy.Bip44.Path.{PathItem, path_item, path_hardened, copy, sibling_index, is_hardened}
use leafy.Bip44.Key.{Keychain, Bip44Key}
use leafy.Bip44.Derive.{create_bip44_key, derive_next_sibling, get_fingerprint}
use leafy.Library.{Library}
use leafy.Wallet.{get_bip44_key}

of_path : ℕ → PathItem
of_path path = record { path = path }

sibling_index-path :
    (i : ℕ) → i + 1 < 2 ^ 31 → (sibling_index (path_item i)).path ≡ (path_item (i + 1)).path
unfolding sibling_index path_item path_hardened is_hardened
sibling_index-path i h = ground arith

sibling_index-path_item : (i : ℕ) → i + 1 < 2 ^ 31 → sibling_index (path_item i) ≡ path_item (i + 1)
unfolding of_path
sibling_index-path_item i h = ap of_path (sibling_index-path i h)

module _ (keys : Keychain) where
  open keys use {ExtendedKey, PublicKey, derive, neuter, ec_pub_key}

  module _ (master : ExtendedKey) (purpose coin account change index : PathItem) where
    beside_parts :
        (epub : ExtendedKey) (pub_key : PublicKey) (fingerprint : Bytes)
        (purpose_key coin_key account_key change_key index_key : ExtendedKey)
        → map_err Error.invalid_master (neuter master) ≡ ok epub
        → map_err Error.invalid_master_epub (ec_pub_key epub) ≡ ok pub_key
        → get_fingerprint keys pub_key ≡ ok fingerprint
        → derive master purpose.path ≡ ok purpose_key
        → derive purpose_key coin.path ≡ ok coin_key
        → derive coin_key account.path ≡ ok account_key
        → derive account_key change.path ≡ ok change_key
        → derive_next_sibling keys (record {
          change_key = change_key;
          index_key = index_key;
          fingerprint = fingerprint;
          purpose = some purpose;
          coin = some coin;
          account = some account;
          change = some change;
          index = index;
        })
          ≡ create_bip44_key keys master purpose coin account change (sibling_index index)
    unfolding create_bip44_key derive_next_sibling copy
    beside_parts epub pub_key fingerprint k1 k2 k3 k4 k5 e1 e2 e3 e4 e5 e6 e7 =
        rw (e1, e2, e3, e4, e5, e6, e7)

  -- The key beside one that was made at an index is the one made at the next index.
  create_bip44_key-next :
      (master : ExtendedKey) (purpose coin account change index : PathItem)
      (k : Bip44Key ExtendedKey)
      → create_bip44_key keys master purpose coin account change index ≡ ok k
      → derive_next_sibling keys k
        ≡ create_bip44_key keys master purpose coin account change (sibling_index index)
  unfolding create_bip44_key
  create_bip44_key-next master purpose coin account change index k h =
      let (epub, e1, h1) = >>=-eq-ok (map_err Error.invalid_master (neuter master)) _ h in
      let (pub_key, e2, h2) =
        >>=-eq-ok (map_err Error.invalid_master_epub (ec_pub_key epub)) _ h1 in
      let (fingerprint, e3, h3) = >>=-eq-ok (get_fingerprint keys pub_key) _ h2 in
      let (purpose_key, e4, h4) = >>=-eq-ok (derive master purpose.path) _ h3 in
      let (coin_key, e5, h5) = >>=-eq-ok (derive purpose_key coin.path) _ h4 in
      let (account_key, e6, h6) = >>=-eq-ok (derive coin_key account.path) _ h5 in
      let (change_key, e7, h7) = >>=-eq-ok (derive account_key change.path) _ h6 in
      let (index_key, e8, h8) = >>=-eq-ok (derive change_key index.path) _ h7 in
      rw (← ok_injective h8) (
        beside_parts master purpose coin account change index epub pub_key fingerprint purpose_key
          coin_key account_key change_key index_key e1 e2 e3 e4 e5 e6 e7)

module _ (lib : Library) (params : lib.tx.Params) where
  open lib use {keys, tx, entropy_from_mnemonic, new_master}

  -- For an index below the hardened half, the sibling of a wallet's key is the wallet's key at the
  -- next index; where one cannot be derived, neither can the other, with the same error.
  pub get_bip44_key-next :
      (mnemonic : Bytes) (i : ℕ) (k : Bip44Key keys.ExtendedKey)
      → i + 1 < 2 ^ 31
      → get_bip44_key lib mnemonic params i ≡ ok k
      → derive_next_sibling keys k ≡ get_bip44_key lib mnemonic params (i + 1)
  unfolding get_bip44_key
  get_bip44_key-next mnemonic i k small h =
      let (seed, e1, h1) = >>=-eq-ok (entropy_from_mnemonic mnemonic) _ h in
      let (master, e2, h2) = >>=-eq-ok (new_master seed params) _ h1 in
      rw (e1, e2, ← sibling_index-path_item i small)
        (create_bip44_key-next keys master (path_hardened 44) (path_hardened 0) (path_hardened 0)
          (path_item 0) (path_item i) k h2)
