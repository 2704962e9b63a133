-- ===== src/Address.antt =====
-- The addresses of a wallet (leafy.go): the second key tweaked by the first, over a script tree
-- whose only leaf lets the first key spend once the timelock has passed.
pub mod Tweaks
pub mod Leaves
mod Tests
use leafy.Prelude.{
  ℕ, zero, suc, List, [], ◌∷◌, leb, pos, Bytes, Result, ok, ensure, ◌>>=◌, ◌>>◌, Error,
}
use leafy.Bip44.Path.{path_item}
use leafy.Bip44.Key.{Bip44Key, get_public_key, get_private_key}
use leafy.Bip44.Derive.{derive_next_sibling}
use leafy.Bip44.Descriptor.{import_from_taproot_descriptor}
use leafy.Script.{
  TapscriptSigningData, TapscriptBuilder, new_tapscript_builder, add_leaf_script, builder_address,
  to_sign, get_merkle_root, create_tapscript_timelock_from_key,
}
use leafy.Wallet.{RecoveryWallet, get_first_mnemonic, get_second_descriptor, get_bip44_key}
use leafy.Library.{Library}

-- `timelock` is the package's variable `Timelock`.
module _ (lib : Library) (timelock : ℕ) where
  open lib use {keys, tx, sha256}

  -- What `createTweakedAddressFromTweakedPublicKey` returns.
  pub record TweakedAddress : Type 0 where
    pub address : tx.Address
    pub internal_key : keys.PublicKey
    pub merkle_root : Bytes
    pub tapscript_data : TapscriptSigningData tx

  -- `scriptTweakBuilder`
  unfoldable pub script_tweak_builder :
      tx.Params → keys.PublicKey → keys.PublicKey → Result (TapscriptBuilder tx)
  script_tweak_builder params internal_key first_public_key = do
    timelock_key_script ←
        create_tapscript_timelock_from_key tx params (pos timelock) first_public_key
    ok (add_leaf_script tx timelock_key_script (new_tapscript_builder tx internal_key))

  unfoldable pub create_tweaked_address_from_tweaked_public_key :
      tx.Params → keys.PublicKey → keys.PrivateKey → Result TweakedAddress
  create_tweaked_address_from_tweaked_public_key params tweaked_public_key first_key = do
    builder ← script_tweak_builder params tweaked_public_key (tx.pub_key first_key)
    tapscript_address ← builder_address tx builder params
    tapscript_data ← to_sign tx 0 builder
    ok (record {
      address = tapscript_address;
      internal_key = builder.internal_key;
      merkle_root = get_merkle_root tx builder;
      tapscript_data = tapscript_data;
    })

  unfoldable pub compute_hash_raw : Bytes → Bytes
  compute_hash_raw bytes = sha256 bytes

  -- The address with the private key that spends it by the key path, before the script tweak.
  unfoldable pub create_tweaked_address :
      tx.Params → keys.PrivateKey → keys.PrivateKey → Result (TweakedAddress × keys.PrivateKey)
  create_tweaked_address params second_key first_key = do
    let hash = compute_hash_raw (tx.serialize_private first_key)
    let tweaked_private_key = tx.tweak_taproot_priv_key second_key hash
    t ←
        create_tweaked_address_from_tweaked_public_key params (tx.pub_key tweaked_private_key)
          first_key
    ok (t, tweaked_private_key)

  unfoldable pub create_tweaked_address_from_public_key :
      tx.Params → keys.PublicKey → keys.PrivateKey → Result TweakedAddress
  create_tweaked_address_from_public_key params second_public_key first_key =
      let hash = compute_hash_raw (tx.serialize_private first_key) in
      create_tweaked_address_from_tweaked_public_key params
        (tx.compute_taproot_output_key second_public_key hash) first_key

  -- The loop of `GetAddresses`, by the addresses that are left.
  unfoldable pub addresses_from :
      tx.Params → ℕ → Bip44Key keys.ExtendedKey → Bip44Key keys.ExtendedKey → Result (List Bytes)
  addresses_from params zero first_key second_key = ok []
  addresses_from params (suc n) first_key second_key = do
    first_private_key ← get_private_key keys first_key
    second_public_key ← get_public_key keys second_key
    t ← create_tweaked_address_from_public_key params second_public_key first_private_key
    first_key' ← derive_next_sibling keys first_key
    second_key' ← derive_next_sibling keys second_key
    rest ← addresses_from params n first_key' second_key'
    ok (tx.encode_address t.address ∷ rest)

  unfoldable pub get_addresses : tx.Params → RecoveryWallet → ℕ → ℕ → Result (List Bytes)
  get_addresses params wallet start_index num = do
    ensure (leb 1 num) (Error.invalid_address_count num)
    first_key ← get_bip44_key lib (get_first_mnemonic wallet) params start_index
    second_descriptor ← get_second_descriptor lib wallet params
    second_key ← import_from_taproot_descriptor keys second_descriptor (path_item start_index)
    addresses_from params num first_key second_key
