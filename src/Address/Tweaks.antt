-- ===== src/Address/Tweaks.antt =====
-- The addresses of leafy.go and the keys that spend them.
use leafy.Prelude.{
  first_result, first_result-pair, ℕ, zero, suc, ◌≡◌, ap, sym, List, some, Bytes, length, ok, pos,
  leb, ◌≤◌, ensure, Error, >>=-eq-ok, ok_injective, arith,
}
use leafy.Bip44.Key.{Bip44Key, get_public_key, get_private_key}
use leafy.Bip44.Derive.{derive_next_sibling}
use leafy.Script.{
  TapscriptBuilder, new_tapscript_builder, add_leaf_script, create_tapscript_timelock_from_key,
  get_merkle_root, builder_address, to_sign,
}
use leafy.Signer.{with_script, tweaked_by}
use leafy.Wallet.{RecoveryWallet, get_first_mnemonic, get_second_descriptor, get_bip44_key}
use leafy.Bip44.Path.{path_item}
use leafy.Bip44.Descriptor.{import_from_taproot_descriptor}
use leafy.Library.{Library}
use leafy.Address.{
  TweakedAddress, script_tweak_builder, create_tweaked_address_from_tweaked_public_key,
  create_tweaked_address, create_tweaked_address_from_public_key, addresses_from, get_addresses,
  compute_hash_raw,
}

module _ (lib : Library) where
  open lib use {keys, tx}

  -- What package txscript promises of a tweaked key.
  abbrev pub TweakCommutes : Type 0
  TweakCommutes =
      (k : keys.PrivateKey) (root : Bytes)
      → tx.pub_key (tx.tweak_taproot_priv_key k root)
        ≡ tx.compute_taproot_output_key (tx.pub_key k) root

  module _ (timelock : ℕ) (params : tx.Params) where
    -- Whoever has the second key itself and whoever has only its public half make the same address,
    -- or fail alike.
    pub create_tweaked_address-public :
        (commutes : TweakCommutes) (second_key first_key : keys.PrivateKey)
        → first_result (create_tweaked_address lib timelock params second_key first_key)
          ≡ create_tweaked_address_from_public_key lib timelock params
              (tx.pub_key second_key)
              first_key
    unfolding create_tweaked_address create_tweaked_address_from_public_key
    create_tweaked_address-public commutes second_key first_key =
        let hash = compute_hash_raw lib timelock (tx.serialize_private first_key) in
        rw (sym (commutes second_key hash)) (
          first_result-pair
            (create_tweaked_address_from_tweaked_public_key lib timelock params
              (tx.pub_key (tx.tweak_taproot_priv_key second_key hash)) first_key)
            (tx.tweak_taproot_priv_key second_key hash))

    -- The builder keeps the key it starts from.
    script_tweak_builder-internal_key :
        (internal_key first_public_key : keys.PublicKey) (b : TapscriptBuilder tx)
        → script_tweak_builder lib timelock params internal_key first_public_key ≡ ok b
        → b.internal_key ≡ internal_key
    unfolding script_tweak_builder new_tapscript_builder add_leaf_script
    script_tweak_builder-internal_key internal_key first_public_key b h =
        let (script, built, done) =
          >>=-eq-ok (create_tapscript_timelock_from_key tx params (pos timelock) first_public_key) _
            h in
        rw (← ok_injective done)

    -- The address is that of the output key, which is the internal key tweaked by the root.
    from_tweaked-address :
        (internal_key : keys.PublicKey) (first_key : keys.PrivateKey)
        (t : TweakedAddress lib timelock)
        → create_tweaked_address_from_tweaked_public_key lib timelock params internal_key first_key
          ≡ ok t
        → tx.new_address_taproot
            (tx.serialize_pub_key (tx.compute_taproot_output_key internal_key t.merkle_root))
            params
          ≡ ok t.address
    unfolding create_tweaked_address_from_tweaked_public_key builder_address get_merkle_root
    from_tweaked-address internal_key first_key t h =
        let (b, built, h1) =
          >>=-eq-ok (script_tweak_builder lib timelock params internal_key (tx.pub_key first_key)) _
            h in
        let (a, addressed, h2) = >>=-eq-ok (builder_address tx b params) _ h1 in
        let (signing, proved, h3) = >>=-eq-ok (to_sign tx 0 b) _ h2 in
        let same = script_tweak_builder-internal_key internal_key (tx.pub_key first_key) b built in
        let same_t = ok_injective h3 in
        let root : get_merkle_root tx b ≡ t.merkle_root = ap (λ r. r.merkle_root) same_t in
        let addr : a ≡ t.address = ap (λ r. r.address) same_t in cc

    -- The private key that comes with an address spends it by the key path: tweaked by the root as
    -- `get_tweaked_private_key` does it, its public key is the one that the address encodes.
    pub create_tweaked_address-key :
        (commutes : TweakCommutes) (second_key first_key key : keys.PrivateKey)
        (t : TweakedAddress lib timelock)
        → create_tweaked_address lib timelock params second_key first_key ≡ ok (t, key)
        → tx.new_address_taproot
            (tx.serialize_pub_key (tx.pub_key (tweaked_by tx with_script (some t.merkle_root) key)))
            params
          ≡ ok t.address
    unfolding create_tweaked_address tweaked_by
    create_tweaked_address-key commutes second_key first_key key t h =
        let (t', made, done) =
          >>=-eq-ok (create_tweaked_address_from_tweaked_public_key lib timelock params _ first_key)
            _ h in
        let same_t : t' ≡ t = cc in
        let same_key : tx.tweak_taproot_priv_key second_key
              (compute_hash_raw lib timelock (tx.serialize_private first_key))
            ≡ key =
          cc in
        rw (commutes key t.merkle_root, ← same_key, ← same_t)
          (from_tweaked-address _ first_key t' made)

    ensure-positive : (n : ℕ) (e : Error) {u : Unit {0}} → ensure (leb 1 n) e ≡ ok u → 1 ≤ n
    ensure-positive zero e h = cc
    ensure-positive (suc n) e h = omega arith

    addresses_from-length :
        (n : ℕ) (first second : Bip44Key keys.ExtendedKey) (found : List Bytes)
        → addresses_from lib timelock params n first second ≡ ok found
        → length found ≡ n
    unfolding addresses_from
    addresses_from-length zero first second found h = rw (← ok_injective h)
    addresses_from-length (suc n) first second found h =
        let (k, _, h1) = >>=-eq-ok (get_private_key keys first) _ h in
        let (p, _, h2) = >>=-eq-ok (get_public_key keys second) _ h1 in
        let (t, _, h3) =
          >>=-eq-ok (create_tweaked_address_from_public_key lib timelock params p k) _ h2 in
        let (first', _, h4) = >>=-eq-ok (derive_next_sibling keys first) _ h3 in
        let (second', _, h5) = >>=-eq-ok (derive_next_sibling keys second) _ h4 in
        let (rest, more, done) =
          >>=-eq-ok (addresses_from lib timelock params n first' second') _ h5 in
        rw (← ok_injective done) (ap suc (addresses_from-length n first' second' rest more))

    -- A list of addresses has as many as were asked for, which is at least one.
    pub get_addresses-length :
        (wallet : RecoveryWallet) (start_index num : ℕ) (found : List Bytes)
        → get_addresses lib timelock params wallet start_index num ≡ ok found
        → (length found ≡ num) × (1 ≤ num)
    unfolding get_addresses
    get_addresses-length wallet start_index num found h =
        let (_, at_least_one, h0) =
          >>=-eq-ok (ensure (leb 1 num) (Error.invalid_address_count num)) _ h in
        let (first, _, h1) =
          >>=-eq-ok (get_bip44_key lib (get_first_mnemonic wallet) params start_index) _ h0 in
        let (d, _, h2) = >>=-eq-ok (get_second_descriptor lib wallet params) _ h1 in
        let (second, _, h3) =
          >>=-eq-ok (import_from_taproot_descriptor keys d (path_item start_index)) _ h2 in
        (addresses_from-length num first second found h3, ensure-positive num _ at_least_one)
