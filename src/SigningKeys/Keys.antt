-- ===== src/SigningKeys/Keys.antt =====
-- What the keys that the search returns are good for (leafy.go).
use leafy.Prelude.{
  ℕ, ◌≡◌, refl, inl, inr, Bool-cases, [], some, Bytes, Dict, lookup, insert, lookup-insert,
  bytes_eq, bytes_eq_iff, ok, >>=-eq-ok, ok_injective,
}
use leafy.Bip44.Path.{path_item}
use leafy.Bip44.Key.{get_public_key, get_private_key}
use leafy.Bip44.Derive.{derive_next_sibling}
use leafy.Bip44.Descriptor.{import_from_taproot_descriptor}
use leafy.Signer.{with_script, tweaked_by}
use leafy.Wallet.{
  NormalWallet, RecoveryWallet, get_first_mnemonic, get_second_descriptor, get_bip44_key,
}
use leafy.Library.{Library}
use leafy.Address.{TweakedAddress, create_tweaked_address, create_tweaked_address_from_public_key}
use leafy.Address.Tweaks.{TweakCommutes, create_tweaked_address-key}
use leafy.SigningKeys.{
  Search, SigningKeys, SigningRecoveryKeys, add_signing_keys, find_signing_keys,
  add_signing_recovery_keys, find_signing_recovery_keys,
}
use leafy.SigningKeys.Found.{AllFound, search_from-preserves}

module _ {V : Type 0} (Fits : Bytes → V → Type 0) where
  -- Every value of a mapping fits its address.
  abbrev pub Fitting : Dict V → Type 0
  Fitting mapping = (address : Bytes) (v : V) → lookup address mapping ≡ some v → Fits address v

  insert-Fitting :
      (address : Bytes) (v : V) (mapping : Dict V)
      → Fits address v
      → Fitting mapping
      → Fitting (insert address v mapping)
  insert-Fitting address v mapping fits all other w found =
      elim (Bool-cases (bytes_eq address other)) [
        | inl same ↦
            let here : some v ≡ some w =
              rw (lookup-insert address other v mapping, same) at found in
            let key : address ≡ other = (bytes_eq_iff address other).0 same in
            let value : v ≡ w = cc in rw (← key, ← value) fits
        | inr apart ↦ all other w (rw (lookup-insert address other v mapping, apart) at found)
      ]

  empty-Fitting : Fitting []
  empty-Fitting address v h = cc

module _ (lib : Library) (timelock : ℕ) where
  open lib use {keys, tx}

  module _ (params : tx.Params) where
    -- The private key, tweaked by the root as a signature does it, is the key of the address.
    abbrev pub OwnsAddress : Bytes → SigningKeys lib timelock → Type 0
    OwnsAddress address k =
        (a : tx.Address) × (tx.encode_address a ≡ address)
        × (tx.new_address_taproot
              (tx.serialize_pub_key
                (tx.pub_key (tweaked_by tx with_script (some k.merkle_root) k.tweaked_private_key)))
              params
            ≡ ok a)

    add_signing_keys-Fitting :
        (commutes : TweakCommutes lib) (s s' : Search keys.ExtendedKey (SigningKeys lib timelock))
        → add_signing_keys lib timelock params s ≡ ok s'
        → Fitting OwnsAddress s.mapping
        → Fitting OwnsAddress s'.mapping
    unfolding add_signing_keys
    add_signing_keys-Fitting commutes s s' h fitting =
        let (k1, _, h1) = >>=-eq-ok (get_private_key keys s.first_key) _ h in
        let (k2, _, h2) = >>=-eq-ok (get_private_key keys s.second_key) _ h1 in
        let (made, created, h3) =
          >>=-eq-ok (create_tweaked_address lib timelock params k2 k1) _ h2 in
        let (s2, _, h4) = >>=-eq-ok (derive_next_sibling keys s.second_key) _ h3 in
        let (s1, _, h5) = >>=-eq-ok (derive_next_sibling keys s.first_key) _ h4 in
        rw (← ok_injective h5) (
          insert-Fitting OwnsAddress (tx.encode_address made.0.address) _ s.mapping
            (
              made.0.address,
              refl,
              create_tweaked_address-key lib timelock params commutes k2 k1 made.1 made.0 created,
            )
            fitting)

    -- The keys that the search returns cover every wanted address, and each is the private key of
    -- the address it is listed under, once tweaked by its root as `TaprootSign` does it.
    pub find_signing_keys-OwnsAddress :
        (commutes : TweakCommutes lib) (wallet : NormalWallet) (wanted : Dict Bytes)
        (found : Dict (SigningKeys lib timelock))
        → find_signing_keys lib timelock params wallet wanted ≡ ok found
        → AllFound wanted found × Fitting OwnsAddress found
    unfolding find_signing_keys
    find_signing_keys-OwnsAddress commutes wallet wanted found h =
        let (k1, _, h1) = >>=-eq-ok (get_bip44_key lib wallet.first_mnemonic params 0) _ h in
        let (k2, _, h2) = >>=-eq-ok (get_bip44_key lib wallet.second_mnemonic params 0) _ h1 in
        let (s, fitting, same, all_found) =
          search_from-preserves (add_signing_keys lib timelock params) wanted
            (λ s. Fitting OwnsAddress s.mapping) (add_signing_keys-Fitting commutes) 10 0 _ found h2
            (empty-Fitting OwnsAddress) in
        (all_found, rw (← same) fitting)

    -- The first key and the leaf are those of an address with that first key.
    abbrev pub OpensAddress : Bytes → SigningRecoveryKeys lib timelock → Type 0
    OpensAddress address k =
        (second_public_key : keys.PublicKey) × (t : TweakedAddress lib timelock)
        × (create_tweaked_address_from_public_key lib timelock params second_public_key
              k.private_key
            ≡ ok t)
        × (tx.encode_address t.address ≡ address)
        × (t.tapscript_data ≡ k.tapscript_data)

    add_signing_recovery_keys-Fitting :
        (s s' : Search keys.ExtendedKey (SigningRecoveryKeys lib timelock))
        → add_signing_recovery_keys lib timelock params s ≡ ok s'
        → Fitting OpensAddress s.mapping
        → Fitting OpensAddress s'.mapping
    unfolding add_signing_recovery_keys
    add_signing_recovery_keys-Fitting s s' h fitting =
        let (k1, _, h1) = >>=-eq-ok (get_private_key keys s.first_key) _ h in
        let (p2, _, h2) = >>=-eq-ok (get_public_key keys s.second_key) _ h1 in
        let (t, created, h3) =
          >>=-eq-ok (create_tweaked_address_from_public_key lib timelock params p2 k1) _ h2 in
        let (s2, _, h4) = >>=-eq-ok (derive_next_sibling keys s.second_key) _ h3 in
        let (s1, _, h5) = >>=-eq-ok (derive_next_sibling keys s.first_key) _ h4 in
        rw (← ok_injective h5) (
          insert-Fitting OpensAddress (tx.encode_address t.address) _ s.mapping
            (p2, t, created, refl, refl) fitting)

    -- The search for recovery keys covers every wanted address, and lists under each the first key
    -- and the leaf of an address that was made with that first key.
    pub find_signing_recovery_keys-OpensAddress :
        (wallet : RecoveryWallet) (wanted : Dict Bytes)
        (found : Dict (SigningRecoveryKeys lib timelock))
        → find_signing_recovery_keys lib timelock params wallet wanted ≡ ok found
        → AllFound wanted found × Fitting OpensAddress found
    unfolding find_signing_recovery_keys
    find_signing_recovery_keys-OpensAddress wallet wanted found h =
        let (k1, _, h1) = >>=-eq-ok (get_bip44_key lib (get_first_mnemonic wallet) params 0) _ h in
        let (d, _, h2) = >>=-eq-ok (get_second_descriptor lib wallet params) _ h1 in
        let (k2, _, h3) = >>=-eq-ok (import_from_taproot_descriptor keys d (path_item 0)) _ h2 in
        let (s, fitting, same, all_found) =
          search_from-preserves (add_signing_recovery_keys lib timelock params) wanted
            (λ s. Fitting OpensAddress s.mapping) add_signing_recovery_keys-Fitting 10 0 _ found h3
            (empty-Fitting OpensAddress) in
        (all_found, rw (← same) fitting)
