-- ===== src/Address/Leaves.antt =====
-- The leaf under an address (leafy.go) is the one that opens for the first key.
use leafy.Prelude.{ℕ, ◌≡◌, ap, sym, ◌∙◌, Bytes, pos, ok, >>=-eq-ok, ok_injective}
use leafy.Script.{
  TapscriptBuilder, new_tapscript_builder, add_leaf_script, create_tapscript_timelock_from_key,
  builder_address, to_sign,
}
use leafy.Script.Leaf.{
  IsTree, IsLeafFor, create_tapscript_timelock_from_key-IsLeafFor, to_sign_only,
}
use leafy.Library.{Library}
use leafy.Address.{
  TweakedAddress, script_tweak_builder, create_tweaked_address_from_tweaked_public_key,
  create_tweaked_address_from_public_key,
}

module _ (lib : Library) (timelock : ℕ) (params : lib.tx.Params) where
  open lib use {keys, tx}

  -- The builder of an address has one leaf, made for the first public key.
  script_tweak_builder-only :
      (internal_key first_public_key : keys.PublicKey) (b : TapscriptBuilder tx)
      → script_tweak_builder lib timelock params internal_key first_public_key ≡ ok b
      → (script : Bytes) × (create_tapscript_timelock_from_key tx params
            (pos timelock)
            first_public_key
          ≡ ok script)
        × (add_leaf_script tx script (new_tapscript_builder tx internal_key) ≡ b)
  unfolding script_tweak_builder
  script_tweak_builder-only internal_key first_public_key b h =
      let (script, built, done) =
        >>=-eq-ok (create_tapscript_timelock_from_key tx params (pos timelock) first_public_key) _
          h in
      (script, built, ok_injective done)

  from_tweaked-IsLeafFor :
      (tree : IsTree tx) (internal_key : keys.PublicKey) (first_key : keys.PrivateKey)
      (t : TweakedAddress lib timelock)
      → create_tweaked_address_from_tweaked_public_key lib timelock params internal_key first_key
        ≡ ok t
      → (t.tapscript_data.leaf ≡ tx.new_base_tap_leaf t.tapscript_data.leaf_script)
        × IsLeafFor tx params
            (tx.compute_taproot_key_no_script (tx.pub_key first_key))
            (pos timelock)
            t.tapscript_data.leaf_script
  unfolding create_tweaked_address_from_tweaked_public_key
  from_tweaked-IsLeafFor tree internal_key first_key t h =
      let (b, built, h1) =
        >>=-eq-ok (script_tweak_builder lib timelock params internal_key (tx.pub_key first_key)) _
          h in
      let (a, addressed, h2) = >>=-eq-ok (builder_address tx b params) _ h1 in
      let (signing, proved, h3) = >>=-eq-ok (to_sign tx 0 b) _ h2 in
      let (script, made, only) =
        script_tweak_builder-only internal_key (tx.pub_key first_key) b built in
      let (is_leaf, is_script) =
        to_sign_only tx tree script internal_key signing (ap (to_sign tx 0) only ∙ proved) in
      let same : signing ≡ t.tapscript_data = ap (λ r. r.tapscript_data) (ok_injective h3) in
      let whole : t.tapscript_data.leaf_script ≡ script =
        sym (ap (λ d. d.leaf_script) same) ∙ is_script in
      (
        sym (ap (λ d. d.leaf) same) ∙ is_leaf ∙ ap tx.new_base_tap_leaf (sym whole),
        rw whole (
            create_tapscript_timelock_from_key-IsLeafFor tx params (pos timelock)
              (tx.pub_key first_key) script made),
      )

  pub create_tweaked_address_from_public_key-IsLeafFor :
      (tree : IsTree tx) (second_public_key : keys.PublicKey) (first_key : keys.PrivateKey)
      (t : TweakedAddress lib timelock)
      → create_tweaked_address_from_public_key lib timelock params second_public_key first_key
        ≡ ok t
      → (t.tapscript_data.leaf ≡ tx.new_base_tap_leaf t.tapscript_data.leaf_script)
        × IsLeafFor tx params
            (tx.compute_taproot_key_no_script (tx.pub_key first_key))
            (pos timelock)
            t.tapscript_data.leaf_script
  unfolding create_tweaked_address_from_public_key
  create_tweaked_address_from_public_key-IsLeafFor tree second_public_key first_key t h =
      from_tweaked-IsLeafFor tree _ first_key t h
