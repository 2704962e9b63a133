-- ===== src/Signer/Keys.antt =====
-- signer.go: the public keys under which the signatures of `InMemorySigner` verify.
use leafy.Prelude.{
  ℤ, ℕ, ◌≡◌, ◌≢◌, ◌∙◌, ◌%◌, ◌++◌, arith, ap, sym, Bool, true, List, [], ◌∷◌, Option, some, none,
  Bytes, ok, >>=-eq-ok, ok_injective,
}
use leafy.Wire.{MsgTx}
use leafy.Txscript.{Txscript}
use leafy.Script.{
  TapscriptSigningData, new_tapscript_builder, add_leaf_script, to_sign,
  create_tapscript_timelock_from_key,
}
use leafy.Script.Leaf.{
  IsTree, IsLeafFor, create_tapscript_timelock_from_key-IsLeafFor, to_sign_only,
}
use leafy.Signer.{
  bytes_of, tweaked_by, get_tweaked_private_key, sign, sign_type_of, no_script_sign_type,
  script_sign_type, with_hash_type, compute_taproot_sig_hash, compute_tapscript_sig_hash,
  taproot_sign, tapscript_sign,
}

module _ {O PublicKey PrivateKey : Type 0} (tx : Txscript O PublicKey PrivateKey)
    -- BIP-340 verification
    (verify : PublicKey → Bytes → tx.Signature → Bool) where
  open tx use {
    Fetcher, Signature, pub_key, tweak_taproot_priv_key, compute_taproot_output_key,
    compute_taproot_key_no_script, schnorr_sign, serialize_signature, sig_hash_default,
  }

  -- What packages schnorr and txscript promise of keys and signatures.
  pub record IsSound : Type 0 where
    pub verifies :
        (key : PrivateKey) (message : Bytes) (s : Signature)
        → schnorr_sign key message ≡ ok s
        → verify (pub_key key) message s ≡ true
    pub commutes :
        (key : PrivateKey) (root : Bytes)
        → pub_key (tweak_taproot_priv_key key root) ≡ compute_taproot_output_key (pub_key key) root
    pub without_script :
        (key : PublicKey) → compute_taproot_key_no_script key ≡ compute_taproot_output_key key []

  with_hash_type-forms :
      (sig_hash_type : ℕ) (sig : Bytes)
      → (sig_hash_type ≡ sig_hash_default → with_hash_type tx sig_hash_type sig ≡ sig)
        × (sig_hash_type ≢ sig_hash_default
            → with_hash_type tx sig_hash_type sig ≡ sig ++ (sig_hash_type % 256) ∷ [])
  unfolding with_hash_type
  with_hash_type-forms sig_hash_type sig = (λ e. ground arith, λ n. ground arith)

  module _ (sound : IsSound) (private_key : PrivateKey) (fetcher : Fetcher) (msg : MsgTx O)
      (sig_hash_type input_index : ℕ) where
    -- A root that is nil and one that is empty sign for the same output key.
    get_tweaked_private_key-output :
        (merkle_root : Option Bytes)
        → pub_key (get_tweaked_private_key tx private_key (sign_type_of tx merkle_root))
          ≡ compute_taproot_output_key (pub_key private_key) (bytes_of merkle_root)
    unfolding get_tweaked_private_key tweaked_by sign_type_of no_script_sign_type script_sign_type
    get_tweaked_private_key-output none = sound.commutes private_key []
    get_tweaked_private_key-output (some root) = sound.commutes private_key root

    -- A signature by the key path verifies, for the hash it reports, under the public key tweaked by
    -- the root, which is the output key; the witness is the signature alone, with the hash type
    -- behind it unless that is the default.
    pub taproot_sign-verifies :
        (merkle_root : Option Bytes) (witness : List Bytes) (sig_hash : Bytes)
        → taproot_sign tx private_key fetcher msg sig_hash_type input_index merkle_root
          ≡ ok (witness, sig_hash)
        → (s : Signature) × (compute_taproot_sig_hash tx fetcher msg sig_hash_type input_index
            ≡ ok sig_hash)
          × (verify
                (compute_taproot_output_key (pub_key private_key) (bytes_of merkle_root))
                sig_hash
                s
              ≡ true)
          × (sig_hash_type ≡ sig_hash_default → witness ≡ serialize_signature s ∷ [])
          × (sig_hash_type ≢ sig_hash_default
              → witness ≡ (serialize_signature s ++ (sig_hash_type % 256) ∷ []) ∷ [])
    unfolding taproot_sign sign
    taproot_sign-verifies merkle_root witness sig_hash h =
        let (hash, hashed, h1) =
          >>=-eq-ok (compute_taproot_sig_hash tx fetcher msg sig_hash_type input_index) _ h in
        let (s, signed, h2) =
          >>=-eq-ok (sign tx private_key hash (sign_type_of tx merkle_root)) _ h1 in
        let same = ok_injective h2 in
        let same_hash : hash ≡ sig_hash = ap (λ r. r.1) same in
        let valid = sound.verifies _ hash s signed in
        let output = get_tweaked_private_key-output merkle_root in
        let (plain, marked) = with_hash_type-forms sig_hash_type (serialize_signature s) in
        let wrote : witness ≡ with_hash_type tx sig_hash_type (serialize_signature s) ∷ [] =
          sym (ap (λ r. r.0) same) in
        (
          s,
          rw (← same_hash) hashed,
          cc,
          λ e. wrote ∙ ap (λ w. w ∷ []) (plain e),
          λ n. wrote ∙ ap (λ w. w ∷ []) (marked n),
        )

    pub tapscript_sign-signature :
        (leaf_data : TapscriptSigningData tx) (witness : List Bytes) (sig_hash : Bytes)
        → tapscript_sign tx private_key fetcher msg sig_hash_type input_index leaf_data
          ≡ ok (witness, sig_hash)
        → (s : Signature) × (compute_tapscript_sig_hash tx fetcher msg sig_hash_type input_index
              leaf_data.leaf
            ≡ ok sig_hash)
          × (verify (compute_taproot_key_no_script (pub_key private_key)) sig_hash s ≡ true)
          × (witness ≡ serialize_signature s ∷ leaf_data.leaf_script ∷ leaf_data.control_block ∷ [])
    unfolding tapscript_sign sign sign_type_of
    tapscript_sign-signature leaf_data witness sig_hash h =
        let (hash, hashed, h1) =
          >>=-eq-ok
            (compute_tapscript_sig_hash tx fetcher msg sig_hash_type input_index leaf_data.leaf) _
            h in
        let (s, signed, h2) = >>=-eq-ok (sign tx private_key hash no_script_sign_type) _ h1 in
        let same = ok_injective h2 in
        let same_hash : hash ≡ sig_hash = ap (λ r. r.1) same in
        let valid = sound.verifies _ hash s signed in
        let output : pub_key (get_tweaked_private_key tx private_key no_script_sign_type)
            ≡ compute_taproot_output_key (pub_key private_key) [] =
          get_tweaked_private_key-output none in
        let leaf_key = sound.without_script (pub_key private_key) in
        (s, rw (← same_hash) hashed, cc, sym (ap (λ r. r.0) same))

    -- Where a leaf was made by `CreateTapscriptTimelockFromKey` for the public key of the signer, and
    -- the tree has no other leaf, the signature for it verifies, for the hash of that leaf, under the
    -- key that the leaf's script checks against; the witness is the signature, the script and the
    -- control block.
    pub tapscript_sign-verifies :
        (tree : IsTree tx) (params : tx.Params) (timelock : ℤ) (internal_key : PublicKey)
        (script : Bytes) (leaf_data : TapscriptSigningData tx) (witness : List Bytes)
        (sig_hash : Bytes)
        → create_tapscript_timelock_from_key tx params timelock (pub_key private_key) ≡ ok script
        → to_sign tx 0 (add_leaf_script tx script (new_tapscript_builder tx internal_key))
          ≡ ok leaf_data
        → tapscript_sign tx private_key fetcher msg sig_hash_type input_index leaf_data
          ≡ ok (witness, sig_hash)
        → (s : Signature) × (leaf_key : PublicKey) × IsLeafFor tx params leaf_key timelock script
          × (compute_tapscript_sig_hash tx fetcher msg sig_hash_type input_index
                (tx.new_base_tap_leaf script)
              ≡ ok sig_hash)
          × (verify leaf_key sig_hash s ≡ true)
          × (witness ≡ serialize_signature s ∷ script ∷ leaf_data.control_block ∷ [])
    tapscript_sign-verifies tree params timelock internal_key script leaf_data witness sig_hash made
          proved h =
        let (s, hashed, valid, wrote) = tapscript_sign-signature leaf_data witness sig_hash h in
        let (is_leaf, is_script) = to_sign_only tx tree script internal_key leaf_data proved in
        let hash_of = compute_tapscript_sig_hash tx fetcher msg sig_hash_type input_index in
        (
          s,
          compute_taproot_key_no_script (pub_key private_key),
          create_tapscript_timelock_from_key-IsLeafFor tx params timelock (pub_key private_key)
              script made,
          ap hash_of (sym is_leaf) ∙ hashed,
          valid,
          wrote
              ∙ ap (λ (e : Bytes). serialize_signature s ∷ e ∷ leaf_data.control_block ∷ [])
                  is_script,
        )
