-- ===== src/Signing/Witnesses.antt =====
-- What the signed transactions hold (leafy.go).
use leafy.Prelude.{
  pos, found_or-eq-ok, ℕ, ◌+◌, ◌≡◌, refl, ap, sym, ◌∙◌, Bool, true, List, [], ◌∷◌, some, Bytes,
  Dict, lookup, Result, ok, found_or, ◌>>=◌, >>=-eq-ok, ok_injective, Error,
}
use leafy.Wire.{TxIn, MsgTx, TransactionInfo}
use leafy.Signer.{
  taproot_sign, tapscript_sign, compute_taproot_sig_hash, compute_tapscript_sig_hash, tweaked_by,
}
use leafy.Signer.Keys.{IsSound, taproot_sign-verifies, tapscript_sign-signature}
use leafy.Library.{Library}
use leafy.Address.{TweakedAddress, create_tweaked_address_from_public_key}
use leafy.Script.{TapscriptSigningData}
use leafy.Script.Leaf.{IsTree, IsLeafFor}
use leafy.Address.Leaves.{create_tweaked_address_from_public_key-IsLeafFor}
use leafy.SigningKeys.{SigningKeys, SigningRecoveryKeys}
use leafy.SigningKeys.Keys.{OwnsAddress, OpensAddress}
use leafy.Signing.{
  element, sign_inputs, assign_witnesses, key_of, taproot_witness, tapscript_witness,
}

module _ {O : Type 0} where
  -- The inputs are those before, each with a witness of which `P` holds; `i` is the first index.
  abbrev pub Witnessed :
      (ℕ → TxIn O → List Bytes → Type 0) → ℕ → List (TxIn O) → List (TxIn O) → Type 0
  Witnessed P i [] [] = Unit
  Witnessed P i [] (y ∷ ys) = ⊥
  Witnessed P i (x ∷ xs) [] = ⊥
  Witnessed P i (x ∷ xs) (y ∷ ys) =
      ((w : List Bytes) × P i x w × (y ≡ record x { witness = w })) × Witnessed P (i + 1) xs ys

  module _ (sign_input : ℕ → TxIn O → Result (List Bytes)) (P : ℕ → TxIn O → List Bytes → Type 0)
      (proper : (i : ℕ) (x : TxIn O) (w : List Bytes) → sign_input i x ≡ ok w → P i x w) where
    pub sign_inputs-Witnessed :
        (i : ℕ) (xs : List (TxIn O)) (ws : List (List Bytes))
        → sign_inputs sign_input i xs ≡ ok ws
        → (ys : List (TxIn O)) × (assign_witnesses ws xs ≡ ok ys) × Witnessed P i xs ys
    unfolding sign_inputs assign_witnesses
    sign_inputs-Witnessed i [] ws h = ([], rw (← ok_injective h), tt)
    sign_inputs-Witnessed i (x ∷ xs) ws h =
        let (w, signed, h1) = >>=-eq-ok (sign_input i x) _ h in
        let (rest, more, h2) = >>=-eq-ok (sign_inputs sign_input (i + 1) xs) _ h1 in
        let (ys, assigned, witnessed) = sign_inputs-Witnessed (i + 1) xs rest more in
        let same : w ∷ rest ≡ ws = ok_injective h2 in
        let wrote : assign_witnesses (w ∷ rest) (x ∷ xs) ≡ ok (record x { witness = w } ∷ ys) =
          rw assigned in
        (
          record x { witness = w } ∷ ys,
          ap (λ z. assign_witnesses z (x ∷ xs)) (sym same) ∙ wrote,
          ((w, proper i x w signed, refl), witnessed),
        )

-- The parts that the loops copy out of a witness are all of it.
single :
    (made : List Bytes) (b : Bytes) (w : List Bytes)
    → made ≡ b ∷ []
    → (element made 0 >>= λ e. ok (e ∷ [])) ≡ ok w
    → w ≡ b ∷ []
unfolding element
single made b w same h = sym (ok_injective (rw same at h))

triple :
    (made : List Bytes) (b c d : Bytes) (w : List Bytes)
    → made ≡ b ∷ c ∷ d ∷ []
    → (element made 0 >>= λ e. element made 1 >>= λ f. element made 2 >>= λ g. ok (e ∷ f ∷ g ∷ []))
      ≡ ok w
    → w ≡ b ∷ c ∷ d ∷ []
unfolding element
triple made b c d w same h = sym (ok_injective (rw same at h))

module _ (lib : Library) (timelock : ℕ) (params : lib.tx.Params)
    (verify : lib.keys.PublicKey → Bytes → lib.tx.Signature → Bool) where
  open lib use {OutPoint, keys, tx, outpoint_string, serialize}

  -- The key of an input is listed under the address of its coin.
  key_of-eq-ok :
      {V : Type 0} (info : TransactionInfo OutPoint) (found : Dict V) (x : TxIn OutPoint) (k : V)
      → key_of lib info found x ≡ ok k
      → (address : Bytes) × (lookup (outpoint_string x.previous_out_point) info.outpoint_to_addr
          ≡ some address)
        × (lookup address found ≡ some k)
  unfolding key_of
  key_of-eq-ok info found x k h =
      let name = outpoint_string x.previous_out_point in
      let (address, e1, h1) =
        >>=-eq-ok (found_or (lookup name info.outpoint_to_addr) (Error.missing_address name)) _ h in
      (
        address,
        found_or-eq-ok (lookup name info.outpoint_to_addr) _ e1,
        found_or-eq-ok (lookup address found) _ h1,
      )

  module _ (info : TransactionInfo OutPoint) (fetcher : tx.Fetcher) (msg : MsgTx OutPoint) where
    -- A witness by the key path: one signature, which verifies under the output key of the address
    -- that the coin is on.
    abbrev pub SpentByKey : ℕ → TxIn OutPoint → List Bytes → Type 0
    SpentByKey i x w =
        (address : Bytes) × (a : tx.Address) × (output_key : keys.PublicKey) × (sig_hash : Bytes)
        × (s : tx.Signature) × (lookup (outpoint_string x.previous_out_point) info.outpoint_to_addr
            ≡ some address)
        × (tx.encode_address a ≡ address)
        × (tx.new_address_taproot (tx.serialize_pub_key output_key) params ≡ ok a)
        × (compute_taproot_sig_hash tx fetcher msg tx.sig_hash_default i ≡ ok sig_hash)
        × (verify output_key sig_hash s ≡ true)
        × (w ≡ tx.serialize_signature s ∷ [])

    pub taproot_witness-SpentByKey :
        (sound : IsSound tx verify) (found : Dict (SigningKeys lib timelock))
        → ((address : Bytes) (k : SigningKeys lib timelock)
            → lookup address found ≡ some k
            → OwnsAddress lib timelock params address k)
        → (i : ℕ) (x : TxIn OutPoint) (w : List Bytes)
        → taproot_witness lib timelock info found fetcher msg i x ≡ ok w
        → SpentByKey i x w
    unfolding taproot_witness tweaked_by
    taproot_witness-SpentByKey sound found owned i x w h =
        let (k, e1, h1) = >>=-eq-ok (key_of lib info found x) _ h in
        let (made, e2, h2) =
          >>=-eq-ok
            (taproot_sign tx k.tweaked_private_key fetcher msg tx.sig_hash_default i
              (some k.merkle_root))
            _ h1 in
        let (address, listed, mapped) = key_of-eq-ok info found x k e1 in
        let (a, encoded, is_address) = owned address k mapped in
        let (s, hashed, valid, plain, _) =
          taproot_sign-verifies tx verify sound k.tweaked_private_key fetcher msg
            tx.sig_hash_default i (some k.merkle_root) made.0 made.1 e2 in
        (
          address,
          a,
          tx.compute_taproot_output_key (tx.pub_key k.tweaked_private_key) k.merkle_root,
          made.1,
          s,
          listed,
          encoded,
          rw (← sound.commutes k.tweaked_private_key k.merkle_root) is_address,
          hashed,
          valid,
          single made.0 (tx.serialize_signature s) w (plain refl) h2,
        )

    -- A witness by the leaf: a signature for the leaf that verifies under the key that its script
    -- checks against, the script, which lets that key spend after the timelock, and the control
    -- block, of an address that the coin is on.
    abbrev pub SpentByLeaf : ℕ → TxIn OutPoint → List Bytes → Type 0
    SpentByLeaf i x w =
        (address : Bytes) × (t : TweakedAddress lib timelock) × (first_key : keys.PrivateKey)
        × (second_public_key leaf_key : keys.PublicKey) × (sig_hash : Bytes) × (s : tx.Signature)
        × (lookup (outpoint_string x.previous_out_point) info.outpoint_to_addr ≡ some address)
        × (tx.encode_address t.address ≡ address)
        × (create_tweaked_address_from_public_key lib timelock params second_public_key first_key
            ≡ ok t)
        × IsLeafFor tx params leaf_key (pos timelock) t.tapscript_data.leaf_script
        × (compute_tapscript_sig_hash tx fetcher msg tx.sig_hash_default i
              (tx.new_base_tap_leaf t.tapscript_data.leaf_script)
            ≡ ok sig_hash)
        × (verify leaf_key sig_hash s ≡ true)
        × (w
            ≡ tx.serialize_signature s
              ∷ t.tapscript_data.leaf_script
              ∷ t.tapscript_data.control_block
              ∷ [])

    pub tapscript_witness-SpentByLeaf :
        (sound : IsSound tx verify) (tree : IsTree tx)
        (found : Dict (SigningRecoveryKeys lib timelock))
        → ((address : Bytes) (k : SigningRecoveryKeys lib timelock)
            → lookup address found ≡ some k
            → OpensAddress lib timelock params address k)
        → (i : ℕ) (x : TxIn OutPoint) (w : List Bytes)
        → tapscript_witness lib timelock info found fetcher msg i x ≡ ok w
        → SpentByLeaf i x w
    unfolding tapscript_witness
    tapscript_witness-SpentByLeaf sound tree found opened i x w h =
        let (k, e1, h1) = >>=-eq-ok (key_of lib info found x) _ h in
        let (made, e2, h2) =
          >>=-eq-ok
            (tapscript_sign tx k.private_key fetcher msg tx.sig_hash_default i k.tapscript_data) _
            h1 in
        let (address, listed, mapped) = key_of-eq-ok info found x k e1 in
        let (p, t, created, encoded, same) = opened address k mapped in
        let (s, hashed, valid, wrote) =
          tapscript_sign-signature tx verify sound k.private_key fetcher msg tx.sig_hash_default i
            k.tapscript_data made.0 made.1 e2 in
        let (is_leaf, checked) =
          create_tweaked_address_from_public_key-IsLeafFor lib timelock params tree p k.private_key
            t created in
        let hash = λ (data_of : TapscriptSigningData tx).
          compute_tapscript_sig_hash tx fetcher msg tx.sig_hash_default i data_of.leaf in
        let hash_of = compute_tapscript_sig_hash tx fetcher msg tx.sig_hash_default i in
        (
          address,
          t,
          k.private_key,
          p,
          tx.compute_taproot_key_no_script (tx.pub_key k.private_key),
          made.1,
          s,
          listed,
          encoded,
          created,
          checked,
          ap hash_of (sym is_leaf) ∙ ap hash same ∙ hashed,
          valid,
          rw same (triple made.0 _ _ _ w wrote h2),
        )
