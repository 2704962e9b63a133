-- ===== src/Script/Leaf.antt =====
-- The leaf of `CreateTapscriptTimelockFromKey` (script.go), as the operations of package txscript
-- write it.
use leafy.Prelude.{
  ℕ, ℤ, ◌≡◌, ap, sym, ◌∙◌, List, [], ◌∷◌, ◌++◌, some, get_elem?, Option-cases, inl, inr, Bytes, ok,
  >>=-eq-ok, ok_injective, arith,
}
use leafy.Txscript.{Txscript}
use leafy.Script.{
  TapscriptSigningData, get_taproot_address, augment_with_timelock,
  create_tapscript_timelock_from_key, new_tapscript_builder, add_leaf_script, proof_at, to_sign,
}

module _ {O PublicKey PrivateKey : Type 0} (tx : Txscript O PublicKey PrivateKey) where
  open tx use {
    Params, Address, Proof, new_address_taproot, serialize_pub_key, script_address,
    new_script_builder, add_op, add_data, add_int64, build, op_checksigverify,
    op_checksequenceverify, new_base_tap_leaf, assemble_tree, leaf_merkle_proofs, proof_leaf,
    proof_script, control_block_bytes, compute_taproot_key_no_script,
  }

  -- What txscript promises of a tree: the proof of its only leaf is about that leaf.
  pub record IsTree : Type 0 where
    pub only_leaf :
        (script : Bytes) (p : Proof)
        → get_elem? (leaf_merkle_proofs (assemble_tree (new_base_tap_leaf script ∷ []))) 0 ≡ some p
        → (proof_leaf p ≡ new_base_tap_leaf script) × (proof_script p ≡ script)

  -- A script that checks a signature against `key`, by the script bytes of its address, and then the
  -- timelock against the sequence.
  abbrev pub IsLeafFor : Params → PublicKey → ℤ → Bytes → Type 0
  IsLeafFor params key timelock script =
      (a : Address) × (check lock : Bytes) × (new_address_taproot (serialize_pub_key key) params
        ≡ ok a)
      × (build (add_op op_checksigverify (add_data (script_address a) new_script_builder))
          ≡ ok check)
      × (build (add_op op_checksequenceverify (add_int64 timelock new_script_builder)) ≡ ok lock)
      × (script ≡ check ++ lock)

  pub create_tapscript_timelock_from_key-IsLeafFor :
      (params : Params) (timelock : ℤ) (public_key : PublicKey) (script : Bytes)
      → create_tapscript_timelock_from_key tx params timelock public_key ≡ ok script
      → IsLeafFor params (compute_taproot_key_no_script public_key) timelock script
  unfolding create_tapscript_timelock_from_key get_taproot_address augment_with_timelock
  create_tapscript_timelock_from_key-IsLeafFor params timelock public_key script h =
      let (a, addressed, h1) = >>=-eq-ok (get_taproot_address tx public_key params) _ h in
      let (check, checked, h2) =
        >>=-eq-ok
          (build (add_op op_checksigverify (add_data (script_address a) new_script_builder))) _
          h1 in
      let (lock, locked, h3) =
        >>=-eq-ok (build (add_op op_checksequenceverify (add_int64 timelock new_script_builder))) _
          h2 in
      (a, check, lock, addressed, checked, locked, sym (ok_injective h3))

  proof_at-eq-ok :
      (proofs : List Proof) (i : ℕ) (p : Proof)
      → proof_at tx proofs i ≡ ok p
      → get_elem? proofs i ≡ some p
  unfolding proof_at
  proof_at-eq-ok proofs i p h = elim (Option-cases (get_elem? proofs i)) [
    | inl missing ↦ absurd (ground (arith, missing, h))
    | inr (q, found) ↦ found ∙ ap some (ok_injective (rw (proof_at, found) at h))
  ]

  -- What a builder with one leaf hands out to sign is about that leaf.
  pub to_sign_only :
      (tree : IsTree) (script : Bytes) (internal_key : PublicKey)
      (signing : TapscriptSigningData tx)
      → to_sign tx 0 (add_leaf_script tx script (new_tapscript_builder tx internal_key))
        ≡ ok signing
      → (signing.leaf ≡ new_base_tap_leaf script) × (signing.leaf_script ≡ script)
  unfolding to_sign add_leaf_script new_tapscript_builder
  to_sign_only tree script internal_key signing h =
      let proofs = leaf_merkle_proofs (assemble_tree (new_base_tap_leaf script ∷ [])) in
      let (p, proved, h1) = >>=-eq-ok (proof_at tx proofs 0) _ h in
      let (control, _, h2) = >>=-eq-ok (control_block_bytes p internal_key) _ h1 in
      let (is_leaf, is_script) = tree.only_leaf script p (proof_at-eq-ok proofs 0 p proved) in
      let same = ok_injective h2 in
      (sym (ap (λ d. d.leaf) same) ∙ is_leaf, sym (ap (λ d. d.leaf_script) same) ∙ is_script)
