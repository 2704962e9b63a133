-- ===== src/Script.antt =====
-- script.go: inscriptions, timelocks, and the builder of the script tree of an address.
pub mod Inscription
pub mod Leaf
mod Tests
use leafy.Prelude.{
  ℕ, zero, suc, ◌+◌, ◌-◌, List, [], ◌∷◌, ◌++◌, Option, none, some, ℤ, pos, mul64, ltb,
  if◌then◌else◌, length, take, drop, get_elem?, Bytes, Result, ok, panic, ◌>>=◌, Fault,
}
use leafy.Txscript.{Txscript}

-- `time.Minute`, in nanoseconds.
abbrev pub minute : ℤ
minute = pos 60_000_000_000

unfoldable pub timelock_to_approximate_duration : ℤ → ℤ
timelock_to_approximate_duration timelock = mul64 (mul64 minute (pos 10)) timelock

-- The loop of `splitForInscription` from `i` on, for pieces of `size` bytes. `fuel` bounds its
-- rounds.
unfoldable pub split_from : ℕ → ℕ → ℕ → Bytes → List Bytes
split_from zero size i bytes = []
split_from (suc fuel) size i bytes =
    let end = if ltb (length bytes) (i + size) then length bytes else i + size in
    let rest = split_from fuel size (i + size) bytes in
    if ltb i (length bytes) then take (end - i) (drop i bytes) ∷ rest else []

-- A round takes at least one byte, so there are no more rounds than bytes.
unfoldable pub split_for_inscription : ℕ → Bytes → List Bytes
split_for_inscription size bytes = split_from (length bytes) size 0 bytes

module _ {O PublicKey PrivateKey : Type 0} (tx : Txscript O PublicKey PrivateKey) where
  open tx use {
    Params, Address, Builder, TapLeaf, Proof, new_script_builder, add_op, add_data, add_int64,
    build, op_false, op_if, op_endif, op_checksigverify, op_checksequenceverify,
    max_script_element_size, new_address_taproot, serialize_pub_key, compute_taproot_key_no_script,
    compute_taproot_output_key, pay_to_addr_script, script_address, new_base_tap_leaf,
    assemble_tree, root_hash, leaf_merkle_proofs, proof_leaf, proof_script, control_block_bytes,
  }

  unfoldable pub get_taproot_address : PublicKey → Params → Result Address
  get_taproot_address public_key params =
      new_address_taproot (serialize_pub_key (compute_taproot_key_no_script public_key)) params

  -- `for _, split := range splits { scriptBuilder.AddData(split) }`
  unfoldable pub add_all : List Bytes → Builder → Builder
  add_all [] b = b
  add_all (s ∷ splits) b = add_all splits (add_data s b)

  unfoldable pub inscribe : Bytes → Result Bytes
  inscribe bytes =
      let opened = add_op op_if (add_op op_false new_script_builder) in
      build (add_op op_endif (add_all (split_for_inscription max_script_element_size bytes) opened))

  pub record TapscriptSigningData : Type 0 where
    pub leaf : TapLeaf
    pub leaf_script : Bytes
    pub control_block : Bytes
    pub merkle_root : Bytes

  pub record TapscriptBuilder : Type 0 where
    pub leaves : List TapLeaf
    pub internal_key : PublicKey

  unfoldable pub new_tapscript_builder : PublicKey → TapscriptBuilder
  new_tapscript_builder internal_key = record { leaves = []; internal_key = internal_key }

  unfoldable pub add_leaf_script : Bytes → TapscriptBuilder → TapscriptBuilder
  add_leaf_script script t = record t { leaves = t.leaves ++ new_base_tap_leaf script ∷ [] }

  -- `GetMerkleRoot`
  unfoldable pub get_merkle_root : TapscriptBuilder → Bytes
  get_merkle_root t = root_hash (assemble_tree t.leaves)

  -- `Address`
  unfoldable pub builder_address : TapscriptBuilder → Params → Result Address
  builder_address t params =
      let tree_root_hash = root_hash (assemble_tree t.leaves) in
      let output_key = compute_taproot_output_key t.internal_key tree_root_hash in
      new_address_taproot (serialize_pub_key output_key) params

  -- `Script`
  unfoldable pub builder_script : TapscriptBuilder → Params → Result Bytes
  builder_script t params = do
    output_addr ← builder_address t params
    pay_to_addr_script output_addr

  -- `LeafMerkleProofs[leafIndex]`
  unfoldable pub proof_at : List Proof → ℕ → Result Proof
  proof_at proofs i = elim (get_elem? proofs i) [
    | none ↦ panic Fault.index_out_of_range
    | some p ↦ ok p
  ]

  unfoldable pub to_sign : ℕ → TapscriptBuilder → Result TapscriptSigningData
  to_sign leaf_index t = do
    let tree = assemble_tree t.leaves
    proof ← proof_at (leaf_merkle_proofs tree) leaf_index
    control_block ← control_block_bytes proof t.internal_key
    ok (record {
      leaf = proof_leaf proof;
      leaf_script = proof_script proof;
      control_block = control_block;
      merkle_root = root_hash tree;
    })

  unfoldable pub augment_with_timelock : ℤ → Bytes → Result Bytes
  augment_with_timelock timelock script = do
    timelock_script ← build (add_op op_checksequenceverify (add_int64 timelock new_script_builder))
    ok (script ++ timelock_script)

  unfoldable pub create_tapscript_timelock_from_key : Params → ℤ → PublicKey → Result Bytes
  create_tapscript_timelock_from_key params timelock public_key = do
    address ← get_taproot_address public_key params
    hash_script ←
        build (add_op op_checksigverify (add_data (script_address address) new_script_builder))
    augment_with_timelock timelock hash_script
