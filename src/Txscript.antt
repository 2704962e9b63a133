-- ===== src/Txscript.antt =====
-- What the library calls of packages txscript, schnorr, btcec, btcutil and chaincfg: taproot keys
-- and script trees, script building, addresses and signatures. Nothing is assumed of it here; a
-- theorem names what it needs.
use leafy.Prelude.{ℕ, ℤ, List, Bytes, Result}
use leafy.Wire.{MsgTx}

pub record Txscript (O PublicKey PrivateKey : Type 0) : Type 1 where
  -- `*chaincfg.Params`
  pub Params : Type 0
  -- `PrivateKey.PubKey`, `PrivateKey.Serialize`
  pub pub_key : PrivateKey → PublicKey
  pub serialize_private : PrivateKey → Bytes
  -- `txscript.TweakTaprootPrivKey`, `ComputeTaprootOutputKey`, `ComputeTaprootKeyNoScript`
  pub tweak_taproot_priv_key : PrivateKey → Bytes → PrivateKey
  pub compute_taproot_output_key : PublicKey → Bytes → PublicKey
  pub compute_taproot_key_no_script : PublicKey → PublicKey
  -- `schnorr.SerializePubKey`
  pub serialize_pub_key : PublicKey → Bytes
  -- `btcutil.NewAddressTaproot` and the methods of an address
  pub Address : Type 0
  pub new_address_taproot : Bytes → Params → Result Address
  pub script_address : Address → Bytes
  pub encode_address : Address → Bytes
  pub pay_to_addr_script : Address → Result Bytes
  -- `txscript.ScriptBuilder`
  pub Builder : Type 0
  pub new_script_builder : Builder
  pub add_op : ℕ → Builder → Builder
  pub add_data : Bytes → Builder → Builder
  pub add_int64 : ℤ → Builder → Builder
  pub build : Builder → Result Bytes
  pub op_false : ℕ
  pub op_if : ℕ
  pub op_endif : ℕ
  pub op_checksigverify : ℕ
  pub op_checksequenceverify : ℕ
  pub max_script_element_size : ℕ
  -- `NewBaseTapLeaf`, `AssembleTaprootScriptTree`, `RootNode.TapHash` and the Merkle proofs
  pub TapLeaf : Type 0
  pub Tree : Type 0
  pub Proof : Type 0
  pub new_base_tap_leaf : Bytes → TapLeaf
  pub assemble_tree : List TapLeaf → Tree
  pub root_hash : Tree → Bytes
  pub leaf_merkle_proofs : Tree → List Proof
  pub proof_leaf : Proof → TapLeaf
  pub proof_script : Proof → Bytes
  -- `ToControlBlock(internalKey).ToBytes()`
  pub control_block_bytes : Proof → PublicKey → Result Bytes
  -- `NewMultiPrevOutFetcher(nil)`, `AddPrevOut`, `NewTxSigHashes` and the signature hashes
  pub Fetcher : Type 0
  pub empty_fetcher : Fetcher
  pub add_prev_out : O → ℤ → Bytes → Fetcher → Fetcher
  pub SigHashes : Type 0
  pub new_tx_sig_hashes : MsgTx O → Fetcher → SigHashes
  pub calc_taproot_signature_hash : SigHashes → ℕ → MsgTx O → ℕ → Fetcher → Result Bytes
  pub calc_tapscript_signature_hash : SigHashes → ℕ → MsgTx O → ℕ → Fetcher → TapLeaf → Result Bytes
  pub sig_hash_default : ℕ
  -- `schnorr.Sign` and `Signature.Serialize`
  pub Signature : Type 0
  pub schnorr_sign : PrivateKey → Bytes → Result Signature
  pub serialize_signature : Signature → Bytes
