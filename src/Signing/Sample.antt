-- ===== src/Signing/Sample.antt =====
-- Sample keys and calls for the tests: a small wallet (leafy.go, signer.go). Its keys are numbers that
-- grow at odd indices; a public key is its private key, a hash its input, a signature the key before
-- the message.
pub mod Opened
use leafy.Prelude.{
  ◌^◌, some, codes, ℕ, ◌+◌, ◌*◌, ◌%◌, refl, Bool, List, [], ◌∷◌, ◌++◌, replicate, length, arith, ℤ,
  pos, add64, sub64, div64, mul64, ◌+ℤ◌, ◌-ℤ◌, leb_ℤ, Bytes, bytes_eq, bytes_eq_refl, Dict, Result,
  ok, ok_injective, err, Error,
}
use leafy.Wire.{Utxo, SignedMsg, FloatOps, decode_script}
use leafy.Txscript.{Txscript}
use leafy.Bip44.Path.{
  path_item, path_hardened, is_hardened, sibling_index, copy, get_derivation_value, get_path,
  parse_path, without_last,
}
use leafy.Bip44.Key.{Keychain, get_private_key, get_public_key}
use leafy.Bip44.Derive.{create_bip44_key, get_fingerprint, derive_next_sibling}
use leafy.Transaction.Coins.{select_utxo, select_utxos}
use leafy.Transaction.Inputs.{with_input, add_input, add_matched, top_up}
use leafy.Transaction.Create.{
  pay_from_change, pay_fee, lift_change, add_change, finish, start, virtual_size, fee_for,
  create_transaction,
}
use leafy.Signer.{
  taproot_sign, tapscript_sign, sign, get_tweaked_private_key, tweaked_by, sign_type_of,
  no_script_sign_type, script_sign_type, with_hash_type, compute_taproot_sig_hash,
  compute_tapscript_sig_hash,
}
use leafy.Signing.{
  sign_inputs, assign_witnesses, with_sequence, set_sequence, add_prev_outs, key_of, assemble,
  taproot_witness, tapscript_witness, element, create_and_sign_transaction,
  create_and_sign_recovery_transaction,
}
use leafy.Script.{TapscriptSigningData}
use leafy.Bip44.Path.{PathItem}
use leafy.Bip44.Key.{Bip44Key}
use leafy.Script.Leaf.{IsTree}
use leafy.Library.{Library}
use leafy.Signer.Keys.{IsSound}
use leafy.Address.{
  create_tweaked_address, compute_hash_raw, create_tweaked_address_from_tweaked_public_key,
  script_tweak_builder, get_addresses, addresses_from, create_tweaked_address_from_public_key,
}
use leafy.Address.Tweaks.{TweakCommutes}
use leafy.SigningKeys.{
  SigningKeys, SigningRecoveryKeys, find_signing_recovery_keys, add_signing_recovery_keys,
  find_signing_keys, search_from, window, run_window, add_signing_keys, all_mapped,
}
use leafy.Wallet.{
  NormalWallet, RecoveryWallet, normal, get_bip44_key, get_first_mnemonic, get_second_descriptor,
  get_descriptor,
}
use leafy.Bip44.Descriptor.{
  get_taproot_parent_descriptor, get_parent_derivation, derivation_of, slashed, tr_descriptor,
  import_from_taproot_descriptor, four_parts, unchecked,
}
use leafy.Hex.{hex_encode, hex_digit, hex_decode, from_hex_digit}
use leafy.Text.{
  slice, has_prefix, ends_with, index_from, split, cons_head, parse_uint32, scan_uint32,
  format_uint32, emit_digits,
}
use leafy.Script.{
  new_tapscript_builder, add_leaf_script, create_tapscript_timelock_from_key, get_taproot_address,
  augment_with_timelock, builder_address, to_sign, proof_at, get_merkle_root,
}

abbrev pub read_key : Bytes → Result ℕ
read_key (k ∷ []) = ok k
read_key _ = err Error.invalid_public_key

abbrev pub keys : Keychain
keys = record {
  ExtendedKey = ℕ;
  PublicKey = ℕ;
  PrivateKey = ℕ;
  derive = λ k i. ok (k + i % 2);
  neuter = λ k. ok k;
  ec_pub_key = λ k. ok k;
  ec_priv_key = λ k. ok k;
  key_string = λ k. k ∷ [];
  new_key_from_string = read_key;
  serialize_compressed = λ k. k ∷ [];
  hash160 = λ s. replicate 20 171;
}

abbrev pub tx : Txscript ℕ ℕ ℕ
tx = record {
  Params = ℕ;
  pub_key = λ k. k;
  serialize_private = λ k. k ∷ [];
  tweak_taproot_priv_key = λ k root. length root + k;
  compute_taproot_output_key = λ k root. length root + k;
  compute_taproot_key_no_script = λ k. k;
  serialize_pub_key = λ k. k ∷ [];
  Address = Bytes;
  new_address_taproot = λ s params. ok s;
  script_address = λ a. a;
  encode_address = λ a. a;
  pay_to_addr_script = λ a. ok a;
  Builder = Bytes;
  new_script_builder = [];
  add_op = λ op b. b ++ op ∷ [];
  add_data = λ s b. b ++ s;
  add_int64 = λ n b. b ++ 52 ∷ [];
  build = λ b. ok b;
  op_false = 0;
  op_if = 99;
  op_endif = 104;
  op_checksigverify = 173;
  op_checksequenceverify = 178;
  max_script_element_size = 520;
  TapLeaf = Bytes;
  Tree = List Bytes;
  Proof = Bytes;
  new_base_tap_leaf = λ s. s;
  assemble_tree = λ leaves. leaves;
  root_hash = λ tree. length tree ∷ [];
  leaf_merkle_proofs = λ tree. tree;
  proof_leaf = λ p. p;
  proof_script = λ p. p;
  control_block_bytes = λ p k. ok (k ∷ []);
  Fetcher = ℕ;
  empty_fetcher = 0;
  add_prev_out = λ o value script f. f + 1;
  SigHashes = ℕ;
  new_tx_sig_hashes = λ msg f. f;
  calc_taproot_signature_hash = λ hashes t msg i f. ok (i ∷ f ∷ []);
  calc_tapscript_signature_hash = λ hashes t msg i f leaf. ok (i ∷ leaf);
  sig_hash_default = 0;
  Signature = Bytes;
  schnorr_sign = λ k message. ok (k ∷ message);
  serialize_signature = λ s. s;
}

abbrev pub lib : Library
lib = record {
  OutPoint = ℕ;
  keys = keys;
  tx = tx;
  outpoint_string = λ o. o ∷ [];
  transaction_weight = λ msg. pos (240 + 230 * length msg.tx_in);
  serialize = λ msg. ok (length msg.tx_in ∷ []);
  sha256 = λ s. s;
  entropy_from_mnemonic = λ mnemonic. ok mnemonic;
  new_mnemonic = λ seed. ok seed;
  new_master = λ seed params. ok (length seed);
}

abbrev pub verify : ℕ → Bytes → Bytes → Bool
verify key message s = bytes_eq s (key ∷ message)

pub commutes : TweakCommutes lib
commutes k root = refl

pub lib-IsSound : IsSound tx verify
lib-IsSound = record {
  verifies = λ key message s signed. rw (← ok_injective signed) (bytes_eq_refl (key ∷ message));
  commutes = λ key root. refl;
  without_script = λ key. omega arith;
}

abbrev pub float : FloatOps
float = record {
  Float = ℤ;
  is_nonpositive = λ x. leb_ℤ x (pos 0);
  of_int64 = λ n. n;
  mul = mul64;
  ceil = λ x. x;
  to_int64 = λ x. x;
}

abbrev pub wallet : NormalWallet
wallet = record { first_mnemonic = 0 ∷ 0 ∷ []; second_mnemonic = 0 ∷ [] }

abbrev pub recovery_wallet : RecoveryWallet
recovery_wallet = normal wallet

abbrev pub coin : Utxo ℕ
coin = record { from_address = 3 ∷ []; outpoint = 1; amount = pos 1000; script = b'0' ∷ b'1' ∷ [] }

abbrev pub script_of : ℕ → Bytes
script_of k = k ∷ 173 ∷ 52 ∷ 178 ∷ []

abbrev pub leaf_of : ℕ → ℕ → TapscriptSigningData tx
leaf_of first internal = record {
  leaf = script_of first;
  leaf_script = script_of first;
  control_block = internal ∷ [];
  merkle_root = 1 ∷ [];
}

abbrev pub item : ℕ → PathItem
item n = record { path = n }

abbrev pub key_at : ℕ → ℕ → ℕ → Bip44Key ℕ
key_at master index_key index = record {
  change_key = master;
  index_key = index_key;
  fingerprint = codes "abababab";
  purpose = some (item (2 ^ 31 + 44));
  coin = some (item (2 ^ 31));
  account = some (item (2 ^ 31));
  change = some (item 0);
  index = item index;
}

pub tx-IsTree : IsTree tx
tx-IsTree = record { only_leaf = λ script p found. (cc, cc) }
