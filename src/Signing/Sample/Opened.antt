-- ===== src/Signing/Sample/Opened.antt =====
-- Calls on the sample that open all they run, for tests by computation.
use leafy.Prelude.{
  ℕ, List, [], ◌∷◌, pos, add64, sub64, div64, mul64, ◌+ℤ◌, ◌-ℤ◌, Bytes, bytes_eq, Dict, Result,
}
use leafy.Wire.{Utxo, SignedMsg, decode_script}
use leafy.Bip44.Path.{
  path_item, path_hardened, is_hardened, sibling_index, copy, get_derivation_value, get_path,
  parse_path, without_last,
}
use leafy.Bip44.Key.{get_private_key, get_public_key}
use leafy.Bip44.Derive.{create_bip44_key, get_fingerprint, derive_next_sibling}
use leafy.Transaction.Coins.{select_utxo, select_utxos}
use leafy.Transaction.Inputs.{with_input, add_input, add_matched, top_up}
use leafy.Transaction.Create.{
  pay_from_change, pay_fee, lift_change, add_change, finish, start, virtual_size, fee_for,
  create_transaction,
}
use leafy.Signer.{
  taproot_sign, tapscript_sign, sign, get_tweaked_private_key, tweaked_by, sign_type_of,
  no_script_sign_type, script_sign_type, with_hash_type, compute_taproot_sig_hash,
  compute_tapscript_sig_hash,
}
use leafy.Signing.{
  sign_inputs, assign_witnesses, with_sequence, set_sequence, add_prev_outs, key_of, assemble,
  taproot_witness, tapscript_witness, element, create_and_sign_transaction,
  create_and_sign_recovery_transaction,
}
use leafy.Address.{
  create_tweaked_address, compute_hash_raw, create_tweaked_address_from_tweaked_public_key,
  script_tweak_builder, get_addresses, addresses_from, create_tweaked_address_from_public_key,
}
use leafy.SigningKeys.{
  SigningKeys, SigningRecoveryKeys, find_signing_recovery_keys, add_signing_recovery_keys,
  find_signing_keys, search_from, window, run_window, add_signing_keys, all_mapped,
}
use leafy.Wallet.{
  NormalWallet, RecoveryWallet, get_bip44_key, get_first_mnemonic, get_second_descriptor,
  get_descriptor,
}
use leafy.Bip44.Descriptor.{
  get_taproot_parent_descriptor, get_parent_derivation, derivation_of, slashed, tr_descriptor,
  import_from_taproot_descriptor, four_parts, unchecked,
}
use leafy.Hex.{hex_encode, hex_digit, hex_decode, from_hex_digit}
use leafy.Text.{
  slice, has_prefix, ends_with, index_from, split, cons_head, parse_uint32, scan_uint32,
  format_uint32, emit_digits,
}
use leafy.Script.{
  new_tapscript_builder, add_leaf_script, create_tapscript_timelock_from_key, get_taproot_address,
  augment_with_timelock, builder_address, to_sign, proof_at, get_merkle_root,
}
use leafy.Signing.Sample.{lib, float, wallet}

-- A call that opens what the searches run.
unfoldable pub opened : NormalWallet → Dict Bytes → Result (Dict (SigningKeys lib 52))
unfolding find_signing_keys search_from window run_window add_signing_keys get_bip44_key
    path_hardened path_item is_hardened create_bip44_key get_fingerprint slice hex_encode hex_digit
    get_private_key get_public_key create_tweaked_address compute_hash_raw
    create_tweaked_address_from_tweaked_public_key script_tweak_builder new_tapscript_builder
    add_leaf_script create_tapscript_timelock_from_key get_taproot_address augment_with_timelock
    builder_address to_sign proof_at get_merkle_root derive_next_sibling sibling_index copy
    all_mapped bytes_eq create_tweaked_address_from_public_key
opened w wanted = find_signing_keys lib 52 0 w wanted

-- The same for the searches and lists that start from a descriptor.
unfoldable pub opened_recovery :
    RecoveryWallet → Dict Bytes → Result (Dict (SigningRecoveryKeys lib 52))
unfolding opened find_signing_recovery_keys add_signing_recovery_keys get_first_mnemonic
    get_second_descriptor get_descriptor get_taproot_parent_descriptor get_parent_derivation
    derivation_of slashed tr_descriptor import_from_taproot_descriptor four_parts unchecked
    get_derivation_value get_path parse_path without_last has_prefix ends_with index_from split
    cons_head parse_uint32 scan_uint32 format_uint32 emit_digits ◌+ℤ◌ ◌-ℤ◌ get_addresses
    addresses_from
opened_recovery w wanted = find_signing_recovery_keys lib 52 0 w wanted

-- The same for transactions and their signatures.
unfoldable pub opened_signing : List (Utxo ℕ) → Result (SignedMsg ℕ)
unfolding opened opened_recovery create_and_sign_transaction create_and_sign_recovery_transaction
    create_transaction select_utxos select_utxo add_matched add_input with_input decode_script
    hex_decode from_hex_digit start fee_for virtual_size add64 sub64 mul64 div64 pay_fee
    pay_from_change top_up add_change lift_change finish taproot_sign tapscript_sign sign
    get_tweaked_private_key tweaked_by sign_type_of no_script_sign_type script_sign_type
    with_hash_type compute_taproot_sig_hash compute_tapscript_sig_hash sign_inputs assign_witnesses
    with_sequence set_sequence add_prev_outs key_of assemble taproot_witness tapscript_witness
    element
opened_signing utxos =
    create_and_sign_transaction lib 52 float 0 wallet utxos (9 ∷ []) (8 ∷ []) (pos 500) (pos 1)
