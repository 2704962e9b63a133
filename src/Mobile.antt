-- ===== src/Mobile.antt =====
-- mobile_leafy.go: the calls of the library for gomobile, with texts and int64 for arguments and
-- JSON for results.
pub mod Amounts
pub mod Ranges
mod Tests
use leafy.Prelude.{
  ℕ, ◌-◌, ◌%◌, ◌^◌, Bool, true, false, ◌||◌, not, ℤ, pos, negsuc, ltb_ℤ, sub64, List, [], ◌∷◌,
  codes, bytes_eq, Bytes, if◌then◌else◌, Result, ok, err, map_err, ensure, ◌>>=◌, ◌>>◌, Error,
}
use leafy.Hex.{hex_encode}
use leafy.Text.{to_lower}
use leafy.Wire.{Utxo, TransactionInfo, SignedMsg, FloatOps}
use leafy.Wallet.{
  NormalWallet, RecoveryWallet, normal, recovery, get_second_descriptor, create_new_wallet,
}
use leafy.Library.{Library, chain_of}
use leafy.Address.{get_addresses}
use leafy.Transaction.Create.{create_transaction, is_change_dust}
use leafy.Signing.{create_and_sign_transaction, create_and_sign_recovery_transaction}
use leafy.Social.{
  Rsa, SocialKeyPair, create_ephemeral_social_key_pair, validate_ephemeral_social_public_key,
  encrypt_with_ephemeral_social_public_key, decrypt_with_ephemeral_social_private_key,
}

pub record MobileWallet : Type 0 where
  pub first_mnemonic : Bytes
  pub second_mnemonic : Bytes
  pub second_descriptor : Bytes

pub record MobileTransaction : Type 0 where
  pub hex : Bytes
  pub total_input : ℤ
  pub amount : ℤ
  pub fees : ℤ
  pub change : ℤ
  pub change_is_dust : Bool

-- The networks of package chaincfg that have a name here.
pub data Network : Type 0 where
  main_net regression_net test_net3 sim_net : Network

unfoldable pub parse_network_name : Bytes → Result Network
parse_network_name network_name =
    let name = to_lower network_name in
    if bytes_eq name (codes "mainnet")
    then ok main_net
    else if bytes_eq name (codes "regtest")
    then ok regression_net
    else if bytes_eq name (codes "testnet3") || bytes_eq name (codes "testnet")
    then ok test_net3
    else if bytes_eq name (codes "simnet")
    then ok sim_net
    else err (Error.unknown_network network_name)

-- `wrapError`, for an error that is not nil.
unfoldable pub wrap_error : List Bytes → Error → Error
wrap_error (prefix ∷ []) e = Error.prefixed prefix e
wrap_error _ e = Error.prefixed (codes "err: ") e

-- `if err != nil { return nil, wrapError(err) }`
unfoldable pub wrapped {ℓ} : {T : Type ℓ} → Result T → Result T
wrapped call = map_err (wrap_error []) call

-- Go's conversion of an int64 to an unsigned integer of fewer bits.
unfoldable pub to_unsigned : ℕ → ℤ → ℕ
to_unsigned bits (pos n) = n % 2 ^ bits
to_unsigned bits (negsuc n) = 2 ^ bits - 1 - n % 2 ^ bits

-- `x < 0 || x > limit`
unfoldable pub outside : ℤ → ℤ → Bool
outside x limit = ltb_ℤ x (pos 0) || ltb_ℤ limit x

unfoldable pub mobile_transaction : {O : Type 0} → TransactionInfo O → MobileTransaction
mobile_transaction tx = record {
  hex = hex_encode tx.hex;
  total_input = tx.tx_input_amt;
  amount = sub64 (sub64 tx.tx_input_amt tx.tx_fee_amt) tx.tx_change_amt;
  fees = tx.tx_fee_amt;
  change = tx.tx_change_amt;
  change_is_dust = is_change_dust tx;
}

-- What encoding/json does here, and `btcutil.DecodeAddress`.
pub record Encoding (lib : Library) : Type 0 where
  pub params_of : Network → lib.tx.Params
  pub decode_address : Bytes → lib.tx.Params → Result lib.tx.Address
  pub unmarshal_utxos : Bytes → Result (List (Utxo lib.OutPoint))
  pub marshal_wallet : MobileWallet → Result Bytes
  pub marshal_strings : List Bytes → Result Bytes
  pub marshal_transaction : MobileTransaction → Result Bytes
  pub marshal_signed : SignedMsg lib.OutPoint → Result Bytes
  pub marshal_pair : SocialKeyPair → Result Bytes

module _ (lib : Library) (json : Encoding lib) where
  open lib use {OutPoint, tx}

  -- The seeds are what `hdkeychain.GenerateSeed` returned. Only the last error is wrapped.
  unfoldable pub mobile_create_new_wallet : Result Bytes → Result Bytes → Bytes → Result Bytes
  mobile_create_new_wallet first_seed second_seed network_name = do
    w ← create_new_wallet lib first_seed second_seed
    network ← parse_network_name network_name
    descriptor ← get_second_descriptor lib (normal w) (json.params_of network)
    wrapped (
        json.marshal_wallet (record {
          first_mnemonic = w.first_mnemonic;
          second_mnemonic = w.second_mnemonic;
          second_descriptor = descriptor;
        }))

  unfoldable pub mobile_get_addresses : ℕ → Bytes → Bytes → Bytes → ℤ → ℤ → Result Bytes
  mobile_get_addresses timelock network_name first_mnemonic second_descriptor start_index num = do
    wrapped (ensure (not (outside start_index (pos (2 ^ 32 - 1)))) Error.invalid_start_index)
    wrapped (ensure (not (outside num (pos (2 ^ 8 - 1)))) Error.invalid_num)
    network ← wrapped (parse_network_name network_name)
    addresses ← wrapped (
        get_addresses lib timelock (json.params_of network)
          (recovery first_mnemonic second_descriptor) (to_unsigned 32 start_index)
          (to_unsigned 8 num))
    wrapped (json.marshal_strings addresses)

  -- What the calls about transactions decode, in this order.
  pub record Request : Type 0 where
    pub params : tx.Params
    pub change_addr : tx.Address
    pub dest_addr : tx.Address
    pub utxos : List (Utxo OutPoint)

  unfoldable pub read_request : Bytes → Bytes → Bytes → Bytes → Result Request
  read_request network_name utxos change_addr_serialized dest_addr_serialized = do
    network ← wrapped (parse_network_name network_name)
    let params = json.params_of network
    change_addr ← wrapped (json.decode_address change_addr_serialized params)
    dest_addr ← wrapped (json.decode_address dest_addr_serialized params)
    utxos_deserialized ← wrapped (json.unmarshal_utxos utxos)
    ok (record {
      params = params;
      change_addr = change_addr;
      dest_addr = dest_addr;
      utxos = utxos_deserialized;
    })

  module _ (float : FloatOps) where
    unfoldable pub mobile_create_transaction :
        Bytes → Bytes → Bytes → Bytes → ℤ → float.Float → Result Bytes
    mobile_create_transaction network_name utxos change_addr dest_addr amount fee_rate = do
      r ← read_request network_name utxos change_addr dest_addr
      t ← wrapped (
          create_transaction (chain_of lib) float r.utxos r.change_addr r.dest_addr amount fee_rate)
      wrapped (json.marshal_transaction (mobile_transaction t))

    unfoldable pub mobile_create_and_sign_transaction :
        ℕ → Bytes → Bytes → Bytes → Bytes → Bytes → Bytes → ℤ → float.Float → Result Bytes
    mobile_create_and_sign_transaction timelock network_name first_mnemonic second_mnemonic utxos
          change_addr dest_addr amount fee_rate =
        do
          r ← read_request network_name utxos change_addr dest_addr
          signed ← wrapped (
              create_and_sign_transaction lib timelock float r.params
                (record { first_mnemonic = first_mnemonic; second_mnemonic = second_mnemonic })
                r.utxos r.change_addr r.dest_addr amount fee_rate)
          wrapped (json.marshal_signed signed)

    unfoldable pub mobile_create_and_sign_recovery_transaction :
        ℕ → Bytes → Bytes → Bytes → Bytes → Bytes → Bytes → ℤ → float.Float → Result Bytes
    mobile_create_and_sign_recovery_transaction timelock network_name first_mnemonic
          second_descriptor utxos change_addr dest_addr amount fee_rate =
        do
          r ← read_request network_name utxos change_addr dest_addr
          signed ← wrapped (
              create_and_sign_recovery_transaction lib timelock float r.params
                (recovery first_mnemonic second_descriptor) r.utxos r.change_addr r.dest_addr amount
                fee_rate)
          wrapped (json.marshal_signed signed)

  module _ (crypto : Rsa) where
    unfoldable pub mobile_create_ephemeral_social_key_pair : Result crypto.PrivateKey → Result Bytes
    mobile_create_ephemeral_social_key_pair generated = do
      pair ← wrapped (create_ephemeral_social_key_pair crypto generated)
      wrapped (json.marshal_pair pair)

    -- The other three pass the call on.
    unfoldable pub mobile_validate_ephemeral_social_public_key : Bytes → Result (Unit {0})
    mobile_validate_ephemeral_social_public_key public_key_hex =
        validate_ephemeral_social_public_key crypto public_key_hex

    unfoldable pub mobile_encrypt_with_ephemeral_social_public_key :
        Bytes → Bytes → Bytes → Result Bytes
    mobile_encrypt_with_ephemeral_social_public_key random public_key_hex text =
        encrypt_with_ephemeral_social_public_key crypto random public_key_hex text

    unfoldable pub mobile_decrypt_with_ephemeral_social_private_key : Bytes → Bytes → Result Bytes
    mobile_decrypt_with_ephemeral_social_private_key private_key_hex encrypted =
        decrypt_with_ephemeral_social_private_key crypto private_key_hex encrypted
