-- ===== src/Signing.antt =====
-- `CreateAndSignTransaction` and `CreateAndSignRecoveryTransaction` (leafy.go): a transaction whose
-- inputs are all signed, by the key path or by the leaf that opens after the timelock.
pub mod Witnesses
pub mod PrevOuts
pub mod Succeeds
pub mod Recovers
pub mod Spends
pub mod Sample
mod Tests
mod PaymentTests
use leafy.Prelude.{
  ℕ, zero, suc, ◌+◌, ℤ, List, [], ◌∷◌, ◌++◌, map, get_elem?, Option, none, some, Bytes, Dict,
  lookup, Result, ok, panic, found_or, ◌>>=◌, Error, Fault,
}
use leafy.Hex.{hex_encode}
use leafy.Wire.{TxIn, MsgTx, Utxo, TransactionInfo, SignedMsg, FloatOps}
use leafy.Transaction.Create.{create_transaction}
use leafy.Signer.{taproot_sign, tapscript_sign}
use leafy.Wallet.{NormalWallet, RecoveryWallet}
use leafy.Library.{Library, chain_of}
use leafy.SigningKeys.{
  SigningKeys, SigningRecoveryKeys, find_signing_keys, find_signing_recovery_keys,
}

-- `(*witness)[i]`
unfoldable pub element : List Bytes → ℕ → Result Bytes
element witness i = elim (get_elem? witness i) [
  | none ↦ panic Fault.index_out_of_range
  | some w ↦ ok w
]

module _ {O : Type 0} where
  -- The loop over the inputs, `index` being that of the first. The witnesses are kept apart, so that
  -- every signature is over the unsigned transaction.
  unfoldable pub sign_inputs :
      (ℕ → TxIn O → Result (List Bytes)) → ℕ → List (TxIn O) → Result (List (List Bytes))
  sign_inputs sign_input index [] = ok []
  sign_inputs sign_input index (input ∷ inputs) = do
    witness ← sign_input index input
    witnesses ← sign_inputs sign_input (index + 1) inputs
    ok (witness ∷ witnesses)

  -- `msgTx.TxIn[index].Witness = witness`, for each of the witnesses.
  unfoldable pub assign_witnesses : List (List Bytes) → List (TxIn O) → Result (List (TxIn O))
  assign_witnesses [] inputs = ok inputs
  assign_witnesses (w ∷ witnesses) [] = panic Fault.index_out_of_range
  assign_witnesses (w ∷ witnesses) (input ∷ inputs) = do
    rest ← assign_witnesses witnesses inputs
    ok (record input { witness = w } ∷ rest)

  unfoldable pub set_sequence : ℕ → TxIn O → TxIn O
  set_sequence timelock input = record input { sequence = timelock }

  -- `txin.Sequence = Timelock`, for each input.
  unfoldable pub with_sequence : ℕ → MsgTx O → MsgTx O
  with_sequence timelock msg = record msg { tx_in = map (set_sequence timelock) msg.tx_in }

module _ (lib : Library) where
  open lib use {OutPoint, keys, tx, outpoint_string, serialize}

  -- The loop that fills `destFetcher`.
  unfoldable pub add_prev_outs :
      TransactionInfo OutPoint → List (TxIn OutPoint) → tx.Fetcher → Result tx.Fetcher
  add_prev_outs info [] fetcher = ok fetcher
  add_prev_outs info (input ∷ inputs) fetcher = do
    let name = outpoint_string input.previous_out_point
    script ← found_or (lookup name info.outpoint_to_script) (Error.missing_script name)
    amount ← found_or (lookup name info.outpoint_to_amt) (Error.missing_amount name)
    add_prev_outs info inputs (tx.add_prev_out input.previous_out_point amount script fetcher)

  -- The signing key of an input, by the address that its coin is on.
  unfoldable pub key_of :
      {V : Type 0} → TransactionInfo OutPoint → Dict V → TxIn OutPoint → Result V
  key_of info signing_keys input = do
    let name = outpoint_string input.previous_out_point
    address ← found_or (lookup name info.outpoint_to_addr) (Error.missing_address name)
    found_or (lookup address signing_keys) (Error.missing_signing_key name address)

  -- The witnesses are assigned and the transaction is written out.
  unfoldable pub assemble : MsgTx OutPoint → List (List Bytes) → Result (SignedMsg OutPoint)
  assemble msg_tx witnesses = do
    inputs ← assign_witnesses witnesses msg_tx.tx_in
    let signed = record msg_tx { tx_in = inputs }
    bytes ← serialize signed
    ok (record { msg = signed; hex = hex_encode bytes })

  module _ (timelock : ℕ) where
    unfoldable pub taproot_witness :
        TransactionInfo OutPoint
        → Dict (SigningKeys lib timelock)
        → tx.Fetcher
        → MsgTx OutPoint
        → ℕ
        → TxIn OutPoint
        → Result (List Bytes)
    taproot_witness info signing_keys fetcher msg_tx index input = do
      key ← key_of info signing_keys input
      (witness, sig_hash) ←
          taproot_sign tx key.tweaked_private_key fetcher msg_tx tx.sig_hash_default index
            (some key.merkle_root)
      signature ← element witness 0
      ok (signature ∷ [])

    unfoldable pub tapscript_witness :
        TransactionInfo OutPoint
        → Dict (SigningRecoveryKeys lib timelock)
        → tx.Fetcher
        → MsgTx OutPoint
        → ℕ
        → TxIn OutPoint
        → Result (List Bytes)
    tapscript_witness info signing_keys fetcher msg_tx index input = do
      key ← key_of info signing_keys input
      (witness, sig_hash) ←
          tapscript_sign tx key.private_key fetcher msg_tx tx.sig_hash_default index
            key.tapscript_data
      signature ← element witness 0
      leaf_script ← element witness 1
      control_block ← element witness 2
      ok (signature ∷ leaf_script ∷ control_block ∷ [])

    module _ (float : FloatOps) (params : tx.Params) where
      unfoldable pub create_and_sign_transaction :
          NormalWallet
          → List (Utxo OutPoint)
          → tx.Address
          → tx.Address
          → ℤ
          → float.Float
          → Result (SignedMsg OutPoint)
      create_and_sign_transaction wallet utxos change_address destination amount fee_rate = do
        info ←
            create_transaction (chain_of lib) float utxos change_address destination amount fee_rate
        let msg_tx = info.msg_tx
        signing_keys ← find_signing_keys lib timelock params wallet info.outpoint_to_addr
        fetcher ← add_prev_outs info msg_tx.tx_in tx.empty_fetcher
        witnesses ← sign_inputs (taproot_witness info signing_keys fetcher msg_tx) 0 msg_tx.tx_in
        assemble msg_tx witnesses

      unfoldable pub create_and_sign_recovery_transaction :
          RecoveryWallet
          → List (Utxo OutPoint)
          → tx.Address
          → tx.Address
          → ℤ
          → float.Float
          → Result (SignedMsg OutPoint)
      create_and_sign_recovery_transaction wallet utxos change_address destination amount fee_rate =
          do
            info ←
                create_transaction (chain_of lib) float utxos change_address destination amount
                  fee_rate
            let msg_tx = with_sequence timelock info.msg_tx
            signing_keys ←
                find_signing_recovery_keys lib timelock params wallet info.outpoint_to_addr
            fetcher ← add_prev_outs info msg_tx.tx_in tx.empty_fetcher
            witnesses ←
                sign_inputs (tapscript_witness info signing_keys fetcher msg_tx) 0 msg_tx.tx_in
            assemble msg_tx witnesses
