-- ===== src/Signing/Recovers.antt =====
-- When `CreateAndSignRecoveryTransaction` (leafy.go) returns a signed transaction.
use leafy.Prelude.{
  ℕ, ◌≡◌, ◌<◌, refl, ap, ◌∙◌, arith, List, [], ◌∷◌, map, length, pos, Bytes, Dict, IsIn, ok,
}
use leafy.Wire.{TxIn, MsgTx, Utxo, TransactionInfo, SignedMsg, FloatOps}
use leafy.Library.{Library, chain_of}
use leafy.Transaction.Create.{create_transaction}
use leafy.Transaction.Payment.{IsPayment}
use leafy.Signer.{
  tapscript_sign, sign, compute_tapscript_sig_hash, get_tweaked_private_key, no_script_sign_type,
}
use leafy.Wallet.{RecoveryWallet}
use leafy.SigningKeys.{SigningRecoveryKeys, find_signing_recovery_keys}
use leafy.SigningKeys.Keys.{find_signing_recovery_keys-OpensAddress}
use leafy.Signing.{
  element, with_sequence, set_sequence, add_prev_outs, key_of, tapscript_witness,
  create_and_sign_recovery_transaction,
}
use leafy.Signing.Witnesses.{Witnessed, sign_inputs-Witnessed}
use leafy.Signing.PrevOuts.{add_prev_outs-create_transaction}
use leafy.Signing.Spends.{Delayed, with_sequence-Delayed, IsWritten, assemble-Witnessed}
use leafy.Signing.Succeeds.{key_of-AllFound, sign_inputs-total, assemble-total}

outpoints-with_sequence :
    {O : Type 0} (timelock : ℕ) (xs : List (TxIn O))
    → map (λ (x : TxIn O). x.previous_out_point) (map (set_sequence timelock) xs)
      ≡ map (λ x. x.previous_out_point) xs
unfolding set_sequence
outpoints-with_sequence timelock [] = refl
outpoints-with_sequence timelock (x ∷ xs) =
    ap (λ os. x.previous_out_point ∷ os) (outpoints-with_sequence timelock xs)

length-with_sequence :
    {O : Type 0} (timelock : ℕ) (xs : List (TxIn O))
    → length (map (set_sequence timelock) xs) ≡ length xs
length-with_sequence timelock [] = refl
length-with_sequence timelock (x ∷ xs) = omega (arith, length-with_sequence timelock xs)

module _ (lib : Library) where
  open lib use {OutPoint, tx, outpoint_string, serialize}

  module _ (timelock : ℕ) (info : TransactionInfo OutPoint)
      (found : Dict (SigningRecoveryKeys lib timelock)) (fetcher : tx.Fetcher)
      (msg : MsgTx OutPoint) where
    tapscript_witness-total :
        (i : ℕ) (x : TxIn OutPoint)
        → ((leaf : tx.TapLeaf)
            → (h : Bytes) × (compute_tapscript_sig_hash tx fetcher msg tx.sig_hash_default i leaf
                ≡ ok h)
              × ((key : lib.keys.PrivateKey) → (s : tx.Signature) × (tx.schnorr_sign key h ≡ ok s)))
        → (k : SigningRecoveryKeys lib timelock) × (key_of lib info found x ≡ ok k)
        → (w : List Bytes) × (tapscript_witness lib timelock info found fetcher msg i x ≡ ok w)
    unfolding tapscript_witness tapscript_sign sign element
    tapscript_witness-total i x hashes (k, known) =
        let (h, hashed, signs) = hashes k.tapscript_data.leaf in
        let (s, signed) = signs (get_tweaked_private_key tx k.private_key no_script_sign_type) in
        (
          tx.serialize_signature s
              ∷ k.tapscript_data.leaf_script
              ∷ k.tapscript_data.control_block
              ∷ [],
          rw (known, hashed, signed),
        )

  module _ (timelock : ℕ) (float : FloatOps) (params : tx.Params) (us : List (Utxo OutPoint))
      (change_addr dest_addr : tx.Address) (amount : ℕ) (fee_rate : float.Float) (fee : ℕ)
      (output_script change_script : Bytes)
      (call : IsPayment
        (chain_of lib)
        float
        us
        change_addr
        dest_addr
        amount
        fee_rate
        fee
        output_script
        change_script) where
    -- Where two of the coins have one key only if they are the same coin, a payment that
    -- `CreateTransaction` returns is signed by the leaf, if the search finds the recovery keys for its
    -- addresses, the signature hash of each input, with the timelock in the inputs, exists for any
    -- leaf and is signed with any key, and messages are serialized. What is signed is the payment
    -- with the timelock for the sequence and the witness of each input that signing it returns, all
    -- else as it was, and has the hex of its serialization.
    pub create_and_sign_recovery_transaction-signs :
        (wallet : RecoveryWallet) (t : TransactionInfo OutPoint)
        (found : Dict (SigningRecoveryKeys lib timelock))
        → ((u v : Utxo OutPoint)
            → IsIn u us
            → IsIn v us
            → outpoint_string u.outpoint ≡ outpoint_string v.outpoint
            → u ≡ v)
        → create_transaction (chain_of lib) float us change_addr dest_addr (pos amount) fee_rate
          ≡ ok t
        → find_signing_recovery_keys lib timelock params wallet t.outpoint_to_addr ≡ ok found
        → ((g : tx.Fetcher) (i : ℕ) (leaf : tx.TapLeaf)
            → add_prev_outs lib t t.msg_tx.tx_in tx.empty_fetcher ≡ ok g
            → i < length t.msg_tx.tx_in
            → (h : Bytes) × (compute_tapscript_sig_hash tx g
                  (with_sequence timelock t.msg_tx)
                  tx.sig_hash_default
                  i
                  leaf
                ≡ ok h)
              × ((key : lib.keys.PrivateKey) → (s : tx.Signature) × (tx.schnorr_sign key h ≡ ok s)))
        → ((m : MsgTx OutPoint) → (bytes : Bytes) × (serialize m ≡ ok bytes))
        → (signed : SignedMsg OutPoint) × (g : tx.Fetcher) × (msg : MsgTx OutPoint)
          × (create_and_sign_recovery_transaction lib timelock float params wallet us change_addr
                dest_addr
                (pos amount)
                fee_rate
              ≡ ok signed)
          × (add_prev_outs lib t t.msg_tx.tx_in tx.empty_fetcher ≡ ok g)
          × Delayed timelock t.msg_tx.tx_in msg.tx_in
          × (msg ≡ record t.msg_tx { tx_in = msg.tx_in })
          × Witnessed
              (λ i x w. tapscript_witness lib timelock t found g msg i x ≡ ok w)
              0
              msg.tx_in
              signed.msg.tx_in
          × IsWritten lib msg signed
    unfolding create_and_sign_recovery_transaction with_sequence
    create_and_sign_recovery_transaction-signs wallet t found named made searched hashes writes =
        let inputs = (with_sequence timelock t.msg_tx).tx_in in
        let kept = outpoints-with_sequence timelock t.msg_tx.tx_in in
        let size : length inputs ≡ length t.msg_tx.tx_in =
          length-with_sequence timelock t.msg_tx.tx_in in
        let (spent, g, _, outs, addrs, fetched, delayed, _) =
          add_prev_outs-create_transaction lib float us change_addr dest_addr amount fee_rate fee
            output_script change_script call t timelock tx.empty_fetcher named made in
        let (all_found, _) =
          find_signing_recovery_keys-OpensAddress lib timelock params wallet t.outpoint_to_addr
            found searched in
        let keyed = key_of-AllFound lib t found inputs spent (kept ∙ outs) addrs all_found in
        let msg = with_sequence timelock t.msg_tx in
        let sign_input = tapscript_witness lib timelock t found g msg in
        let (ws, signed_all) =
          sign_inputs-total sign_input
            (λ x. (k : SigningRecoveryKeys lib timelock) × (key_of lib t found x ≡ ok k))
            (length inputs)
            (λ i x lt key.
              tapscript_witness-total timelock t found g msg i x
                (λ leaf. hashes g i leaf fetched (omega (arith, size))) key)
            0 inputs (omega arith) keyed in
        let (ys, assigned, witnessed) =
          sign_inputs-Witnessed sign_input (λ i x w. sign_input i x ≡ ok w) (λ i x w e. e) 0 inputs
            ws signed_all in
        let (signed, assembled) = assemble-total lib msg ws ys assigned writes in
        let (all_witnessed, written) =
          assemble-Witnessed lib (λ i x w. sign_input i x ≡ ok w) msg ws ys signed assigned
            assembled witnessed in
        (
          signed,
          g,
          msg,
          rw (made, searched, delayed, signed_all) assembled,
          fetched,
          with_sequence-Delayed timelock t.msg_tx,
          refl,
          all_witnessed,
          written,
        )
