-- ===== src/Signing/Spends.antt =====
-- The signed transactions of leafy.go spend the coins that `CreateTransaction` chose.
use leafy.Prelude.{map, [], ◌∷◌, ℕ, ◌≡◌, refl, ℤ, Bool, List, Bytes, ok, >>=-eq-ok, ok_injective}
use leafy.Hex.{hex_encode}
use leafy.Wire.{TxIn, MsgTx, Utxo, TransactionInfo, SignedMsg, FloatOps}
use leafy.Transaction.Create.{create_transaction}
use leafy.Signer.Keys.{IsSound}
use leafy.Wallet.{NormalWallet, RecoveryWallet}
use leafy.Script.Leaf.{IsTree}
use leafy.Library.{Library, chain_of}
use leafy.SigningKeys.{find_signing_keys, find_signing_recovery_keys}
use leafy.SigningKeys.Keys.{find_signing_keys-OwnsAddress, find_signing_recovery_keys-OpensAddress}
use leafy.Signing.{
  sign_inputs, assign_witnesses, with_sequence, set_sequence, add_prev_outs, assemble,
  taproot_witness, tapscript_witness, create_and_sign_transaction,
  create_and_sign_recovery_transaction,
}
use leafy.Signing.Witnesses.{
  Witnessed, sign_inputs-Witnessed, SpentByKey, SpentByLeaf, taproot_witness-SpentByKey,
  tapscript_witness-SpentByLeaf,
}

module _ {O : Type 0} where
  -- The inputs are those before, each with `timelock` for its sequence.
  abbrev pub Delayed : ℕ → List (TxIn O) → List (TxIn O) → Type 0
  Delayed timelock [] [] = Unit
  Delayed timelock [] (y ∷ ys) = ⊥
  Delayed timelock (x ∷ xs) [] = ⊥
  Delayed timelock (x ∷ xs) (y ∷ ys) =
      (y ≡ record x { sequence = timelock }) × Delayed timelock xs ys

  set_sequence-Delayed :
      (timelock : ℕ) (xs : List (TxIn O)) → Delayed timelock xs (map (set_sequence timelock) xs)
  unfolding set_sequence
  set_sequence-Delayed timelock [] = tt
  set_sequence-Delayed timelock (x ∷ xs) = (refl, set_sequence-Delayed timelock xs)

  pub with_sequence-Delayed :
      (timelock : ℕ) (msg : MsgTx O) → Delayed timelock msg.tx_in (with_sequence timelock msg).tx_in
  unfolding with_sequence
  with_sequence-Delayed timelock msg = set_sequence-Delayed timelock msg.tx_in

  with_sequence-kept :
      (timelock : ℕ) (msg : MsgTx O)
      → with_sequence timelock msg ≡ record msg { tx_in = (with_sequence timelock msg).tx_in }
  unfolding with_sequence
  with_sequence-kept timelock msg = refl

module _ (lib : Library) where
  open lib use {OutPoint, serialize}

  -- The message is `msg` with other inputs, and the hex is its serialization.
  abbrev pub IsWritten : MsgTx OutPoint → SignedMsg OutPoint → Type 0
  IsWritten msg signed =
      (bytes : Bytes) × (signed.msg ≡ record msg { tx_in = signed.msg.tx_in })
      × (serialize signed.msg ≡ ok bytes)
      × (signed.hex ≡ hex_encode bytes)

  pub assemble-Witnessed :
      (P : ℕ → TxIn OutPoint → List Bytes → Type 0) (msg : MsgTx OutPoint) (ws : List (List Bytes))
      (ys : List (TxIn OutPoint)) (signed : SignedMsg OutPoint)
      → assign_witnesses ws msg.tx_in ≡ ok ys
      → assemble lib msg ws ≡ ok signed
      → Witnessed P 0 msg.tx_in ys
      → Witnessed P 0 msg.tx_in signed.msg.tx_in × IsWritten msg signed
  unfolding assemble
  assemble-Witnessed P msg ws ys signed assigned h witnessed =
      let (bytes, wrote, done) =
        >>=-eq-ok (serialize (record msg { tx_in = ys })) _ (rw assigned at h) in
      let same = ok_injective done in rw (← same) (witnessed, (bytes, refl, wrote, refl))

  module _ (timelock : ℕ) (float : FloatOps) (params : lib.tx.Params)
      (verify : lib.keys.PublicKey → Bytes → lib.tx.Signature → Bool)
      (sound : IsSound lib.tx verify) where
    -- A signed transaction is what `CreateTransaction` made with each input witnessed by a signature
    -- that verifies under the output key of the address of its coin; its hex is its serialization.
    pub create_and_sign_transaction-spends :
        (wallet : NormalWallet) (utxos : List (Utxo OutPoint))
        (change_address destination : lib.tx.Address) (amount : ℤ) (fee_rate : float.Float)
        (signed : SignedMsg OutPoint)
        → create_and_sign_transaction lib timelock float params wallet utxos change_address
            destination amount fee_rate
          ≡ ok signed
        → (info : TransactionInfo OutPoint) × (fetcher : lib.tx.Fetcher) × (create_transaction
              (chain_of lib)
              float
              utxos
              change_address
              destination
              amount
              fee_rate
            ≡ ok info)
          × (add_prev_outs lib info info.msg_tx.tx_in lib.tx.empty_fetcher ≡ ok fetcher)
          × Witnessed
              (SpentByKey lib timelock params verify info fetcher info.msg_tx)
              0
              info.msg_tx.tx_in
              signed.msg.tx_in
          × IsWritten info.msg_tx signed
    unfolding create_and_sign_transaction
    create_and_sign_transaction-spends wallet utxos change_address destination amount fee_rate
          signed h =
        let (info, made, h1) =
          >>=-eq-ok
            (create_transaction (chain_of lib) float utxos change_address destination amount
              fee_rate)
            _ h in
        let (found, searched, h2) =
          >>=-eq-ok (find_signing_keys lib timelock params wallet info.outpoint_to_addr) _ h1 in
        let (fetcher, fetched, h3) =
          >>=-eq-ok (add_prev_outs lib info info.msg_tx.tx_in lib.tx.empty_fetcher) _ h2 in
        let (ws, all_signed, h4) =
          >>=-eq-ok
            (sign_inputs (taproot_witness lib timelock info found fetcher info.msg_tx) 0
              info.msg_tx.tx_in)
            _ h3 in
        let (_, owned) =
          find_signing_keys-OwnsAddress lib timelock params sound.commutes wallet
            info.outpoint_to_addr found searched in
        let (ys, assigned, witnessed) =
          sign_inputs-Witnessed _ _
            (taproot_witness-SpentByKey lib timelock params verify info fetcher info.msg_tx sound
              found owned)
            0 info.msg_tx.tx_in ws all_signed in
        let (all_witnessed, written) =
          assemble-Witnessed _ info.msg_tx ws ys signed assigned h4 witnessed in
        (info, fetcher, made, fetched, all_witnessed, written)

    -- A recovery transaction is what `CreateTransaction` made with the timelock for the sequence of
    -- each input, and each input witnessed by a signature that verifies under the key that the
    -- script of its leaf checks against, by that script, and by its control block, for an address of
    -- its coin; its hex is its serialization.
    pub create_and_sign_recovery_transaction-spends :
        (tree : IsTree lib.tx) (wallet : RecoveryWallet) (utxos : List (Utxo OutPoint))
        (change_address destination : lib.tx.Address) (amount : ℤ) (fee_rate : float.Float)
        (signed : SignedMsg OutPoint)
        → create_and_sign_recovery_transaction lib timelock float params wallet utxos change_address
            destination amount fee_rate
          ≡ ok signed
        → (info : TransactionInfo OutPoint) × (msg : MsgTx OutPoint) × (fetcher : lib.tx.Fetcher)
          × (create_transaction
                (chain_of lib)
                float
                utxos
                change_address
                destination
                amount
                fee_rate
              ≡ ok info)
          × Delayed timelock info.msg_tx.tx_in msg.tx_in
          × (msg ≡ record info.msg_tx { tx_in = msg.tx_in })
          × (add_prev_outs lib info msg.tx_in lib.tx.empty_fetcher ≡ ok fetcher)
          × Witnessed
              (SpentByLeaf lib timelock params verify info fetcher msg)
              0
              msg.tx_in
              signed.msg.tx_in
          × IsWritten msg signed
    unfolding create_and_sign_recovery_transaction
    create_and_sign_recovery_transaction-spends tree wallet utxos change_address destination amount
          fee_rate signed h =
        let (info, made, h1) =
          >>=-eq-ok
            (create_transaction (chain_of lib) float utxos change_address destination amount
              fee_rate)
            _ h in
        let msg = with_sequence timelock info.msg_tx in
        let kept = with_sequence-kept timelock info.msg_tx in
        let (found, searched, h2) =
          >>=-eq-ok (find_signing_recovery_keys lib timelock params wallet info.outpoint_to_addr) _
            h1 in
        let (fetcher, fetched, h3) =
          >>=-eq-ok (add_prev_outs lib info msg.tx_in lib.tx.empty_fetcher) _ h2 in
        let (ws, all_signed, h4) =
          >>=-eq-ok
            (sign_inputs (tapscript_witness lib timelock info found fetcher msg) 0 msg.tx_in) _
            h3 in
        let (_, opened) =
          find_signing_recovery_keys-OpensAddress lib timelock params wallet info.outpoint_to_addr
            found searched in
        let (ys, assigned, witnessed) =
          sign_inputs-Witnessed _ _
            (tapscript_witness-SpentByLeaf lib timelock params verify info fetcher msg sound tree
              found opened)
            0 msg.tx_in ws all_signed in
        let (all_witnessed, written) =
          assemble-Witnessed _ msg ws ys signed assigned h4 witnessed in
        (
          info,
          msg,
          fetcher,
          made,
          with_sequence-Delayed timelock info.msg_tx,
          kept,
          fetched,
          all_witnessed,
          written,
        )
