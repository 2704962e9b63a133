-- ===== src/Mobile/Amounts.antt =====
-- What `MobileCreateTransaction` reports of a payment (mobile_leafy.go).
use leafy.Prelude.{ℕ, ◌≡◌, pos, [], ◌∷◌, if◌then◌else◌, Bytes, ltb, ok, >>=-eq-ok}
use leafy.Wire.{TransactionInfo, FloatOps}
use leafy.Library.{Library, chain_of}
use leafy.Transaction.Create.{create_transaction}
use leafy.Transaction.Payment.{IsPayment}
use leafy.Transaction.Payment.Value.{create_transaction-pays}
use leafy.Mobile.{
  Encoding, mobile_transaction, wrapped, Request, read_request, mobile_create_transaction,
}
use leafy.Mobile.Ranges.{wrapped-eq-ok}

module _ (lib : Library) (json : Encoding lib) (float : FloatOps) where
  open lib use {OutPoint, tx}

  -- Where the request reads as a payment, the JSON is that of a report on the transaction that
  -- `CreateTransaction` makes, whose first output pays the amount that was asked for; the report
  -- gives that amount, computed from what the transaction takes in, its fee and its change.
  pub mobile_create_transaction-pays :
      (network_name utxos change_addr dest_addr : Bytes) (amount fee : ℕ) (fee_rate : float.Float)
      (output_script change_script out : Bytes) (r : Request lib json)
      → read_request lib json network_name utxos change_addr dest_addr ≡ ok r
      → IsPayment
          (chain_of lib)
          float
          r.utxos
          r.change_addr
          r.dest_addr
          amount
          fee_rate
          fee
          output_script
          change_script
      → mobile_create_transaction lib json float network_name utxos change_addr dest_addr
          (pos amount)
          fee_rate
        ≡ ok out
      → (t : TransactionInfo OutPoint) × (change : ℕ) × (create_transaction
            (chain_of lib)
            float
            r.utxos
            r.change_addr
            r.dest_addr
            (pos amount)
            fee_rate
          ≡ ok t)
        × (json.marshal_transaction (mobile_transaction t) ≡ ok out)
        × ((mobile_transaction t).amount ≡ pos amount)
        × ((mobile_transaction t).change ≡ pos change)
        × (t.msg_tx.tx_out
            ≡ record { value = pos amount; pk_script = output_script }
              ∷ (if ltb 0 change
                  then record { value = pos change; pk_script = change_script } ∷ []
                  else []))
  unfolding mobile_create_transaction mobile_transaction
  mobile_create_transaction-pays name us c d amount fee rate os cs out r read call h =
      let (t, made, wrote) =
        >>=-eq-ok
          (wrapped (
            create_transaction (chain_of lib) float r.utxos r.change_addr r.dest_addr (pos amount)
              rate))
          _ (rw read at h) in
      let created = wrapped-eq-ok _ made in
      let (change, change_amt, outputs, balance) =
        create_transaction-pays (chain_of lib) float r.utxos r.change_addr r.dest_addr amount rate
          fee os cs call t created in
      (t, change, created, wrapped-eq-ok _ wrote, balance, change_amt, outputs)
