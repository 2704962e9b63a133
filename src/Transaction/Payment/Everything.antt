-- ===== src/Transaction/Payment/Everything.antt =====
-- `CreateTransaction` (leafy.go) with the amount 0: everything is sent.
use native.Mathlib.Nat.{zero-add}
use leafy.Prelude.{
  sym, ℕ, ◌<◌, ◌^◌, ◌≡◌, ap, ◌∙◌, false, List, [], ◌∷◌, map, arith, ℤ, pos, sub64, sub64-eq, ◌-ℤ◌,
  Bytes, ok, ge→ltb,
}
use leafy.Wire.{TxIn, MsgTx, TransactionInfo, Utxo, Chain, FloatOps}
use leafy.Transaction.Inputs.{Draft, blank_witness}
use leafy.Transaction.Create.{
  Funding, pay_fee, add_change, finish, start, fee_for, create_transaction, is_change_dust,
}
use leafy.Transaction.Plan.{sum_amounts, IsFunds}
use leafy.Transaction.Refinement.Select.{select_utxos-all}
use leafy.Transaction.Refinement.Loops.{with_inputs, add_matched-eq-ok}
use leafy.Transaction.Refinement.Drafts.{tx_in-with_inputs}
use leafy.Transaction.Payment.{finish-eq-ok}
use leafy.Transaction.Payment.Value.{outpoints, outpoints-inputs}

module _ (chain : Chain) (float : FloatOps) (us : List (Utxo chain.OutPoint))
    (change_addr dest_addr : chain.Address) (fee_rate : float.Float) (fee : ℕ)
    (output_script change_script : Bytes) where
  open chain use {OutPoint}

  abbrev all_inputs : Draft OutPoint
  all_inputs = with_inputs chain blank_witness us (start chain (pos 0) output_script)

  abbrev swept : Funding OutPoint
  swept =
      let d = all_inputs in
      record {
        draft = record d {
          msg_tx = record d.msg_tx {
            tx_out =
                record { value = sub64 (pos (sum_amounts us)) (pos fee); pk_script = output_script }
                ∷ [];
          };
        };
        matched_amount = pos (sum_amounts us);
        unmatched_amount = pos 0;
        change = pos 0;
      }

  create_transaction-swept :
      IsFunds us
      → float.is_nonpositive fee_rate ≡ false
      → chain.pay_to_addr_script dest_addr ≡ ok output_script
      → chain.pay_to_addr_script change_addr ≡ ok change_script
      → fee_for chain float fee_rate all_inputs.msg_tx ≡ pos fee
      → create_transaction chain float us change_addr dest_addr (pos 0) fee_rate
        ≡ finish chain (pos fee) swept
  unfolding create_transaction pay_fee add_change
  create_transaction-swept funds rate dest back fees = rw (
    rate,
    dest,
    back,
    select_utxos-all (pos 0) 0 0 us [] [] funds.coins (omega arith),
    zero-add,
    ge→ltb (sum_amounts us) 0 (omega arith),
    add_matched-eq-ok chain us (start chain (pos 0) output_script) funds.coins,
    fees,
  )

  -- With the amount 0 a returned transaction spends every coin, once and in order, into a single
  -- output that takes what is left over the fee, has no change, and so has no dust. The fee is not
  -- compared with the coins: where it is larger, the output is negative.
  pub create_transaction-everything :
      (t : TransactionInfo OutPoint)
      → IsFunds us
      → fee < 2 ^ 63
      → float.is_nonpositive fee_rate ≡ false
      → chain.pay_to_addr_script dest_addr ≡ ok output_script
      → chain.pay_to_addr_script change_addr ≡ ok change_script
      → fee_for chain float fee_rate all_inputs.msg_tx ≡ pos fee
      → create_transaction chain float us change_addr dest_addr (pos 0) fee_rate ≡ ok t
      → (outpoints t.msg_tx ≡ map (λ u. u.outpoint) us)
        × (t.msg_tx.tx_out
            ≡ record { value = pos (sum_amounts us) -ℤ pos fee; pk_script = output_script } ∷ [])
        × (t.tx_input_amt ≡ pos (sum_amounts us))
        × (t.tx_fee_amt ≡ pos fee)
        × (t.tx_change_amt ≡ pos 0)
        × (is_change_dust t ≡ false)
  unfolding start is_change_dust
  create_transaction-everything t funds small rate dest back fees h =
      let (tx, input, paid, change) =
        finish-eq-ok chain (pos fee) swept
          (sym (create_transaction-swept funds rate dest back fees) ∙ h) in
      let limit : sum_amounts us < 2 ^ 62 = funds.small in
      (
        ap outpoints tx
            ∙ ap (map (λ (i : TxIn OutPoint). i.previous_out_point))
                (tx_in-with_inputs chain blank_witness us (start chain (pos 0) output_script))
            ∙ outpoints-inputs blank_witness us,
        ap (λ (m : MsgTx OutPoint). m.tx_out) tx
            ∙ ap (λ (v : ℤ). record { value = v; pk_script = output_script } ∷ [])
                (sub64-eq (sum_amounts us) fee (omega arith) small),
        input,
        paid,
        change,
        rw change,
      )
