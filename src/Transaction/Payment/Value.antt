-- ===== src/Transaction/Payment/Value.antt =====
-- The value of a payment by `CreateTransaction` (leafy.go): what goes in comes out, and which
-- payments are refused.
use mathlib.Core.List.{map-append}
use leafy.Prelude.{
  ℕ, ◌+◌, ◌-◌, ◌*◌, ◌≤◌, ◌<◌, ◌≡◌, refl, ap, ◌∙◌, List, [], ◌∷◌, ◌++◌, map, arith, pos, sub64,
  sub64-pos, Bytes, ltb, ok, err, Error, ◌^◌, if◌then◌else◌,
}
use leafy.Wire.{TxIn, MsgTx, Utxo, TransactionInfo, Chain, FloatOps}
use leafy.Transaction.Create.{create_transaction}
use leafy.Transaction.Plan.{sum_amounts, covering, uncovered, spend, plan}
use leafy.Transaction.Plan.Worth.{
  plan-IsBalanced, plan-funded, plan-short_of_fee, plan-short_of_amount, plan-IsWithin,
}
use leafy.Transaction.Plan.Drawn.{IsDrawn, plan-IsDrawn}
use leafy.Transaction.Refinement.{realise}
use leafy.Transaction.Refinement.Drafts.{input_of}
use leafy.Transaction.Payment.{
  finish-total, IsPayment, Carries, sum_values, result-plan, result-Carries,
}

-- The outpoints that a transaction spends, in order.
abbrev pub outpoints : {O : Type 0} → MsgTx O → List O
outpoints tx = map (λ i. i.previous_out_point) tx.tx_in

pub outpoints-inputs :
    {O : Type 0} (witness : List Bytes) (us : List (Utxo O))
    → map (λ (i : TxIn O). i.previous_out_point) (map (input_of witness) us)
      ≡ map (λ u. u.outpoint) us
outpoints-inputs witness [] = refl
outpoints-inputs witness (u ∷ us) = ap (λ os. u.outpoint ∷ os) (outpoints-inputs witness us)

module _ {O : Type 0} {amount fee : ℕ} {output_script change_script : Bytes}
    {spent lifted : List (Utxo O)} {change : ℕ} {t : TransactionInfo O}
    (c : Carries amount fee output_script change_script spent lifted change t) where
  pub outpoints-Carries : outpoints t.msg_tx ≡ map (λ u. u.outpoint) (spent ++ lifted)
  outpoints-Carries =
      ap (map (λ (i : TxIn O). i.previous_out_point)) c.inputs ∙ simp (map-append, outpoints-inputs)

  sum_values-Carries : sum_values t.msg_tx.tx_out ≡ amount + change
  sum_values-Carries = ap sum_values c.outputs ∙ ground arith

module _ (chain : Chain) (float : FloatOps) (us : List (Utxo chain.OutPoint))
    (change_addr dest_addr : chain.Address) (amount : ℕ) (fee_rate : float.Float) (fee : ℕ)
    (output_script change_script : Bytes)
    (call : IsPayment chain float us change_addr dest_addr amount fee_rate fee output_script
      change_script) where
  open chain use {OutPoint}

  balance :
      (spent lifted : List (Utxo OutPoint)) (change : ℕ)
      → plan amount fee us ≡ spend spent lifted change
      → sum_amounts spent + sum_amounts lifted ≡ amount + fee + change
  balance spent lifted change e = rw e at (plan-IsBalanced amount fee us)

  -- The inputs of a returned payment are first coins of those given, and behind them, added against
  -- dust, first coins of those that the amount does not need. The payment reports as input the sum of
  -- their amounts, a coin that stands in both groups counted twice; and its outputs and the fee
  -- together are exactly that sum.
  pub create_transaction-conserves :
      (t : TransactionInfo OutPoint)
      → create_transaction chain float us change_addr dest_addr (pos amount) fee_rate ≡ ok t
      → (spent rest lifted left : List (Utxo OutPoint)) × (spent ++ rest ≡ us)
        × (lifted ++ left ≡ uncovered amount us)
        × (outpoints t.msg_tx ≡ map (λ u. u.outpoint) (spent ++ lifted))
        × (t.tx_input_amt ≡ pos (sum_amounts spent + sum_amounts lifted))
        × (t.tx_fee_amt ≡ pos fee)
        × (sum_values t.msg_tx.tx_out + fee ≡ sum_amounts spent + sum_amounts lifted)
  create_transaction-conserves t h =
      let (spent, lifted, change, e, c) =
        result-Carries chain float us change_addr dest_addr amount fee_rate fee output_script
          change_script call h in
      let drawn : IsDrawn us (uncovered amount us) (spend spent lifted change) =
        rw e at (plan-IsDrawn amount fee us) in
      let ((rest, first), (left, added)) = drawn in
      (
        spent,
        rest,
        lifted,
        left,
        first,
        added,
        outpoints-Carries c,
        c.input_amt,
        c.fee_amt,
        rw (sum_values-Carries c, balance spent lifted change e) (omega arith),
      )

  -- A payment that is returned pays the amount to the destination in its first output, has a second
  -- output back to the wallet exactly where the change is positive, and the amounts that it reports
  -- differ by the amount: input less fee less change, in int64.
  pub create_transaction-pays :
      (t : TransactionInfo OutPoint)
      → create_transaction chain float us change_addr dest_addr (pos amount) fee_rate ≡ ok t
      → (change : ℕ) × (t.tx_change_amt ≡ pos change)
        × (t.msg_tx.tx_out
            ≡ record { value = pos amount; pk_script = output_script }
              ∷ (if ltb 0 change
                  then record { value = pos change; pk_script = change_script } ∷ []
                  else []))
        × (sub64 (sub64 t.tx_input_amt t.tx_fee_amt) t.tx_change_amt ≡ pos amount)
  create_transaction-pays t h =
      let (spent, lifted, change, e, c) =
        result-Carries chain float us change_addr dest_addr amount fee_rate fee output_script
          change_script call h in
      let total = sum_amounts spent + sum_amounts lifted in
      let due : total ≡ amount + fee + change = balance spent lifted change e in
      let bound : total < 2 ^ 63 =
        let within : total ≤ 2 * sum_amounts us = rw e at (plan-IsWithin amount fee us) in
        let limit : sum_amounts us < 2 ^ 62 = call.funds.small in omega arith in
      (
        change,
        c.change_amt,
        c.outputs,
        rw
            (
              c.input_amt,
              c.fee_amt,
              c.change_amt,
              sub64-pos total fee (omega arith) bound,
              sub64-pos (total - fee) change (omega arith) (omega arith),
            )
            (ap pos (omega arith)),
      )

  -- Every payment that the coins can pay, with the fee, is made, if the transaction can be
  -- serialized; what they cannot pay is refused, with the error for the part that is missing.
  pub create_transaction-decides :
      ((tx : MsgTx OutPoint) → (bytes : Bytes) × (chain.serialize tx ≡ ok bytes))
      → let r = create_transaction chain float us change_addr dest_addr (pos amount) fee_rate in
        (amount + fee ≤ sum_amounts us → (t : TransactionInfo OutPoint) × (r ≡ ok t))
        × (sum_amounts us < amount
            → r ≡ err (Error.insufficient_funds (pos amount) (pos (sum_amounts us))))
        × (amount ≤ sum_amounts us
            → sum_amounts us < amount + fee
            → r
              ≡ err (
                  Error.insufficient_fee_funds
                    (pos (fee - (sum_amounts (covering amount us) - amount)))
                    (pos (sum_amounts (uncovered amount us)))))
  create_transaction-decides ser = (
    λ enough.
        let (spent, lifted, change, e) = plan-funded amount fee us enough in
        let (t, same) = made spent lifted change in (t, planned ∙ rw e same),
    λ poor. planned ∙ rw (plan-short_of_amount amount fee us poor),
    λ some short. planned ∙ rw (plan-short_of_fee amount fee us some short),
  )
    where
      planned :
          create_transaction chain float us change_addr dest_addr (pos amount) fee_rate
          ≡ realise chain amount fee output_script change_script us (plan amount fee us)
      planned =
          result-plan chain float us change_addr dest_addr amount fee_rate fee output_script
            change_script call

      made :
          (spent lifted : List (Utxo OutPoint)) (change : ℕ)
          → (t : TransactionInfo OutPoint) × (realise chain amount fee output_script change_script
                us
                (spend spent lifted change)
              ≡ ok t)
      made spent lifted change = finish-total chain (pos fee) _ ser
