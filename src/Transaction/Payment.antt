-- ===== src/Transaction/Payment.antt =====
-- What a payment made by `CreateTransaction` (leafy.go) is worth, and which coins it spends.
pub mod Value
pub mod Spending
pub mod Everything
pub mod Listed
use leafy.Prelude.{
  ℕ, ◌+◌, ◌-◌, ◌≤◌, ◌<◌, ◌^◌, ◌≡◌, ◌≢◌, refl, sym, ap, ◌∙◌, true, false, List, [], ◌∷◌, ◌++◌, map,
  append_assoc, append-nil, arith, ℤ, pos, pos_part, Bytes, Bool-cases, inl, inr, ltb,
  if◌then◌else◌, Result, ok, err, panic, ◌>>=◌, >>=-eq-ok, >>=-ok-total, Error,
}
use leafy.Wire.{TxIn, TxOut, MsgTx, Utxo, TransactionInfo, Chain, FloatOps}
use leafy.Transaction.Inputs.{blank_witness}
use leafy.Transaction.Create.{
  Funding, finish, start, fee_for, create_transaction, is_change_dust, p2tr_dust_amt,
}
use leafy.Transaction.Plan.{
  sum_amounts, covering, uncovered, IsFunds, Plan, short_of_amount, short_of_fee, spend, plan, dust,
}
use leafy.Transaction.Plan.Cover.{sum_amounts-append}
use leafy.Transaction.Plan.Worth.{
  plan-IsBalanced, plan-funded, plan-covered, plan-respends, plan-short_of_fee, IsBalanced,
}
use leafy.Transaction.Refinement.{change_outputs, realise, create_transaction-plan}
use leafy.Transaction.Refinement.Loops.{with_inputs, funding}
use leafy.Transaction.Refinement.Drafts.{input_of, tx_in-with_inputs, tx_out-with_inputs}

-- A call that pays `amount`: proper coins, a positive rate, addresses that have a script, and the
-- fee that the rate gives for the first inputs.
pub record IsPayment (chain : Chain) (float : FloatOps) (us : List (Utxo chain.OutPoint))
    (change_addr dest_addr : chain.Address) (amount : ℕ) (fee_rate : float.Float) (fee : ℕ)
    (output_script change_script : Bytes) : Type 0 where
  pub funds : IsFunds us
  pub pays : 0 < amount
  pub small : fee < 2 ^ 63
  pub rate : float.is_nonpositive fee_rate ≡ false
  pub dest : chain.pay_to_addr_script dest_addr ≡ ok output_script
  pub back : chain.pay_to_addr_script change_addr ≡ ok change_script
  pub fees :
      fee_for chain float fee_rate
        (with_inputs chain blank_witness
          (covering amount us)
          (start chain (pos amount) output_script)).msg_tx
      ≡ pos fee

abbrev pub sum_values : List TxOut → ℕ
sum_values [] = 0
sum_values (o ∷ os) = pos_part o.value + sum_values os

-- What `finish` reports.
finish-eq-ok :
    (chain : Chain) (fee : ℤ) (f : Funding chain.OutPoint) {t : TransactionInfo chain.OutPoint}
    → finish chain fee f ≡ ok t
    → (t.msg_tx ≡ f.draft.msg_tx)
      × (t.tx_input_amt ≡ f.matched_amount)
      × (t.tx_fee_amt ≡ fee)
      × (t.tx_change_amt ≡ f.change)
unfolding finish
finish-eq-ok chain fee f h = ground arith

pub finish-total :
    (chain : Chain) (fee : ℤ) (f : Funding chain.OutPoint)
    → ((tx : MsgTx chain.OutPoint) → (bytes : Bytes) × (chain.serialize tx ≡ ok bytes))
    → (t : TransactionInfo chain.OutPoint) × (finish chain fee f ≡ ok t)
unfolding finish
finish-total chain fee f ser = >>=-ok-total _ _ (ser f.draft.msg_tx)

-- The transaction of a plan.
pub record Carries {O : Type 0} (amount fee : ℕ) (output_script change_script : Bytes)
    (spent lifted : List (Utxo O)) (change : ℕ) (t : TransactionInfo O) : Type 0 where
  pub inputs : t.msg_tx.tx_in ≡ map (input_of blank_witness) spent ++ map (input_of []) lifted
  pub outputs :
      t.msg_tx.tx_out
      ≡ record { value = pos amount; pk_script = output_script }
        ∷ change_outputs change_script change
  pub input_amt : t.tx_input_amt ≡ pos (sum_amounts spent + sum_amounts lifted)
  pub fee_amt : t.tx_fee_amt ≡ pos fee
  pub change_amt : t.tx_change_amt ≡ pos change

module _ (chain : Chain) (float : FloatOps) (us : List (Utxo chain.OutPoint))
    (change_addr dest_addr : chain.Address) (amount : ℕ) (fee_rate : float.Float) (fee : ℕ)
    (output_script change_script : Bytes)
    (call : IsPayment chain float us change_addr dest_addr amount fee_rate fee output_script
      change_script) where
  open chain use {OutPoint}

  abbrev pub result : Result (TransactionInfo OutPoint)
  result = create_transaction chain float us change_addr dest_addr (pos amount) fee_rate

  pub result-plan :
      result ≡ realise chain amount fee output_script change_script us (plan amount fee us)
  result-plan =
      create_transaction-plan chain amount fee output_script change_script float us change_addr
        dest_addr fee_rate call.funds call.pays call.small call.rate call.dest call.back call.fees

  pub realise-Carries :
      (spent lifted : List (Utxo OutPoint)) (change : ℕ) {t : TransactionInfo OutPoint}
      → realise chain amount fee output_script change_script us (spend spent lifted change) ≡ ok t
      → Carries amount fee output_script change_script spent lifted change t
  unfolding start
  realise-Carries spent lifted change {t} h =
      let first = start chain (pos amount) output_script in
      let (tx, input, paid, back) = finish-eq-ok chain (pos fee) _ h in
      record {
        inputs =
            ap (λ (m : MsgTx OutPoint). m.tx_in) tx
            ∙ tx_in-with_inputs chain [] lifted (with_inputs chain blank_witness spent first)
            ∙ ap (λ (is : List (TxIn OutPoint)). is ++ map (input_of []) lifted)
                (tx_in-with_inputs chain blank_witness spent first);
        outputs =
            ap (λ (m : MsgTx OutPoint). m.tx_out) tx
            ∙ ap (λ (os : List TxOut). os ++ change_outputs change_script change)
                (tx_out-with_inputs chain [] lifted (with_inputs chain blank_witness spent first)
                  ∙ tx_out-with_inputs chain blank_witness spent first);
        input_amt = input;
        fee_amt = paid;
        change_amt = back;
      }

  -- A transaction that is returned is one of the plan.
  pub result-realised :
      {t : TransactionInfo OutPoint}
      → result ≡ ok t
      → (spent lifted : List (Utxo OutPoint)) × (change : ℕ) × (plan amount fee us
          ≡ spend spent lifted change)
        × (realise chain amount fee output_script change_script us (spend spent lifted change)
            ≡ ok t)
  result-realised {t} h = of_plan (plan amount fee us) refl (sym result-plan ∙ h)
    where
      of_plan :
          (p : Plan OutPoint)
          → plan amount fee us ≡ p
          → realise chain amount fee output_script change_script us p ≡ ok t
          → (spent lifted : List (Utxo OutPoint)) × (change : ℕ) × (plan amount fee us
              ≡ spend spent lifted change)
            × (realise chain amount fee output_script change_script us (spend spent lifted change)
                ≡ ok t)
      of_plan short_of_amount e k = cc
      of_plan (short_of_fee missing left) e k = cc
      of_plan (spend spent lifted change) e k = (spent, lifted, change, e, k)

  pub result-Carries :
      {t : TransactionInfo OutPoint}
      → result ≡ ok t
      → (spent lifted : List (Utxo OutPoint)) × (change : ℕ) × (plan amount fee us
          ≡ spend spent lifted change)
        × Carries amount fee output_script change_script spent lifted change t
  result-Carries h =
      let (spent, lifted, change, e, k) = result-realised h in
      (spent, lifted, change, e, realise-Carries spent lifted change k)
