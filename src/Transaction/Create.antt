-- ===== src/Transaction/Create.antt =====
-- `CreateTransaction` and `IsChangeDust` (leafy.go). All amounts are int64.
use leafy.Prelude.{
  ℕ, ◌-◌, Bool, ◌&&◌, not, List, [], ◌∷◌, ◌++◌, ℤ, pos, add64, sub64, div64, ltb_ℤ, leb_ℤ, eq_ℤ,
  if◌then◌else◌, Bytes, Result, ok, panic, ◌>>=◌, ◌>>◌, ensure, Error, Fault,
}
use leafy.Hex.{hex_encode}
use leafy.Wire.{TxOut, MsgTx, Utxo, TransactionInfo, Chain, FloatOps}
use leafy.Transaction.Coins.{Selection, select_utxos}
use leafy.Transaction.Inputs.{Draft, add_input, add_matched, top_up}

abbrev pub p2tr_dust_amt : ℤ
p2tr_dust_amt = pos 330

-- `blockchain.WitnessScaleFactor`
abbrev pub witness_scale_factor : ℕ
witness_scale_factor = 4

unfoldable pub is_change_dust : {O : Type 0} → TransactionInfo O → Bool
is_change_dust t = leb_ℤ t.tx_change_amt p2tr_dust_amt && not (eq_ℤ t.tx_change_amt (pos 0))

-- The variables of the loop that adds inputs to lift the change over the dust amount.
pub record Funding (O : Type 0) : Type 0 where
  pub draft : Draft O
  pub matched_amount : ℤ
  pub unmatched_amount : ℤ
  pub change : ℤ

module _ (chain : Chain) where
  open chain use {OutPoint, Address, pay_to_addr_script, transaction_weight, serialize}

  -- The `else` branch at the fee: from the change where it covers the fee, else from more inputs.
  unfoldable pub pay_from_change :
      ℤ → ℤ → Selection OutPoint → Draft OutPoint → Result (Funding OutPoint)
  pay_from_change fee_needed change s d =
      if ltb_ℤ change fee_needed
      then (do
        let missing = sub64 fee_needed change
        ensure (not (ltb_ℤ s.unmatched_amount missing))
            (Error.insufficient_fee_funds missing s.unmatched_amount)
        t ← top_up chain missing s.unmatched_utxos (record {
          draft = d;
          matched_fee_amount = pos 0;
          matched_amount = s.matched_amount;
          unmatched_amount = s.unmatched_amount;
        })
        ok (record {
          draft = t.draft;
          matched_amount = t.matched_amount;
          unmatched_amount = t.unmatched_amount;
          change = sub64 t.matched_fee_amount missing;
        }))
      else ok (record {
        draft = d;
        matched_amount = s.matched_amount;
        unmatched_amount = s.unmatched_amount;
        change = sub64 change fee_needed;
      })

  -- A payment of everything leaves no change, and its output takes what is left over the fee.
  unfoldable pub pay_fee :
      Bool → ℤ → ℤ → Bytes → Selection OutPoint → Draft OutPoint → Result (Funding OutPoint)
  pay_fee spend_all amount fee_needed output_script s d =
      if spend_all
      then ok (record {
        draft = record d {
          msg_tx = record d.msg_tx {
            tx_out =
                record { value = sub64 s.matched_amount fee_needed; pk_script = output_script }
                ∷ [];
          };
        };
        matched_amount = s.matched_amount;
        unmatched_amount = s.unmatched_amount;
        change = pos 0;
      })
      else pay_from_change fee_needed (sub64 s.matched_amount amount) s d

  -- The list is `unmatchedUtxos[index:]`; the loop indexes past its end where it is empty.
  unfoldable pub lift_change : List (Utxo OutPoint) → Funding OutPoint → Result (Funding OutPoint)
  lift_change [] f =
      if leb_ℤ f.change p2tr_dust_amt && ltb_ℤ (pos 0) f.unmatched_amount
      then panic Fault.index_out_of_range
      else ok f
  lift_change (u ∷ us) f =
      if leb_ℤ f.change p2tr_dust_amt && ltb_ℤ (pos 0) f.unmatched_amount
      then (do
        d ← add_input chain [] u f.draft
        lift_change us (record {
          draft = d;
          matched_amount = add64 f.matched_amount u.amount;
          unmatched_amount = sub64 f.unmatched_amount u.amount;
          change = add64 f.change u.amount;
        }))
      else ok f

  -- `if change > 0 { … }`
  unfoldable pub add_change :
      Bytes → List (Utxo OutPoint) → Funding OutPoint → Result (Funding OutPoint)
  add_change change_script unmatched f =
      if ltb_ℤ (pos 0) f.change
      then (do
        g ← lift_change unmatched f
        let output : TxOut = record { value = g.change; pk_script = change_script }
        let tx = g.draft.msg_tx
        ok (record g {
          draft = record g.draft { msg_tx = record tx { tx_out = tx.tx_out ++ output ∷ [] } };
        }))
      else ok f

  unfoldable pub finish : ℤ → Funding OutPoint → Result (TransactionInfo OutPoint)
  finish fee_paid f = do
    bytes ← serialize f.draft.msg_tx
    ok (record {
      hex = hex_encode bytes;
      msg_tx = f.draft.msg_tx;
      tx_input_amt = f.matched_amount;
      tx_dest_amt = pos 0;
      tx_fee_amt = fee_paid;
      tx_change_amt = f.change;
      outpoint_to_addr = f.draft.outpoint_to_addr;
      outpoint_to_amt = f.draft.outpoint_to_amt;
      outpoint_to_script = f.draft.outpoint_to_script;
    })

  unfoldable pub start : ℤ → Bytes → Draft OutPoint
  start amount output_script = record {
    msg_tx = record {
      version = 2;
      lock_time = 0;
      tx_in = [];
      tx_out = record { value = amount; pk_script = output_script } ∷ [];
    };
    outpoint_to_addr = [];
    outpoint_to_amt = [];
    outpoint_to_script = [];
  }

  -- The weight rounded up to whole vBytes.
  unfoldable pub virtual_size : MsgTx OutPoint → ℤ
  virtual_size tx =
      div64 (add64 (transaction_weight tx) (pos (witness_scale_factor - 1))) witness_scale_factor

  module _ (float : FloatOps) where
    open float use {Float, is_nonpositive, of_int64, mul, ceil, to_int64}

    unfoldable pub fee_for : Float → MsgTx OutPoint → ℤ
    fee_for fee_rate tx = to_int64 (ceil (mul fee_rate (of_int64 (virtual_size tx))))

    unfoldable pub create_transaction :
        List (Utxo OutPoint) → Address → Address → ℤ → Float → Result (TransactionInfo OutPoint)
    create_transaction utxos change_addr dest_addr amount fee_rate = do
      ensure (not (is_nonpositive fee_rate)) Error.invalid_fee_rate
      output_script ← pay_to_addr_script dest_addr
      change_script ← pay_to_addr_script change_addr
      let spend_all = eq_ℤ amount (pos 0)
      let s = select_utxos spend_all amount utxos (record {
        matched_utxos = [];
        unmatched_utxos = [];
        matched_amount = pos 0;
        unmatched_amount = pos 0;
      })
      ensure (not (ltb_ℤ s.matched_amount amount))
          (Error.insufficient_funds amount s.matched_amount)
      d ← add_matched chain s.matched_utxos (start amount output_script)
      let fee_needed = fee_for fee_rate d.msg_tx
      f ← pay_fee spend_all amount fee_needed output_script s d
      g ← add_change change_script s.unmatched_utxos f
      finish fee_needed g
