-- ===== src/Transaction/Inputs.antt =====
-- The loops of `CreateTransaction` (leafy.go) that add inputs: for the amount and for the fee.
use leafy.Prelude.{
  List, [], ◌∷◌, ◌++◌, ℤ, add64, sub64, leb_ℤ, if◌then◌else◌, Bytes, Dict, insert, Result, ok,
  ◌>>=◌, replicate,
}
use leafy.Wire.{TxIn, MsgTx, Utxo, decode_script, Chain}

-- One signature of 64 bytes, as the size estimate expects it.
abbrev pub blank_witness : List Bytes
blank_witness = replicate 64 0 ∷ []

-- The transaction under construction and the three maps of its inputs.
pub record Draft (O : Type 0) : Type 0 where
  pub msg_tx : MsgTx O
  pub outpoint_to_addr : Dict Bytes
  pub outpoint_to_amt : Dict ℤ
  pub outpoint_to_script : Dict Bytes

-- The variables of the loop that adds inputs for the fee.
pub record TopUp (O : Type 0) : Type 0 where
  pub draft : Draft O
  pub matched_fee_amount : ℤ
  pub matched_amount : ℤ
  pub unmatched_amount : ℤ

module _ (chain : Chain) where
  open chain use {OutPoint, outpoint_string}

  -- The input for a coin, and its entries in the maps.
  unfoldable pub with_input : List Bytes → Utxo OutPoint → Bytes → Draft OutPoint → Draft OutPoint
  with_input witness u script d =
      let key = outpoint_string u.outpoint in
      let input : TxIn OutPoint = record {
        previous_out_point = u.outpoint;
        sequence = 0;
        witness = witness;
      } in
      record {
        msg_tx = record d.msg_tx { tx_in = d.msg_tx.tx_in ++ input ∷ [] };
        outpoint_to_addr = insert key u.from_address d.outpoint_to_addr;
        outpoint_to_amt = insert key u.amount d.outpoint_to_amt;
        outpoint_to_script = insert key script d.outpoint_to_script;
      }

  -- The script of a coin is given in hex.
  unfoldable pub add_input : List Bytes → Utxo OutPoint → Draft OutPoint → Result (Draft OutPoint)
  add_input witness u d = do script ← decode_script u; ok (with_input witness u script d)

  unfoldable pub add_matched : List (Utxo OutPoint) → Draft OutPoint → Result (Draft OutPoint)
  add_matched [] d = ok d
  add_matched (u ∷ us) d = do d' ← add_input blank_witness u d; add_matched us d'

  unfoldable pub top_up : ℤ → List (Utxo OutPoint) → TopUp OutPoint → Result (TopUp OutPoint)
  top_up fee_needed [] t = ok t
  top_up fee_needed (u ∷ us) t = do
    d ← add_input blank_witness u t.draft
    let t' : TopUp OutPoint = record {
      draft = d;
      matched_fee_amount = add64 t.matched_fee_amount u.amount;
      matched_amount = add64 t.matched_amount u.amount;
      unmatched_amount = sub64 t.unmatched_amount u.amount;
    }
    if leb_ℤ fee_needed t'.matched_fee_amount then ok t' else top_up fee_needed us t'
