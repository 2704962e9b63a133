-- ===== src/Transaction/Refinement/Drafts.antt =====
-- What the loops that add inputs (leafy.go) write into the transaction.
use leafy.Prelude.{◌≡◌, refl, sym, ◌∙◌, List, [], ◌∷◌, ◌++◌, map, append_assoc, append-nil, Bytes}
use leafy.Wire.{TxIn, Utxo, Chain}
use leafy.Transaction.Inputs.{Draft, with_input}
use leafy.Transaction.Refinement.Amounts.{script_of}
use leafy.Transaction.Refinement.Loops.{with_inputs}

abbrev pub input_of : {O : Type 0} → List Bytes → Utxo O → TxIn O
input_of witness u = record { previous_out_point = u.outpoint; sequence = 0; witness = witness }

module _ (chain : Chain) where
  open chain use {OutPoint}

  pub tx_in-with_inputs :
      (witness : List Bytes) (us : List (Utxo OutPoint)) (d : Draft OutPoint)
      → (with_inputs chain witness us d).msg_tx.tx_in ≡ d.msg_tx.tx_in ++ map (input_of witness) us
  unfolding with_input
  tx_in-with_inputs witness [] d = sym (append-nil _)
  tx_in-with_inputs witness (u ∷ us) d =
      tx_in-with_inputs witness us (with_input chain witness u (script_of u) d)
      ∙ append_assoc d.msg_tx.tx_in (input_of witness u ∷ []) (map (input_of witness) us)

  pub tx_out-with_inputs :
      (witness : List Bytes) (us : List (Utxo OutPoint)) (d : Draft OutPoint)
      → (with_inputs chain witness us d).msg_tx.tx_out ≡ d.msg_tx.tx_out
  unfolding with_input
  tx_out-with_inputs witness [] d = refl
  tx_out-with_inputs witness (u ∷ us) d =
      tx_out-with_inputs witness us (with_input chain witness u (script_of u) d)
