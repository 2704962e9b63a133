-- ===== src/Wire.antt =====
-- The data that the wallet hands around (script.go, leafy.go) and the parts of package wire's
-- structs that it fills in. An outpoint stays abstract: it is only copied, and printed by its
-- `String` method.
use leafy.Prelude.{ℕ, ℤ, Bool, List, Bytes, Dict, Result}
use leafy.Hex.{hex_decode}

-- `wire.TxIn`; an input that is not signed has no witness.
pub record TxIn (O : Type 0) : Type 0 where
  pub previous_out_point : O
  pub sequence : ℕ
  pub witness : List Bytes

-- `wire.TxOut`
pub record TxOut : Type 0 where
  pub value : ℤ
  pub pk_script : Bytes

-- `wire.MsgTx`
pub record MsgTx (O : Type 0) : Type 0 where
  pub version : ℕ
  pub lock_time : ℕ
  pub tx_in : List (TxIn O)
  pub tx_out : List TxOut

pub record Utxo (O : Type 0) : Type 0 where
  pub from_address : Bytes
  pub outpoint : O
  pub amount : ℤ
  pub script : Bytes

unfoldable pub decode_script : {O : Type 0} → Utxo O → Result Bytes
decode_script u = hex_decode u.script

pub record TransactionInfo (O : Type 0) : Type 0 where
  pub hex : Bytes
  pub msg_tx : MsgTx O
  pub tx_input_amt : ℤ
  pub tx_dest_amt : ℤ
  pub tx_fee_amt : ℤ
  pub tx_change_amt : ℤ
  pub outpoint_to_addr : Dict Bytes
  pub outpoint_to_amt : Dict ℤ
  pub outpoint_to_script : Dict Bytes

pub record SignedMsg (O : Type 0) : Type 0 where
  pub msg : MsgTx O
  pub hex : Bytes

-- What package wire, txscript and blockchain do for a transaction; nothing is assumed of them here.
pub record Chain : Type 1 where
  pub OutPoint : Type 0
  pub Address : Type 0
  -- `OutPoint.String`
  pub outpoint_string : OutPoint → Bytes
  -- `txscript.PayToAddrScript`
  pub pay_to_addr_script : Address → Result Bytes
  -- `blockchain.GetTransactionWeight`
  pub transaction_weight : MsgTx OutPoint → ℤ
  -- `MsgTx.Serialize`, into an empty buffer
  pub serialize : MsgTx OutPoint → Result Bytes

-- The float64 operations of the fee computation.
pub record FloatOps : Type 1 where
  pub Float : Type 0
  -- `x <= 0`
  pub is_nonpositive : Float → Bool
  -- `float64(n)`, `x * y`, `math.Ceil(x)`, `int64(x)`
  pub of_int64 : ℤ → Float
  pub mul : Float → Float → Float
  pub ceil : Float → Float
  pub to_int64 : Float → ℤ
