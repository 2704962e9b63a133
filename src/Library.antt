-- ===== src/Library.antt =====
-- Everything outside the repository that the wallet calls, in one value: keys, scripts, the
-- transaction functions of `Chain`, BIP-39 mnemonics and the hash of crypto/sha256.
use leafy.Prelude.{ℤ, Bytes, Result}
use leafy.Wire.{MsgTx, Chain}
use leafy.Txscript.{Txscript}
use leafy.Bip44.Key.{Keychain}

pub record Library : Type 1 where
  pub OutPoint : Type 0
  pub keys : Keychain
  pub tx : Txscript OutPoint keys.PublicKey keys.PrivateKey
  pub outpoint_string : OutPoint → Bytes
  pub transaction_weight : MsgTx OutPoint → ℤ
  pub serialize : MsgTx OutPoint → Result Bytes
  -- `sha256.Sum256`
  pub sha256 : Bytes → Bytes
  -- `bip39.EntropyFromMnemonic`, `bip39.NewMnemonic`, `hdkeychain.NewMaster`
  pub entropy_from_mnemonic : Bytes → Result Bytes
  pub new_mnemonic : Bytes → Result Bytes
  pub new_master : Bytes → tx.Params → Result keys.ExtendedKey

abbrev pub chain_of : Library → Chain
chain_of lib = record {
  OutPoint = lib.OutPoint;
  Address = lib.tx.Address;
  outpoint_string = lib.outpoint_string;
  pay_to_addr_script = lib.tx.pay_to_addr_script;
  transaction_weight = lib.transaction_weight;
  serialize = lib.serialize;
}
