-- ===== src/Signing/Tests.antt =====
-- Signatures and signed transactions of the sample wallet (leafy.go, signer.go).
use leafy.Prelude.{◌++◌, ◌≢◌, ℕ, ◌≡◌, refl, true, List, [], ◌∷◌, some, pos, Bytes, codes, ok}
use leafy.Wire.{TxIn, TxOut, MsgTx, TransactionInfo, SignedMsg}
use leafy.Library.{chain_of}
use leafy.Signer.Keys.{taproot_sign-verifies, tapscript_sign-verifies}
use leafy.Script.{
  create_tapscript_timelock_from_key, to_sign, add_leaf_script, new_tapscript_builder,
}
use leafy.Script.Leaf.{IsLeafFor}
use leafy.Signing.Sample.{
  coin, tx, lib, verify, lib-IsSound, tx-IsTree, float, wallet, recovery_wallet, script_of, leaf_of,
}
use leafy.Signing.Sample.Opened.{opened, opened_signing}
use leafy.Transaction.Create.{create_transaction}
use leafy.Signer.{
  taproot_sign, tapscript_sign, compute_taproot_sig_hash, compute_tapscript_sig_hash,
}
use leafy.Signing.{add_prev_outs, create_and_sign_transaction, create_and_sign_recovery_transaction}
use leafy.Signing.Witnesses.{Witnessed, SpentByKey, SpentByLeaf}
use leafy.Signing.Spends.{
  Delayed, IsWritten, create_and_sign_transaction-spends,
  create_and_sign_recovery_transaction-spends,
}

abbrev input : ℕ → List Bytes → TxIn ℕ
input sequence witness = record { previous_out_point = 1; sequence = sequence; witness = witness }

abbrev output : ℕ → ℕ → TxOut
output value script = record { value = pos value; pk_script = script ∷ [] }

abbrev message : ℕ → List Bytes → MsgTx ℕ
message sequence witness = record {
  version = 2;
  lock_time = 0;
  tx_in = input sequence witness ∷ [];
  tx_out = output 500 8 ∷ output 382 9 ∷ [];
}

abbrev signature : Bytes
signature = 3 ∷ 0 ∷ 1 ∷ []

-- A hash type that is not the default.
abbrev hash_type : ℕ
hash_type = 1

taproot_signed :
    taproot_sign tx 2 1 (message 0 []) 1 0 (some (1 ∷ []))
    ≡ ok ((signature ++ 1 ∷ []) ∷ [], 0 ∷ 1 ∷ [])
unfolding opened_signing
taproot_signed = refl

taproot_sign-verifies_example :
    (s : Bytes) × (compute_taproot_sig_hash tx 1 (message 0 []) 1 0 ≡ ok (0 ∷ 1 ∷ []))
    × (verify 3 (0 ∷ 1 ∷ []) s ≡ true)
    × (hash_type ≡ tx.sig_hash_default → (signature ++ 1 ∷ []) ∷ [] ≡ s ∷ [])
    × (hash_type ≢ tx.sig_hash_default → (signature ++ 1 ∷ []) ∷ [] ≡ (s ++ 1 ∷ []) ∷ [])
taproot_sign-verifies_example =
    taproot_sign-verifies tx verify lib-IsSound 2 1 (message 0 []) 1 0 (some (1 ∷ []))
      ((signature ++ 1 ∷ []) ∷ []) (0 ∷ 1 ∷ []) taproot_signed

abbrev leaf_witness : List Bytes
leaf_witness = (2 ∷ 0 ∷ script_of 2) ∷ script_of 2 ∷ (2 ∷ []) ∷ []

tapscript_signed :
    tapscript_sign tx 2 1 (message 52 []) 0 0 (leaf_of 2 2) ≡ ok (leaf_witness, 0 ∷ script_of 2)
unfolding opened_signing
tapscript_signed = refl

leaf_made : create_tapscript_timelock_from_key tx 0 (pos 52) 2 ≡ ok (script_of 2)
unfolding opened
leaf_made = refl

leaf_proved :
    to_sign tx 0 (add_leaf_script tx (script_of 2) (new_tapscript_builder tx 2)) ≡ ok (leaf_of 2 2)
unfolding opened
leaf_proved = refl

tapscript_sign-verifies_example :
    (s : Bytes) × (leaf_key : ℕ) × IsLeafFor tx 0 leaf_key (pos 52) (script_of 2)
    × (compute_tapscript_sig_hash tx 1 (message 52 []) 0 0 (script_of 2) ≡ ok (0 ∷ script_of 2))
    × (verify leaf_key (0 ∷ script_of 2) s ≡ true)
    × (leaf_witness ≡ s ∷ script_of 2 ∷ (2 ∷ []) ∷ [])
tapscript_sign-verifies_example =
    tapscript_sign-verifies tx verify lib-IsSound 2 1 (message 52 []) 0 0 tx-IsTree 0 (pos 52) 2
      (script_of 2) (leaf_of 2 2) leaf_witness (0 ∷ script_of 2) leaf_made leaf_proved
      tapscript_signed

abbrev signed : SignedMsg ℕ
signed = record { msg = message 0 (signature ∷ []); hex = codes "01" }

signed_run :
    create_and_sign_transaction lib 52 float 0 wallet
      (coin ∷ [])
      (9 ∷ [])
      (8 ∷ [])
      (pos 500)
      (pos 1)
    ≡ ok signed
unfolding opened_signing
signed_run = refl

create_and_sign_transaction-spends_example :
    (info : TransactionInfo ℕ) × (fetcher : ℕ) × (create_transaction
        (chain_of lib)
        float
        (coin ∷ [])
        (9 ∷ [])
        (8 ∷ [])
        (pos 500)
        (pos 1)
      ≡ ok info)
    × (add_prev_outs lib info info.msg_tx.tx_in 0 ≡ ok fetcher)
    × Witnessed
        (SpentByKey lib 52 0 verify info fetcher info.msg_tx)
        0
        info.msg_tx.tx_in
        signed.msg.tx_in
    × IsWritten lib info.msg_tx signed
create_and_sign_transaction-spends_example =
    create_and_sign_transaction-spends lib 52 float 0 verify lib-IsSound wallet (coin ∷ []) (9 ∷ [])
      (8 ∷ []) (pos 500) (pos 1) signed signed_run

abbrev recovered : SignedMsg ℕ
recovered = record { msg = message 52 leaf_witness; hex = codes "01" }

recovered_run :
    create_and_sign_recovery_transaction lib 52 float 0 recovery_wallet
      (coin ∷ [])
      (9 ∷ [])
      (8 ∷ [])
      (pos 500)
      (pos 1)
    ≡ ok recovered
unfolding opened_signing
recovered_run = refl

create_and_sign_recovery_transaction-spends_example :
    (info : TransactionInfo ℕ) × (msg : MsgTx ℕ) × (fetcher : ℕ) × (create_transaction
        (chain_of lib)
        float
        (coin ∷ [])
        (9 ∷ [])
        (8 ∷ [])
        (pos 500)
        (pos 1)
      ≡ ok info)
    × Delayed 52 info.msg_tx.tx_in msg.tx_in
    × (msg ≡ record info.msg_tx { tx_in = msg.tx_in })
    × (add_prev_outs lib info msg.tx_in 0 ≡ ok fetcher)
    × Witnessed (SpentByLeaf lib 52 0 verify info fetcher msg) 0 msg.tx_in recovered.msg.tx_in
    × IsWritten lib msg recovered
create_and_sign_recovery_transaction-spends_example =
    create_and_sign_recovery_transaction-spends lib 52 float 0 verify lib-IsSound tx-IsTree
      recovery_wallet (coin ∷ []) (9 ∷ []) (8 ∷ []) (pos 500) (pos 1) recovered recovered_run
