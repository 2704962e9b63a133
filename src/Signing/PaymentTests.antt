-- ===== src/Signing/PaymentTests.antt =====
-- A payment with two inputs (leafy.go): what the fetcher is told, and that it is signed.
use leafy.Prelude.{
  ℕ, ◌≡◌, refl, List, [], ◌∷◌, map, pos, some, Bytes, lookup, All, IsIn, inl, inr, arith, ok,
}
use leafy.Wire.{TxIn, TxOut, Utxo, TransactionInfo, MsgTx, SignedMsg}
use leafy.Library.{chain_of}
use leafy.Transaction.Inputs.{blank_witness}
use leafy.Transaction.Create.{create_transaction}
use leafy.Transaction.Plan.{IsFunds}
use leafy.Transaction.Payment.{IsPayment}
use leafy.Transaction.Payment.Value.{outpoints}
use leafy.Signing.{add_prev_outs, with_sequence}
use leafy.Prelude.{Dict, length, ◌<◌}
use leafy.Signer.{compute_taproot_sig_hash, compute_tapscript_sig_hash}
use leafy.Signing.{
  create_and_sign_transaction, create_and_sign_recovery_transaction, taproot_witness,
  tapscript_witness,
}
use leafy.Signing.Spends.{Delayed, IsWritten}
use leafy.Signing.Witnesses.{Witnessed}
use leafy.Signing.Recovers.{create_and_sign_recovery_transaction-signs}
use leafy.Signing.Succeeds.{create_and_sign_transaction-signs}
use leafy.SigningKeys.{
  SigningKeys, find_signing_keys, SigningRecoveryKeys, find_signing_recovery_keys,
}
use leafy.Signing.Sample.{lib, float, coin, wallet, recovery_wallet, leaf_of}
use leafy.Signing.Sample.Opened.{opened_signing}
use leafy.Signing.PrevOuts.{Told, add_prev_outs-create_transaction}

abbrev second_coin : Utxo ℕ
second_coin = record {
  from_address = 4 ∷ [];
  outpoint = 2;
  amount = pos 200;
  script = b'0' ∷ b'2' ∷ [];
}

abbrev coins : List (Utxo ℕ)
coins = coin ∷ second_coin ∷ []

abbrev input : ℕ → TxIn ℕ
input n = record { previous_out_point = n; sequence = 0; witness = blank_witness }

abbrev output : ℕ → ℕ → TxOut
output value script = record { value = pos value; pk_script = script ∷ [] }

-- 950 from 1000 leaves 50 for a fee of 118, so that the second coin is spent too.
abbrev paid : TransactionInfo ℕ
paid = record {
  hex = b'0' ∷ b'2' ∷ [];
  msg_tx = record {
    version = 2;
    lock_time = 0;
    tx_in = input 1 ∷ input 2 ∷ [];
    tx_out = output 950 8 ∷ output 132 9 ∷ [];
  };
  tx_input_amt = pos 1200;
  tx_dest_amt = pos 0;
  tx_fee_amt = pos 118;
  tx_change_amt = pos 132;
  outpoint_to_addr = (1 ∷ [], 3 ∷ []) ∷ (2 ∷ [], 4 ∷ []) ∷ [];
  outpoint_to_amt = (1 ∷ [], pos 1000) ∷ (2 ∷ [], pos 200) ∷ [];
  outpoint_to_script = (1 ∷ [], 1 ∷ []) ∷ (2 ∷ [], 2 ∷ []) ∷ [];
}

paid_run :
    create_transaction (chain_of lib) float coins (9 ∷ []) (8 ∷ []) (pos 950) (pos 1) ≡ ok paid
unfolding opened_signing
paid_run = refl

coins-IsFunds : IsFunds coins
unfolding opened_signing
coins-IsFunds = record {
  coins = (
    record { nonneg = refl; script_bytes = 1 ∷ []; decodes = refl },
    (record { nonneg = refl; script_bytes = 2 ∷ []; decodes = refl }, tt),
  );
  small = omega arith;
}

paid-IsPayment :
    IsPayment (chain_of lib) float coins (9 ∷ []) (8 ∷ []) 950 (pos 1) 118 (8 ∷ []) (9 ∷ [])
unfolding opened_signing
paid-IsPayment = record {
  funds = coins-IsFunds;
  pays = omega arith;
  small = omega arith;
  rate = refl;
  dest = refl;
  back = refl;
  fees = refl;
}

coins_named :
    (u v : Utxo ℕ)
    → IsIn u coins
    → IsIn v coins
    → lib.outpoint_string u.outpoint ≡ lib.outpoint_string v.outpoint
    → u ≡ v
coins_named u v (inl a) (inl b) e = cc
coins_named u v (inl a) (inr (inl b)) e = absurd (ground (arith, a, b, e))
coins_named u v (inr (inl a)) (inl b) e = absurd (ground (arith, a, b, e))
coins_named u v (inr (inl a)) (inr (inl b)) e = cc
coins_named u v (inl a) (inr (inr none)) e = absurd none
coins_named u v (inr (inl a)) (inr (inr none)) e = absurd none
coins_named u v (inr (inr none)) _ e = absurd none

add_prev_outs-create_transaction_example :
    (spent : List (Utxo ℕ)) × (g : ℕ) × All (λ u. IsIn u coins) spent
    × (outpoints paid.msg_tx ≡ map (λ u. u.outpoint) spent)
    × All
        (λ u. lookup (lib.outpoint_string u.outpoint) paid.outpoint_to_addr ≡ some u.from_address)
        spent
    × (add_prev_outs lib paid paid.msg_tx.tx_in 0 ≡ ok g)
    × (add_prev_outs lib paid (with_sequence 52 paid.msg_tx).tx_in 0 ≡ ok g)
    × Told lib spent 0 g
add_prev_outs-create_transaction_example =
    add_prev_outs-create_transaction lib float coins (9 ∷ []) (8 ∷ []) 950 (pos 1) 118 (8 ∷ [])
      (9 ∷ []) paid-IsPayment paid 52 0 coins_named paid_run

abbrev signing_key : ℕ → SigningKeys lib 52
signing_key k = record { tweaked_private_key = k; merkle_root = 1 ∷ [] }

abbrev both_keys : Dict (SigningKeys lib 52)
both_keys = (3 ∷ [], signing_key 2) ∷ (4 ∷ [], signing_key 3) ∷ []

both_searched : find_signing_keys lib 52 0 wallet paid.outpoint_to_addr ≡ ok both_keys
unfolding opened_signing
both_searched = refl

sample_hashes :
    (g i : ℕ)
    → add_prev_outs lib paid paid.msg_tx.tx_in 0 ≡ ok g
    → i < 2
    → (h : Bytes) × (compute_taproot_sig_hash lib.tx g paid.msg_tx 0 i ≡ ok h)
      × ((key : ℕ) → (s : Bytes) × (lib.tx.schnorr_sign key h ≡ ok s))
unfolding opened_signing
sample_hashes g i fetched lt = (i ∷ g ∷ [], refl, λ key. (key ∷ i ∷ g ∷ [], refl))

sample_serializes : (m : MsgTx ℕ) → (bytes : Bytes) × (lib.serialize m ≡ ok bytes)
sample_serializes m = (length m.tx_in ∷ [], refl)

create_and_sign_transaction-signs_example :
    (signed : SignedMsg ℕ) × (g : ℕ) × (create_and_sign_transaction lib 52 float 0 wallet coins
        (9 ∷ [])
        (8 ∷ [])
        (pos 950)
        (pos 1)
      ≡ ok signed)
    × (add_prev_outs lib paid paid.msg_tx.tx_in 0 ≡ ok g)
    × Witnessed
        (λ i x w. taproot_witness lib 52 paid both_keys g paid.msg_tx i x ≡ ok w)
        0
        paid.msg_tx.tx_in
        signed.msg.tx_in
    × IsWritten lib paid.msg_tx signed
create_and_sign_transaction-signs_example =
    create_and_sign_transaction-signs lib 52 float 0 coins (9 ∷ []) (8 ∷ []) 950 (pos 1) 118
      (8 ∷ []) (9 ∷ []) paid-IsPayment wallet paid both_keys coins_named paid_run both_searched
      sample_hashes sample_serializes

abbrev recovery_key : ℕ → SigningRecoveryKeys lib 52
recovery_key k = record { private_key = k; tapscript_data = leaf_of k k }

abbrev recovery_keys : Dict (SigningRecoveryKeys lib 52)
recovery_keys = (3 ∷ [], recovery_key 2) ∷ (4 ∷ [], recovery_key 3) ∷ []

both_recovered :
    find_signing_recovery_keys lib 52 0 recovery_wallet paid.outpoint_to_addr ≡ ok recovery_keys
unfolding opened_signing
both_recovered = refl

sample_leaf_hashes :
    (g i : ℕ) (leaf : Bytes)
    → add_prev_outs lib paid paid.msg_tx.tx_in 0 ≡ ok g
    → i < 2
    → (h : Bytes) × (compute_tapscript_sig_hash lib.tx g (with_sequence 52 paid.msg_tx) 0 i leaf
        ≡ ok h)
      × ((key : ℕ) → (s : Bytes) × (lib.tx.schnorr_sign key h ≡ ok s))
unfolding opened_signing
sample_leaf_hashes g i leaf fetched lt = (i ∷ leaf, refl, λ key. (key ∷ i ∷ leaf, refl))

create_and_sign_recovery_transaction-signs_example :
    (signed : SignedMsg ℕ) × (g : ℕ) × (msg : MsgTx ℕ) × (create_and_sign_recovery_transaction lib
        52 float 0 recovery_wallet coins
        (9 ∷ [])
        (8 ∷ [])
        (pos 950)
        (pos 1)
      ≡ ok signed)
    × (add_prev_outs lib paid paid.msg_tx.tx_in 0 ≡ ok g)
    × Delayed 52 paid.msg_tx.tx_in msg.tx_in
    × (msg ≡ record paid.msg_tx { tx_in = msg.tx_in })
    × Witnessed
        (λ i x w. tapscript_witness lib 52 paid recovery_keys g msg i x ≡ ok w)
        0
        msg.tx_in
        signed.msg.tx_in
    × IsWritten lib msg signed
create_and_sign_recovery_transaction-signs_example =
    create_and_sign_recovery_transaction-signs lib 52 float 0 coins (9 ∷ []) (8 ∷ []) 950 (pos 1)
      118 (8 ∷ []) (9 ∷ []) paid-IsPayment recovery_wallet paid recovery_keys coins_named paid_run
      both_recovered sample_leaf_hashes sample_serializes
