-- ===== src/Transaction/Tests.antt =====
-- `CreateTransaction` (leafy.go) run on small wallets, and its theorems at these runs. The weight of
-- a transaction counts its inputs; the fee rate is a whole number of satoshi.
use leafy.Prelude.{
  ℕ, ◌+◌, ◌*◌, ◌<◌, ◌≤◌, ◌≡◌, refl, true, false, List, [], ◌∷◌, ◌++◌, map, arith, ℤ, pos, sub64,
  ◌-ℤ◌, add64, mul64, div64, leb_ℤ, Bytes, length, bytes_eq, Result, ok, err, Error, if◌then◌else◌,
  ltb, ◌-◌,
}
use leafy.Hex.{hex_encode, hex_decode}
use leafy.Wire.{TxIn, TxOut, Utxo, TransactionInfo, MsgTx, Chain, FloatOps, decode_script}
use leafy.Transaction.Coins.{select_utxo, select_utxos}
use leafy.Transaction.Inputs.{blank_witness, with_input, add_input, add_matched, top_up}
use leafy.Transaction.Create.{
  pay_from_change, pay_fee, lift_change, add_change, finish, start, virtual_size, fee_for,
  create_transaction, is_change_dust,
}
use leafy.Transaction.Plan.{sum_amounts, covering, uncovered, plan, IsFunds, IsCoin}
use leafy.Transaction.Refinement.{realise, create_transaction-plan}
use leafy.Transaction.Refinement.Amounts.{script_of}
use leafy.Transaction.Payment.{IsPayment, sum_values}
use leafy.Transaction.Payment.Value.{
  outpoints, create_transaction-conserves, create_transaction-pays, create_transaction-decides,
}
use leafy.Transaction.Payment.Spending.{create_transaction-covered, create_transaction-respends}
use leafy.Transaction.Payment.Everything.{create_transaction-everything}

abbrev chain : Chain
chain = record {
  OutPoint = ℕ;
  Address = Bytes;
  outpoint_string = λ n. n ∷ [];
  pay_to_addr_script = λ a. ok a;
  transaction_weight = λ tx. pos (240 + 230 * length tx.tx_in);
  serialize = λ tx. ok (length tx.tx_in ∷ []);
}

abbrev float : FloatOps
float = record {
  Float = ℤ;
  is_nonpositive = λ x. leb_ℤ x (pos 0);
  of_int64 = λ n. n;
  mul = mul64;
  ceil = λ x. x;
  to_int64 = λ x. x;
}

abbrev coin : ℕ → ℕ → Utxo ℕ
coin n amount = record {
  from_address = n ∷ [];
  outpoint = n;
  amount = pos amount;
  script = b'0' ∷ b'1' ∷ [];
}

abbrev coins : List (Utxo ℕ)
coins = coin 1 1000 ∷ coin 2 200 ∷ coin 3 5000 ∷ []

coin-IsCoin : (n amount : ℕ) → IsCoin (coin n amount)
unfolding decode_script hex_decode
coin-IsCoin n amount = record { nonneg = refl; script_bytes = 1 ∷ []; decodes = refl }

coins-IsFunds : IsFunds coins
coins-IsFunds = record {
  coins = (coin-IsCoin 1 1000, (coin-IsCoin 2 200, (coin-IsCoin 3 5000, tt)));
  small = omega arith;
}

-- A call that opens everything that `create_transaction` runs.
unfoldable run : List (Utxo ℕ) → ℤ → Result (TransactionInfo ℕ)
unfolding create_transaction select_utxos select_utxo add_matched add_input with_input decode_script
    hex_decode start fee_for virtual_size add64 sub64 mul64 div64 pay_fee pay_from_change top_up
    add_change lift_change finish hex_encode script_of bytes_eq
run utxos amount = create_transaction chain float utxos (9 ∷ []) (8 ∷ []) amount (pos 1)

abbrev input : ℕ → List Bytes → TxIn ℕ
input n witness = record { previous_out_point = n; sequence = 0; witness = witness }

abbrev output : ℕ → ℕ → TxOut
output value script = record { value = pos value; pk_script = script ∷ [] }

abbrev info : ℕ → List (TxIn ℕ) → List TxOut → ℕ → ℕ → ℕ → List (Utxo ℕ) → TransactionInfo ℕ
info digit ins outs total fee change spent = record {
  hex = b'0' ∷ digit ∷ [];
  msg_tx = record { version = 2; lock_time = 0; tx_in = ins; tx_out = outs };
  tx_input_amt = pos total;
  tx_dest_amt = pos 0;
  tx_fee_amt = pos fee;
  tx_change_amt = pos change;
  outpoint_to_addr = map (λ u. (u.outpoint ∷ [], u.from_address)) spent;
  outpoint_to_amt = map (λ u. (u.outpoint ∷ [], u.amount)) spent;
  outpoint_to_script = map (λ u. (u.outpoint ∷ [], 1 ∷ [])) spent;
}

-- 500 from a coin of 1000, with a fee of 118.
abbrev paid : TransactionInfo ℕ
paid =
    info b'1' (input 1 blank_witness ∷ []) (output 500 8 ∷ output 382 9 ∷ []) 1000 118 382
      (coin 1 1000 ∷ [])

run_paid : create_transaction chain float coins (9 ∷ []) (8 ∷ []) (pos 500) (pos 1) ≡ ok paid
unfolding run
run_paid = refl

-- 950 leaves 50 for a fee of 118: the coin of 200 is added, and added again against dust.
abbrev respent : TransactionInfo ℕ
respent =
    info b'3' (input 1 blank_witness ∷ input 2 blank_witness ∷ input 2 [] ∷ [])
      (output 950 8 ∷ output 332 9 ∷ []) 1400 118 332 (coin 1 1000 ∷ coin 2 200 ∷ [])

run_respent : create_transaction chain float coins (9 ∷ []) (8 ∷ []) (pos 950) (pos 1) ≡ ok respent
unfolding run
run_respent = refl

abbrev swept_all : TransactionInfo ℕ
swept_all =
    info b'3' (input 1 blank_witness ∷ input 2 blank_witness ∷ input 3 blank_witness ∷ [])
      (output 5967 8 ∷ []) 6200 233 0 coins

run_swept : create_transaction chain float coins (9 ∷ []) (8 ∷ []) (pos 0) (pos 1) ≡ ok swept_all
unfolding run
run_swept = refl

paid-IsPayment : IsPayment chain float coins (9 ∷ []) (8 ∷ []) 500 (pos 1) 118 (8 ∷ []) (9 ∷ [])
unfolding run
paid-IsPayment = record {
  funds = coins-IsFunds;
  pays = omega arith;
  small = omega arith;
  rate = refl;
  dest = refl;
  back = refl;
  fees = refl;
}

respent-IsPayment : IsPayment chain float coins (9 ∷ []) (8 ∷ []) 950 (pos 1) 118 (8 ∷ []) (9 ∷ [])
unfolding run
respent-IsPayment = record {
  funds = coins-IsFunds;
  pays = omega arith;
  small = omega arith;
  rate = refl;
  dest = refl;
  back = refl;
  fees = refl;
}

serializes : (tx : MsgTx ℕ) → (bytes : Bytes) × (chain.serialize tx ≡ ok bytes)
serializes tx = (length tx.tx_in ∷ [], refl)

create_transaction-plan_example :
    create_transaction chain float coins (9 ∷ []) (8 ∷ []) (pos 500) (pos 1)
    ≡ realise chain 500 118 (8 ∷ []) (9 ∷ []) coins (plan 500 118 coins)
create_transaction-plan_example =
    create_transaction-plan chain 500 118 (8 ∷ []) (9 ∷ []) float coins (9 ∷ []) (8 ∷ []) (pos 1)
      coins-IsFunds paid-IsPayment.pays paid-IsPayment.small refl refl refl paid-IsPayment.fees

-- The coin of 200 stands among the inputs for the fee and again among those added against dust.
create_transaction-conserves_example :
    (spent rest lifted left : List (Utxo ℕ)) × (spent ++ rest ≡ coins)
    × (lifted ++ left ≡ uncovered 950 coins)
    × (outpoints respent.msg_tx ≡ map (λ u. u.outpoint) (spent ++ lifted))
    × (pos 1400 ≡ pos (sum_amounts spent + sum_amounts lifted))
    × (pos 118 ≡ pos 118)
    × (sum_values respent.msg_tx.tx_out + 118 ≡ sum_amounts spent + sum_amounts lifted)
create_transaction-conserves_example =
    create_transaction-conserves chain float coins (9 ∷ []) (8 ∷ []) 950 (pos 1) 118 (8 ∷ [])
      (9 ∷ []) respent-IsPayment respent run_respent

create_transaction-pays_example :
    (change : ℕ) × (pos 382 ≡ pos change)
    × (paid.msg_tx.tx_out
        ≡ output 500 8
          ∷ (if ltb 0 change then record { value = pos change; pk_script = 9 ∷ [] } ∷ [] else []))
    × (sub64 (sub64 (pos 1000) (pos 118)) (pos 382) ≡ pos 500)
create_transaction-pays_example =
    create_transaction-pays chain float coins (9 ∷ []) (8 ∷ []) 500 (pos 1) 118 (8 ∷ []) (9 ∷ [])
      paid-IsPayment paid run_paid

create_transaction-decides_example :
    let r = create_transaction chain float coins (9 ∷ []) (8 ∷ []) (pos 500) (pos 1) in
    (500 + 118 ≤ sum_amounts coins → (t : TransactionInfo ℕ) × (r ≡ ok t))
    × (sum_amounts coins < 500
        → r ≡ err (Error.insufficient_funds (pos 500) (pos (sum_amounts coins))))
    × (500 ≤ sum_amounts coins
        → sum_amounts coins < 500 + 118
        → r
          ≡ err (
              Error.insufficient_fee_funds
                (pos (118 - (sum_amounts (covering 500 coins) - 500)))
                (pos (sum_amounts (uncovered 500 coins)))))
create_transaction-decides_example =
    create_transaction-decides chain float coins (9 ∷ []) (8 ∷ []) 500 (pos 1) 118 (8 ∷ []) (9 ∷ [])
      paid-IsPayment serializes

create_transaction-covered_example :
    (spent rest : List (Utxo ℕ)) × (spent ++ rest ≡ coins)
    × (outpoints paid.msg_tx ≡ map (λ u. u.outpoint) spent)
    × (is_change_dust paid ≡ true → sum_amounts rest ≡ 0)
create_transaction-covered_example =
    create_transaction-covered chain float coins (9 ∷ []) (8 ∷ []) 500 (pos 1) 118 (8 ∷ []) (9 ∷ [])
      paid-IsPayment paid run_paid (omega arith)

create_transaction-respends_example :
    (before between after : List ℕ) × (outpoints respent.msg_tx
      ≡ before ++ 2 ∷ (between ++ 2 ∷ after))
create_transaction-respends_example =
    create_transaction-respends chain float coins (9 ∷ []) (8 ∷ []) 950 (pos 1) 118 (8 ∷ [])
      (9 ∷ []) respent-IsPayment respent (coin 2 200) (coin 3 5000 ∷ []) run_respent refl
      (omega arith) (omega arith) (omega arith) (omega arith) (omega arith)

create_transaction-everything_example :
    (outpoints swept_all.msg_tx ≡ map (λ u. u.outpoint) coins)
    × (swept_all.msg_tx.tx_out
        ≡ record { value = pos (sum_amounts coins) -ℤ pos 233; pk_script = 8 ∷ [] } ∷ [])
    × (pos 6200 ≡ pos (sum_amounts coins))
    × (pos 233 ≡ pos 233)
    × (pos 0 ≡ pos 0)
    × (is_change_dust swept_all ≡ false)
unfolding run
create_transaction-everything_example =
    create_transaction-everything chain float coins (9 ∷ []) (8 ∷ []) (pos 1) 233 (8 ∷ []) (9 ∷ [])
      swept_all coins-IsFunds (omega arith) refl refl refl refl run_swept
