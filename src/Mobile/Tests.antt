-- ===== src/Mobile/Tests.antt =====
-- Runs of the mobile calls (mobile_leafy.go), on the sample wallet of the signing tests.
use leafy.Prelude.{
  ℕ, ◌^◌, ◌<◌, ◌≤◌, ◌≡◌, refl, arith, pos, List, [], ◌∷◌, length, ltb, if◌then◌else◌, codes, Bytes,
  bytes_eq, ok,
}
use leafy.Text.{to_lower, lower_from, lower_letter}
use leafy.Wire.{TransactionInfo}
use leafy.Wallet.{recovery}
use leafy.Library.{chain_of}
use leafy.Address.{get_addresses}
use leafy.Transaction.Create.{create_transaction, is_change_dust}
use leafy.Transaction.Payment.{IsPayment}
use leafy.Signing.Sample.{lib, float, coin}
use leafy.Signing.Sample.Opened.{opened_recovery, opened_signing}
use leafy.Mobile.{
  Encoding, Network, Request, parse_network_name, wrapped, to_unsigned, outside, mobile_transaction,
  read_request, mobile_get_addresses, mobile_create_transaction,
}
use leafy.Mobile.Ranges.{mobile_get_addresses-eq-ok}
use leafy.Mobile.Amounts.{mobile_create_transaction-pays}

abbrev json : Encoding lib
json = record {
  params_of = λ network. 0;
  decode_address = λ s params. ok s;
  unmarshal_utxos = λ s. ok (coin ∷ []);
  marshal_wallet = λ w. ok w.second_descriptor;
  marshal_strings = λ l. ok (length l ∷ []);
  marshal_transaction = λ t. ok t.hex;
  marshal_signed = λ s. ok s.hex;
  marshal_pair = λ p. ok p.public_key;
}

abbrev descriptor : Bytes
descriptor = codes "tr([abababab/44'/0'/0'/0]1)"

listed :
    mobile_get_addresses lib json 52 (codes "Testnet") (0 ∷ 0 ∷ []) descriptor (pos 5) (pos 3)
    ≡ ok (3 ∷ [])
unfolding opened_recovery mobile_get_addresses wrapped outside to_unsigned parse_network_name
    to_lower lower_from lower_letter
listed = refl

mobile_get_addresses-eq-ok_example :
    (i n : ℕ) × (network : Network) × (found : List Bytes) × (pos 5 ≡ pos i)
    × (pos 3 ≡ pos n)
    × (i < 2 ^ 32)
    × (1 ≤ n)
    × (n < 2 ^ 8)
    × (parse_network_name (codes "Testnet") ≡ ok network)
    × (get_addresses lib 52 0 (recovery (0 ∷ 0 ∷ []) descriptor) i n ≡ ok found)
    × (length found ≡ n)
    × (json.marshal_strings found ≡ ok (3 ∷ []))
mobile_get_addresses-eq-ok_example =
    mobile_get_addresses-eq-ok lib json 52 (codes "Testnet") (0 ∷ 0 ∷ []) descriptor (pos 5) (pos 3)
      (3 ∷ []) listed

abbrev request : Request lib json
request = record { params = 0; change_addr = 9 ∷ []; dest_addr = 8 ∷ []; utxos = coin ∷ [] }

request_read : read_request lib json (codes "regtest") [] (9 ∷ []) (8 ∷ []) ≡ ok request
unfolding read_request wrapped parse_network_name to_lower lower_from lower_letter bytes_eq
request_read = refl

request-IsPayment :
    IsPayment (chain_of lib) float (coin ∷ []) (9 ∷ []) (8 ∷ []) 500 (pos 1) 118 (8 ∷ []) (9 ∷ [])
unfolding opened_signing
request-IsPayment = record {
  funds = record {
    coins = (record { nonneg = refl; script_bytes = 1 ∷ []; decodes = refl }, tt);
    small = omega arith;
  };
  pays = omega arith;
  small = omega arith;
  rate = refl;
  dest = refl;
  back = refl;
  fees = refl;
}

-- The hex of the sample's transaction is 01.
reported :
    mobile_create_transaction lib json float
      (codes "regtest")
      []
      (9 ∷ [])
      (8 ∷ [])
      (pos 500)
      (pos 1)
    ≡ ok (codes "3031")
unfolding opened_signing mobile_create_transaction mobile_transaction is_change_dust read_request
    wrapped parse_network_name to_lower lower_from lower_letter
reported = refl

mobile_create_transaction-pays_example :
    (t : TransactionInfo ℕ) × (change : ℕ) × (create_transaction
        (chain_of lib)
        float
        (coin ∷ [])
        (9 ∷ [])
        (8 ∷ [])
        (pos 500)
        (pos 1)
      ≡ ok t)
    × (json.marshal_transaction (mobile_transaction t) ≡ ok (codes "3031"))
    × ((mobile_transaction t).amount ≡ pos 500)
    × ((mobile_transaction t).change ≡ pos change)
    × (t.msg_tx.tx_out
        ≡ record { value = pos 500; pk_script = 8 ∷ [] }
          ∷ (if ltb 0 change then record { value = pos change; pk_script = 9 ∷ [] } ∷ [] else []))
mobile_create_transaction-pays_example =
    mobile_create_transaction-pays lib json float (codes "regtest") [] (9 ∷ []) (8 ∷ []) 500 118
      (pos 1) (8 ∷ []) (9 ∷ []) (codes "3031") request request_read request-IsPayment reported
