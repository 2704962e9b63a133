-- ===== src/Signing/Succeeds.antt =====
-- When `CreateAndSignTransaction` (leafy.go) returns a signed transaction.
use leafy.Prelude.{
  ℕ, ◌+◌, ◌≡◌, ◌≤◌, ◌<◌, refl, arith, List, [], ◌∷◌, map, length, pos, Bytes, some, lookup, Dict,
  Bool-cases, inl, inr, bytes_eq, All, IsIn, Result, ok, >>=-eq-ok,
}
use leafy.Hex.{hex_encode}
use leafy.Wire.{TxIn, MsgTx, Utxo, TransactionInfo, SignedMsg, FloatOps}
use leafy.Library.{Library, chain_of}
use leafy.Transaction.Create.{create_transaction}
use leafy.Transaction.Payment.{IsPayment}
use leafy.Signer.{
  taproot_sign, sign, compute_taproot_sig_hash, get_tweaked_private_key, sign_type_of,
  with_hash_type,
}
use leafy.Wallet.{NormalWallet, get_bip44_key}
use leafy.SigningKeys.{SigningKeys, find_signing_keys, add_signing_keys}
use leafy.SigningKeys.Found.{AllFound, search_from-preserves}
use leafy.Signing.{
  element, sign_inputs, assign_witnesses, assemble, add_prev_outs, key_of, taproot_witness,
  create_and_sign_transaction,
}
use leafy.Signing.Witnesses.{Witnessed, sign_inputs-Witnessed}
use leafy.Signing.Spends.{IsWritten, assemble-Witnessed}
use leafy.Signing.PrevOuts.{add_prev_outs-create_transaction}

some_injective : {A : Type 0} {a b : A} → some a ≡ some b → a ≡ b
some_injective h = cc

lookup-AllFound :
    {V : Type 0} (k a : Bytes) (wanted : Dict Bytes) (found : Dict V)
    → lookup k wanted ≡ some a
    → AllFound wanted found
    → (v : V) × (lookup a found ≡ some v)
lookup-AllFound k a [] found h all = cc
lookup-AllFound k a ((j, b) ∷ wanted) found h (here, all) = elim (Bool-cases (bytes_eq j k)) [
  | inl e ↦ let same : b ≡ a = some_injective (rw e at h) in rw (← same) here
  | inr n ↦ lookup-AllFound k a wanted found (rw n at h) all
]

-- Every input is signed where each can be, at an index below `n`.
pub sign_inputs-total :
    {O : Type 0} (sign_input : ℕ → TxIn O → Result (List Bytes)) (P : TxIn O → Type 0) (n : ℕ)
    → ((i : ℕ) (x : TxIn O) → i < n → P x → (w : List Bytes) × (sign_input i x ≡ ok w))
    → (i : ℕ) (xs : List (TxIn O)) → i + length xs ≤ n
    → All P xs
    → (ws : List (List Bytes)) × (sign_inputs sign_input i xs ≡ ok ws)
unfolding sign_inputs
sign_inputs-total sign_input P n signs i [] le none = ([], refl)
sign_inputs-total sign_input P n signs i (x ∷ xs) le (p, ps) =
    let (w, signed) = signs i x (omega arith) p in
    let (ws, more) = sign_inputs-total sign_input P n signs (i + 1) xs (omega arith) ps in
    (w ∷ ws, rw (signed, more))

module _ (lib : Library) where
  open lib use {OutPoint, tx, outpoint_string, serialize}

  pub key_of-AllFound :
      {V : Type 0} (info : TransactionInfo OutPoint) (found : Dict V) (xs : List (TxIn OutPoint))
      (us : List (Utxo OutPoint))
      → map (λ i. i.previous_out_point) xs ≡ map (λ u. u.outpoint) us
      → All
          (λ u. lookup (outpoint_string u.outpoint) info.outpoint_to_addr ≡ some u.from_address)
          us
      → AllFound info.outpoint_to_addr found
      → All (λ x. (k : V) × (key_of lib info found x ≡ ok k)) xs
  unfolding key_of
  key_of-AllFound info found [] us e listed all = tt
  key_of-AllFound info found (x ∷ xs) [] e listed all = cc
  key_of-AllFound info found (x ∷ xs) (u ∷ us) e (l, ls) all =
      let spent : x.previous_out_point ≡ u.outpoint = cc in
      let (k, mapped) = lookup-AllFound _ _ info.outpoint_to_addr found l all in
      ((k, rw (spent, l, mapped)), key_of-AllFound info found xs us (cc) ls all)

  pub assemble-total :
      (msg : MsgTx OutPoint) (ws : List (List Bytes)) (ys : List (TxIn OutPoint))
      → assign_witnesses ws msg.tx_in ≡ ok ys
      → ((m : MsgTx OutPoint) → (bytes : Bytes) × (serialize m ≡ ok bytes))
      → (signed : SignedMsg OutPoint) × (assemble lib msg ws ≡ ok signed)
  unfolding assemble
  assemble-total msg ws ys assigned writes =
      let signed_msg = record msg { tx_in = ys } in
      let (bytes, wrote) = writes signed_msg in
      (record { msg = signed_msg; hex = hex_encode bytes }, rw (assigned, wrote))

  module _ (timelock : ℕ) (info : TransactionInfo OutPoint)
      (found : Dict (SigningKeys lib timelock)) (fetcher : tx.Fetcher) (msg : MsgTx OutPoint) where
    taproot_witness-total :
        (i : ℕ) (x : TxIn OutPoint) (h : Bytes)
        → compute_taproot_sig_hash tx fetcher msg tx.sig_hash_default i ≡ ok h
        → ((key : lib.keys.PrivateKey) → (s : tx.Signature) × (tx.schnorr_sign key h ≡ ok s))
        → (k : SigningKeys lib timelock) × (key_of lib info found x ≡ ok k)
        → (w : List Bytes) × (taproot_witness lib timelock info found fetcher msg i x ≡ ok w)
    unfolding taproot_witness taproot_sign sign element
    taproot_witness-total i x h hashed signs (k, known) =
        let (s, signed) = signs (
          get_tweaked_private_key tx k.tweaked_private_key
            (sign_type_of tx (some k.merkle_root))) in
        (
          with_hash_type tx tx.sig_hash_default (tx.serialize_signature s) ∷ [],
          rw (known, hashed, signed),
        )

  find_signing_keys-AllFound :
      (timelock : ℕ) (params : tx.Params) (wallet : NormalWallet) (wanted : Dict Bytes)
      (found : Dict (SigningKeys lib timelock))
      → find_signing_keys lib timelock params wallet wanted ≡ ok found
      → AllFound wanted found
  unfolding find_signing_keys
  find_signing_keys-AllFound timelock params wallet wanted found h =
      let (k1, _, h1) = >>=-eq-ok (get_bip44_key lib wallet.first_mnemonic params 0) _ h in
      let (k2, _, h2) = >>=-eq-ok (get_bip44_key lib wallet.second_mnemonic params 0) _ h1 in
      let (_, _, _, all_found) =
        search_from-preserves (add_signing_keys lib timelock params) wanted (λ s. Unit)
          (λ s s' stepped inv. tt) 10 0 _ found h2 tt in
      all_found

  module _ (timelock : ℕ) (float : FloatOps) (params : tx.Params) (us : List (Utxo OutPoint))
      (change_addr dest_addr : tx.Address) (amount : ℕ) (fee_rate : float.Float) (fee : ℕ)
      (output_script change_script : Bytes)
      (call : IsPayment
        (chain_of lib)
        float
        us
        change_addr
        dest_addr
        amount
        fee_rate
        fee
        output_script
        change_script) where
    -- Where two of the coins have one key only if they are the same coin, a payment that
    -- `CreateTransaction` returns is signed, if the search finds the keys for its addresses, the
    -- signature hash of each of its inputs exists and is signed with any key, and messages are
    -- serialized: no address, script, amount or key is missing in the maps. What is signed is the
    -- payment with the witness of each input that signing it returns, all else as it was, and has
    -- the hex of its serialization.
    pub create_and_sign_transaction-signs :
        (wallet : NormalWallet) (t : TransactionInfo OutPoint)
        (found : Dict (SigningKeys lib timelock))
        → ((u v : Utxo OutPoint)
            → IsIn u us
            → IsIn v us
            → outpoint_string u.outpoint ≡ outpoint_string v.outpoint
            → u ≡ v)
        → create_transaction (chain_of lib) float us change_addr dest_addr (pos amount) fee_rate
          ≡ ok t
        → find_signing_keys lib timelock params wallet t.outpoint_to_addr ≡ ok found
        → ((g : tx.Fetcher) (i : ℕ)
            → add_prev_outs lib t t.msg_tx.tx_in tx.empty_fetcher ≡ ok g
            → i < length t.msg_tx.tx_in
            → (h : Bytes) × (compute_taproot_sig_hash tx g t.msg_tx tx.sig_hash_default i ≡ ok h)
              × ((key : lib.keys.PrivateKey) → (s : tx.Signature) × (tx.schnorr_sign key h ≡ ok s)))
        → ((m : MsgTx OutPoint) → (bytes : Bytes) × (serialize m ≡ ok bytes))
        → (signed : SignedMsg OutPoint) × (g : tx.Fetcher) × (create_and_sign_transaction lib
              timelock float params wallet us change_addr dest_addr
              (pos amount)
              fee_rate
            ≡ ok signed)
          × (add_prev_outs lib t t.msg_tx.tx_in tx.empty_fetcher ≡ ok g)
          × Witnessed
              (λ i x w. taproot_witness lib timelock t found g t.msg_tx i x ≡ ok w)
              0
              t.msg_tx.tx_in
              signed.msg.tx_in
          × IsWritten lib t.msg_tx signed
    unfolding create_and_sign_transaction
    create_and_sign_transaction-signs wallet t found named made searched hashes writes =
        let (spent, g, _, outs, addrs, fetched, _, _) =
          add_prev_outs-create_transaction lib float us change_addr dest_addr amount fee_rate fee
            output_script change_script call t 0 tx.empty_fetcher named made in
        let keyed =
          key_of-AllFound t found t.msg_tx.tx_in spent outs addrs
            (find_signing_keys-AllFound timelock params wallet t.outpoint_to_addr found searched) in
        let sign_input = taproot_witness lib timelock t found g t.msg_tx in
        let (ws, signed_all) =
          sign_inputs-total sign_input
            (λ x. (k : SigningKeys lib timelock) × (key_of lib t found x ≡ ok k))
            (length t.msg_tx.tx_in)
            (λ i x lt key.
              let (h, hashed, signs) = hashes g i fetched lt in
              taproot_witness-total timelock t found g t.msg_tx i x h hashed signs key)
            0 t.msg_tx.tx_in (omega arith) keyed in
        let (ys, assigned, witnessed) =
          sign_inputs-Witnessed sign_input (λ i x w. sign_input i x ≡ ok w) (λ i x w e. e) 0
            t.msg_tx.tx_in ws signed_all in
        let (signed, assembled) = assemble-total t.msg_tx ws ys assigned writes in
        let (all_witnessed, written) =
          assemble-Witnessed lib (λ i x w. sign_input i x ≡ ok w) t.msg_tx ws ys signed assigned
            assembled witnessed in
        (
          signed,
          g,
          rw (made, searched, fetched, signed_all) assembled,
          fetched,
          all_witnessed,
          written,
        )
