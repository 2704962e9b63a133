-- ===== src/Signing/PrevOuts.antt =====
-- The previous outputs that the signing calls (leafy.go) hand to the signature hash are the coins
-- that the transaction spends.
use leafy.Prelude.{
  ℕ, ◌≡◌, refl, ap, ◌∙◌, List, [], ◌∷◌, ◌++◌, map, ℤ, pos, Bytes, some, lookup, All, All-imp,
  All-IsIn, IsIn, Result, ok, ◌>>=◌, found_or, Error,
}
use leafy.Wire.{TxIn, Utxo, TransactionInfo, FloatOps, decode_script}
use leafy.Library.{Library, chain_of}
use leafy.Transaction.Create.{create_transaction}
use leafy.Transaction.Plan.{IsCoin}
use leafy.Transaction.Refinement.Amounts.{script_of, decode_script-IsCoin}
use leafy.Transaction.Payment.{IsPayment, result-realised, realise-Carries}
use leafy.Transaction.Payment.Value.{outpoints, outpoints-Carries}
use leafy.Transaction.Payment.Listed.{IsListed, ListedBy, create_transaction-listed}
use leafy.Signing.{add_prev_outs, set_sequence, with_sequence}

module _ (lib : Library) where
  open lib use {OutPoint, tx, outpoint_string}

  -- The second fetcher is the first, told of each coin its outpoint, its amount and its script.
  abbrev pub Told : List (Utxo OutPoint) → tx.Fetcher → tx.Fetcher → Type 0
  Told [] f g = f ≡ g
  Told (u ∷ us) f g =
      (script : Bytes) × (decode_script u ≡ ok script)
      × Told us (tx.add_prev_out u.outpoint u.amount script f) g

  module _ (info : TransactionInfo OutPoint) where
    add_prev_outs-Told :
        (xs : List (TxIn OutPoint)) (us : List (Utxo OutPoint)) (f : tx.Fetcher)
        → map (λ i. i.previous_out_point) xs ≡ map (λ u. u.outpoint) us
        → All IsCoin us
        → All
            (IsListed outpoint_string info.outpoint_to_addr info.outpoint_to_amt
              info.outpoint_to_script)
            us
        → (g : tx.Fetcher) × (add_prev_outs lib info xs f ≡ ok g) × Told us f g
    unfolding add_prev_outs
    add_prev_outs-Told [] [] f e coins listed = (f, refl, refl)
    add_prev_outs-Told [] (u ∷ us) f e coins listed = cc
    add_prev_outs-Told (x ∷ xs) [] f e coins listed = cc
    add_prev_outs-Told (x ∷ xs) (u ∷ us) f e (c, cs) (l, ls) =
        let spent : x.previous_out_point ≡ u.outpoint = cc in
        let (g, made, told) =
          add_prev_outs-Told xs us (tx.add_prev_out u.outpoint u.amount (script_of u) f) (cc) cs
            ls in
        (g, rw (spent, l.script, l.amount) made, (script_of u, decode_script-IsCoin u c, told))

    -- The loop reads nothing of an input but its outpoint.
    add_prev_outs-with_sequence :
        (timelock : ℕ) (xs : List (TxIn OutPoint)) (f : tx.Fetcher)
        → add_prev_outs lib info (map (set_sequence timelock) xs) f ≡ add_prev_outs lib info xs f
    unfolding add_prev_outs set_sequence
    add_prev_outs-with_sequence timelock [] f = refl
    add_prev_outs-with_sequence timelock (x ∷ xs) f =
        let name = outpoint_string x.previous_out_point in
        ap
          (λ (rest : Bytes → ℤ → Result tx.Fetcher).
            found_or (lookup name info.outpoint_to_script) (Error.missing_script name) >>= λ s.
            found_or (lookup name info.outpoint_to_amt) (Error.missing_amount name) >>= λ a.
            rest s a)
          (λ j s a.
            add_prev_outs-with_sequence timelock xs (tx.add_prev_out x.previous_out_point a s f) j)

  module _ (float : FloatOps) (us : List (Utxo OutPoint)) (change_addr dest_addr : tx.Address)
      (amount : ℕ) (fee_rate : float.Float) (fee : ℕ) (output_script change_script : Bytes)
      (call : IsPayment
        (chain_of lib)
        float
        us
        change_addr
        dest_addr
        amount
        fee_rate
        fee
        output_script
        change_script) where
    -- Where two of the coins have one key only if they are the same coin, a returned payment spends
    -- coins of those given, and its map of addresses gives for each the address that it is on. The
    -- loop over the previous outputs does not fail for it, with or without the timelock in its
    -- inputs, and tells the fetcher of each input, in order, the outpoint of its coin, the amount and
    -- the decoded script.
    pub add_prev_outs-create_transaction :
        (t : TransactionInfo OutPoint) (timelock : ℕ) (f : tx.Fetcher)
        → ((u v : Utxo OutPoint)
            → IsIn u us
            → IsIn v us
            → outpoint_string u.outpoint ≡ outpoint_string v.outpoint
            → u ≡ v)
        → create_transaction (chain_of lib) float us change_addr dest_addr (pos amount) fee_rate
          ≡ ok t
        → (spent : List (Utxo OutPoint)) × (g : tx.Fetcher) × All (λ u. IsIn u us) spent
          × (outpoints t.msg_tx ≡ map (λ u. u.outpoint) spent)
          × All
              (λ u. lookup (outpoint_string u.outpoint) t.outpoint_to_addr ≡ some u.from_address)
              spent
          × (add_prev_outs lib t t.msg_tx.tx_in f ≡ ok g)
          × (add_prev_outs lib t (with_sequence timelock t.msg_tx).tx_in f ≡ ok g)
          × Told spent f g
    unfolding with_sequence
    add_prev_outs-create_transaction t timelock f named h =
        let chain = chain_of lib in
        let (spent, lifted, change, planned, realised) =
          result-realised chain float us change_addr dest_addr amount fee_rate fee output_script
            change_script call h in
        let (given, listed) =
          create_transaction-listed chain float us change_addr dest_addr amount fee_rate fee
            output_script change_script call named t spent lifted change planned realised in
        let coins =
          All-imp (λ u. IsIn u us) IsCoin (λ u i. All-IsIn IsCoin u us i call.funds.coins)
            (spent ++ lifted) given in
        let named_by = outpoints-Carries (
          realise-Carries chain float us change_addr dest_addr amount fee_rate fee output_script
            change_script call spent lifted change realised) in
        let (g, made, told) =
          add_prev_outs-Told t t.msg_tx.tx_in (spent ++ lifted) f named_by coins listed in
        (
          spent ++ lifted,
          g,
          given,
          named_by,
          All-imp (ListedBy chain t)
              (λ u. lookup (outpoint_string u.outpoint) t.outpoint_to_addr ≡ some u.from_address)
              (λ u l. l.address) (spent ++ lifted) listed,
          made,
          add_prev_outs-with_sequence t timelock t.msg_tx.tx_in f ∙ made,
          told,
        )
