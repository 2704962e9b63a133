-- ===== src/Transaction/Payment/Spending.antt =====
-- Which coins a payment by `CreateTransaction` (leafy.go) spends.
use mathlib.Core.List.{map-append}
use leafy.Prelude.{
  ℕ, ◌+◌, ◌-◌, ◌≤◌, ◌<◌, ◌≡◌, sym, ap, ◌∙◌, true, List, [], ◌∷◌, ◌++◌, map, append_assoc, arith,
  pos, Bytes, ok,
}
use leafy.Wire.{TransactionInfo, Utxo, Chain, FloatOps}
use leafy.Transaction.Create.{create_transaction, is_change_dust}
use leafy.Transaction.Plan.{sum_amounts, covering, uncovered, spend, plan, dust, Plan}
use leafy.Transaction.Plan.Worth.{plan-covered, plan-respends}
use leafy.Transaction.Payment.{IsPayment, result-Carries}
use leafy.Transaction.Payment.Value.{outpoints, outpoints-Carries}

-- What a plan spends.
abbrev spent_by : {O : Type 0} → Plan O → List (Utxo O) × ℕ
spent_by (spend spent lifted change) = (spent ++ lifted, change)
spent_by _ = ([], 0)

module _ (chain : Chain) (float : FloatOps) (us : List (Utxo chain.OutPoint))
    (change_addr dest_addr : chain.Address) (amount : ℕ) (fee_rate : float.Float) (fee : ℕ)
    (output_script change_script : Bytes)
    (call : IsPayment chain float us change_addr dest_addr amount fee_rate fee output_script
      change_script) where
  open chain use {OutPoint}

  -- The inputs and the change of a returned payment are those of its plan.
  spends_plan :
      (t : TransactionInfo OutPoint) (spent lifted : List (Utxo OutPoint)) (change : ℕ)
      → create_transaction chain float us change_addr dest_addr (pos amount) fee_rate ≡ ok t
      → plan amount fee us ≡ spend spent lifted change
      → (outpoints t.msg_tx ≡ map (λ u. u.outpoint) (spent ++ lifted))
        × (t.tx_change_amt ≡ pos change)
  spends_plan t spent lifted change h e =
      let (spent', lifted', change', e', c) =
        result-Carries chain float us change_addr dest_addr amount fee_rate fee output_script
          change_script call h in
      let same : (spent' ++ lifted', change') ≡ (spent ++ lifted, change) =
        ap spent_by (sym e' ∙ e) in
      (
        outpoints-Carries c ∙ ap (λ (p : List (Utxo OutPoint) × ℕ). map (λ u. u.outpoint) p.0) same,
        c.change_amt ∙ ap (λ (p : List (Utxo OutPoint) × ℕ). pos p.1) same,
      )

  -- Where the coins that cover the amount cover the fee too, a returned payment spends the first of
  -- the given coins, each once and in their order; and its change is dust only where the coins that
  -- it does not spend are worth nothing.
  pub create_transaction-covered :
      (t : TransactionInfo OutPoint)
      → create_transaction chain float us change_addr dest_addr (pos amount) fee_rate ≡ ok t
      → amount + fee ≤ sum_amounts (covering amount us)
      → (spent rest : List (Utxo OutPoint)) × (spent ++ rest ≡ us)
        × (outpoints t.msg_tx ≡ map (λ u. u.outpoint) spent)
        × (is_change_dust t ≡ true → sum_amounts rest ≡ 0)
  unfolding is_change_dust
  create_transaction-covered t h enough =
      let (lifted, rest, change, e, order, dusty) = plan-covered amount fee us enough in
      let (named, back) = spends_plan t (covering amount us) lifted change h e in
      (
        covering amount us ++ lifted,
        rest,
        order,
        named,
        λ small. let dust_test = rw back at small in dusty (ground arith) (ground arith),
      )

  -- Where the fee takes further coins, the first of them `u`, and leaves a positive change of at most
  -- the dust amount while other coins are left, the loop against dust starts at `u` again: the
  -- returned transaction spends the outpoint of `u` twice.
  pub create_transaction-respends :
      (t : TransactionInfo OutPoint) (u : Utxo OutPoint) (ns : List (Utxo OutPoint))
      → create_transaction chain float us change_addr dest_addr (pos amount) fee_rate ≡ ok t
      → uncovered amount us ≡ u ∷ ns
      → let missing = fee - (sum_amounts (covering amount us) - amount) in
        let more = covering missing (u ∷ ns) in
        amount ≤ sum_amounts us
        → 0 < missing
        → missing < sum_amounts more
        → sum_amounts more ≤ missing + dust
        → sum_amounts more < sum_amounts (u ∷ ns)
        → (before between after : List OutPoint) × (outpoints t.msg_tx
            ≡ before ++ u.outpoint ∷ (between ++ u.outpoint ∷ after))
  create_transaction-respends t u ns h e ha hm some_change small left =
      let (more, lifted, change, planned) =
        plan-respends amount fee us ns u e ha hm some_change small left in
      let (spent, back) =
        spends_plan t (covering amount us ++ u ∷ more) (u ∷ lifted) change h planned in
      let name = λ (v : Utxo OutPoint). v.outpoint in
      (
        map name (covering amount us),
        map name more,
        map name lifted,
        spent ∙ simp (append_assoc, map-append),
      )
