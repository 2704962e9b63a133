-- ===== src/Transaction/Payment/Listed.antt =====
-- The maps that `CreateTransaction` (leafy.go) returns with a payment list every coin that it spends.
use leafy.Prelude.{
  ℕ, some, ◌≡◌, ap, ◌∙◌, List, [], ◌∷◌, ◌++◌, ℤ, pos, Bytes, Bool-cases, inl, inr, bytes_eq,
  bytes_eq_sound, Dict, lookup, insert, lookup-insert, lookup-insert_self, All, All-left, All-right,
  All-append, IsIn, all-IsIn, ok, >>=-eq-ok, ok_injective,
}
use leafy.Wire.{Utxo, TransactionInfo, Chain, FloatOps}
use leafy.Transaction.Inputs.{Draft, with_input, blank_witness}
use leafy.Transaction.Create.{Funding, finish, start}
use leafy.Transaction.Plan.{covering, uncovered, spend, plan}
use leafy.Transaction.Plan.Cover.{covering-append-uncovered}
use leafy.Transaction.Plan.Drawn.{IsDrawn, plan-IsDrawn}
use leafy.Transaction.Refinement.{realise}
use leafy.Transaction.Refinement.Amounts.{script_of}
use leafy.Transaction.Refinement.Loops.{with_inputs}
use leafy.Transaction.Payment.{IsPayment}

-- The key of the coin is in each map, with what the coin says.
pub record IsListed {O : Type 0} (name : O → Bytes) (addrs : Dict Bytes) (amts : Dict ℤ)
    (scripts : Dict Bytes) (u : Utxo O) : Type 0 where
  pub address : lookup (name u.outpoint) addrs ≡ some u.from_address
  pub amount : lookup (name u.outpoint) amts ≡ some u.amount
  pub script : lookup (name u.outpoint) scripts ≡ some (script_of u)

lookup-insert_other :
    {V : Type 0} (k j : Bytes) (v : V) (m : Dict V) {w : V}
    → lookup j m ≡ some w
    → (k ≡ j → v ≡ w)
    → lookup j (insert k v m) ≡ some w
lookup-insert_other k j v m old same = elim (Bool-cases (bytes_eq k j)) [
  | inl e ↦ lookup-insert k j v m ∙ rw (e, same (bytes_eq_sound k j e))
  | inr n ↦ lookup-insert k j v m ∙ rw n old
]

module _ (chain : Chain) where
  open chain use {OutPoint, outpoint_string}

  abbrev pub ListedIn : Draft OutPoint → Utxo OutPoint → Type 0
  ListedIn d = IsListed outpoint_string d.outpoint_to_addr d.outpoint_to_amt d.outpoint_to_script

  -- Two of the coins have one key only where they are the same coin.
  module _ (us : List (Utxo OutPoint))
      (named : (u v : Utxo OutPoint)
        → IsIn u us
        → IsIn v us
        → outpoint_string u.outpoint ≡ outpoint_string v.outpoint
        → u ≡ v) where
    with_input-listed :
        (witness : List Bytes) (u : Utxo OutPoint) (d : Draft OutPoint)
        → ListedIn (with_input chain witness u (script_of u) d) u
    unfolding with_input
    with_input-listed witness u d = record {
      address = lookup-insert_self _ _ _;
      amount = lookup-insert_self _ _ _;
      script = lookup-insert_self _ _ _;
    }

    with_input-kept :
        (witness : List Bytes) (u v : Utxo OutPoint) (d : Draft OutPoint)
        → IsIn u us
        → IsIn v us
        → ListedIn d u
        → ListedIn (with_input chain witness v (script_of v) d) u
    unfolding with_input
    with_input-kept witness u v d iu iv l = record {
      address =
          lookup-insert_other _ _ _ _ l.address
            (λ e. ap (λ (c : Utxo OutPoint). c.from_address) (named v u iv iu e));
      amount =
          lookup-insert_other _ _ _ _ l.amount
            (λ e. ap (λ (c : Utxo OutPoint). c.amount) (named v u iv iu e));
      script = lookup-insert_other _ _ _ _ l.script (λ e. ap script_of (named v u iv iu e));
    }

    with_inputs-kept :
        (witness : List Bytes) (u : Utxo OutPoint) (vs : List (Utxo OutPoint)) (d : Draft OutPoint)
        → IsIn u us
        → All (λ v. IsIn v us) vs
        → ListedIn d u
        → ListedIn (with_inputs chain witness vs d) u
    with_inputs-kept witness u [] d iu none l = l
    with_inputs-kept witness u (v ∷ vs) d iu (iv, more) l =
        with_inputs-kept witness u vs _ iu more (with_input-kept witness u v d iu iv l)

    all-kept :
        (witness : List Bytes) (ws vs : List (Utxo OutPoint)) (d : Draft OutPoint)
        → All (λ v. IsIn v us) ws
        → All (λ v. IsIn v us) vs
        → All (ListedIn d) ws
        → All (ListedIn (with_inputs chain witness vs d)) ws
    all-kept witness [] vs d iw iv l = tt
    all-kept witness (w ∷ ws) vs d (i, iw) iv (l, ls) =
        (with_inputs-kept witness w vs d i iv l, all-kept witness ws vs d iw iv ls)

    with_inputs-listed :
        (witness : List Bytes) (vs : List (Utxo OutPoint)) (d : Draft OutPoint)
        → All (λ v. IsIn v us) vs
        → All (ListedIn (with_inputs chain witness vs d)) vs
    with_inputs-listed witness [] d none = tt
    with_inputs-listed witness (v ∷ vs) d (i, more) = (
      with_inputs-kept witness v vs _ i more (with_input-listed witness v d),
      with_inputs-listed witness vs _ more,
    )

  abbrev pub ListedBy : TransactionInfo OutPoint → Utxo OutPoint → Type 0
  ListedBy t = IsListed outpoint_string t.outpoint_to_addr t.outpoint_to_amt t.outpoint_to_script

  finish-maps :
      (fee : ℤ) (f : Funding OutPoint) {t : TransactionInfo OutPoint}
      → finish chain fee f ≡ ok t
      → (f.draft.outpoint_to_addr ≡ t.outpoint_to_addr)
        × (f.draft.outpoint_to_amt ≡ t.outpoint_to_amt)
        × (f.draft.outpoint_to_script ≡ t.outpoint_to_script)
  unfolding finish
  finish-maps fee f h =
      let (bytes, wrote, done) = >>=-eq-ok (chain.serialize f.draft.msg_tx) _ h in
      let same = ok_injective done in
      (
        ap (λ (t : TransactionInfo OutPoint). t.outpoint_to_addr) same,
        ap (λ (t : TransactionInfo OutPoint). t.outpoint_to_amt) same,
        ap (λ (t : TransactionInfo OutPoint). t.outpoint_to_script) same,
      )

module _ (chain : Chain) (float : FloatOps) (us : List (Utxo chain.OutPoint))
    (change_addr dest_addr : chain.Address) (amount : ℕ) (fee_rate : float.Float) (fee : ℕ)
    (output_script change_script : Bytes)
    (call : IsPayment chain float us change_addr dest_addr amount fee_rate fee output_script
      change_script)
    (named : (u v : Utxo chain.OutPoint)
      → IsIn u us
      → IsIn v us
      → chain.outpoint_string u.outpoint ≡ chain.outpoint_string v.outpoint
      → u ≡ v) where
  open chain use {OutPoint, outpoint_string}

  pub create_transaction-listed :
      (t : TransactionInfo OutPoint) (spent lifted : List (Utxo OutPoint)) (change : ℕ)
      → plan amount fee us ≡ spend spent lifted change
      → realise chain amount fee output_script change_script us (spend spent lifted change) ≡ ok t
      → All (λ v. IsIn v us) (spent ++ lifted) × All (ListedBy chain t) (spent ++ lifted)
  create_transaction-listed t spent lifted change e h =
      let ((rest, first), (left, added)) : IsDrawn us (uncovered amount us)
          (spend spent lifted change) =
        rw e at (plan-IsDrawn amount fee us) in
      let given : All (λ v. IsIn v us) us = all-IsIn _ us (λ a i. i) in
      let i_spent = All-left (λ v. IsIn v us) spent rest (rw first given) in
      let i_left =
        All-right (λ v. IsIn v us) (covering amount us) (uncovered amount us)
          (rw (covering-append-uncovered amount us) given) in
      let i_lifted = All-left (λ v. IsIn v us) lifted left (rw added i_left) in
      let first_draft = start chain (pos amount) output_script in
      let paid = with_inputs chain blank_witness spent first_draft in
      let l_spent =
        all-kept chain us named [] spent lifted paid i_spent i_lifted
          (with_inputs-listed chain us named blank_witness spent first_draft i_spent) in
      let l_lifted = with_inputs-listed chain us named [] lifted paid i_lifted in
      let (addr, amt, script) = finish-maps chain (pos fee) _ h in
      (
        All-append (λ v. IsIn v us) spent lifted i_spent i_lifted,
        rw (← addr, ← amt, ← script)
            (All-append (ListedIn chain (with_inputs chain [] lifted paid)) spent lifted l_spent
              l_lifted),
      )
