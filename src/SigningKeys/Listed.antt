-- ===== src/SigningKeys/Listed.antt =====
-- The addresses that `GetAddresses` lists are among those that the search for signing keys maps
-- (leafy.go).
use leafy.Prelude.{
  IsIn, All-IsIn, ℕ, zero, suc, ◌+◌, ◌^◌, ◌<◌, ◌*◌, contains-lookup, ◌≡◌, refl, ap, sym, ◌∙◌, arith,
  true, some, List, [], ◌∷◌, All, Bytes, lookup, insert, lookup-insert, lookup-insert_self,
  bytes_eq, Dict, Bool-cases, inl, inr, ok, ok_injective, first_result, >>=-eq-ok,
}
use leafy.Bip44.Key.{Bip44Key, get_public_key, get_private_key}
use leafy.Bip44.Derive.{derive_next_sibling}
use leafy.Library.{Library}
use leafy.Address.{
  TweakedAddress, create_tweaked_address, create_tweaked_address_from_public_key, addresses_from,
}
use leafy.Address.Tweaks.{TweakCommutes, create_tweaked_address-public}
use leafy.SigningKeys.{Search, SigningKeys, add_signing_keys, all_mapped, search_from}
use leafy.SigningKeys.Windows.{iterate, search_from_complete}
use leafy.SigningKeys.Neutered.{
  derive_next_sibling-fields, sibling_index-below, IsKeychain, IsNeutered,
  derive_next_sibling-IsNeutered,
}

module _ (lib : Library) (timelock : ℕ) where
  open lib use {keys, tx}

  abbrev pub Mapped : Dict (SigningKeys lib timelock) → Bytes → Type 0
  Mapped mapping a = (v : SigningKeys lib timelock) × (lookup a mapping ≡ some v)

  insert-Mapped :
      (k a : Bytes) (v : SigningKeys lib timelock) (m : Dict (SigningKeys lib timelock))
      → Mapped m a
      → Mapped (insert k v m) a
  insert-Mapped k a v m (w, found) = elim (Bool-cases (bytes_eq k a)) [
    | inl same ↦ (v, rw (lookup-insert k a v m, same))
    | inr apart ↦ (w, rw (lookup-insert k a v m, apart) found)
  ]

  insert_self :
      (a : Bytes) (v : SigningKeys lib timelock) (m m' : Dict (SigningKeys lib timelock))
      → m' ≡ insert a v m
      → Mapped m' a
  insert_self a v m m' same = (v, rw same (lookup-insert_self a v m))

  module _ (params : tx.Params) (law : IsKeychain lib) (commutes : TweakCommutes lib) where
    -- A step, with the key pair it is about.
    step-fields :
        (s s' : Search keys.ExtendedKey (SigningKeys lib timelock))
        → add_signing_keys lib timelock params s ≡ ok s'
        → (k1 k2 : keys.PrivateKey) × (t : TweakedAddress lib timelock) × (v : SigningKeys lib
            timelock)
          × (get_private_key keys s.first_key ≡ ok k1)
          × (get_private_key keys s.second_key ≡ ok k2)
          × (create_tweaked_address_from_public_key lib timelock params (tx.pub_key k2) k1 ≡ ok t)
          × (derive_next_sibling keys s.first_key ≡ ok s'.first_key)
          × (derive_next_sibling keys s.second_key ≡ ok s'.second_key)
          × (s'.mapping ≡ insert (tx.encode_address t.address) v s.mapping)
    unfolding add_signing_keys
    step-fields s s' h =
        let (k1, e1, h1) = >>=-eq-ok (get_private_key keys s.first_key) _ h in
        let (k2, e2, h2) = >>=-eq-ok (get_private_key keys s.second_key) _ h1 in
        let (made, created, h3) =
          >>=-eq-ok (create_tweaked_address lib timelock params k2 k1) _ h2 in
        let (n2, e4, h4) = >>=-eq-ok (derive_next_sibling keys s.second_key) _ h3 in
        let (n1, e5, h5) = >>=-eq-ok (derive_next_sibling keys s.first_key) _ h4 in
        let same = ok_injective h5 in
        (
          k1,
          k2,
          made.0,
          record { tweaked_private_key = made.1; merkle_root = made.0.merkle_root },
          e1,
          e2,
          sym (create_tweaked_address-public lib timelock params commutes k2 k1)
              ∙ ap first_result created,
          e5 ∙ ap (λ r. ok r.first_key) same,
          e4 ∙ ap (λ r. ok r.second_key) same,
          sym (ap (λ r. r.mapping) same),
        )

    iterate-Mapped :
        (n : ℕ) (a : Bytes) (s s' : Search keys.ExtendedKey (SigningKeys lib timelock))
        → iterate (add_signing_keys lib timelock params) n s ≡ ok s'
        → Mapped s.mapping a
        → Mapped s'.mapping a
    unfolding iterate
    iterate-Mapped zero a s s' h found = rw (← ok_injective h) found
    iterate-Mapped (suc n) a s s' h found =
        let (t, stepped, more) = >>=-eq-ok (add_signing_keys lib timelock params s) _ h in
        let (_, _, _, v, _, _, _, _, _, mapping) = step-fields s t stepped in
        iterate-Mapped n a t s' more (rw mapping (insert-Mapped _ a v s.mapping found))

    addresses_from-Mapped :
        (n : ℕ) (s s' : Search keys.ExtendedKey (SigningKeys lib timelock))
        (p : Bip44Key keys.ExtendedKey) (found : List Bytes)
        → s.second_key.index.path + n < 2 ^ 31
        → IsNeutered lib s.second_key p
        → iterate (add_signing_keys lib timelock params) n s ≡ ok s'
        → addresses_from lib timelock params n s.first_key p ≡ ok found
        → All (Mapped s'.mapping) found
    unfolding iterate addresses_from get_private_key get_public_key
    addresses_from-Mapped zero s s' p found small neutered h listed = rw (← ok_injective listed) tt
    addresses_from-Mapped (suc n) s s' p found small neutered h listed =
        let (s1, stepped, more) = >>=-eq-ok (add_signing_keys lib timelock params s) _ h in
        let (k1, k2, t, v, e1, e2, made, next1, next2, mapping) = step-fields s s1 stepped in
        let (k, f1, l1) = >>=-eq-ok (get_private_key keys s.first_key) _ listed in
        let (p2, f2, l2) = >>=-eq-ok (get_public_key keys p) _ l1 in
        let (t', f3, l3) =
          >>=-eq-ok (create_tweaked_address_from_public_key lib timelock params p2 k) _ l2 in
        let (b1, f4, l4) = >>=-eq-ok (derive_next_sibling keys s.first_key) _ l3 in
        let (b2, f5, l5) = >>=-eq-ok (derive_next_sibling keys p) _ l4 in
        let (rest, f6, l6) = >>=-eq-ok (addresses_from lib timelock params n b1 b2) _ l5 in
        let half =
          law.public_half s.second_key.index_key p.index_key k2 p2 neutered.index_key e2 f2 in
        let same_k : k1 ≡ k = ok_injective (sym e1 ∙ f1) in
        let same_t : t ≡ t' = cc in
        let same_first : b1 ≡ s1.first_key = ok_injective (sym f4 ∙ next1) in
        let mapping' =
          mapping ∙ ap (λ z. insert (tx.encode_address z.address) v s.mapping) same_t in
        let here = insert_self (tx.encode_address t'.address) v s.mapping s1.mapping mapping' in
        let at_end = iterate-Mapped n (tx.encode_address t'.address) s1 s' more here in
        let (_, _, moved) = derive_next_sibling-fields keys s.second_key s1.second_key next2 in
        let next_neutered =
          derive_next_sibling-IsNeutered lib law s.second_key p s1.second_key b2 (omega arith)
            neutered next2 f5 in
        let step_up : s1.second_key.index.path ≡ s.second_key.index.path + 1 =
          ap (λ r. r.path) moved ∙ sibling_index-below s.second_key.index (omega arith) in
        let others =
          addresses_from-Mapped n s1 s' b2 rest (omega arith) next_neutered more
            (ap (λ b. addresses_from lib timelock params n b b2) (sym same_first) ∙ f6) in
        rw (← ok_injective l6) (at_end, others)

    -- Each of the values is one of the list.
    abbrev pub AllListed : Dict Bytes → List Bytes → Type 0
    AllListed [] found = Unit
    AllListed ((key, address) ∷ wanted) found = IsIn address found × AllListed wanted found

    Mapped-all_mapped :
        (wanted : Dict Bytes) (found : List Bytes) (m : Dict (SigningKeys lib timelock))
        → AllListed wanted found
        → All (Mapped m) found
        → all_mapped wanted m ≡ true
    unfolding all_mapped
    Mapped-all_mapped [] found m listed mapped = refl
    Mapped-all_mapped ((key, address) ∷ wanted) found m (here, rest) mapped =
        let (v, at_address) = All-IsIn (Mapped m) address found here mapped in
        rw (contains-lookup address m at_address, Mapped-all_mapped wanted found m rest mapped)

    -- Whatever `GetAddresses` lists from the keys that the search starts from, in hundreds up to
    -- seven, the search finds: it returns a mapping where all wanted addresses are so listed, the
    -- list's second key is the neutered one of the search, and no step of the search fails.
    pub search_from-finds_listed :
        (n : ℕ) (wanted : Dict Bytes) (s s' : Search keys.ExtendedKey (SigningKeys lib timelock))
        (p : Bip44Key keys.ExtendedKey) (found : List Bytes)
        → n < 7
        → s.second_key.index.path + (n + 1) * 100 < 2 ^ 31
        → IsNeutered lib s.second_key p
        → iterate (add_signing_keys lib timelock params) ((n + 1) * 100) s ≡ ok s'
        → addresses_from lib timelock params ((n + 1) * 100) s.first_key p ≡ ok found
        → AllListed wanted found
        → (mapping : Dict (SigningKeys lib timelock)) × (search_from
              (add_signing_keys lib timelock params)
              wanted
              10
              0
              s
            ≡ ok mapping)
    search_from-finds_listed n wanted s s' p found within small neutered h listed all_listed =
        search_from_complete (add_signing_keys lib timelock params) wanted n s s' within h (
          Mapped-all_mapped wanted found s'.mapping all_listed
            (addresses_from-Mapped ((n + 1) * 100) s s' p found small neutered h listed))
