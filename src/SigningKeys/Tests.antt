-- ===== src/SigningKeys/Tests.antt =====
-- The search for signing keys (leafy.go), for the sample wallet.
use leafy.Prelude.{List, zero, suc, inl, ℕ, ◌≡◌, refl, true, [], ◌∷◌, arith, Bytes, Dict, ok}
use leafy.SigningKeys.{
  Search, SigningKeys, SigningRecoveryKeys, find_signing_recovery_keys, find_signing_keys,
  search_from, add_signing_keys, all_mapped,
}
use leafy.SigningKeys.Found.{AllFound}
use leafy.SigningKeys.Keys.{
  Fitting, OwnsAddress, find_signing_keys-OwnsAddress, OpensAddress,
  find_signing_recovery_keys-OpensAddress,
}
use leafy.Signing.Sample.{lib, commutes, wallet, recovery_wallet, leaf_of, key_at}
use leafy.Signing.Sample.Opened.{opened, opened_recovery}
use leafy.Address.{addresses_from}
use leafy.SigningKeys.Neutered.{IsKeychain, IsNeutered}
use leafy.SigningKeys.Listed.{search_from-finds_listed}
use leafy.SigningKeys.Windows.{iterate, by_hundreds, search_from-by_hundreds, search_from_complete}

abbrev signing_key : ℕ → SigningKeys lib 52
signing_key k = record { tweaked_private_key = k; merkle_root = 1 ∷ [] }

abbrev wanted : Dict Bytes
wanted = (1 ∷ [], 3 ∷ []) ∷ []

abbrev both_keys : Dict (SigningKeys lib 52)
both_keys = (3 ∷ [], signing_key 2) ∷ (4 ∷ [], signing_key 3) ∷ []

searched : find_signing_keys lib 52 0 wallet wanted ≡ ok both_keys
unfolding opened
searched = refl

find_signing_keys-OwnsAddress_example :
    AllFound wanted both_keys × Fitting (OwnsAddress lib 52 0) both_keys
find_signing_keys-OwnsAddress_example =
    find_signing_keys-OwnsAddress lib 52 0 commutes wallet wanted both_keys searched

abbrev recovery_key : ℕ → ℕ → SigningRecoveryKeys lib 52
recovery_key first internal = record {
  private_key = first;
  tapscript_data = leaf_of first internal;
}

abbrev both_recovery_keys : Dict (SigningRecoveryKeys lib 52)
both_recovery_keys = (3 ∷ [], recovery_key 2 2) ∷ (4 ∷ [], recovery_key 3 3) ∷ []

searched_recovery :
    find_signing_recovery_keys lib 52 0 recovery_wallet wanted ≡ ok both_recovery_keys
unfolding opened_recovery
searched_recovery = refl

find_signing_recovery_keys-OpensAddress_example :
    AllFound wanted both_recovery_keys × Fitting (OpensAddress lib 52 0) both_recovery_keys
find_signing_recovery_keys-OpensAddress_example =
    find_signing_recovery_keys-OpensAddress lib 52 0 recovery_wallet wanted both_recovery_keys
      searched_recovery

abbrev search_at : ℕ → Dict (SigningKeys lib 52) → Search ℕ (SigningKeys lib 52)
search_at index mapping = record {
  first_key = key_at 2 2 index;
  second_key = key_at 1 1 index;
  mapping = mapping;
}

search_from-by_hundreds_example :
    search_from (add_signing_keys lib 52 0) wanted 10 0 (search_at 0 [])
    ≡ by_hundreds (add_signing_keys lib 52 0) wanted 7 (search_at 0 [])
search_from-by_hundreds_example =
    search_from-by_hundreds (add_signing_keys lib 52 0) wanted (search_at 0 [])

a_hundred : iterate (add_signing_keys lib 52 0) 100 (search_at 0 []) ≡ ok (search_at 100 both_keys)
unfolding opened iterate
a_hundred = refl

mapped : all_mapped wanted both_keys ≡ true
unfolding opened
mapped = refl

search_from_complete_example :
    (mapping : Dict (SigningKeys lib 52)) × (search_from
        (add_signing_keys lib 52 0)
        wanted
        10
        0
        (search_at 0 [])
      ≡ ok mapping)
search_from_complete_example =
    search_from_complete (add_signing_keys lib 52 0) wanted 0 (search_at 0 [])
      (search_at 100 both_keys) (omega arith) a_hundred mapped

lib-IsKeychain : IsKeychain lib
lib-IsKeychain = record {
  neutered_child = λ k e c d i small neutered child child_of_neutered. cc;
  public_half = λ k e private_key public_key neutered private public. cc;
}

pair-IsNeutered : IsNeutered lib (key_at 1 1 0) (key_at 1 1 0)
pair-IsNeutered = record { index = refl; change_key = refl; index_key = refl }

abbrev alternating : ℕ → List Bytes
alternating zero = []
alternating (suc n) = (3 ∷ []) ∷ (4 ∷ []) ∷ alternating n

a_hundred_listed : addresses_from lib 52 0 100 (key_at 2 2 0) (key_at 1 1 0) ≡ ok (alternating 50)
unfolding opened_recovery
a_hundred_listed = refl

search_from-finds_listed_example :
    (mapping : Dict (SigningKeys lib 52)) × (search_from
        (add_signing_keys lib 52 0)
        wanted
        10
        0
        (search_at 0 [])
      ≡ ok mapping)
search_from-finds_listed_example =
    search_from-finds_listed lib 52 0 lib-IsKeychain commutes 0 wanted (search_at 0 [])
      (search_at 100 both_keys) (key_at 1 1 0) (alternating 50) (omega arith) (omega arith)
      pair-IsNeutered a_hundred a_hundred_listed (inl refl, tt)
