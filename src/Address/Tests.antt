-- ===== src/Address/Tests.antt =====
-- Addresses of the sample wallet (leafy.go).
use leafy.Prelude.{first_result, ◌≤◌, ◌≡◌, refl, List, [], ◌∷◌, length, some, Bytes, ok}
use leafy.Address.{
  TweakedAddress, create_tweaked_address, get_addresses, create_tweaked_address_from_public_key,
}
use leafy.Address.Tweaks.{
  create_tweaked_address-public, create_tweaked_address-key, get_addresses-length,
}
use leafy.Signer.{tweaked_by, with_script}
use leafy.Signing.Sample.{tx, lib, commutes, recovery_wallet, leaf_of}
use leafy.Signing.Sample.Opened.{opened, opened_recovery}

create_tweaked_address-public_example :
    first_result (create_tweaked_address lib 52 0 1 2)
    ≡ create_tweaked_address_from_public_key lib 52 0 1 2
create_tweaked_address-public_example = create_tweaked_address-public lib 52 0 commutes 1 2

abbrev first_address : TweakedAddress lib 52
first_address = record {
  address = 3 ∷ [];
  internal_key = 2;
  merkle_root = 1 ∷ [];
  tapscript_data = leaf_of 2 2;
}

tweaked : create_tweaked_address lib 52 0 1 2 ≡ ok (first_address, 2)
unfolding opened
tweaked = refl

create_tweaked_address-key_example :
    tx.new_address_taproot
      (tx.serialize_pub_key (tx.pub_key (tweaked_by tx with_script (some (1 ∷ [])) 2)))
      0
    ≡ ok (3 ∷ [])
create_tweaked_address-key_example =
    create_tweaked_address-key lib 52 0 commutes 1 2 2 first_address tweaked

abbrev three : List Bytes
three = (3 ∷ []) ∷ (4 ∷ []) ∷ (3 ∷ []) ∷ []

three_addresses : get_addresses lib 52 0 recovery_wallet 0 3 ≡ ok three
unfolding opened_recovery
three_addresses = refl

get_addresses-length_example : (length three ≡ 3) × (1 ≤ 3)
get_addresses-length_example =
    get_addresses-length lib 52 0 recovery_wallet 0 3 three three_addresses
