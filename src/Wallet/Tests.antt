-- ===== src/Wallet/Tests.antt =====
-- Keys of the sample wallet at two indices (leafy.go).
use leafy.Prelude.{◌+◌, ◌≡◌, refl, [], ◌∷◌, arith, ok}
use leafy.Bip44.Derive.{derive_next_sibling}
use leafy.Wallet.{get_bip44_key}
use leafy.Signing.Sample.{keys, lib, key_at}
use leafy.Signing.Sample.Opened.{opened}
use leafy.Wallet.Siblings.{get_bip44_key-next}

made_at_six : get_bip44_key lib (0 ∷ []) 0 6 ≡ ok (key_at 1 1 6)
unfolding opened
made_at_six = refl

get_bip44_key-next_example :
    derive_next_sibling keys (key_at 1 1 6) ≡ get_bip44_key lib (0 ∷ []) 0 (6 + 1)
get_bip44_key-next_example =
    get_bip44_key-next lib 0 (0 ∷ []) 6 (key_at 1 1 6) (omega arith) made_at_six
