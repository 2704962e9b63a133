-- ===== src/Wallet.antt =====
-- wallet.go, and the functions of leafy.go that make a wallet's keys from its mnemonics.
pub mod Siblings
mod Tests
use leafy.Prelude.{ℕ, List, [], codes, Bytes, Result, ok, ◌>>=◌}
use leafy.Bip44.Path.{path_item, path_hardened}
use leafy.Bip44.Key.{Bip44Key}
use leafy.Bip44.Derive.{create_bip44_key}
use leafy.Bip44.Descriptor.{get_taproot_parent_descriptor}
use leafy.Library.{Library}

-- `normalWallet`, which is every `Wallet`.
pub record NormalWallet : Type 0 where
  pub first_mnemonic : Bytes
  pub second_mnemonic : Bytes

-- The two types that implement `RecoveryWallet`.
pub data RecoveryWallet : Type 0 where
  normal : NormalWallet → RecoveryWallet
  recovery : (first_mnemonic second_descriptor : Bytes) → RecoveryWallet

unfoldable pub get_first_mnemonic : RecoveryWallet → Bytes
get_first_mnemonic (normal w) = w.first_mnemonic
get_first_mnemonic (recovery first descriptor) = first

module _ (lib : Library) where
  open lib use {keys, tx, entropy_from_mnemonic, new_mnemonic, new_master}

  -- Leafy's keys are 44'/0'/0'/0/x.
  unfoldable pub get_bip44_key : Bytes → tx.Params → ℕ → Result (Bip44Key keys.ExtendedKey)
  get_bip44_key mnemonic params start_index = do
    seed ← entropy_from_mnemonic mnemonic
    master ← new_master seed params
    create_bip44_key keys master (path_hardened 44) (path_hardened 0) (path_hardened 0)
        (path_item 0) (path_item start_index)

  unfoldable pub get_descriptor : tx.Params → Bytes → Result Bytes
  get_descriptor params mnemonic = do
    bip44_key ← get_bip44_key mnemonic params 0
    get_taproot_parent_descriptor keys bip44_key []

  unfoldable pub get_second_descriptor : RecoveryWallet → tx.Params → Result Bytes
  get_second_descriptor (normal w) params = get_descriptor params w.second_mnemonic
  get_second_descriptor (recovery first descriptor) params = ok descriptor

  -- The seed is what `hdkeychain.GenerateSeed` returned.
  unfoldable pub generate_mnemonic : Result Bytes → Result Bytes
  generate_mnemonic generated = do seed ← generated; new_mnemonic seed

  unfoldable pub create_new_wallet : Result Bytes → Result Bytes → Result NormalWallet
  create_new_wallet first_seed second_seed = do
    first ← generate_mnemonic first_seed
    second ← generate_mnemonic second_seed
    ok (record { first_mnemonic = first; second_mnemonic = second })
