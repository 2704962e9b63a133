-- ===== src/SigningKeys.antt =====
-- `findSigningKeys` and `findSigningRecoveryKeys` (leafy.go): the search for the keys of the
-- addresses that a transaction spends. Both run the same two loops over another step.
pub mod Windows
pub mod Found
pub mod Keys
pub mod Neutered
pub mod Listed
mod Tests
use leafy.Prelude.{
  ℕ, zero, suc, ◌+◌, ◌-◌, ◌*◌, ◌%◌, Bool, true, false, ◌&&◌, List, [], ◌∷◌, ltb, if◌then◌else◌,
  Bytes, Dict, insert, contains, Result, ok, err, ◌>>=◌, Error,
}
use leafy.Bip44.Path.{path_item}
use leafy.Bip44.Key.{Bip44Key, get_public_key, get_private_key}
use leafy.Bip44.Derive.{derive_next_sibling}
use leafy.Bip44.Descriptor.{import_from_taproot_descriptor}
use leafy.Script.{TapscriptSigningData}
use leafy.Wallet.{
  NormalWallet, RecoveryWallet, get_first_mnemonic, get_second_descriptor, get_bip44_key,
}
use leafy.Library.{Library}
use leafy.Address.{TweakedAddress, create_tweaked_address, create_tweaked_address_from_public_key}

-- The variables of the search.
pub record Search (K V : Type 0) : Type 0 where
  pub first_key : Bip44Key K
  pub second_key : Bip44Key K
  pub mapping : Dict V

-- `for _, value := range transactionInfo.outpointToAddr`: each address is in the mapping.
unfoldable pub all_mapped : {V : Type 0} → Dict Bytes → Dict V → Bool
all_mapped [] mapping = true
all_mapped ((key, address) ∷ wanted) mapping = contains address mapping && all_mapped wanted mapping

module _ {S : Type 0} (step : S → Result S) where
  -- `for j := …; j < limit; j++`, where `j` is a uint8; `fuel` bounds the rounds.
  unfoldable pub run_window : ℕ → ℕ → ℕ → S → Result S
  run_window zero j limit s = ok s
  run_window (suc fuel) j limit s =
      if ltb j limit then (do s' ← step s; run_window fuel ((j + 1) % 256) limit s') else ok s

  -- The window of round `i`: from `uint8(i * 100)` to `uint8(i*100) + 100`, in uint8. A uint8 passes
  -- a limit within 256 rounds.
  unfoldable pub window : ℕ → S → Result S
  window i s = let first = (i * 100) % 256 in run_window 256 first ((first + 100) % 256) s

module _ {K V : Type 0} (step : Search K V → Result (Search K V)) (wanted : Dict Bytes) where
  -- The outer loop from round `i` on, with `left` rounds to go.
  unfoldable pub search_from : ℕ → ℕ → Search K V → Result (Dict V)
  search_from zero i s = err Error.unmapped_addresses
  search_from (suc left) i s = do
    s' ← window step i s
    if all_mapped wanted s'.mapping then ok s'.mapping else search_from left (i + 1) s'

module _ (lib : Library) (timelock : ℕ) where
  open lib use {keys, tx}

  pub record SigningKeys : Type 0 where
    pub tweaked_private_key : keys.PrivateKey
    pub merkle_root : Bytes

  pub record SigningRecoveryKeys : Type 0 where
    pub private_key : keys.PrivateKey
    pub tapscript_data : TapscriptSigningData tx

  -- One round of the inner loop: the pair at the current index, and the next siblings.
  unfoldable pub add_signing_keys :
      tx.Params → Search keys.ExtendedKey SigningKeys → Result (Search keys.ExtendedKey SigningKeys)
  add_signing_keys params s = do
    first_private_key ← get_private_key keys s.first_key
    second_private_key ← get_private_key keys s.second_key
    (t, tweaked_private_key) ←
        create_tweaked_address lib timelock params second_private_key first_private_key
    second_key ← derive_next_sibling keys s.second_key
    first_key ← derive_next_sibling keys s.first_key
    ok (record {
      first_key = first_key;
      second_key = second_key;
      mapping =
          insert (tx.encode_address t.address)
            (record { tweaked_private_key = tweaked_private_key; merkle_root = t.merkle_root })
            s.mapping;
    })

  unfoldable pub find_signing_keys :
      tx.Params → NormalWallet → Dict Bytes → Result (Dict SigningKeys)
  find_signing_keys params wallet outpoint_to_addr = do
    first_key ← get_bip44_key lib wallet.first_mnemonic params 0
    second_key ← get_bip44_key lib wallet.second_mnemonic params 0
    search_from (add_signing_keys params) outpoint_to_addr 10 0
        (record { first_key = first_key; second_key = second_key; mapping = [] })

  unfoldable pub add_signing_recovery_keys :
      tx.Params
      → Search keys.ExtendedKey SigningRecoveryKeys
      → Result (Search keys.ExtendedKey SigningRecoveryKeys)
  add_signing_recovery_keys params s = do
    first_private_key ← get_private_key keys s.first_key
    second_public_key ← get_public_key keys s.second_key
    t ←
        create_tweaked_address_from_public_key lib timelock params second_public_key
          first_private_key
    second_key ← derive_next_sibling keys s.second_key
    first_key ← derive_next_sibling keys s.first_key
    ok (record {
      first_key = first_key;
      second_key = second_key;
      mapping =
          insert (tx.encode_address t.address)
            (record { private_key = first_private_key; tapscript_data = t.tapscript_data })
            s.mapping;
    })

  unfoldable pub find_signing_recovery_keys :
      tx.Params → RecoveryWallet → Dict Bytes → Result (Dict SigningRecoveryKeys)
  find_signing_recovery_keys params wallet outpoint_to_addr = do
    first_key ← get_bip44_key lib (get_first_mnemonic wallet) params 0
    descriptor ← get_second_descriptor lib wallet params
    second_key ← import_from_taproot_descriptor keys descriptor (path_item 0)
    search_from (add_signing_recovery_keys params) outpoint_to_addr 10 0
        (record { first_key = first_key; second_key = second_key; mapping = [] })
