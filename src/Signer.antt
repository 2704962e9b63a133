-- ===== src/Signer.antt =====
-- signer.go: `InMemorySigner` signs a taproot input by the key path or by a leaf script.
pub mod Keys
use leafy.Prelude.{
  ℕ, ◌%◌, ◌==◌, List, [], ◌∷◌, ◌++◌, Option, none, some, if◌then◌else◌, Bytes, Result, ok, ◌>>=◌,
}
use leafy.Wire.{MsgTx}
use leafy.Txscript.{Txscript}
use leafy.Script.{TapscriptSigningData}

-- `Bare`, `NoScript`, `Script`
pub data SignatureType : Type 0 where
  bare no_script with_script : SignatureType

-- A nil root is `none`, an empty one `some []`.
pub record SignType : Type 0 where
  pub signature_type : SignatureType
  pub merkle_root : Option Bytes

unfoldable pub bare_sign_type : SignType
bare_sign_type = record { signature_type = bare; merkle_root = none }

unfoldable pub no_script_sign_type : SignType
no_script_sign_type = record { signature_type = no_script; merkle_root = some [] }

-- The root is passed on as the caller has it, nil too.
unfoldable pub script_sign_type : Option Bytes → SignType
script_sign_type merkle_root = record { signature_type = with_script; merkle_root = merkle_root }

-- The bytes of a slice, of which nil has none.
abbrev pub bytes_of : Option Bytes → Bytes
bytes_of none = []
bytes_of (some s) = s

module _ {O PublicKey PrivateKey : Type 0} (tx : Txscript O PublicKey PrivateKey) where
  open tx use {
    Fetcher, Signature, TapLeaf, tweak_taproot_priv_key, schnorr_sign, serialize_signature,
    new_tx_sig_hashes, calc_taproot_signature_hash, calc_tapscript_signature_hash, sig_hash_default,
  }

  -- The `switch` on the signature type.
  unfoldable pub tweaked_by : SignatureType → Option Bytes → PrivateKey → PrivateKey
  tweaked_by bare merkle_root key = key
  tweaked_by no_script merkle_root key = tweak_taproot_priv_key key []
  tweaked_by with_script merkle_root key = tweak_taproot_priv_key key (bytes_of merkle_root)

  unfoldable pub get_tweaked_private_key : PrivateKey → SignType → PrivateKey
  unfolding tweaked_by
  get_tweaked_private_key private_key t = tweaked_by t.signature_type t.merkle_root private_key

  unfoldable pub sign : PrivateKey → Bytes → SignType → Result Signature
  sign private_key message t = schnorr_sign (get_tweaked_private_key private_key t) message

  unfoldable pub compute_taproot_sig_hash : Fetcher → MsgTx O → ℕ → ℕ → Result Bytes
  compute_taproot_sig_hash fetcher msg sig_hash_type input_index =
      let sig_hashes = new_tx_sig_hashes msg fetcher in
      calc_taproot_signature_hash sig_hashes sig_hash_type msg input_index fetcher

  unfoldable pub compute_tapscript_sig_hash : Fetcher → MsgTx O → ℕ → ℕ → TapLeaf → Result Bytes
  compute_tapscript_sig_hash fetcher msg sig_hash_type input_index leaf =
      let sig_hashes = new_tx_sig_hashes msg fetcher in
      calc_tapscript_signature_hash sig_hashes sig_hash_type msg input_index fetcher leaf

  -- `signType := NoScriptSignType()`, replaced where there is a root.
  unfoldable pub sign_type_of : Option Bytes → SignType
  unfolding no_script_sign_type script_sign_type
  sign_type_of none = no_script_sign_type
  sign_type_of (some root) = script_sign_type (some root)

  -- The hash type follows the signature unless it is the default one.
  unfoldable pub with_hash_type : ℕ → Bytes → Bytes
  with_hash_type sig_hash_type sig =
      if sig_hash_type == sig_hash_default then sig else sig ++ (sig_hash_type % 256) ∷ []

  -- The witness, and the hash that was signed.
  unfoldable pub taproot_sign :
      PrivateKey → Fetcher → MsgTx O → ℕ → ℕ → Option Bytes → Result (List Bytes × Bytes)
  taproot_sign private_key fetcher msg sig_hash_type input_index merkle_root = do
    sig_hash ← compute_taproot_sig_hash fetcher msg sig_hash_type input_index
    signature ← sign private_key sig_hash (sign_type_of merkle_root)
    ok (with_hash_type sig_hash_type (serialize_signature signature) ∷ [], sig_hash)

  unfoldable pub tapscript_sign :
      PrivateKey → Fetcher → MsgTx O → ℕ → ℕ → TapscriptSigningData tx → Result (List Bytes × Bytes)
  tapscript_sign private_key fetcher msg sig_hash_type input_index leaf_data = do
    sig_hash ← compute_tapscript_sig_hash fetcher msg sig_hash_type input_index leaf_data.leaf
    signature ← sign private_key sig_hash no_script_sign_type
    ok (
      serialize_signature signature ∷ leaf_data.leaf_script ∷ leaf_data.control_block ∷ [],
      sig_hash,
    )
