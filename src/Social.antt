-- ===== src/Social.antt =====
-- The ephemeral social keys of leafy.go: an RSA key pair as hexadecimal text, and what is encrypted
-- with one half and decrypted with the other.
pub mod Exchange
mod Tests
use leafy.Prelude.{ℕ, Bytes, length, Result, ok, err, map_err, ◌>>=◌, Error}
use leafy.Hex.{hex_encode, hex_decode}

-- What x509 finds behind a public key's text: an RSA key, or one of another kind.
pub data PkixKey (K : Type 0) : Type 0 where
  rsa : K → PkixKey K
  other : PkixKey K

-- Packages crypto/rsa and crypto/x509. An encryption takes what it reads of `rand.Reader` as an
-- argument.
pub record Rsa : Type 1 where
  pub PublicKey : Type 0
  pub PrivateKey : Type 0
  pub public_key : PrivateKey → PublicKey
  -- `x509.MarshalPKCS1PrivateKey`, `MarshalPKIXPublicKey`, and their inverses
  pub marshal_private : PrivateKey → Bytes
  pub marshal_public : PublicKey → Result Bytes
  pub parse_private : Bytes → Result PrivateKey
  pub parse_public : Bytes → Result (PkixKey PublicKey)
  -- `rsa.EncryptPKCS1v15`, `DecryptPKCS1v15`
  pub encrypt : Bytes → PublicKey → Bytes → Result Bytes
  pub decrypt : PrivateKey → Bytes → Result Bytes

pub record SocialKeyPair : Type 0 where
  pub public_key : Bytes
  pub private_key : Bytes

module _ (crypto : Rsa) where
  open crypto use {
    PublicKey, PrivateKey, marshal_private, marshal_public, parse_private, parse_public, encrypt,
    decrypt,
  }

  -- `generated` is what `rsa.GenerateKey(rand.Reader, 4096)` returned.
  unfoldable pub create_ephemeral_social_key_pair : Result PrivateKey → Result SocialKeyPair
  create_ephemeral_social_key_pair generated = do
    private_key ← generated
    let private_key_bytes = marshal_private private_key
    public_key_bytes ← marshal_public (crypto.public_key private_key)
    ok (record {
      public_key = hex_encode public_key_bytes;
      private_key = hex_encode private_key_bytes;
    })

  -- The `switch` on the type of the key.
  unfoldable pub rsa_only : PkixKey PublicKey → Result PublicKey
  rsa_only (rsa key) = ok key
  rsa_only other = err Error.invalid_public_key

  unfoldable pub parse_ephemeral_social_public_key : Bytes → Result PublicKey
  parse_ephemeral_social_public_key public_key_hex = do
    data_bytes ← hex_decode public_key_hex
    key ← parse_public data_bytes
    rsa_only key

  unfoldable pub parse_ephemeral_social_private_key : Bytes → Result PrivateKey
  parse_ephemeral_social_private_key private_key_hex = do
    data_bytes ← hex_decode private_key_hex
    parse_private data_bytes

  unfoldable pub validate_ephemeral_social_public_key : Bytes → Result (Unit {0})
  validate_ephemeral_social_public_key public_key_hex = do
    key ← parse_ephemeral_social_public_key public_key_hex
    ok tt

  unfoldable pub encrypt_with_ephemeral_social_public_key : Bytes → Bytes → Bytes → Result Bytes
  encrypt_with_ephemeral_social_public_key random public_key_hex text = do
    public_key ← parse_ephemeral_social_public_key public_key_hex
    encrypted ← map_err (Error.invalid_data_length (length text)) (encrypt random public_key text)
    ok (hex_encode encrypted)

  unfoldable pub decrypt_with_ephemeral_social_private_key : Bytes → Bytes → Result Bytes
  decrypt_with_ephemeral_social_private_key private_key_hex encrypted = do
    private_key ← parse_ephemeral_social_private_key private_key_hex
    decoded ← hex_decode encrypted
    decrypt private_key decoded
