-- ===== src/Social/Exchange.antt =====
-- What is encrypted with one half of a social key pair is decrypted with the other (leafy.go).
use leafy.Prelude.{
  ◌≡◌, ap, sym, ◌∙◌, Bytes, All, ok, ok_injective, map_err, map_err-eq-ok, >>=-eq-ok,
}
use leafy.Hex.{hex_encode}
use leafy.Hex.RoundTrip.{IsByte, hex_decode-hex_encode}
use leafy.Social.{
  PkixKey, Rsa, SocialKeyPair, rsa_only, create_ephemeral_social_key_pair,
  parse_ephemeral_social_public_key, parse_ephemeral_social_private_key,
  validate_ephemeral_social_public_key, encrypt_with_ephemeral_social_public_key,
  decrypt_with_ephemeral_social_private_key,
}

module _ (crypto : Rsa) where
  open crypto use {
    PublicKey, PrivateKey, marshal_private, marshal_public, parse_private, parse_public, encrypt,
    decrypt,
  }

  -- What crypto/rsa and crypto/x509 promise: keys are read back from their encodings, which are
  -- bytes, and decryption undoes encryption.
  pub record IsRsa : Type 0 where
    pub reads_private : (k : PrivateKey) → parse_private (marshal_private k) ≡ ok k
    pub private_bytes : (k : PrivateKey) → All IsByte (marshal_private k)
    pub reads_public :
        (k : PublicKey) (s : Bytes) → marshal_public k ≡ ok s → parse_public s ≡ ok (PkixKey.rsa k)
    pub public_bytes : (k : PublicKey) (s : Bytes) → marshal_public k ≡ ok s → All IsByte s
    pub decrypts :
        (random : Bytes) (k : PrivateKey) (text s : Bytes)
        → encrypt random (crypto.public_key k) text ≡ ok s
        → decrypt k s ≡ ok text
    pub encrypted_bytes :
        (random : Bytes) (k : PublicKey) (text s : Bytes)
        → encrypt random k text ≡ ok s
        → All IsByte s

  module _ (law : IsRsa) where
    parse-public :
        (k : PublicKey) (s : Bytes)
        → marshal_public k ≡ ok s
        → parse_ephemeral_social_public_key crypto (hex_encode s) ≡ ok k
    unfolding parse_ephemeral_social_public_key rsa_only
    parse-public k s h =
        rw (hex_decode-hex_encode s (law.public_bytes k s h), law.reads_public k s h)

    parse-private :
        (k : PrivateKey)
        → parse_ephemeral_social_private_key crypto (hex_encode (marshal_private k)) ≡ ok k
    unfolding parse_ephemeral_social_private_key
    parse-private k =
        rw (hex_decode-hex_encode (marshal_private k) (law.private_bytes k), law.reads_private k)

    -- The two halves of a key pair read back.
    pair-halves :
        (k : PrivateKey) (pair : SocialKeyPair)
        → create_ephemeral_social_key_pair crypto (ok k) ≡ ok pair
        → (parse_ephemeral_social_public_key crypto pair.public_key ≡ ok (crypto.public_key k))
          × (parse_ephemeral_social_private_key crypto pair.private_key ≡ ok k)
    unfolding create_ephemeral_social_key_pair
    pair-halves k pair h =
        let (s, marshalled, done) = >>=-eq-ok (marshal_public (crypto.public_key k)) _ h in
        let same = ok_injective done in
        let public_half : hex_encode s ≡ pair.public_key = ap (λ r. r.public_key) same in
        let private_half : hex_encode (marshal_private k) ≡ pair.private_key =
          ap (λ r. r.private_key) same in
        (
          ap (parse_ephemeral_social_public_key crypto) (sym public_half)
              ∙ parse-public (crypto.public_key k) s marshalled,
          ap (parse_ephemeral_social_private_key crypto) (sym private_half) ∙ parse-private k,
        )

    opens :
        (k : PrivateKey) (private_key_hex s text : Bytes)
        → parse_ephemeral_social_private_key crypto private_key_hex ≡ ok k
        → All IsByte s
        → decrypt k s ≡ ok text
        → decrypt_with_ephemeral_social_private_key crypto private_key_hex (hex_encode s) ≡ ok text
    unfolding decrypt_with_ephemeral_social_private_key
    opens k private_key_hex s text read bytes plain =
        rw (read, hex_decode-hex_encode s bytes, plain)

    -- A new key pair's public half is valid, and whatever text is encrypted with it, under any
    -- randomness, is what the private half decrypts.
    pub decrypt-encrypt :
        (k : PrivateKey) (pair : SocialKeyPair) (random text sent : Bytes)
        → create_ephemeral_social_key_pair crypto (ok k) ≡ ok pair
        → encrypt_with_ephemeral_social_public_key crypto random pair.public_key text ≡ ok sent
        → (validate_ephemeral_social_public_key crypto pair.public_key ≡ ok tt)
          × (decrypt_with_ephemeral_social_private_key crypto pair.private_key sent ≡ ok text)
    unfolding encrypt_with_ephemeral_social_public_key decrypt_with_ephemeral_social_private_key
        validate_ephemeral_social_public_key
    decrypt-encrypt k pair random text sent created h =
        let (public_half, private_half) = pair-halves k pair created in
        let (s, encrypted, done) =
          >>=-eq-ok (map_err _ (encrypt random (crypto.public_key k) text)) _
            (rw public_half at h) in
        let same : hex_encode s ≡ sent = ok_injective done in
        let plain = map_err-eq-ok _ (encrypt random (crypto.public_key k) text) encrypted in
        (
          rw public_half,
          ap (decrypt_with_ephemeral_social_private_key crypto pair.private_key) (sym same)
              ∙ opens k pair.private_key s text private_half
                  (law.encrypted_bytes random (crypto.public_key k) text s plain)
                  (law.decrypts random k text s plain),
        )
