-- ===== src/Social/Tests.antt =====
-- A social exchange with two keys (leafy.go); the toy cipher turns one byte round.
use leafy.Prelude.{
  ◌-◌, ◌≡◌, refl, Bool, true, false, [], ◌∷◌, codes, arith, Bytes, All, ltb, if◌then◌else◌, Result,
  ok, ok_injective, err, Error,
}
use leafy.Hex.{hex_encode, hex_decode, hex_digit, from_hex_digit}
use leafy.Hex.RoundTrip.{IsByte}
use leafy.Social.{
  PkixKey, Rsa, SocialKeyPair, rsa, rsa_only, create_ephemeral_social_key_pair,
  parse_ephemeral_social_public_key, validate_ephemeral_social_public_key,
  encrypt_with_ephemeral_social_public_key, decrypt_with_ephemeral_social_private_key,
}
use leafy.Social.Exchange.{IsRsa, decrypt-encrypt}

abbrev write_key : Bool → Bytes
write_key true = 1 ∷ []
write_key false = 2 ∷ []

abbrev read_key : Bytes → Result Bool
read_key (c ∷ []) = ok (ltb c 2)
read_key _ = err Error.invalid_public_key

abbrev read_public : Bytes → Result (PkixKey Bool)
read_public (c ∷ []) = ok (rsa (ltb c 2))
read_public _ = err Error.invalid_public_key

abbrev turn : Bytes → Result Bytes
turn (c ∷ []) = if ltb c 256 then ok ((255 - c) ∷ []) else err Error.invalid_public_key
turn _ = err Error.invalid_public_key

abbrev toy : Rsa
toy = record {
  PublicKey = Bool;
  PrivateKey = Bool;
  public_key = λ k. k;
  marshal_private = write_key;
  marshal_public = λ k. ok (write_key k);
  parse_private = read_key;
  parse_public = read_public;
  encrypt = λ random k text. turn text;
  decrypt = λ k s. turn s;
}

reads_private : (k : Bool) → read_key (write_key k) ≡ ok k
reads_private true = refl
reads_private false = refl

private_bytes : (k : Bool) → All IsByte (write_key k)
private_bytes true = omega arith
private_bytes false = omega arith

reads_public : (k : Bool) (s : Bytes) → ok (write_key k) ≡ ok s → read_public s ≡ ok (rsa k)
reads_public true s h = rw (← ok_injective h)
reads_public false s h = rw (← ok_injective h)

turn-turn : (text s : Bytes) → turn text ≡ ok s → turn s ≡ ok text
turn-turn [] s h = cc
turn-turn (c ∷ []) s h = ground arith
turn-turn (c ∷ d ∷ text) s h = cc

turn-bytes : (text s : Bytes) → turn text ≡ ok s → All IsByte s
turn-bytes [] s h = cc
turn-bytes (c ∷ []) s h = ground arith
turn-bytes (c ∷ d ∷ text) s h = cc

toy-IsRsa : IsRsa toy
toy-IsRsa = record {
  reads_private = reads_private;
  private_bytes = private_bytes;
  reads_public = reads_public;
  public_bytes = λ k s h. rw (← ok_injective h) (private_bytes k);
  decrypts = λ random k text s h. turn-turn text s h;
  encrypted_bytes = λ random k text s h. turn-bytes text s h;
}

abbrev pair : SocialKeyPair
pair = record { public_key = codes "01"; private_key = codes "01" }

created : create_ephemeral_social_key_pair toy (ok true) ≡ ok pair
unfolding create_ephemeral_social_key_pair hex_encode hex_digit
created = refl

encrypted :
    encrypt_with_ephemeral_social_public_key toy [] pair.public_key (codes "a") ≡ ok (codes "9e")
unfolding encrypt_with_ephemeral_social_public_key parse_ephemeral_social_public_key rsa_only
    hex_decode from_hex_digit hex_encode hex_digit
encrypted = refl

decrypt-encrypt_example :
    (validate_ephemeral_social_public_key toy pair.public_key ≡ ok tt)
    × (decrypt_with_ephemeral_social_private_key toy pair.private_key (codes "9e") ≡ ok (codes "a"))
decrypt-encrypt_example =
    decrypt-encrypt toy toy-IsRsa true pair [] (codes "a") (codes "9e") created encrypted
