-- ===== src/Bip44/DeriveLaws.antt =====
-- How keys are made from keys (bip_44.go): fingerprints, siblings, and a new master.
use leafy.Prelude.{
  ◌^◌, ◌+◌, ◌-◌, ap, ◌∙◌, ◌⊎◌, Option, none, sym, deref, >>=-eq-ok, ok_injective, zero, suc, ℕ, ◌/◌,
  ◌%◌, ◌<◌, ◌≤◌, ◌≡◌, refl, [], ◌∷◌, arith, some, le→leb, length, take, Bytes, All, ok,
}
use leafy.Hex.{hex_digit, hex_encode, hex_decode}
use leafy.Hex.RoundTrip.{IsByte, length-hex_encode, hex_decode-hex_encode}
use leafy.Text.{slice}
use leafy.Bip44.Path.{PathItem, copy, sibling_index, path_item, path_hardened, is_hardened}
use leafy.Bip44.Key.{Keychain, Bip44Key}
use leafy.Bip44.Derive.{
  get_fingerprint, create_bip44_key, copy_with_new_master, derive_next_sibling,
}

length-take_four : (s : Bytes) → 4 ≤ length s → length (take 4 s) ≡ 4
length-take_four (a ∷ b ∷ c ∷ d ∷ s) h = refl
length-take_four [] h = absurd (omega arith)
length-take_four (a ∷ []) h = absurd (omega arith)
length-take_four (a ∷ b ∷ []) h = absurd (omega arith)
length-take_four (a ∷ b ∷ c ∷ []) h = absurd (omega arith)

All-take : (n : ℕ) (s : Bytes) → All IsByte s → All IsByte (take n s)
All-take zero s h = tt
All-take (suc n) [] h = tt
All-take (suc n) (b ∷ s) (hb, hs) = (hb, All-take n s hs)

-- A digit as `hex.EncodeToString` writes it.
abbrev pub IsHexDigit : ℕ → Type 0
IsHexDigit c = ((b'0' ≤ c) × (c ≤ b'9')) ⊎ ((b'a' ≤ c) × (c ≤ b'f'))

hex_digit-IsHexDigit : (n : ℕ) → n < 16 → IsHexDigit (hex_digit n)
unfolding hex_digit
hex_digit-IsHexDigit n h = ground arith

hex_encode-IsHexDigit : (s : Bytes) → All IsByte s → All IsHexDigit (hex_encode s)
unfolding hex_encode
hex_encode-IsHexDigit [] h = tt
hex_encode-IsHexDigit (b ∷ s) (hb, hs) = (
  hex_digit-IsHexDigit (b / 16) (omega arith),
  (hex_digit-IsHexDigit (b % 16) (omega arith), hex_encode-IsHexDigit s hs),
)

-- `path + 1` within its half of the uint32s, round from the end of the half to its start.
sibling_index-halves :
    (p : PathItem)
    → p.path < 2 ^ 32
    → (p.path < 2 ^ 31 → (sibling_index p).path ≡ (p.path + 1) % 2 ^ 31)
      × (2 ^ 31 ≤ p.path → (sibling_index p).path ≡ 2 ^ 31 + (p.path - 2 ^ 31 + 1) % 2 ^ 31)
unfolding sibling_index path_item path_hardened is_hardened
sibling_index-halves p h = (λ soft. ground arith, λ hard. ground arith)

deref-some : (o : Option PathItem) {p : PathItem} → deref o ≡ ok p → some p ≡ o
deref-some none h = cc
deref-some (some q) h = cc

module _ (keys : Keychain) where
  open keys use {ExtendedKey, PublicKey, derive, serialize_compressed, hash160}

  -- Where the hash is twenty bytes, a fingerprint is eight lower-case hexadecimal digits, and they
  -- read back as the first four bytes of the hash.
  pub get_fingerprint-IsHexDigit :
      (epub : PublicKey)
      → length (hash160 (serialize_compressed epub)) ≡ 20
      → All IsByte (hash160 (serialize_compressed epub))
      → (fingerprint : Bytes) × (get_fingerprint keys epub ≡ ok fingerprint)
        × (length fingerprint ≡ 8)
        × All IsHexDigit fingerprint
        × (hex_decode fingerprint ≡ ok (take 4 (hash160 (serialize_compressed epub))))
  unfolding get_fingerprint slice
  get_fingerprint-IsHexDigit epub size bytes =
      let hash = hash160 (serialize_compressed epub) in
      let first_bytes = All-take 4 hash bytes in
      (
        hex_encode (take 4 hash),
        rw (le→leb 4 (length hash) (omega arith)),
        omega (arith, length-hex_encode (take 4 hash), length-take_four hash (omega arith)),
        hex_encode-IsHexDigit (take 4 hash) first_bytes,
        hex_decode-hex_encode (take 4 hash) first_bytes,
      )

  -- A new master makes of a complete key what `CreateBip44Key` makes of its items.
  pub copy_with_new_master-create :
      (b : Bip44Key ExtendedKey) (master : ExtendedKey) (purpose coin account change : PathItem)
      → b.purpose ≡ some purpose
      → b.coin ≡ some coin
      → b.account ≡ some account
      → b.change ≡ some change
      → copy_with_new_master keys b master
        ≡ create_bip44_key keys master purpose coin account change b.index
  unfolding copy_with_new_master create_bip44_key copy
  copy_with_new_master-create b master purpose coin account change hp hc ha hd = rw (hp, hc, ha, hd)

  -- A sibling has the next index in its half of the uint32s, hardened or not, round to the start of
  -- the half behind its end; its key is the child of the same parent key at that index, and all else
  -- is as it was.
  pub derive_next_sibling-eq-ok :
      (b b' : Bip44Key ExtendedKey)
      → b.index.path < 2 ^ 32
      → derive_next_sibling keys b ≡ ok b'
      → (b.index.path < 2 ^ 31 → b'.index.path ≡ (b.index.path + 1) % 2 ^ 31)
        × (2 ^ 31 ≤ b.index.path → b'.index.path ≡ 2 ^ 31 + (b.index.path - 2 ^ 31 + 1) % 2 ^ 31)
        × (derive b.change_key b'.index.path ≡ ok b'.index_key)
        × (b'.change_key ≡ b.change_key)
        × (b'.fingerprint ≡ b.fingerprint)
        × (b'.purpose ≡ b.purpose)
        × (b'.coin ≡ b.coin)
        × (b'.account ≡ b.account)
        × (b'.change ≡ b.change)
  unfolding derive_next_sibling copy
  derive_next_sibling-eq-ok b b' small h =
      let (sibling, derived, h1) =
        >>=-eq-ok (derive b.change_key (sibling_index b.index).path) _ h in
      let (purpose, e1, h2) = >>=-eq-ok (deref b.purpose) _ h1 in
      let (coin, e2, h3) = >>=-eq-ok (deref b.coin) _ h2 in
      let (account, e3, h4) = >>=-eq-ok (deref b.account) _ h3 in
      let (change, e4, h5) = >>=-eq-ok (deref b.change) _ h4 in
      let same = ok_injective h5 in
      let next : sibling_index b.index ≡ b'.index = ap (λ r. r.index) same in
      let child : sibling ≡ b'.index_key = ap (λ r. r.index_key) same in
      let (soft, hard) = sibling_index-halves b.index small in
      let step = sym (ap (λ (p : PathItem). p.path) next) in
      (
        λ e. step ∙ soft e,
        λ e. step ∙ hard e,
        ap (λ (p : PathItem). derive b.change_key p.path) (sym next) ∙ derived ∙ ap ok child,
        sym (ap (λ r. r.change_key) same),
        sym (ap (λ r. r.fingerprint) same),
        sym (ap (λ r. r.purpose) same) ∙ deref-some b.purpose e1,
        sym (ap (λ r. r.coin) same) ∙ deref-some b.coin e2,
        sym (ap (λ r. r.account) same) ∙ deref-some b.account e3,
        sym (ap (λ r. r.change) same) ∙ deref-some b.change e4,
      )
