-- ===== src/SigningKeys/Neutered.antt =====
-- A wallet's second key and the neutered one that its descriptor imports to stay a pair from sibling
-- to sibling (bip_44.go).
use leafy.Prelude.{ℕ, ◌+◌, ◌^◌, ◌<◌, ◌≡◌, ap, sym, ◌∙◌, arith, ok, deref, ok_injective, >>=-eq-ok}
use leafy.Bip44.Path.{PathItem, sibling_index, is_hardened, path_item, path_hardened}
use leafy.Bip44.Key.{Keychain, Bip44Key}
use leafy.Bip44.Derive.{derive_next_sibling}
use leafy.Library.{Library}

pub derive_next_sibling-fields :
    (keys : Keychain) (b b' : Bip44Key keys.ExtendedKey)
    → derive_next_sibling keys b ≡ ok b'
    → (keys.derive b.change_key (sibling_index b.index).path ≡ ok b'.index_key)
      × (b'.change_key ≡ b.change_key)
      × (b'.index ≡ sibling_index b.index)
unfolding derive_next_sibling
derive_next_sibling-fields keys b b' h =
    let (sibling, derived, h1) =
      >>=-eq-ok (keys.derive b.change_key (sibling_index b.index).path) _ h in
    let (_, _, h2) = >>=-eq-ok (deref b.purpose) _ h1 in
    let (_, _, h3) = >>=-eq-ok (deref b.coin) _ h2 in
    let (_, _, h4) = >>=-eq-ok (deref b.account) _ h3 in
    let (_, _, h5) = >>=-eq-ok (deref b.change) _ h4 in
    let same = ok_injective h5 in
    (
      derived ∙ ap (λ r. ok r.index_key) same,
      sym (ap (λ r. r.change_key) same),
      sym (ap (λ r. r.index) same),
    )

pub sibling_index-below : (p : PathItem) → p.path + 1 < 2 ^ 31 → (sibling_index p).path ≡ p.path + 1
unfolding sibling_index is_hardened path_item path_hardened
sibling_index-below p h = ground arith

module _ (lib : Library) where
  open lib use {keys, tx}

  -- What hdkeychain promises of neutered keys: their unhardened children are the neutered children,
  -- and they have the public keys.
  pub record IsKeychain : Type 0 where
    pub neutered_child :
        (k e c d : keys.ExtendedKey) (i : ℕ)
        → i < 2 ^ 31
        → keys.neuter k ≡ ok e
        → keys.derive k i ≡ ok c
        → keys.derive e i ≡ ok d
        → keys.neuter c ≡ ok d
    pub public_half :
        (k e : keys.ExtendedKey) (private_key : keys.PrivateKey) (public_key : keys.PublicKey)
        → keys.neuter k ≡ ok e
        → keys.ec_priv_key k ≡ ok private_key
        → keys.ec_pub_key e ≡ ok public_key
        → tx.pub_key private_key ≡ public_key

  -- The second key of a wallet, and the key that its descriptor imports to.
  pub record IsNeutered (b p : Bip44Key keys.ExtendedKey) : Type 0 where
    pub index : p.index ≡ b.index
    pub change_key : keys.neuter b.change_key ≡ ok p.change_key
    pub index_key : keys.neuter b.index_key ≡ ok p.index_key

  pub derive_next_sibling-IsNeutered :
      (law : IsKeychain) (b p b' p' : Bip44Key keys.ExtendedKey)
      → b.index.path + 1 < 2 ^ 31
      → IsNeutered b p
      → derive_next_sibling keys b ≡ ok b'
      → derive_next_sibling keys p ≡ ok p'
      → IsNeutered b' p'
  derive_next_sibling-IsNeutered law b p b' p' small n hb hp =
      let (db, cb, ib) = derive_next_sibling-fields keys b b' hb in
      let (dp, cp, ip) = derive_next_sibling-fields keys p p' hp in
      let below = sibling_index-below b.index small in
      let within : (sibling_index b.index).path < 2 ^ 31 = rw below small in
      record {
        index = ip ∙ ap sibling_index n.index ∙ sym ib;
        change_key = ap keys.neuter cb ∙ n.change_key ∙ ap ok (sym cp);
        index_key =
            law.neutered_child b.change_key p.change_key b'.index_key p'.index_key
              (sibling_index b.index).path within n.change_key db (rw n.index at dp);
      }
