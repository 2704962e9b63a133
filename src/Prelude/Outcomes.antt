-- ===== src/Prelude/Outcomes.antt =====
-- What a Go call returns: a value, an error, or a panic that unwinds the caller. The error values
-- are those that the sources construct; `external` is an error of a third-party package, by its
-- text.
use Prim.Native.Nat.{ℕ}
use mathlib.Core.Path.{◌≡◌, refl}
use mathlib.Core.Bool.{Bool, true, false}
use mathlib.Core.Option.{Option, none, some}
use mathlib.Core.List.{List}
use leafy.Prelude.Int.{ℤ}

-- A Go string, or a []byte: its bytes.
abbrev pub Bytes : Type 0
Bytes = List ℕ

pub data Error : Type 0 where
  external : Bytes → Error
  invalid_syntax value_out_of_range odd_hex_length : Error
  invalid_hex_byte : ℕ → Error
  invalid_master invalid_master_epub : Error → Error
  invalid_descriptor_prefix invalid_derivations : Bytes → Error
  invalid_path : Bytes → Error → Error
  invalid_address_count : ℕ → Error
  invalid_fee_rate : Error
  insufficient_funds insufficient_fee_funds : ℤ → ℤ → Error
  missing_script missing_amount missing_address : Bytes → Error
  missing_signing_key : Bytes → Bytes → Error
  unmapped_addresses invalid_public_key : Error
  invalid_start_index invalid_num : Error
  invalid_data_length : ℕ → Error → Error
  unknown_network : Bytes → Error
  prefixed : Bytes → Error → Error

pub data Fault : Type 0 where
  nil_dereference index_out_of_range : Fault
  raised : Error → Fault

pub data Result {ℓ} (T : Type ℓ) : Type ℓ where
  panic : Fault → Result T
  err : Error → Result T
  ok : T → Result T

-- `if !test { return nil, e }`
abbrev pub ensure : Bool → Error → Result (Unit {0})
ensure test e = elim test [ true ↦ ok tt | false ↦ err e ]

module _ {ℓ} {T : Type ℓ} where
  -- `if err != nil { return nil, wrap(err) }`
  abbrev pub map_err : (Error → Error) → Result T → Result T
  map_err wrap (panic fault) = panic fault
  map_err wrap (err e) = err (wrap e)
  map_err wrap (ok x) = ok x

  -- `if err != nil { panic(err) }`
  abbrev pub must : Result T → Result T
  must (panic fault) = panic fault
  must (err e) = panic (raised e)
  must (ok x) = ok x

  -- The value behind a pointer; `none` is nil.
  abbrev pub deref : Option T → Result T
  deref none = panic nil_dereference
  deref (some x) = ok x

  -- `value, found := m[k]` with an error where it is not found.
  abbrev pub found_or : Option T → Error → Result T
  found_or none e = err e
  found_or (some x) e = ok x

-- `x, err := call; if err != nil { return nil, err }`, where a panic unwinds too.
infixl 5 ◌>>=◌
abbrev pub ◌>>=◌ {ℓ κ} : {T : Type ℓ} {U : Type κ} → Result T → (T → Result U) → Result U
panic fault >>= next = panic fault
err e >>= next = err e
ok x >>= next = next x

infixl 5 ◌>>◌
abbrev pub ◌>>◌ {ℓ κ} : {T : Type ℓ} {U : Type κ} → Result T → Result U → Result U
call >> after = call >>= λ _. after

pub ok_injective {ℓ} : {T : Type ℓ} {x y : T} → ok x ≡ ok y → x ≡ y
ok_injective h = cc

module _ {ℓ κ} {T : Type ℓ} {U : Type κ} where
  -- A sequence that succeeds had a first call that did.
  pub >>=-eq-ok :
      (call : Result T) (next : T → Result U) {y : U}
      → (call >>= next) ≡ ok y
      → (x : T) × (call ≡ ok x) × (next x ≡ ok y)
  >>=-eq-ok (panic fault) next done = cc
  >>=-eq-ok (err e) next done = cc
  >>=-eq-ok (ok x) next done = (x, refl, done)

  -- A call whose result is only wrapped succeeds where it does.
  pub >>=-ok-total :
      (call : Result T) (wrap : T → U)
      → (x : T) × (call ≡ ok x)
      → (y : U) × ((call >>= λ x. ok (wrap x)) ≡ ok y)
  >>=-ok-total call wrap (x, e) = (wrap x, rw e)

  pub >>=-cong :
      (call : Result T) (f g : T → Result U) → ((x : T) → f x ≡ g x) → (call >>= f) ≡ (call >>= g)
  >>=-cong (panic fault) f g h = refl
  >>=-cong (err e) f g h = refl
  >>=-cong (ok x) f g h = h x

pub map_err-eq-ok {ℓ} :
    {T : Type ℓ} (wrap : Error → Error) (call : Result T) {x : T}
    → map_err wrap call ≡ ok x
    → call ≡ ok x
map_err-eq-ok wrap (panic fault) h = cc
map_err-eq-ok wrap (err e) h = cc
map_err-eq-ok wrap (ok y) h = h

module _ {ℓ κ} {T : Type ℓ} {U : Type κ} where
  -- The first of two results.
  abbrev pub first_result : Result (T × U) → Result T
  first_result (panic fault) = panic fault
  first_result (err e) = err e
  first_result (ok made) = ok made.0

  pub first_result-pair : (call : Result T) (u : U) → first_result (call >>= λ t. ok (t, u)) ≡ call
  first_result-pair (panic fault) u = refl
  first_result-pair (err e) u = refl
  first_result-pair (ok t) u = refl

pub found_or-eq-ok {ℓ} :
    {T : Type ℓ} (o : Option T) (e : Error) {x : T} → found_or o e ≡ ok x → o ≡ some x
found_or-eq-ok none e h = cc
found_or-eq-ok (some y) e h = cc
