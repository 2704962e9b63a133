-- ===== src/Mobile/Ranges.antt =====
-- The argument checks of `MobileGetAddresses` (mobile_leafy.go).
use leafy.Prelude.{
  [], ℕ, ◌-◌, ◌^◌, ◌<◌, ◌≤◌, ◌≡◌, ap, sym, not, ℤ, pos, negsuc, List, length, Bytes, arith, Result,
  ok, map_err-eq-ok, ensure, >>=-eq-ok, Error,
}
use native.Mathlib.Nat.{mod-eq_of_lt}
use leafy.Wallet.{recovery}
use leafy.Library.{Library}
use leafy.Address.{get_addresses}
use leafy.Address.Tweaks.{get_addresses-length}
use leafy.Mobile.{
  Encoding, Network, parse_network_name, wrap_error, wrapped, to_unsigned, outside,
  mobile_get_addresses,
}

pub wrapped-eq-ok : {T : Type 0} (call : Result T) {x : T} → wrapped call ≡ ok x → call ≡ ok x
unfolding wrapped
wrapped-eq-ok call h = map_err-eq-ok (wrap_error []) call h

within :
    (m n : ℕ) (e : Error) {u : Unit {0}}
    → 0 < m
    → ensure (not (outside (pos n) (pos (m - 1)))) e ≡ ok u
    → n < m
unfolding outside
within m n e positive h = ground arith

-- A number that passes the check is not changed by the conversion.
to_unsigned-inside :
    (bits : ℕ) (x : ℤ) (e : Error) {u : Unit {0}}
    → 0 < 2 ^ bits
    → ensure (not (outside x (pos (2 ^ bits - 1)))) e ≡ ok u
    → (x ≡ pos (to_unsigned bits x)) × (to_unsigned bits x < 2 ^ bits)
unfolding to_unsigned outside
to_unsigned-inside bits (pos n) e some_bits h =
    let inside : n < 2 ^ bits = within (2 ^ bits) n e some_bits h in
    let same = mod-eq_of_lt inside in (ap pos (sym same), rw same inside)
to_unsigned-inside bits (negsuc n) e some_bits h = cc

module _ (lib : Library) (json : Encoding lib) where
  -- What the call returns is the JSON of the addresses at the very index and number that it was
  -- given, which are a uint32 and a uint8, the number not 0.
  pub mobile_get_addresses-eq-ok :
      (timelock : ℕ) (network_name first_mnemonic second_descriptor : Bytes) (start_index num : ℤ)
      (out : Bytes)
      → mobile_get_addresses lib json timelock network_name first_mnemonic second_descriptor
          start_index num
        ≡ ok out
      → (i n : ℕ) × (network : Network) × (found : List Bytes) × (start_index ≡ pos i)
        × (num ≡ pos n)
        × (i < 2 ^ 32)
        × (1 ≤ n)
        × (n < 2 ^ 8)
        × (parse_network_name network_name ≡ ok network)
        × (get_addresses lib timelock
              (json.params_of network)
              (recovery first_mnemonic second_descriptor)
              i
              n
            ≡ ok found)
        × (length found ≡ n)
        × (json.marshal_strings found ≡ ok out)
  unfolding mobile_get_addresses
  mobile_get_addresses-eq-ok timelock name first second start num out h =
      let (_, in1, h1) =
        >>=-eq-ok
          (wrapped (ensure (not (outside start (pos (2 ^ 32 - 1)))) Error.invalid_start_index)) _
          h in
      let (_, in2, h2) =
        >>=-eq-ok (wrapped (ensure (not (outside num (pos (2 ^ 8 - 1)))) Error.invalid_num)) _ h1 in
      let (network, named, h3) = >>=-eq-ok (wrapped (parse_network_name name)) _ h2 in
      let i = to_unsigned 32 start in
      let n = to_unsigned 8 num in
      let w = recovery first second in
      let (found, called, h4) =
        >>=-eq-ok (wrapped (get_addresses lib timelock (json.params_of network) w i n)) _ h3 in
      let (same_i, small_i) = to_unsigned-inside 32 start _ (omega arith) (wrapped-eq-ok _ in1) in
      let (same_n, small_n) = to_unsigned-inside 8 num _ (omega arith) (wrapped-eq-ok _ in2) in
      let got = wrapped-eq-ok _ called in
      let (size, positive) =
        get_addresses-length lib timelock (json.params_of network) w i n found got in
      (
        i,
        n,
        network,
        found,
        same_i,
        same_n,
        small_i,
        positive,
        small_n,
        wrapped-eq-ok _ named,
        got,
        size,
        wrapped-eq-ok _ h4,
      )
