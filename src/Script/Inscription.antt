-- ===== src/Script/Inscription.antt =====
-- `splitForInscription` and `TimelockToApproximateDuration` (script.go).
use leafy.Prelude.{
  ℕ, ◌*◌, ◌<◌, ◌≤◌, ◌≡◌, List, [], ◌∷◌, ◌++◌, arith, pos, mul64-pos, length, ◌^◌, Bytes,
}
use leafy.Script.{timelock_to_approximate_duration}

abbrev pub concat : List Bytes → Bytes
concat [] = []
concat (s ∷ ss) = s ++ concat ss

-- All pieces are of the full size but the last, which holds one byte at least.
abbrev pub IsPieces : ℕ → List Bytes → Type 0
IsPieces size [] = Unit
IsPieces size (s ∷ []) = (0 < length s) × (length s ≤ size)
IsPieces size (s ∷ s' ∷ ss) = (length s ≡ size) × IsPieces size (s' ∷ ss)

-- A relative timelock, at most 65535 blocks, lasts ten minutes a block: nothing overflows.
pub timelock_to_approximate_duration-minutes :
    (blocks : ℕ)
    → blocks < 2 ^ 16
    → timelock_to_approximate_duration (pos blocks) ≡ pos (10 * 60_000_000_000 * blocks)
unfolding timelock_to_approximate_duration
timelock_to_approximate_duration-minutes blocks h =
    rw (mul64-pos 60_000_000_000 10 (omega arith)) (mul64-pos 600_000_000_000 blocks (omega arith))
