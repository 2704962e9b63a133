-- ===== src/Script/Tests.antt =====
-- The theorems on script.go at small inputs.
use leafy.Prelude.{◌*◌, ◌≡◌, arith, pos}
use leafy.Script.{timelock_to_approximate_duration}
use leafy.Script.Inscription.{timelock_to_approximate_duration-minutes}

timelock_to_approximate_duration-minutes_example :
    timelock_to_approximate_duration (pos 52560) ≡ pos (10 * 60_000_000_000 * 52560)
timelock_to_approximate_duration-minutes_example =
    timelock_to_approximate_duration-minutes 52560 (omega arith)
