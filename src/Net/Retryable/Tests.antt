-- ===== src/Net/Retryable/Tests.antt =====
-- A probe over a second of ticks.
use peos.Prelude.{◌+◌, ◌≤◌, ◌≡◌, refl, List, [], ◌∷◌, arith}
use peos.Prelude.Int.{ℤ, pos, ◌+ℤ◌, ◌-ℤ◌}
use peos.Net.Retryable.{retryable, tick, retry}
use peos.Net.Retryable.Retries.{calls, calls_le}

abbrev second : List ℤ
second = pos 0 ∷ pos 300 ∷ pos 300 ∷ pos 400 ∷ []

-- At once, and again when 400 are over.
calls_twice : calls (retryable (pos 200)) second ≡ 2
unfolding tick retry ◌+ℤ◌ ◌-ℤ◌ calls
calls_twice = refl

calls_le_example : calls (retryable (pos 200)) second + 0 ≤ 5
calls_le_example = calls_le (retryable (pos 200)) second (omega arith)
