-- ===== src/Prelude/Modular.antt =====
-- Facts about remainders by a variable, for indices that go round an array.
use Prim.Native.Nat.{ℕ, ◌+◌, ◌*◌, ◌%◌, ◌-◌, ◌<◌, ◌≤◌}
use mathlib.Core.Path.{◌≡◌, ap}
use mathlib.Core.Logic.{◌≢◌}
use native.Mathlib.Omega.{arith}
use native.Mathlib.Nat.{add-mul-mod_self_right}

-- Indices less than `m` apart do not meet.
pub mod-ne : (a d m : ℕ) → 0 < d → d < m → (a + d) % m ≢ a % m
mod-ne a d m p q = grind arith

pub mod-sub-mul : (a k m : ℕ) → k * m ≤ a → (a - k * m) % m ≡ a % m
mod-sub-mul a k m h = omega (arith, add-mul-mod_self_right (a - k * m) k m, back)
  where
    back : ((a - k * m) + k * m) % m ≡ a % m
    back = ap (λ t. t % m) (omega arith)
