-- ===== src/Base/Products.antt =====
-- Products of two variables, where the linear tactics want a fact of one factor.
use Prim.Native.Nat.{ℕ, suc, ◌+◌, ◌-◌, ◌*◌, ◌≤◌, ◌<◌}
use mathlib.Core.Path.{◌≡◌, ap}
use native.Mathlib.Omega.{arith}

pub sub-mul : (j k t : ℕ) → k ≤ j → (j - k) * t + k * t ≡ j * t
sub-mul j k t h = let e : j ≡ (j - k) + k = omega arith in omega (arith, ap (λ (x : ℕ). x * t) e)

pub le-mul : (a t : ℕ) → 0 < t → a ≤ a * t
le-mul a t h = grind arith

pub lt-mul : (j k t : ℕ) → j < k → j * t + t ≤ k * t
lt-mul j k t h = omega (arith, sub-mul k (suc j) t h)
