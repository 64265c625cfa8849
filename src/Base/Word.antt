-- ===== src/Base/Word.antt =====
-- `uint32_t` as a native number below 2 ^ 32, with the wrap-around of its sums and differences
-- (kernel/inc/common/types.h), and the `MIN` of kernel/inc/common/math.h.
use Prim.Native.Nat.{ℕ, ◌+◌, ◌-◌, ◌*◌, ◌%◌, ◌^◌, ◌≤◌, ◌<◌, min, max}
use mathlib.Core.Path.{◌≡◌}
use native.Mathlib.Omega.{arith}
use k_os.Base.Tests.{ltb, if◌then◌else◌}

abbrev pub u32 : ℕ → ℕ
u32 n = n % 2 ^ 32

unfoldable pub add32 : ℕ → ℕ → ℕ
add32 a b = u32 (a + b)

unfoldable pub sub32 : ℕ → ℕ → ℕ
sub32 a b = u32 (a + 2 ^ 32 - b)

unfoldable pub mul32 : ℕ → ℕ → ℕ
mul32 a b = u32 (a * b)

-- `#define MIN(a, b) ((a < b) ? a : b)`
unfoldable pub c_min : ℕ → ℕ → ℕ
c_min a b = if ltb a b then a else b

pub add32_exact : (a b : ℕ) → a + b < 2 ^ 32 → add32 a b ≡ a + b
unfolding add32
add32_exact a b h = omega arith

pub sub32_exact : (a b : ℕ) → b ≤ a → a < 2 ^ 32 → sub32 a b ≡ a - b
unfolding sub32
sub32_exact a b h k = omega arith

pub mul32_exact : (a b : ℕ) → a * b < 2 ^ 32 → mul32 a b ≡ a * b
unfolding mul32
mul32_exact a b h = omega arith

pub c_min-min : (a b : ℕ) → c_min a b ≡ min a b
unfolding c_min
c_min-min a b = ground arith

-- `#define MAX(a, b) ((a > b) ? a : b)`
unfoldable pub c_max : ℕ → ℕ → ℕ
c_max a b = if ltb b a then a else b

pub c_max-max : (a b : ℕ) → c_max a b ≡ max a b
unfolding c_max
c_max-max a b = ground arith
