-- ===== src/Swap/Twice.antt =====
-- The functions of kernel/inc/common/swap.h undo themselves.
use k_os.Base.{ℕ, ◌^◌, ◌<◌, ◌≡◌, arith}
use k_os.Swap.{swap_uint16, swap_halves, swap_uint32}

-- `swap_uint16` twice is the number itself, for every number of 16 bits.
pub swap_uint16-swap_uint16 : (v : ℕ) → v < 2 ^ 16 → swap_uint16 (swap_uint16 v) ≡ v
unfolding swap_uint16
swap_uint16-swap_uint16 v h = omega arith

pub swap_uint16-bound : (v : ℕ) → swap_uint16 v < 2 ^ 16
unfolding swap_uint16
swap_uint16-bound v = omega arith

-- `swap_uint32` twice is the number itself, for every number of 32 bits.
pub swap_uint32-swap_uint32 : (v : ℕ) → v < 2 ^ 32 → swap_uint32 (swap_uint32 v) ≡ v
unfolding swap_uint32 swap_halves
swap_uint32-swap_uint32 v h = omega arith
