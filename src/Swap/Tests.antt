-- ===== src/Swap/Tests.antt =====
-- Runs of kernel/inc/common/swap.h.
use k_os.Base.{◌≡◌, refl, arith}
use k_os.Swap.{swap_uint16, swap_halves, swap_uint32}
use k_os.Swap.Twice.{swap_uint32-swap_uint32}

four_bytes : swap_uint32 0x12345678 ≡ 0x78563412
unfolding swap_uint32 swap_halves
four_bytes = refl

two_bytes : swap_uint16 0x1234 ≡ 0x3412
unfolding swap_uint16
two_bytes = refl

swap_uint32_example : swap_uint32 (swap_uint32 0x12345678) ≡ 0x12345678
swap_uint32_example = swap_uint32-swap_uint32 0x12345678 (omega arith)
