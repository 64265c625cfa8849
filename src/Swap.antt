-- ===== src/Swap.antt =====
-- kernel/inc/common/swap.h: changing the order of the bytes of a word. A shift and a mask that pick
-- bytes are written as those bytes at their new places; the parts that `|` joins do not overlap.
pub mod Twice
mod Tests
use k_os.Base.{ℕ, ◌+◌, ◌*◌, ◌/◌, ◌%◌, ◌^◌}

-- The byte of `v` at the place `k`.
abbrev pub byte_of : ℕ → ℕ → ℕ
byte_of k v = v / 256 ^ k % 256

-- `swap_uint16`: `(val << 8) | (val >> 8)`, cut to 16 bits.
unfoldable pub swap_uint16 : ℕ → ℕ
swap_uint16 val = val % 2 ^ 8 * 2 ^ 8 + val / 2 ^ 8 % 2 ^ 8

-- The first line of `swap_uint32`: the bytes of each half change places.
unfoldable pub swap_halves : ℕ → ℕ
swap_halves val =
    byte_of 2 val * 2 ^ 24 + byte_of 0 val * 2 ^ 8 + (byte_of 3 val * 2 ^ 16 + byte_of 1 val)

-- `swap_uint32`
unfoldable pub swap_uint32 : ℕ → ℕ
swap_uint32 val = let val' = swap_halves val in val' % 2 ^ 16 * 2 ^ 16 + val' / 2 ^ 16
