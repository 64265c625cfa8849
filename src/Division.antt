-- ===== src/Division.antt =====
-- kernel/src/lib/math.c: the 64-bit division that the compiler calls. Numbers are below 2 ^ 64; the
-- loops take fuel, and `none` is the fuel's end or the processor's division error.
pub mod Quotient
mod Tests
use k_os.Base.{
  ℕ, zero, suc, ◌+◌, ◌-◌, ◌*◌, ◌/◌, ◌%◌, ◌^◌, Option, none, some, ltb, leb, ◌==◌, if◌then◌else◌,
}

-- `while (((int64_t) d) >= 0) { d <<= 1; bit <<= 1; }`
unfoldable pub scale_up : ℕ → ℕ → ℕ → Option (ℕ × ℕ)
scale_up zero d bit = none
scale_up (suc f) d bit =
    let rest = scale_up f (d * 2 % 2 ^ 64) (bit * 2 % 2 ^ 64) in
    if ltb d (2 ^ 63) then rest else some (d, bit)

-- `while (bit) { if (d <= n) { n -= d; q += bit; } d >>= 1; bit >>= 1; }`
unfoldable pub divide_bits : ℕ → ℕ → ℕ → ℕ → ℕ → Option ℕ
divide_bits zero n d bit q = none
divide_bits (suc f) n d bit q =
    let taken = divide_bits f (n - d) (d / 2) (bit / 2) ((q + bit) % 2 ^ 64) in
    let left = divide_bits f n (d / 2) (bit / 2) q in
    if bit == 0 then some q else if leb d n then taken else left

-- `__udivdi3`
unfoldable pub udivdi3 : ℕ → ℕ → ℕ → Option ℕ
unfolding scale_up divide_bits
udivdi3 fuel n d =
    if d == 0
    then none
    else elim (scale_up fuel d 1) [ none ↦ none | some (d', bit) ↦ divide_bits fuel n d' bit 0 ]
