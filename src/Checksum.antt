-- ===== src/Checksum.antt =====
-- kernel/src/net/ip/checksum.h: the checksum of the Internet protocols. The words of a packet are
-- those of memory on a machine that stores the low byte first.
pub mod Fold
mod Tests
use k_os.Base.{
  ℕ, zero, suc, ◌+◌, ◌-◌, ◌*◌, ◌/◌, ◌%◌, ◌^◌, Option, none, some, List, [], ◌∷◌, ◌==◌,
  if◌then◌else◌,
}

-- The loop of `sum_to_checksum`; three rounds are enough for 32 bits.
unfoldable pub fold_carry : ℕ → ℕ → Option ℕ
fold_carry zero sum = none
fold_carry (suc f) sum =
    let rest = fold_carry f (sum / 2 ^ 16 + sum % 2 ^ 16) in
    if sum / 2 ^ 16 == 0 then some sum else rest

-- `sum_to_checksum`: `~sum`, cut to 16 bits, of a sum that has no more.
unfoldable pub sum_to_checksum : ℕ → Option ℕ
sum_to_checksum sum = elim (fold_carry 3 sum) [ none ↦ none | some s ↦ some (2 ^ 16 - 1 - s) ]

-- The loop over the payload in `tcp_build` and `udp_build`, with its last byte.
unfoldable pub payload_sum : List ℕ → ℕ
payload_sum [] = 0
payload_sum (a ∷ []) = a
payload_sum (a ∷ b ∷ bs) = a + b * 256 + payload_sum bs
