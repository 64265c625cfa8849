-- ===== src/Checksum/Tests.antt =====
-- The checksum of one sum of kernel/src/net/ip/checksum.h.
use k_os.Base.{ℕ, ◌+◌, ◌<◌, ◌^◌, ◌≡◌, some, arith}
use k_os.Checksum.{sum_to_checksum}
use k_os.Checksum.Fold.{sum_to_checksum_lem}

checksum_example :
    (c : ℕ) × (sum_to_checksum 196605 ≡ some c)
    × (c < 2 ^ 16)
    × (sum_to_checksum (196605 + c) ≡ some 0)
checksum_example = sum_to_checksum_lem 196605 (omega arith)
