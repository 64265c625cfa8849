-- ===== src/Division/Tests.antt =====
-- A run of kernel/src/lib/math.c.
use k_os.Base.{◌/◌, ◌^◌, ◌≡◌, refl, some, none, arith}
use k_os.Division.{udivdi3}
use k_os.Division.Quotient.{udivdi3_lem}

by_zero : udivdi3 65 7 0 ≡ none
unfolding udivdi3
by_zero = refl

udivdi3_example : udivdi3 65 (10 ^ 18) 7 ≡ some (10 ^ 18 / 7)
udivdi3_example = udivdi3_lem 65 (10 ^ 18) 7 (omega arith) (omega arith) (omega arith) (omega arith)
