-- ===== src/Checksum/Fold.antt =====
-- What `sum_to_checksum` of kernel/src/net/ip/checksum.h returns, and why a receiver accepts it.
use k_os.Base.{
  ℕ, suc, ◌+◌, ◌-◌, ◌/◌, ◌%◌, ◌^◌, ◌≤◌, ◌<◌, ◌≡◌, refl, ap, ◌∙◌, sym, true, false, some, ◌==◌,
  if◌then◌else◌, arith, inl, inr, le_or_lt,
}
use k_os.Checksum.{fold_carry, sum_to_checksum}

-- The sum in one's complement arithmetic: 0 only for 0.
abbrev pub ones_sum : ℕ → ℕ
ones_sum sum = if sum == 0 then 0 else (sum - 1) % 65535 + 1

fold_done : (f s : ℕ) → s < 2 ^ 16 → fold_carry (suc f) s ≡ some s
unfolding fold_carry
fold_done f s h = let e : (s / 2 ^ 16 == 0) ≡ true = ground arith in rw (fold_carry, e) refl

fold_step : (f s : ℕ) → 2 ^ 16 ≤ s → fold_carry (suc f) s ≡ fold_carry f (s / 2 ^ 16 + s % 2 ^ 16)
unfolding fold_carry
fold_step f s h = let e : (s / 2 ^ 16 == 0) ≡ false = ground arith in rw (fold_carry, e) refl

ones_sum_small : (s : ℕ) → s < 2 ^ 16 → ones_sum s ≡ s
ones_sum_small s h = ground arith

ones_sum_step : (s : ℕ) → 2 ^ 16 ≤ s → ones_sum (s / 2 ^ 16 + s % 2 ^ 16) ≡ ones_sum s
ones_sum_step s h = ground arith

fold_carry_lem : (s : ℕ) → s < 2 ^ 32 → fold_carry 3 s ≡ some (ones_sum s)
fold_carry_lem s h = elim (le_or_lt (2 ^ 16) s) [
  | inr low ↦ fold_done 2 s low ∙ ap some (sym (ones_sum_small s low))
  | inl high ↦
      let t = s / 2 ^ 16 + s % 2 ^ 16 in
      fold_step 2 s high ∙ elim (le_or_lt (2 ^ 16) t) [
        | inr low ↦ fold_done 1 t low ∙ ap some (sym (ones_sum_small t low) ∙ ones_sum_step s high)
        | inl high' ↦
            let u = t / 2 ^ 16 + t % 2 ^ 16 in
            let low : u < 2 ^ 16 = omega arith in
            fold_step 1 t high'
            ∙ fold_done 0 u low
            ∙ ap some (sym (ones_sum_small u low) ∙ ones_sum_step t high' ∙ ones_sum_step s high)
      ]
]

-- A sum of 32 bits with its checksum added has the checksum 0, and the checksum has 16 bits: it is
-- what a receiver tests. The sum with the checksum has to fit into 32 bits.
pub sum_to_checksum_lem :
    (sum : ℕ)
    → sum + 2 ^ 16 ≤ 2 ^ 32
    → (c : ℕ) × (sum_to_checksum sum ≡ some c) × (c < 2 ^ 16) × (sum_to_checksum (sum + c) ≡ some 0)
unfolding sum_to_checksum
sum_to_checksum_lem sum h =
    let c = 2 ^ 16 - 1 - ones_sum sum in
    let first = fold_carry_lem sum (omega arith) in
    let small : c < 2 ^ 16 = omega arith in
    let second = fold_carry_lem (sum + c) (omega arith) in
    let full : ones_sum (sum + c) ≡ 2 ^ 16 - 1 = ground arith in
    (c, rw (sum_to_checksum, first) refl, small, rw (sum_to_checksum, second, full) refl)
