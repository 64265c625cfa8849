-- ===== src/PageAlloc/Requests/Order.antt =====
-- The order that `do_alloc_pages` of kernel/src/mm/mm.c starts at.
use k_os.Base.{
  ℕ, zero, suc, ◌+◌, ◌-◌, ◌*◌, ◌/◌, ◌^◌, ◌≤◌, ◌<◌, ◌≡◌, ap, ◌∙◌, subst, ◌⊎◌, inl, inr, arith, ltb,
  ◌==◌, Bool-cases, le_or_lt,
}
use k_os.PageAlloc.Blocks.{pow_pos, pow_twice}
use k_os.PageAlloc.Requests.{log2_from, log2, target_order}

log2_from_lem :
    (f n : ℕ) → 0 < n → n < 2 ^ f → (2 ^ log2_from f n ≤ n) × (n < 2 * 2 ^ log2_from f n)
unfolding log2_from
log2_from_lem zero n pos small = absurd (omega arith)
log2_from_lem (suc f) n pos small = elim (Bool-cases (ltb n 2)) [
  | inl one ↦ rw one (ground arith)
  | inr more ↦
      let (low, high) = log2_from_lem f (n / 2) (ground arith) (omega (arith, pow_twice f)) in
      let twice = pow_twice (log2_from f (n / 2)) in rw more (omega arith, omega arith)
]

half : (k n : ℕ) → 2 ^ k ≤ n → (k ≡ 0) ⊎ (2 ^ (k - 1) < n)
half zero n h = inl (omega arith)
half (suc k) n h =
    let back : suc k - 1 ≡ k = omega arith in inr (rw back (omega (arith, pow_twice k, pow_pos k)))

-- `do_alloc_pages` starts at the smallest order whose blocks hold `number` pages, for every number
-- of pages of 32 bits but 0.
pub target_order_lem :
    (number : ℕ)
    → 0 < number
    → number < 2 ^ 32
    → (number ≤ 2 ^ target_order number)
      × ((target_order number ≡ 0) ⊎ (2 ^ (target_order number - 1) < number))
unfolding target_order log2
target_order_lem number pos small =
    let (low, high) = log2_from_lem 32 number pos small in
    elim (Bool-cases (number == 2 ^ log2_from 32 number)) [
      | inl exact ↦ rw exact (ground (arith, exact), half (log2_from 32 number) number low)
      | inr between ↦
          let back : log2_from 32 number + 1 - 1 ≡ log2_from 32 number = omega arith in
          let next : 2 ^ (log2_from 32 number + 1) ≡ 2 * 2 ^ log2_from 32 number =
            ap (λ (x : ℕ). 2 ^ x) (omega arith) ∙ pow_twice (log2_from 32 number) in
          rw between (omega (arith, next), inr (rw back (ground arith)))
    ]

pow_grows : (d b : ℕ) → 2 ^ b ≤ 2 ^ (d + b)
pow_grows zero b = let same : 0 + b ≡ b = omega arith in omega (arith, ap (λ (x : ℕ). 2 ^ x) same)
pow_grows (suc d) b =
    let same : suc d + b ≡ suc (d + b) = omega arith in
    omega (arith, ap (λ (x : ℕ). 2 ^ x) same, pow_grows d b, pow_twice (d + b))

-- An order that holds `number` pages, and below which no order does.
abbrev pub IsLeastOrder : ℕ → ℕ → Type 0
IsLeastOrder number k = (number ≤ 2 ^ k) × ((k ≡ 0) ⊎ (2 ^ (k - 1) < number))

least_le : (number a b : ℕ) → IsLeastOrder number a → number ≤ 2 ^ b → a ≤ b
least_le number a b (fits, inl none_below) h = omega arith
least_le number a b (fits, inr more) h = elim (le_or_lt a b) [
  | inl low ↦ low
  | inr high ↦
      let same : a - 1 - b + b ≡ a - 1 = omega arith in
      let grows : 2 ^ b ≤ 2 ^ (a - 1) =
        subst (λ (x : ℕ). 2 ^ b ≤ 2 ^ x) same (pow_grows (a - 1 - b) b) in
      omega (arith, grows)
]

-- There is one such order, and `do_alloc_pages` starts there.
pub target_order-IsLeastOrder :
    (number k : ℕ) → 0 < number → number < 2 ^ 32 → IsLeastOrder number k → target_order number ≡ k
target_order-IsLeastOrder number k pos small least =
    let mine = target_order_lem number pos small in
    let below = least_le number (target_order number) k mine least.0 in
    let above = least_le number k (target_order number) least mine.0 in omega arith
