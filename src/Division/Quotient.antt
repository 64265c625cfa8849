-- ===== src/Division/Quotient.antt =====
-- `__udivdi3` of kernel/src/lib/math.c computes the quotient.
use k_os.Base.{
  ℕ, zero, suc, ◌+◌, ◌-◌, ◌*◌, ◌/◌, ◌%◌, ◌^◌, ◌≤◌, ◌<◌, ◌≡◌, ◌∙◌, ap, Option, some, false, arith,
  inl, inr, leb, ◌==◌, Bool-cases, le_or_lt,
}
use k_os.Base.Products.{le-mul}
use native.Mathlib.Nat.{pow-suc, pow-le-pow_right, div-eq_of_lt-le}
use k_os.Division.{scale_up, divide_bits, udivdi3}

-- The quotient of `n` by `d`, added to `q`.
abbrev Divides : Option ℕ → ℕ → ℕ → ℕ → Type 0
Divides out n d q = (k : ℕ) × (r : ℕ) × (out ≡ some (q + k)) × (k * d + r ≡ n) × (r < d)

-- The bit 2 ^ 0 is the last round.
divide_bits_last :
    (f n d q : ℕ)
    → 0 < d
    → n < 2 * d
    → q + 2 ≤ 2 ^ 64
    → Divides (divide_bits (suc (suc f)) n d 1 q) n d q
unfolding divide_bits
divide_bits_last f n d q pos small room = elim (Bool-cases (leb d n)) [
  | inl fits ↦ (1, n - d, ground arith, ground arith, ground arith)
  | inr less ↦ (0, n, ground arith, omega arith, ground arith)
]

divide_bits_taken :
    (f n d b q : ℕ)
    → 0 < b
    → d * (2 * b) ≤ n
    → q + 2 * b < 2 ^ 64
    → divide_bits (suc f) n (d * (2 * b)) (2 * b) q
      ≡ divide_bits f (n - d * (2 * b)) (d * b) b (q + 2 * b)
unfolding divide_bits
divide_bits_taken f n d b q pos fits room =
    let half : d * (2 * b) / 2 ≡ d * b = omega arith in
    let half' : 2 * b / 2 ≡ b = omega arith in
    let sum : (q + 2 * b) % 2 ^ 64 ≡ q + 2 * b = omega arith in rw (half, half', sum) (ground arith)

divide_bits_left :
    (f n d b q : ℕ)
    → 0 < b
    → n < d * (2 * b)
    → divide_bits (suc f) n (d * (2 * b)) (2 * b) q ≡ divide_bits f n (d * b) b q
unfolding divide_bits
divide_bits_left f n d b q pos less =
    let half : d * (2 * b) / 2 ≡ d * b = omega arith in
    let half' : 2 * b / 2 ≡ b = omega arith in rw (half, half') (ground arith)

pow_pos : (j : ℕ) → 0 < 2 ^ j
pow_pos zero = omega arith
pow_pos (suc j) = omega (arith, pow-suc 2 j, pow_pos j)

divide_bits-Divides :
    (j f n d q : ℕ)
    → 0 < d
    → n < 2 * (d * 2 ^ j)
    → q + 2 * 2 ^ j ≤ 2 ^ 64
    → suc j < f
    → Divides (divide_bits f n (d * 2 ^ j) (2 ^ j) q) n d q
divide_bits-Divides j zero n d q pos small room fuel = absurd (omega arith)
divide_bits-Divides j (suc zero) n d q pos small room fuel = absurd (omega arith)
divide_bits-Divides zero (suc (suc f)) n d q pos small room fuel =
    let e : d * 2 ^ 0 ≡ d = omega arith in
    rw e (divide_bits_last f n d q pos (omega arith) (omega arith))
divide_bits-Divides (suc j) (suc (suc f)) n d q pos small room fuel =
    let b : ℕ = 2 ^ j in
    let one : 0 < 2 ^ j = pow_pos j in
    let twice : 2 ^ suc j ≡ 2 * 2 ^ j = pow-suc 2 j ∙ omega arith in
    let scaled : d * 2 ^ suc j ≡ d * (2 * 2 ^ j) = ap (λ (x : ℕ). d * x) twice in
    rw twice (elim (le_or_lt (d * (2 * 2 ^ j)) n) [
      | inl fits ↦
          let (k, r, out, total, rest) =
            divide_bits-Divides j (suc f) (n - d * (2 * 2 ^ j)) d (q + 2 * 2 ^ j) pos
              (omega (arith, scaled)) (omega (arith, twice)) (omega arith) in
          (
            2 * 2 ^ j + k,
            r,
            divide_bits_taken (suc f) n d (2 ^ j) q one fits (omega (arith, twice))
                ∙ out
                ∙ ap some (omega arith),
            omega arith,
            rest,
          )
      | inr less ↦
          let (k, r, out, total, rest) =
            divide_bits-Divides j (suc f) n d q pos (omega arith) (omega (arith, twice))
              (omega arith) in
          (k, r, divide_bits_left (suc f) n d (2 ^ j) q one less ∙ out, total, rest)
    ])

-- The divisor and the bit after scaling up: the divisor's top bit is set.
abbrev IsScaled : Option (ℕ × ℕ) → ℕ → Type 0
IsScaled out d =
    (i : ℕ) × (out ≡ some (d * 2 ^ i, 2 ^ i)) × (2 ^ 63 ≤ d * 2 ^ i) × (d * 2 ^ i < 2 ^ 64)

scale_up_more :
    (f e b : ℕ) → e < 2 ^ 63 → b < 2 ^ 63 → scale_up (suc f) e b ≡ scale_up f (e * 2) (b * 2)
unfolding scale_up
scale_up_more f e b small small' =
    let exact : e * 2 % 2 ^ 64 ≡ e * 2 = omega arith in
    let exact' : b * 2 % 2 ^ 64 ≡ b * 2 = omega arith in rw (exact, exact') (ground arith)

scale_up-IsScaled :
    (k f d j : ℕ)
    → 0 < d
    → 2 ^ 63 ≤ d * 2 ^ j * 2 ^ k
    → d * 2 ^ j < 2 ^ 64
    → k < f
    → IsScaled (scale_up f (d * 2 ^ j) (2 ^ j)) d
scale_up-IsScaled k zero d j pos top range fuel = absurd (omega arith)
scale_up-IsScaled zero (suc f) d j pos top range fuel =
    (j, unfold scale_up in ground arith, omega arith, range)
scale_up-IsScaled (suc k) (suc f) d j pos top range fuel = elim (le_or_lt (2 ^ 63) (d * 2 ^ j)) [
  | inl done ↦ (j, unfold scale_up in ground arith, done, range)
  | inr low ↦
      let e : d * 2 ^ j * 2 ≡ d * 2 ^ suc j = omega (arith, ap (λ (x : ℕ). d * x) (pow-suc 2 j)) in
      let e' : 2 ^ j * 2 ≡ 2 ^ suc j = omega (arith, pow-suc 2 j) in
      let bit : 2 ^ j ≤ 2 ^ j * d = le-mul (2 ^ j) d pos in
      let top' : 2 ^ 63 ≤ d * 2 ^ suc j * 2 ^ k =
        omega (arith, ap (λ (x : ℕ). d * 2 ^ j * x) (pow-suc 2 k), ap (λ (x : ℕ). x * 2 ^ k) e) in
      rw (scale_up_more f (d * 2 ^ j) (2 ^ j) low (omega arith), e, e')
        (scale_up-IsScaled k f d (suc j) pos top' (omega (arith, e)) (omega arith))
]

-- The bit does not leave the word.
bit_bound : (d i : ℕ) → 0 < d → d * 2 ^ i < 2 ^ 64 → (i < 64) × (2 ^ i ≤ 2 ^ 63)
bit_bound d i pos h = elim (le_or_lt 64 i) [
  | inl l ↦
      let scaled : 2 ^ i ≤ 2 ^ i * d = le-mul (2 ^ i) d pos in
      let large : 2 ^ 64 ≤ 2 ^ i = pow-le-pow_right (omega arith) l in absurd (omega arith)
  | inr l ↦ (l, pow-le-pow_right (omega arith) {j = 63} (omega arith))
]

Divides-div : (n d : ℕ) (out : Option ℕ) → Divides out n d 0 → out ≡ some (n / d)
Divides-div n d out (k, r, e, total, rest) =
    let quotient : n / d ≡ k = div-eq_of_lt-le d (omega (arith, total)) (omega (arith, total)) in
    e ∙ ap some (omega arith)

udivdi3-Divides :
    (f n d i : ℕ)
    → 0 < d
    → n < 2 ^ 64
    → 64 < f
    → scale_up f d 1 ≡ some (d * 2 ^ i, 2 ^ i)
    → 2 ^ 63 ≤ d * 2 ^ i
    → d * 2 ^ i < 2 ^ 64
    → Divides (udivdi3 f n d) n d 0
unfolding udivdi3
udivdi3-Divides f n d i pos range fuel out top high =
    let (low, small) = bit_bound d i pos high in
    let nonzero : (d == 0) ≡ false = ground arith in
    rw (nonzero, out) (divide_bits-Divides i f n d 0 pos (omega arith) (omega arith) (omega arith))

-- `__udivdi3` returns the quotient rounded down, for every 64-bit number and every 64-bit divisor
-- but 0; 65 rounds of fuel are enough for each of its loops.
pub udivdi3_lem :
    (f n d : ℕ) → 0 < d → d < 2 ^ 64 → n < 2 ^ 64 → 64 < f → udivdi3 f n d ≡ some (n / d)
udivdi3_lem f n d pos small range fuel =
    let start : IsScaled (scale_up f (d * 2 ^ 0) (2 ^ 0)) d =
      scale_up-IsScaled 63 f d 0 pos (omega arith) (omega arith) (omega arith) in
    let same : d * 2 ^ 0 ≡ d = omega arith in
    let (i, out, top, high) = rw same at start in
    Divides-div n d (udivdi3 f n d) (udivdi3-Divides f n d i pos range fuel out top high)
