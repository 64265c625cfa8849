-- ===== src/CString/Compare.antt =====
-- `memcmp` and `memchr` of kernel/src/lib/string.c.
use native.Mathlib.Decide.{ℕ_discrete}
use k_os.Base.{
  ℕ, zero, suc, ◌+◌, ◌%◌, ◌^◌, ◌≤◌, ◌<◌, ◌≡◌, refl, ◌↔◌, ◌≢◌, inl, inr, Option, none, some, arith,
  ◌==◌, Bool-cases, ==_iff,
}
use k_os.Base.Memory.{Memory, bytes}
use k_os.Base.Int.{pos, signed_char_sub}
use k_os.CString.{memcmp_loop, memcmp, memchr_loop, memchr}

memcmp_loop_iff :
    (left i a b : ℕ) (m : Memory) (p q : ℕ)
    → ((x : ℕ) → m x < 2 ^ 8)
    → p ≡ a + i
    → q ≡ b + i
    → (memcmp_loop left i a b m ≡ pos 0) ↔ (bytes m p left ≡ bytes m q left)
unfolding memcmp_loop
memcmp_loop_iff zero i a b m p q h e e' = (λ _. refl, λ _. refl)
memcmp_loop_iff (suc left) i a b m p q h e e' =
    let (to, from) =
      memcmp_loop_iff left (suc i) a b m (suc p) (suc q) h (omega arith) (omega arith) in
    let apart = signed_char_sub (m (a + i)) (m (b + i)) (h (a + i)) (h (b + i)) in
    rw (e, e') (ground (arith, to, from, apart))

-- On memory of bytes, `memcmp` returns 0 exactly when the two blocks hold the same bytes.
pub memcmp_iff :
    (a b n : ℕ) (m : Memory)
    → ((x : ℕ) → m x < 2 ^ 8)
    → (memcmp a b n m ≡ pos 0) ↔ (bytes m a n ≡ bytes m b n)
unfolding memcmp
memcmp_iff a b n m h = memcmp_loop_iff n 0 a b m a b h (omega arith) (omega arith)

-- The outcome of looking for the byte `c` in the block of `n` bytes at `p`: the first place that
-- holds it, or `none` if no place does.
abbrev pub IsFirst : ℕ → ℕ → ℕ → Memory → Option ℕ → Type 0
IsFirst p n c m none = (a : ℕ) → p ≤ a → a < p + n → m a ≢ c
IsFirst p n c m (some q) = (p ≤ q) × (q < p + n) × (m q ≡ c) × ((a : ℕ) → p ≤ a → a < q → m a ≢ c)

IsFirst-suc :
    (p n c : ℕ) (m : Memory) (o : Option ℕ)
    → m p ≢ c
    → IsFirst (suc p) n c m o
    → IsFirst p (suc n) c m o
IsFirst-suc p n c m none ne h =
    λ a l r. elim (ℕ_discrete a p) [ yes e ↦ rw e ne | no e ↦ h a (omega arith) (omega arith) ]
IsFirst-suc p n c m (some q) ne h = (
  omega arith,
  omega arith,
  h.2,
  λ a l r. elim (ℕ_discrete a p) [ yes e ↦ rw e ne | no e ↦ h.3 a (omega arith) (omega arith) ],
)

memchr_loop-IsFirst : (n p c : ℕ) (m : Memory) → IsFirst p n c m (memchr_loop n p c m)
unfolding memchr_loop
memchr_loop-IsFirst zero p c m = λ a l r. absurd (omega arith)
memchr_loop-IsFirst (suc n) p c m = elim (Bool-cases (m p == c)) [
  | inl hit ↦
      rw hit (omega arith, omega arith, (==_iff (m p) c).0 hit, λ a l r. absurd (omega arith))
  | inr miss ↦ rw miss (
      IsFirst-suc p n c m (memchr_loop n (suc p) c m) (ground arith)
        (memchr_loop-IsFirst n (suc p) c m))
]

-- `memchr` finds the first byte equal to its argument modulo 256, and NULL only if there is none.
pub memchr-IsFirst :
    (p value n : ℕ) (m : Memory) → IsFirst p n (value % 2 ^ 8) m (memchr p value n m)
unfolding memchr
memchr-IsFirst p value n m = memchr_loop-IsFirst n p (value % 2 ^ 8) m
