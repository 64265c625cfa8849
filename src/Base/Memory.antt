-- ===== src/Base/Memory.antt =====
-- The byte memory that C's pointers address: a function from addresses to bytes.
use Prim.Native.Nat.{ℕ, zero, suc, ◌+◌, ◌-◌, ◌≤◌, ◌<◌}
use mathlib.Core.Path.{◌≡◌, refl, ap, ap₂, ◌∙◌}
use mathlib.Core.List.{List, [], ◌∷◌, ◌++◌}
use native.Mathlib.Omega.{arith}
use k_os.Base.Tests.{◌==◌, if◌then◌else◌}
use k_os.Base.Lists.{length, take, drop}

abbrev pub Memory : Type 0
Memory = ℕ → ℕ

-- `*p = v`
abbrev pub store : Memory → ℕ → ℕ → Memory
store m p v a = if a == p then v else m a

-- The `n` bytes from `p` on.
abbrev pub bytes : Memory → ℕ → ℕ → List ℕ
bytes m p zero = []
bytes m p (suc n) = m p ∷ bytes m (suc p) n

pub length-bytes : (m : Memory) (p n : ℕ) → length (bytes m p n) ≡ n
length-bytes m p zero = refl
length-bytes m p (suc n) = ap suc (length-bytes m (suc p) n)

pub bytes-append :
    (m : Memory) (p n k q j : ℕ) → q ≡ p + n → j ≡ n + k → bytes m p j ≡ bytes m p n ++ bytes m q k
bytes-append m p zero k q j e f = ap₂ (bytes m) (omega arith) (omega arith)
bytes-append m p (suc n) k q zero e f = absurd (omega arith)
bytes-append m p (suc n) k q (suc j) e f =
    ap (◌∷◌ (m p)) (bytes-append m (suc p) n k q j (omega arith) (omega arith))

pub take-bytes : (m : Memory) (p n k : ℕ) → k ≤ n → take k (bytes m p n) ≡ bytes m p k
take-bytes m p n zero h = refl
take-bytes m p zero (suc k) h = absurd (omega arith)
take-bytes m p (suc n) (suc k) h = ap (◌∷◌ (m p)) (take-bytes m (suc p) n k (omega arith))

pub drop-bytes : (m : Memory) (p n k : ℕ) → k ≤ n → drop k (bytes m p n) ≡ bytes m (p + k) (n - k)
drop-bytes m p n zero h = ap₂ (bytes m) (omega arith) (omega arith)
drop-bytes m p zero (suc k) h = absurd (omega arith)
drop-bytes m p (suc n) (suc k) h =
    drop-bytes m (suc p) n k (omega arith) ∙ ap₂ (bytes m) (omega arith) (omega arith)

-- Two memories that agree from `p` and from `q` on hold the same `n` bytes there.
pub bytes_ext :
    (m m' : Memory) (p q n : ℕ)
    → ((i : ℕ) → i < n → m (p + i) ≡ m' (q + i))
    → bytes m p n ≡ bytes m' q n
bytes_ext m m' p q zero h = refl
bytes_ext m m' p q (suc n) h =
    ap₂ ◌∷◌ (ap m (omega arith) ∙ h 0 (omega arith) ∙ ap m' (omega arith)) (
      bytes_ext m m' (suc p) (suc q) n
        (λ i l. ap m (omega arith) ∙ h (suc i) (omega arith) ∙ ap m' (omega arith)))
