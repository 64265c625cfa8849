-- ===== src/Tcp/Ports/Free.antt =====
-- The list of free ephemeral ports of kernel/src/net/ip/tcp.c, and the one that `ephemeral_init`
-- makes.
use k_os.Base.{
  ℕ, zero, suc, ◌+◌, ◌-◌, ◌<◌, ◌≡◌, ◌≢◌, refl, ap, ◌∙◌, Option, none, List, [], ◌∷◌, ◌==◌, All,
  arith, true, false,
}
use k_os.Tcp.Ports.{Ports, put, freelist_end, ephemeral_start, ephemeral_num, ephemeral_init}

-- The offsets that `next` goes through, from `x` to the end of the list.
abbrev pub IsChain : (ℕ → ℕ) → ℕ → List ℕ → Type 0
IsChain next x [] = x ≡ freelist_end
IsChain next x (y ∷ ys) = (x ≡ y) × (y < ephemeral_num) × IsChain next (next y) ys

abbrev pub IsDistinct : List ℕ → Type 0
IsDistinct [] = Unit
IsDistinct (x ∷ xs) = All (λ y. y ≢ x) xs × IsDistinct xs

-- `xs` are the free ports' offsets, the next one to be taken first; no socket is at one of them.
pub record IsFree (s : Ports) (xs : List ℕ) : Type 0 where
  pub chain : IsChain s.next s.free xs
  pub distinct : IsDistinct xs
  pub unused : All (λ x. s.sock (x + ephemeral_start) ≡ none) xs

pub put_self {ℓ} : {A : Type ℓ} (a : ℕ → A) (i : ℕ) (v : A) → put a i v i ≡ v
unfolding put
put_self a i v = let e : (i == i) ≡ true = ground arith in rw e refl

pub put_other {ℓ} : {A : Type ℓ} (a : ℕ → A) (i j : ℕ) (v : A) → j ≢ i → put a i v j ≡ a j
unfolding put
put_other a i j v ne = let e : (j == i) ≡ false = ground arith in rw e refl

-- A link that is not on the chain may change.
pub IsChain-put :
    (next : ℕ → ℕ) (y v x : ℕ) (xs : List ℕ)
    → All (λ z. z ≢ y) xs
    → IsChain next x xs
    → IsChain (put next y v) x xs
IsChain-put next y v x [] away e = e
IsChain-put next y v x (z ∷ zs) (ne, away) (e, low, rest) =
    (e, low, rw (put_other next y z v ne) (IsChain-put next y v (next z) zs away rest))

pub unused-put :
    (sock : ℕ → Option ℕ) (y : ℕ) (v : Option ℕ) (xs : List ℕ)
    → All (λ z. z ≢ y) xs
    → All (λ x. sock (x + ephemeral_start) ≡ none) xs
    → All (λ x. put sock (y + ephemeral_start) v (x + ephemeral_start) ≡ none) xs
unused-put sock y v [] away all = tt
unused-put sock y v (z ∷ zs) (ne, away) (e, all) = (
  put_other sock (y + ephemeral_start) (z + ephemeral_start) v (λ h. ne (omega (arith, h))) ∙ e,
  unused-put sock y v zs away all,
)

-- The numbers from `x` on, `n` of them.
abbrev pub range : ℕ → ℕ → List ℕ
range x zero = []
range x (suc n) = x ∷ range (suc x) n

All-range : (x y n : ℕ) → y < x → All (λ z. z ≢ y) (range x n)
All-range x y zero h = tt
All-range x y (suc n) h = (λ e. absurd (omega arith), All-range (suc x) y n (omega arith))

range-IsDistinct : (x n : ℕ) → IsDistinct (range x n)
range-IsDistinct x zero = tt
range-IsDistinct x (suc n) = (All-range (suc x) x n (omega arith), range-IsDistinct (suc x) n)

range-IsChain :
    (x n : ℕ)
    → x + suc n ≡ ephemeral_num
    → IsChain (put (λ i. i + 1) (ephemeral_num - 1) freelist_end) x (range x (suc n))
range-IsChain x zero e =
    let last : x ≡ ephemeral_num - 1 = omega arith in
    (
      refl,
      omega arith,
      ap (put (λ i. i + 1) (ephemeral_num - 1) freelist_end) last
          ∙ put_self (λ i. i + 1) (ephemeral_num - 1) freelist_end,
    )
range-IsChain x (suc n) e =
    let step : put (λ i. i + 1) (ephemeral_num - 1) freelist_end x ≡ suc x =
      put_other (λ i. i + 1) (ephemeral_num - 1) x freelist_end (λ h. absurd (omega arith))
      ∙ omega arith in
    (refl, omega arith, rw step (range-IsChain (suc x) n (omega arith)))

unused_range : (x n : ℕ) → All (λ x. ephemeral_init.sock (x + ephemeral_start) ≡ none) (range x n)
unfolding ephemeral_init
unused_range x zero = tt
unused_range x (suc n) = (refl, unused_range (suc x) n)

-- `ephemeral_init` leaves every ephemeral port free, in their order from 49152 on.
pub ephemeral_init-IsFree : IsFree ephemeral_init (range 0 ephemeral_num)
unfolding ephemeral_init
ephemeral_init-IsFree = record {
  chain = range-IsChain 0 (ephemeral_num - 1) (omega arith);
  distinct = range-IsDistinct 0 ephemeral_num;
  unused = unused_range 0 ephemeral_num;
}
