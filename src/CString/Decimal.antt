-- ===== src/CString/Decimal.antt =====
-- `itoa` and `atoi` of kernel/src/lib/string.c: printing an `int` in decimal and reading it back.
use k_os.Base.{
  ℕ, zero, suc, ◌+◌, ◌-◌, ◌*◌, ◌/◌, ◌%◌, ◌^◌, ◌≤◌, ◌<◌, ◌≡◌, ◌≢◌, ap, ◌∙◌, inl, inr, false, Option,
  some, List, [], ◌∷◌, arith, ◌==◌, Bool-cases, length, All,
}
use native.Mathlib.Nat.{pow-suc}
use k_os.Base.Memory.{Memory, store}
use k_os.Base.Int.{ℤ, pos, negsuc, neg, pos_part, neg_part}
use k_os.CString.{charset, atoi_loop, skip_plus, atoi, itoa_digits, itoa_put, itoa_nat, itoa}
use k_os.CString.Strings.{IsCString}

abbrev IsDigit : ℕ → Type 0
IsDigit c = (b'0' ≤ c) × (c ≤ b'9')

-- The number that decimal digits stand for behind the number `acc`.
abbrev value_of : ℕ → List ℕ → ℕ
value_of acc [] = acc
value_of acc (c ∷ s) = value_of (acc * 10 + (c - b'0')) s

value_of-le : (s : List ℕ) (acc : ℕ) → acc ≤ value_of acc s
value_of-le [] acc = omega arith
value_of-le (c ∷ s) acc = omega (arith, value_of-le s (acc * 10 + (c - b'0')))

-- Reading: a string of digits whose value fits an `int`.
atoi_loop-value_of :
    (s : List ℕ) (f p acc : ℕ) (m : Memory)
    → IsCString m p s
    → All IsDigit s
    → length s < f
    → value_of acc s < 2 ^ 31
    → atoi_loop f p acc m ≡ some (value_of acc s)
unfolding atoi_loop
atoi_loop-value_of s zero p acc m is ds fuel fits = absurd (omega arith)
atoi_loop-value_of [] (suc f) p acc m is ds fuel fits = ground arith
atoi_loop-value_of (c ∷ s) (suc f) p acc m is ds fuel fits = ground (
  arith,
  value_of-le s (acc * 10 + (c - b'0')),
  atoi_loop-value_of s f (suc p) (acc * 10 + (c - b'0')) m is.2 ds.1 (omega arith) fits,
)

-- Digits of `value`, put in front of those in `scratch`.
abbrev Prints : Option (List ℕ) → ℕ → List ℕ → ℕ → Type 0
Prints out value scratch k =
    (cs : List ℕ) × (out ≡ some cs)
    × All IsDigit cs
    × (value_of 0 cs ≡ value_of value scratch)
    × (length cs ≤ length scratch + k)

itoa_digits-Prints :
    (k f value idx : ℕ) (scratch : List ℕ)
    → value < 2 ^ k
    → k < f
    → idx + k ≤ 64
    → All IsDigit scratch
    → Prints (itoa_digits f value 10 idx scratch) value scratch k
unfolding itoa_digits charset
itoa_digits-Prints k zero value idx scratch small fuel room ds = absurd (omega arith)
itoa_digits-Prints zero (suc f) value idx scratch small fuel room ds =
    (scratch, ground arith, ds, ap (λ (n : ℕ). value_of n scratch) (omega arith), omega arith)
itoa_digits-Prints (suc k) (suc f) value idx scratch small fuel room ds =
    elim (Bool-cases (value == 0)) [
      | inl done ↦ (
        scratch,
        ground arith,
        ds,
        ap (λ (n : ℕ). value_of n scratch) (ground arith),
        omega arith,
      )
      | inr more ↦
          let c : ℕ = charset (value % 10) in
          let smaller : value / 10 < 2 ^ k = omega (arith, pow-suc 2 k) in
          let (cs, out, digits, total, short) =
            itoa_digits-Prints k f (value / 10) (suc idx) (c ∷ scratch) smaller (omega arith)
              (omega arith) (ground arith, ds) in
          (
            cs,
            ground (arith, out),
            digits,
            total ∙ ap (λ (n : ℕ). value_of n scratch) (ground arith),
            omega arith,
          )
    ]

-- The characters `cs` are put at `p` with a NUL byte behind them.
abbrev Puts : Memory → List ℕ → ℕ → Memory → Type 0
Puts m' cs p m = IsCString m' p cs × ((a : ℕ) → a < p → m' a ≡ m a)

itoa_put-Puts : (cs : List ℕ) (p : ℕ) (m : Memory) → All IsDigit cs → Puts (itoa_put cs p m) cs p m
unfolding itoa_put
itoa_put-Puts [] p m ds = (ground arith, λ a l. ground arith)
itoa_put-Puts (c ∷ cs) p m ds =
    let (there, below) = itoa_put-Puts cs (suc p) (store m p c) ds.1 in
    (
      (ground (arith, below p (omega arith)), omega arith, there),
      λ a l. ground (arith, below a (omega arith)),
    )

-- What `itoa` leaves for `n`: a decimal numeral for it at `p`, and nothing changed below `p`.
record IsNumeral (out : Option Memory) (n p : ℕ) (m : Memory) : Type 0 where
  after : Memory
  first : ℕ
  others : List ℕ
  returns : out ≡ some after
  there : IsCString after p (first ∷ others)
  digits : All IsDigit (first ∷ others)
  total : value_of 0 (first ∷ others) ≡ n
  short : length others ≤ 31
  below : (a : ℕ) → a < p → after a ≡ m a

IsNumeral-Prints :
    (n p : ℕ) (m : Memory)
    → (n == 0) ≡ false
    → Prints (itoa_digits 65 n 10 0 []) n [] 31
    → IsNumeral (itoa_nat n p 10 m) n p m
unfolding itoa_nat
IsNumeral-Prints n p m ne ([], out, ds, total, short) = absurd (ground arith)
IsNumeral-Prints n p m ne (c ∷ cs, out, ds, total, short) =
    let (there, below) = itoa_put-Puts (c ∷ cs) p m ds in
    record {
      after = itoa_put (c ∷ cs) p m;
      first = c;
      others = cs;
      returns = ground arith;
      there = there;
      digits = ds;
      total = total;
      short = omega arith;
      below = below;
    }

itoa_nat-IsNumeral : (n p : ℕ) (m : Memory) → n < 2 ^ 31 → IsNumeral (itoa_nat n p 10 m) n p m
itoa_nat-IsNumeral n p m small = elim (Bool-cases (n == 0)) [
  | inl z ↦ record {
    after = store (store m p b'0') (suc p) 0;
    first = b'0';
    others = [];
    returns = unfold itoa_nat in ground arith;
    there = ground arith;
    digits = omega arith;
    total = ground arith;
    short = omega arith;
    below = λ a l. ground arith;
  }
  | inr nz ↦
      IsNumeral-Prints n p m nz
        (itoa_digits-Prints 31 65 n 0 [] small (omega arith) (omega arith) tt)
]

-- Reading an unsigned numeral, where no plus sign stands.
IsNumeral-atoi_loop :
    {out : Option Memory} {n p : ℕ} {m : Memory} (f : ℕ) (num : IsNumeral out n p m)
    → n < 2 ^ 31
    → 32 < f
    → atoi_loop f (skip_plus p num.after) 0 num.after ≡ some n
unfolding skip_plus
IsNumeral-atoi_loop {n} {p} f num small fuel =
    let start : skip_plus p num.after ≡ p = ground (arith, num.there, num.digits) in
    rw start (
      atoi_loop-value_of (num.first ∷ num.others) f p 0 num.after num.there num.digits
        (omega (arith, num.short)) (omega (arith, num.total))
      ∙ ap some num.total)

atoi_plain :
    (f p n : ℕ) (m : Memory)
    → m p ≢ b'-'
    → atoi_loop f (skip_plus p m) 0 m ≡ some n
    → atoi f p m ≡ some (pos n)
unfolding atoi
atoi_plain f p n m ne e = ground arith

atoi_negative :
    (f p n : ℕ) (m : Memory)
    → m p ≡ b'-'
    → atoi_loop f (skip_plus (suc p) m) 0 m ≡ some (suc n)
    → atoi f p m ≡ some (negsuc n)
unfolding atoi neg
atoi_negative f p n m minus e = ground arith

-- `atoi` reads back what `itoa` prints in decimal, for every `int` but the least one, with 33 steps
-- of fuel: a numeral has 32 digits at most.
pub atoi-itoa :
    (z : ℤ) (f p : ℕ) (m : Memory)
    → pos_part z < 2 ^ 31
    → neg_part z < 2 ^ 31
    → 32 < f
    → (m' : Memory) × (itoa z p 10 m ≡ some m') × (atoi f p m' ≡ some z)
unfolding itoa
atoi-itoa (pos n) f p m small _ fuel =
    let num = itoa_nat-IsNumeral n p m small in
    (
      num.after,
      num.returns,
      atoi_plain f p n num.after (ground (arith, num.there, num.digits))
          (IsNumeral-atoi_loop f num small fuel),
    )
atoi-itoa (negsuc n) f p m _ small fuel =
    let num = itoa_nat-IsNumeral (suc n) (suc p) (store m p b'-') small in
    (
      num.after,
      ground (arith, num.returns),
      atoi_negative f p n num.after (ground (arith, num.below p (omega arith)))
          (IsNumeral-atoi_loop f num small fuel),
    )
