-- ===== src/CString/Strings.antt =====
-- `strlen`, `strcmp`, `strcpy`, `strdup` and `strchr` of kernel/src/lib/string.c on strings that a
-- NUL byte ends.
use native.Mathlib.Decide.{ℕ_discrete}
use k_os.Base.{
  ℕ, zero, suc, ◌+◌, ◌^◌, ◌≤◌, ◌<◌, ◌≡◌, refl, ◌↔◌, ◌≢◌, ap, ◌∙◌, ◌⊎◌, false, Option, none, some,
  List, [], ◌∷◌, arith, if◌then◌else◌, length,
}
use k_os.Base.Memory.{Memory, store}
use k_os.Base.Word.{add32_exact}
use k_os.Base.Int.{ℤ, pos, ◌-ℤ◌, signed_char, signed_char_sub, ◌==ℤ◌}
use k_os.CString.{strlen_loop, strlen, strcmp, strcpy, strdup, strchr}
use k_os.CString.Blocks.{inside}

-- The string `s` stands at `p`, with the NUL byte that ends it.
abbrev pub IsCString : Memory → ℕ → List ℕ → Type 0
IsCString m p [] = m p ≡ 0
IsCString m p (c ∷ s) = (m p ≡ c) × (c ≢ 0) × IsCString m (suc p) s

strlen_loop_lem :
    (s : List ℕ) (f p len : ℕ) (m : Memory)
    → IsCString m p s
    → length s < f
    → len + length s < 2 ^ 32
    → strlen_loop f p len m ≡ some (len + length s)
unfolding strlen_loop
strlen_loop_lem s zero p len m is fuel small = absurd (omega arith)
strlen_loop_lem [] (suc f) p len m is fuel small = ground arith
strlen_loop_lem (c ∷ s) (suc f) p len m is fuel small =
    ground (arith, add32_exact len 1, strlen_loop_lem s f (suc p) (len + 1) m)

-- `strlen` returns the length of every string that is shorter than 2 ^ 32; one step of fuel more
-- than its length is enough.
pub strlen_lem :
    (s : List ℕ) (f p : ℕ) (m : Memory)
    → IsCString m p s
    → length s < f
    → length s < 2 ^ 32
    → strlen f p m ≡ some (length s)
unfolding strlen
strlen_lem s f p m is fuel small =
    strlen_loop_lem s f p 0 m is fuel (omega arith) ∙ ap some (omega arith)

strcmp_differ :
    (f a b : ℕ) (m : Memory)
    → m a ≢ m b
    → strcmp (suc f) a b m ≡ some (signed_char (m a) -ℤ signed_char (m b))
unfolding strcmp
strcmp_differ f a b m ne = ground arith

strcmp_same :
    (f a b : ℕ) (m : Memory)
    → m a ≡ m b
    → m a ≢ 0
    → strcmp (suc f) a b m ≡ strcmp f (suc a) (suc b) m
unfolding strcmp
strcmp_same f a b m e ne = ground arith

-- The result of comparing two strings: it is 0 exactly when they are equal.
abbrev pub Compares : Option ℤ → List ℕ → List ℕ → Type 0
Compares out s t = (r : ℤ) × (out ≡ some r) × ((r ≡ pos 0) ↔ (s ≡ t))

Compares-differ :
    (f a b : ℕ) (m : Memory) (s t : List ℕ)
    → ((q : ℕ) → m q < 2 ^ 8)
    → m a ≢ m b
    → s ≢ t
    → Compares (strcmp (suc f) a b m) s t
Compares-differ f a b m s t h ne ne' = (
  signed_char (m a) -ℤ signed_char (m b),
  strcmp_differ f a b m ne,
  (λ e. absurd (ne ((signed_char_sub (m a) (m b) (h a) (h b)).0 e)), λ e. absurd (ne' e)),
)

-- On two strings in memory of bytes, with one step of fuel more than the length of the first,
-- `strcmp` returns, and returns 0 exactly when they are equal.
pub strcmp_iff :
    (s t : List ℕ) (f a b : ℕ) (m : Memory)
    → ((q : ℕ) → m q < 2 ^ 8)
    → IsCString m a s
    → IsCString m b t
    → length s < f
    → Compares (strcmp f a b m) s t
strcmp_iff s t zero a b m h is is' fuel = absurd (omega arith)
strcmp_iff [] [] (suc f) a b m h is is' fuel =
    (pos 0, unfold strcmp in ground arith, (λ e. refl, λ e. refl))
strcmp_iff [] (y ∷ t) (suc f) a b m h is is' fuel =
    Compares-differ f a b m [] (y ∷ t) h (ground arith) (λ e. cc)
strcmp_iff (x ∷ s) [] (suc f) a b m h is is' fuel =
    Compares-differ f a b m (x ∷ s) [] h (ground arith) (λ e. cc)
strcmp_iff (x ∷ s) (y ∷ t) (suc f) a b m h is is' fuel = elim (ℕ_discrete (m a) (m b)) [
  | yes e ↦
      let (r, out, (zero→eq, eq→zero)) =
        strcmp_iff s t f (suc a) (suc b) m h is.2 is'.2 (omega arith) in
      (
        r,
        strcmp_same f a b m e (ground arith) ∙ out,
        (λ z. ground (arith, zero→eq z), λ e'. eq→zero (cc)),
      )
  | no ne ↦ Compares-differ f a b m (x ∷ s) (y ∷ t) h ne (λ e. ground arith)
]

-- A string is where it was in a memory that agrees on its place.
IsCString-agree :
    (s : List ℕ) (p : ℕ) (m m' : Memory)
    → ((a : ℕ) → p ≤ a → a ≤ p + length s → m' a ≡ m a)
    → IsCString m p s
    → IsCString m' p s
IsCString-agree [] p m m' same is = same p (omega arith) (omega arith) ∙ is
IsCString-agree (c ∷ s) p m m' same is = (
  same p (omega arith) (omega arith) ∙ is.0,
  is.1,
  IsCString-agree s (suc p) m m' (λ a l h. same a (omega arith) (omega arith)) is.2,
)

-- A copy of `s` at `d`, and nothing else changed.
abbrev pub Copied : Option Memory → ℕ → List ℕ → Memory → Type 0
Copied out d s m =
    (m' : Memory) × (out ≡ some m')
    × IsCString m' d s
    × ((a : ℕ) → inside d (suc (length s)) a ≡ false → m' a ≡ m a)

-- `strcpy` of a string to a place apart from it, with one step of fuel more than its length, copies
-- it with its NUL byte, and changes no other byte.
pub strcpy_lem :
    (s : List ℕ) (f d p : ℕ) (m : Memory)
    → IsCString m p s
    → length s < f
    → (d + length s < p) ⊎ (p + length s < d)
    → Copied (strcpy f d p m) d s m
unfolding strcpy
strcpy_lem s zero d p m is fuel apart = absurd (omega arith)
strcpy_lem [] (suc f) d p m is fuel apart =
    (store m d (m p), ground arith, ground arith, λ a out. ground arith)
strcpy_lem (c ∷ s) (suc f) d p m is fuel apart =
    let moved : IsCString (store m d (m p)) (suc p) s =
      IsCString-agree s (suc p) m (store m d (m p)) (λ a l h. ground arith) is.2 in
    let (m', out, there, same) =
      strcpy_lem s f (suc d) (suc p) (store m d (m p)) moved (omega arith) (omega arith) in
    (m', ground arith, (ground (arith, same d), is.1, there), λ a o. ground (arith, same a))

-- `strdup` of a string shorter than 2 ^ 32, with one step of fuel more than its length, returns the
-- block that it is given apart from the string with a copy in it, and changes nothing outside that
-- block.
pub strdup_lem :
    (s : List ℕ) (f fresh p : ℕ) (m : Memory)
    → IsCString m p s
    → length s < f
    → length s < 2 ^ 32
    → (fresh + length s < p) ⊎ (p + length s < fresh)
    → (m' : Memory) × (strdup f fresh p m ≡ some (fresh, m'))
      × IsCString m' fresh s
      × ((a : ℕ) → inside fresh (suc (length s)) a ≡ false → m' a ≡ m a)
unfolding strdup
strdup_lem s f fresh p m is fuel small apart =
    let (m', out, there, same) = strcpy_lem s f fresh p m is fuel apart in
    (m', ground (arith, strlen_lem s f p m is fuel small), there, same)

-- The first place from `p` on that holds `c` as a `char`, as far as the NUL byte.
abbrev pub find_char : ℕ → List ℕ → ℤ → Option ℕ
find_char p [] c = if signed_char 0 ==ℤ c then some p else none
find_char p (x ∷ s) c = if signed_char x ==ℤ c then some p else find_char (suc p) s c

-- `strchr` looks at the bytes behind the first one only: on every string that is not empty, with a
-- step of fuel for each of its bytes and one more, it gives the first place from `p + 1` on where
-- the character stands, the NUL byte counted.
pub strchr_lem :
    (x : ℕ) (s : List ℕ) (f p : ℕ) (c : ℤ) (m : Memory)
    → IsCString m p (x ∷ s)
    → suc (length s) < f
    → strchr f p c m ≡ some (find_char (suc p) s c)
unfolding strchr
strchr_lem x s zero p c m is fuel = absurd (omega arith)
strchr_lem x [] (suc zero) p c m is fuel = absurd (omega arith)
strchr_lem x [] (suc (suc f)) p c m is fuel = ground arith
strchr_lem x (y ∷ s) (suc f) p c m is fuel =
    ground (arith, strchr_lem y s f (suc p) c m is.2 (omega arith))
