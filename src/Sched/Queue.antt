-- ===== src/Sched/Queue.antt =====
-- The queue of kernel/src/sched/sched.c: what is in it, and that nothing is in it twice.
use k_os.Base.{
  ℕ, ◌≡◌, ◌≢◌, refl, sym, true, false, ◌||◌, some, List, [], ◌∷◌, ◌==◌, eq_or_ne, subst, inl, inr,
  arith,
}
use k_os.Sched.{mem, list_add_entry, set_at}

-- No entry stands twice.
abbrev pub IsDistinct : List ℕ → Type 0
IsDistinct [] = Unit
IsDistinct (t ∷ ts) = (mem t ts ≡ false) × IsDistinct ts

pub list_add_entry_fresh :
    (t : ℕ) (ts : List ℕ) → mem t ts ≡ false → list_add_entry t ts ≡ some (t ∷ ts)
unfolding list_add_entry
list_add_entry_fresh t ts e = rw e refl

pub mem_cons : (t u : ℕ) (us : List ℕ) → mem t (u ∷ us) ≡ t == u || mem t us
unfolding mem
mem_cons t u us = refl

pub set_at_same {ℓ} : {A : Type ℓ} (f : ℕ → A) (i : ℕ) (x : A) (j : ℕ) → j ≡ i → set_at f i x j ≡ x
unfolding set_at
set_at_same f i x j e = let t : (j == i) ≡ true = ground arith in rw t refl

pub set_at_other {ℓ} :
    {A : Type ℓ} (f : ℕ → A) (i : ℕ) (x : A) (j : ℕ) → j ≢ i → set_at f i x j ≡ f j
unfolding set_at
set_at_other f i x j e = let t : (j == i) ≡ false = ground arith in rw t refl

-- What holds of a function with another value at one place.
pub set_at_cases {ℓ κ} :
    {A : Type ℓ} (P : A → Type κ) (f : ℕ → A) (i : ℕ) (x : A) (j : ℕ)
    → (j ≡ i → P x)
    → (j ≢ i → P (f j))
    → P (set_at f i x j)
set_at_cases P f i x j same other = elim (eq_or_ne j i) [
  | inl e ↦ subst P (sym (set_at_same f i x j e)) (same e)
  | inr e ↦ let ne : j ≢ i = omega arith in subst P (sym (set_at_other f i x j ne)) (other ne)
]

-- An entry that is another one than the first.
pub mem_tail : (t u : ℕ) (us : List ℕ) → t ≢ u → mem t (u ∷ us) ≡ mem t us
unfolding mem
mem_tail t u us ne = let e : (t == u) ≡ false = ground arith in rw e refl

pub mem_head : (t u : ℕ) (us : List ℕ) → t ≡ u → mem t (u ∷ us) ≡ true
unfolding mem
mem_head t u us same = let e : (t == u) ≡ true = ground arith in rw e refl
