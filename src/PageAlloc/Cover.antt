-- ===== src/PageAlloc/Cover.antt =====
-- How often the free lists of kernel/src/mm/mm.c hold a page.
use k_os.Base.{
  ℕ, zero, suc, ◌+◌, ◌^◌, ◌≤◌, ◌<◌, ◌≡◌, ap, inl, inr, false, ◌&&◌, List, [], ◌∷◌, ◌==◌,
  if◌then◌else◌, arith, leb, ltb, ==_refl, eq_or_ne,
}
use k_os.PageAlloc.{PageAlloc, list_add, list_rm, unlink}

-- 1 if `p` is in `[low, high)`, and 0 if not.
abbrev pub within : ℕ → ℕ → ℕ → ℕ
within low high p = if leb low p && ltb p high then 1 else 0

-- How many blocks of order `k` in a list hold the page `p`, and how many in the free lists up to an
-- order.
abbrev pub covers : ℕ → List ℕ → ℕ → ℕ
covers k [] p = 0
covers k (b ∷ bs) p = within b (b + 2 ^ k) p + covers k bs p

abbrev pub cover : ℕ → (ℕ → List ℕ) → ℕ → ℕ
cover zero free p = covers 0 (free 0) p
cover (suc n) free p = covers (suc n) (free (suc n)) p + cover n free p

cover-list_add_above :
    (n : ℕ) (s : PageAlloc) (k b p : ℕ) → n < k → cover n (list_add s k b).free p ≡ cover n s.free p
unfolding list_add
cover-list_add_above zero s k b p h = ground arith
cover-list_add_above (suc n) s k b p h =
    let ih = cover-list_add_above n s k b p (omega arith) in
    let other : (suc n == k) ≡ false = ground arith in
    rw other (ap (λ (x : ℕ). covers (suc n) (s.free (suc n)) p + x) ih)

-- A block put into the free lists covers its pages once more.
pub cover-list_add :
    (n : ℕ) (s : PageAlloc) (k b p : ℕ)
    → k ≤ n
    → cover n (list_add s k b).free p ≡ cover n s.free p + within b (b + 2 ^ k) p
unfolding list_add
cover-list_add zero s k b p h = let e : k ≡ 0 = omega arith in rw e (omega arith)
cover-list_add (suc n) s k b p h = elim (eq_or_ne k (suc n)) [
  | inl e ↦
      let ih = cover-list_add_above n s (suc n) b p (omega arith) in
      rw (e, ==_refl (suc n)) (omega (arith, ih))
  | inr ne ↦
      let ih = cover-list_add n s k b p (omega arith) in
      let other : (suc n == k) ≡ false = ground arith in rw other (omega (arith, ih))
]

cover-list_rm_above :
    (n : ℕ) (s : PageAlloc) (k b p : ℕ) → n < k → cover n (list_rm s k b).free p ≡ cover n s.free p
unfolding list_rm
cover-list_rm_above zero s k b p h = ground arith
cover-list_rm_above (suc n) s k b p h =
    let ih = cover-list_rm_above n s k b p (omega arith) in
    let other : (suc n == k) ≡ false = ground arith in
    rw other (ap (λ (x : ℕ). covers (suc n) (s.free (suc n)) p + x) ih)

-- The first block of a list, taken off it, covers its pages once less.
pub cover-list_rm :
    (n : ℕ) (s : PageAlloc) (k b p : ℕ) (bs : List ℕ)
    → k ≤ n
    → s.free k ≡ b ∷ bs
    → cover n (list_rm s k b).free p + within b (b + 2 ^ k) p ≡ cover n s.free p
unfolding list_rm unlink
cover-list_rm zero s k b p bs h e =
    let zeroth : k ≡ 0 = omega arith in
    let first : s.free 0 ≡ b ∷ bs = rw zeroth at e in rw (zeroth, first, ==_refl b) (omega arith)
cover-list_rm (suc n) s k b p bs h e = elim (eq_or_ne k (suc n)) [
  | inl at ↦
      let ih = cover-list_rm_above n s (suc n) b p (omega arith) in
      let first : s.free (suc n) ≡ b ∷ bs = rw at at e in
      rw (at, ==_refl (suc n), first, ==_refl b) (omega (arith, ih))
  | inr ne ↦
      let ih = cover-list_rm n s k b p bs (omega arith) e in
      let other : (suc n == k) ≡ false = ground arith in rw other (omega (arith, ih))
]
