-- ===== src/PageAlloc/Blocks.antt =====
-- Blocks of pages of kernel/src/mm/mm.c: where the halves of a block lie, and what a block must look
-- like inside so that it can be halved.
use k_os.Base.{
  ℕ, zero, suc, ◌+◌, ◌-◌, ◌*◌, ◌/◌, ◌%◌, ◌^◌, ◌<◌, ◌≡◌, refl, ◌≢◌, ◌∙◌, ap, true, false, inl, inr,
  some, ◌==◌, arith, Bool-cases, ==_refl,
}
use native.Mathlib.Nat.{pow-suc, div-eq_of_eq-mul_left}
use k_os.PageAlloc.{
  Page, PageAlloc, with_page, list_add, is_free, is_master, is_subblock_master, get_order_idx,
  get_buddy, split_block, add_to_freelists,
}

pub pow_pos : (k : ℕ) → 0 < 2 ^ k
pow_pos zero = omega arith
pow_pos (suc k) = omega (arith, pow-suc 2 k, pow_pos k)

pub pow_twice : (k : ℕ) → 2 ^ suc k ≡ 2 * 2 ^ k
pow_twice k = pow-suc 2 k ∙ omega arith

-- A block of order `k` starts at a multiple of its size.
pub record IsAligned (k b : ℕ) : Type 0 where
  pub count : ℕ
  pub start : b ≡ count * 2 ^ k

pub IsAligned-half : (k b : ℕ) → IsAligned (suc k) b → IsAligned k b
IsAligned-half k b al = record {
  count = 2 * al.count;
  start = omega (arith, al.start, ap (λ (x : ℕ). al.count * x) (pow_twice k));
}

pub IsAligned-upper : (k b : ℕ) → IsAligned (suc k) b → IsAligned k (b + 2 ^ k)
IsAligned-upper k b al = record {
  count = 2 * al.count + 1;
  start = omega (arith, al.start, ap (λ (x : ℕ). al.count * x) (pow_twice k));
}

pub IsAligned-div : (k b : ℕ) (al : IsAligned k b) → b / 2 ^ k ≡ al.count
IsAligned-div k b al = div-eq_of_eq-mul_left (pow_pos k) al.start

-- The first half of a block is the master of its two halves.
pub IsAligned-even : (k b : ℕ) → IsAligned (suc k) b → (b / 2 ^ k % 2 == 0) ≡ true
IsAligned-even k b al =
    let e : b / 2 ^ k ≡ 2 * al.count =
      div-eq_of_eq-mul_left (pow_pos k)
        (omega (arith, al.start, ap (λ (x : ℕ). al.count * x) (pow_twice k))) in
    ground (arith, e)

pub IsAligned-odd : (k b : ℕ) → IsAligned (suc k) b → ((b + 2 ^ k) / 2 ^ k % 2 == 0) ≡ false
IsAligned-odd k b al =
    let e : (b + 2 ^ k) / 2 ^ k ≡ 2 * al.count + 1 =
      div-eq_of_eq-mul_left (pow_pos k)
        (omega (arith, al.start, ap (λ (x : ℕ). al.count * x) (pow_twice k))) in
    ground (arith, e)

-- A free block of order `k` at `b` that can be halved down to single pages: every half's head says
-- how large the half is. The head of the block itself is not looked at.
abbrev pub Splits : (ℕ → Page) → ℕ → ℕ → Type 0
Splits ps zero b = is_free (ps b) ≡ true
Splits ps (suc k) b = Splits ps k b × Splits ps k (b + 2 ^ k) × ((ps (b + 2 ^ k)).order ≡ k)

pub Splits-head : (ps : ℕ → Page) (k b : ℕ) → Splits ps k b → is_free (ps b) ≡ true
Splits-head ps zero b h = h
Splits-head ps (suc k) b h = Splits-head ps k b h.0

-- Only the pages behind the head, and the head's flags, matter.
pub Splits-agree :
    (ps ps' : ℕ → Page) (k b : ℕ)
    → is_free (ps' b) ≡ is_free (ps b)
    → ((p : ℕ) → b < p → p < b + 2 ^ k → ps' p ≡ ps p)
    → Splits ps k b
    → Splits ps' k b
Splits-agree ps ps' zero b free same h = free ∙ h
Splits-agree ps ps' (suc k) b free same h =
    let one = pow_pos k in
    let twice = pow_twice k in
    let upper : ps' (b + 2 ^ k) ≡ ps (b + 2 ^ k) =
      same (b + 2 ^ k) (omega arith) (omega (arith, twice)) in
    (
      Splits-agree ps ps' k b free (λ p l r. same p l (omega (arith, twice))) h.0,
      Splits-agree ps ps' k (b + 2 ^ k) (ap is_free upper)
          (λ p l r. same p (omega arith) (omega (arith, twice))) h.1,
      ap (λ (p : Page). p.order) upper ∙ h.2,
    )

-- The order of a page changed.
abbrev pub with_order : PageAlloc → ℕ → ℕ → PageAlloc
with_order s b k = with_page s b (record (s.pages b) { order = k })

pub with_order_other : (s : PageAlloc) (b k p : ℕ) → p ≢ b → (with_order s b k).pages p ≡ s.pages p
unfolding with_page
with_order_other s b k p ne = ground (arith, ne)

pub with_order_self :
    (s : PageAlloc) (b k : ℕ) → (with_order s b k).pages b ≡ record (s.pages b) { order = k }
unfolding with_page
with_order_self s b k = rw (==_refl b) refl

pub is_free-with_order :
    (s : PageAlloc) (b k p : ℕ) → is_free ((with_order s b k).pages p) ≡ is_free (s.pages p)
unfolding with_page is_free
is_free-with_order s b k p = elim (Bool-cases (p == b)) [
  | inl hit ↦ rw hit (ground arith)
  | inr miss ↦ rw miss refl
]

-- The first half's buddy is the second half, and the other way round.
pub get_buddy_lower :
    (s : PageAlloc) (k b : ℕ)
    → IsAligned (suc k) b
    → (s.pages b).order ≡ k
    → get_buddy s b ≡ b + 2 ^ k
unfolding get_buddy is_master get_order_idx
get_buddy_lower s k b al e = rw (e, IsAligned-even k b al) refl

pub get_buddy_upper :
    (s : PageAlloc) (k b : ℕ)
    → IsAligned (suc k) b
    → (s.pages (b + 2 ^ k)).order ≡ k
    → get_buddy s (b + 2 ^ k) ≡ b
unfolding get_buddy is_master get_order_idx
get_buddy_upper s k b al e = rw (e, IsAligned-odd k b al) (omega arith)

is_subblock_master_lem :
    (s : PageAlloc) (k b : ℕ)
    → IsAligned k b
    → (s.pages b).order ≡ k
    → is_subblock_master s b ≡ true
unfolding is_subblock_master get_order_idx
is_subblock_master_lem s zero b al e = rw e refl
is_subblock_master_lem s (suc k) b al e = rw e (ground (arith, IsAligned-even k b al))

-- `split_block` of a block of order `k + 1` gives its two halves.
pub split_block_lem :
    (s : PageAlloc) (k b : ℕ)
    → IsAligned (suc k) b
    → (s.pages b).order ≡ suc k
    → Splits s.pages (suc k) b
    → split_block s b ≡ some (with_order s b k, b + 2 ^ k)
unfolding split_block
split_block_lem s k b al e h =
    let one = pow_pos k in
    let lower : (s.pages b).order - 1 ≡ k = omega arith in
    let nonzero : ((s.pages b).order == 0) ≡ false = ground arith in
    let self = with_order_self s b k in
    let other = with_order_other s b k (b + 2 ^ k) (omega arith) in
    let same : ((with_order s b k).pages b).order ≡ k = ap (λ (p : Page). p.order) self in
    let slave : ((with_order s b k).pages (b + 2 ^ k)).order ≡ k =
      ap (λ (p : Page). p.order) other ∙ h.2 in
    let free : is_free ((with_order s b k).pages b) ≡ true =
      is_free-with_order s b k b ∙ Splits-head s.pages k b h.0 in
    let free' : is_free ((with_order s b k).pages (b + 2 ^ k)) ≡ true =
      is_free-with_order s b k (b + 2 ^ k) ∙ Splits-head s.pages k (b + 2 ^ k) h.1 in
    rw
      (
        split_block,
        lower,
        get_buddy_lower (with_order s b k) k b al same,
        is_subblock_master_lem s (suc k) b al e,
        nonzero,
        same,
        slave,
        free,
        free',
        ==_refl k,
      )
      refl

-- `add_to_freelists` of a free block puts it into the list of its order.
pub add_to_freelists_lem :
    (s : PageAlloc) (k b : ℕ)
    → IsAligned k b
    → (s.pages b).order ≡ k
    → is_free (s.pages b) ≡ true
    → add_to_freelists s b ≡ some (list_add s k b)
unfolding add_to_freelists
add_to_freelists_lem s k b al e free =
    rw (add_to_freelists, free, is_subblock_master_lem s k b al e, e) refl
