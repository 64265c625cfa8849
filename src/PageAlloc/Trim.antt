-- ===== src/PageAlloc/Trim.antt =====
-- `trim_block` of kernel/src/mm/mm.c: which pages of a block stay in hand, and which go to the free
-- lists.
use k_os.Base.{
  ℕ, zero, suc, ◌+◌, ◌-◌, ◌*◌, ◌/◌, ◌^◌, ◌≤◌, ◌<◌, ◌≡◌, refl, ◌∙◌, ap, true, false, ◌⊎◌, inl, inr,
  Option, some, ◌==◌, if◌then◌else◌, arith, leb, ltb, ==_refl, le_or_lt, eq_or_ne, le→leb,
}
use native.Mathlib.Nat.{div-eq_of_lt-le}
use k_os.PageAlloc.{
  Page, PageAlloc, with_page, list_add, is_free, trim_loop, trim_block, xor_bit, max_order,
}
use k_os.PageAlloc.Blocks.{
  pow_pos, pow_twice, IsAligned, IsAligned-half, IsAligned-upper, Splits, Splits-head, Splits-agree,
  with_order, with_order_self, with_order_other, is_free-with_order, split_block_lem,
  add_to_freelists_lem,
}
use k_os.PageAlloc.Cover.{within, cover, cover-list_add}

-- The first `actual` pages of the block stay in hand: the others are in the free lists once more,
-- and but for the orders of the block's pages nothing else changes.
pub record IsTrimmed (out : Option PageAlloc) (s : PageAlloc) (k b actual : ℕ) : Type 0 where
  pub s' : PageAlloc
  pub returns : out ≡ some s'
  pub released :
      (p : ℕ)
      → cover max_order s'.free p ≡ cover max_order s.free p + within (b + actual) (b + 2 ^ k) p
  pub flags : (p : ℕ) → s'.pages p ≡ record (s.pages p) { order = (s'.pages p).order }
  pub outside : (p : ℕ) → (p < b) ⊎ (b + 2 ^ k ≤ p) → s'.pages p ≡ s.pages p
  pub same_in_use : s'.in_use ≡ s.in_use
  pub same_available : s'.available ≡ s.available

trim_loop_done :
    (f : ℕ) (s : PageAlloc) (k b : ℕ)
    → (s.pages b).order ≡ k
    → trim_loop (suc f) s b (2 ^ k) ≡ some s
unfolding trim_loop
trim_loop_done f s k b e =
    let nonzero : (2 ^ k == 0) ≡ false = ground (arith, pow_pos k) in
    rw (trim_loop, e, nonzero, ==_refl (2 ^ k)) refl

module _ (f : ℕ) (s : PageAlloc) (k b actual : ℕ) (al : IsAligned (suc k) b)
    (e : (s.pages b).order ≡ suc k) (h : Splits s.pages (suc k) b) (some_pages : 0 < actual)
    (small : actual < 2 ^ suc k) where
  -- A round that halves the block.
  trim_loop_half : trim_loop (suc f) s b actual ≡ (
      if leb actual (2 ^ k)
      then trim_loop f (list_add (with_order s b k) k (b + 2 ^ k)) b actual
      else trim_loop f (with_order s b k) (b + 2 ^ k) (xor_bit actual k))
  unfolding trim_loop
  trim_loop_half =
      let one = pow_pos k in
      let some_left : (actual == 0) ≡ false = ground arith in
      let not_all : (actual == 2 ^ suc k) ≡ false = ground arith in
      let fits : ltb (2 ^ suc k) actual ≡ false = ground arith in
      let nonzero : (suc k == 0) ≡ false = ground arith in
      let half : 2 ^ suc k / 2 ≡ 2 ^ k = omega (arith, pow_twice k) in
      let other : (with_order s b k).pages (b + 2 ^ k) ≡ s.pages (b + 2 ^ k) =
        with_order_other s b k (b + 2 ^ k) (omega arith) in
      let free : is_free (s.pages (b + 2 ^ k)) ≡ true = Splits-head s.pages k (b + 2 ^ k) h.1 in
      let added =
        add_to_freelists_lem (with_order s b k) k (b + 2 ^ k) (IsAligned-upper k b al)
          (ap (λ (p : Page). p.order) other ∙ h.2) (ap is_free other ∙ free) in
      let self : ((with_order s b k).pages b).order ≡ k =
        ap (λ (p : Page). p.order) (with_order_self s b k) in
      rw
        (
          trim_loop,
          split_block_lem s k b al e h,
          ap is_free other ∙ free,
          added,
          self,
          Splits-head s.pages k b h.0,
          e,
          some_left,
          not_all,
          fits,
          half,
          nonzero,
        )
        refl

-- The bit that is toggled is the highest one of `actual`.
xor_bit_high : (a k : ℕ) → 2 ^ k ≤ a → a < 2 * 2 ^ k → xor_bit a k ≡ a - 2 ^ k
unfolding xor_bit
xor_bit_high a k low high =
    let e : a / 2 ^ k ≡ 1 = div-eq_of_lt-le (2 ^ k) (omega arith) (omega arith) in rw e refl

-- Another state that agrees with `s` but for the order of the head, and the free lists.
module _ (s : PageAlloc) (k b : ℕ) (al : IsAligned (suc k) b) (h : Splits s.pages (suc k) b) where
  Splits-lower : Splits (with_order s b k).pages k b
  Splits-lower =
      Splits-agree s.pages (with_order s b k).pages k b (is_free-with_order s b k b)
        (λ p l r. with_order_other s b k p (omega arith)) h.0

  Splits-upper : Splits (with_order s b k).pages k (b + 2 ^ k)
  Splits-upper =
      Splits-agree s.pages (with_order s b k).pages k (b + 2 ^ k)
        (is_free-with_order s b k (b + 2 ^ k)) (λ p l r. with_order_other s b k p (omega arith)) h.1

  upper-order : ((with_order s b k).pages (b + 2 ^ k)).order ≡ k
  upper-order =
      let one = pow_pos k in
      ap (λ (p : Page). p.order) (with_order_other s b k (b + 2 ^ k) (omega arith)) ∙ h.2

module _ (s : PageAlloc) (k b : ℕ) where
  lower-order : ((list_add (with_order s b k) k (b + 2 ^ k)).pages b).order ≡ k
  unfolding list_add
  lower-order = ap (λ (p : Page). p.order) (with_order_self s b k)

  Splits-listed :
      IsAligned (suc k) b
      → Splits s.pages (suc k) b
      → Splits (list_add (with_order s b k) k (b + 2 ^ k)).pages k b
  unfolding list_add
  Splits-listed al h = Splits-lower s k b al h

with_order-flags :
    (s : PageAlloc) (b k p : ℕ)
    → (with_order s b k).pages p ≡ record (s.pages p) { order = ((with_order s b k).pages p).order }
unfolding with_page
with_order-flags s b k p = elim (eq_or_ne p b) [
  | inl e ↦ rw (e, ==_refl b) refl
  | inr (inl l) ↦ let other : (p == b) ≡ false = ground arith in rw other refl
  | inr (inr l) ↦ let other : (p == b) ≡ false = ground arith in rw other refl
]

-- From a trimmed half to the whole block, where `low` is the half that is trimmed.
IsTrimmed-half :
    {out : Option PageAlloc} {s₁ : PageAlloc} {low now : ℕ} (s : PageAlloc) (k b actual : ℕ)
    → s₁.pages ≡ (with_order s b k).pages
    → s₁.in_use ≡ s.in_use
    → s₁.available ≡ s.available
    → b ≤ low
    → low + 2 ^ k ≤ b + 2 ^ suc k
    → ((p : ℕ)
        → cover max_order s₁.free p + within (low + now) (low + 2 ^ k) p
          ≡ cover max_order s.free p + within (b + actual) (b + 2 ^ suc k) p)
    → IsTrimmed out s₁ k low now
    → IsTrimmed out s (suc k) b actual
IsTrimmed-half s k b actual same same_use same_left at end count t =
    let one = pow_pos k in
    let twice = pow_twice k in
    record {
      s' = t.s';
      returns = t.returns;
      released = λ p. t.released p ∙ count p;
      flags = λ p.
          t.flags p
          ∙ ap (λ (q : Page). record q { order = (t.s'.pages p).order })
              (ap (λ (f : ℕ → Page). f p) same ∙ with_order-flags s b k p);
      outside = λ p out.
          t.outside p (omega arith)
          ∙ ap (λ (f : ℕ → Page). f p) same
          ∙ with_order_other s b k p (omega arith);
      same_in_use = t.same_in_use ∙ same_use;
      same_available = t.same_available ∙ same_left;
    }

IsTrimmed-lower :
    {out : Option PageAlloc} (s : PageAlloc) (k b actual : ℕ)
    → actual ≤ 2 ^ k
    → suc k ≤ max_order
    → IsTrimmed out (list_add (with_order s b k) k (b + 2 ^ k)) k b actual
    → IsTrimmed out s (suc k) b actual
unfolding list_add with_page
IsTrimmed-lower s k b actual fits small t =
    let twice = pow_twice k in
    IsTrimmed-half s k b actual refl refl refl (omega arith) (omega arith)
      (λ p.
        ground
          (arith, cover-list_add max_order (with_order s b k) k (b + 2 ^ k) p (omega arith), twice))
      t

IsTrimmed-upper :
    {out : Option PageAlloc} (s : PageAlloc) (k b actual : ℕ)
    → 2 ^ k < actual
    → IsTrimmed out (with_order s b k) k (b + 2 ^ k) (actual - 2 ^ k)
    → IsTrimmed out s (suc k) b actual
unfolding with_page
IsTrimmed-upper s k b actual large t =
    let twice = pow_twice k in
    IsTrimmed-half s k b actual refl refl refl (omega arith) (omega arith)
      (λ p. ap (λ (n : ℕ). cover max_order s.free p + n) (ground (arith, twice))) t

IsTrimmed-all :
    (f : ℕ) (s : PageAlloc) (k b actual : ℕ)
    → (s.pages b).order ≡ k
    → actual ≡ 2 ^ k
    → IsTrimmed (trim_loop (suc f) s b actual) s k b actual
IsTrimmed-all f s k b actual e all = rw all (record {
  s' = s;
  returns = trim_loop_done f s k b e;
  released = λ p. ground arith;
  flags = λ p. refl;
  outside = λ p out. refl;
  same_in_use = refl;
  same_available = refl;
})

trim_loop-IsTrimmed :
    (k f : ℕ) (s : PageAlloc) (b actual : ℕ)
    → IsAligned k b
    → (s.pages b).order ≡ k
    → Splits s.pages k b
    → 0 < actual
    → actual ≤ 2 ^ k
    → k ≤ max_order
    → k < f
    → IsTrimmed (trim_loop f s b actual) s k b actual
trim_loop-IsTrimmed k zero s b actual al e h some_pages fits small fuel = absurd (omega arith)
trim_loop-IsTrimmed zero (suc f) s b actual al e h some_pages fits small fuel =
    IsTrimmed-all f s zero b actual e (omega arith)
trim_loop-IsTrimmed (suc k) (suc f) s b actual al e h some_pages fits small fuel =
    elim (le_or_lt (2 ^ suc k) actual) [
      | inl all ↦ IsTrimmed-all f s (suc k) b actual e (omega arith)
      | inr part ↦ elim (le_or_lt actual (2 ^ k)) [
        | inl below ↦
            let half : trim_loop (suc f) s b actual
                ≡ trim_loop f (list_add (with_order s b k) k (b + 2 ^ k)) b actual =
              trim_loop_half f s k b actual al e h some_pages part
              ∙ rw (le→leb actual (2 ^ k) below) refl in
            rw half (
              IsTrimmed-lower s k b actual below small (
                trim_loop-IsTrimmed k f (list_add (with_order s b k) k (b + 2 ^ k)) b actual
                  (IsAligned-half k b al) (lower-order s k b) (Splits-listed s k b al h) some_pages
                  below (omega arith) (omega arith)))
        | inr above ↦
            let more : leb actual (2 ^ k) ≡ false = ground arith in
            let high : xor_bit actual k ≡ actual - 2 ^ k =
              xor_bit_high actual k (omega arith) (omega (arith, pow_twice k)) in
            let half : trim_loop (suc f) s b actual
                ≡ trim_loop f (with_order s b k) (b + 2 ^ k) (actual - 2 ^ k) =
              trim_loop_half f s k b actual al e h some_pages part ∙ rw (more, high) refl in
            rw half (
              IsTrimmed-upper s k b actual above (
                trim_loop-IsTrimmed k f (with_order s b k) (b + 2 ^ k) (actual - 2 ^ k)
                  (IsAligned-upper k b al) (upper-order s k b al h) (Splits-upper s k b al h)
                  (omega arith) (omega (arith, pow_twice k)) (omega arith) (omega arith)))
      ]
    ]

-- `trim_block` of a free block of order `k` up to the largest one, at a multiple of its size and
-- divided as it should be, keeps the first `actual` of its pages in hand, for `actual` from 1 to
-- the block's size: each page behind them is in one more block of the free lists than before, no
-- other page is, and nothing else changes but the orders of the block's pages.
pub trim_block-IsTrimmed :
    (k : ℕ) (s : PageAlloc) (b actual : ℕ)
    → IsAligned k b
    → (s.pages b).order ≡ k
    → Splits s.pages k b
    → 0 < actual
    → actual ≤ 2 ^ k
    → k ≤ max_order
    → IsTrimmed (trim_block s b actual) s k b actual
unfolding trim_block
trim_block-IsTrimmed k s b actual al e h some_pages fits small =
    let some_left : (actual == 0) ≡ false = ground arith in
    rw (trim_block, some_left, Splits-head s.pages k b h, e)
      (trim_loop-IsTrimmed k (suc k) s b actual al e h some_pages fits small (omega arith))
