-- ===== src/PageAlloc/Requests/Answer.antt =====
-- The search of `do_alloc_pages` of kernel/src/mm/mm.c through the free lists.
use k_os.Base.{
  ℕ, zero, suc, ◌+◌, ◌-◌, ◌^◌, ◌≤◌, ◌<◌, ◌≡◌, refl, ap, ◌∙◌, subst, ◌⊎◌, inl, inr, Option, none,
  List, [], ◌∷◌, arith, eq_or_ne, le_or_lt,
}
use k_os.PageAlloc.{PageAlloc, max_order}
use k_os.PageAlloc.Blocks.{pow_twice}
use k_os.PageAlloc.Requests.{alloc_block, alloc_from, do_alloc_pages, target_order}
use k_os.PageAlloc.Requests.Order.{target_order_lem, IsLeastOrder, target_order-IsLeastOrder}
use k_os.PageAlloc.Requests.Give.{IsReady, IsGiven, alloc_block-IsGiven}

-- Every first block of the free lists is ready.
abbrev pub Ready : PageAlloc → Type 0
Ready s = (k b : ℕ) (bs : List ℕ) → k ≤ max_order → s.free k ≡ b ∷ bs → IsReady s k b

alloc_from_skip :
    (left : ℕ) (s : PageAlloc) (k number : ℕ)
    → s.free k ≡ []
    → alloc_from (suc left) s k number ≡ alloc_from left s (k + 1) number
unfolding alloc_from
alloc_from_skip left s k number e = rw (alloc_from, e) refl

alloc_from_take :
    (left : ℕ) (s : PageAlloc) (k b number : ℕ) (bs : List ℕ)
    → s.free k ≡ b ∷ bs
    → alloc_from (suc left) s k number ≡ alloc_block s k b number
unfolding alloc_from
alloc_from_take left s k b number bs e = rw (alloc_from, e) refl

-- The outcome of a request: pages are given out, or every list from the order `k` on is empty and
-- the request fails.
abbrev pub Answers : Option (PageAlloc × ℕ) → PageAlloc → ℕ → ℕ → Type 0
Answers out s number k =
    IsGiven out s number ⊎ ((out ≡ none) × ((o : ℕ) → k ≤ o → o ≤ max_order → s.free o ≡ []))

suc_last : (k : ℕ) → k + 1 ≡ suc k
suc_last k = omega arith

alloc_from-Answers :
    (left : ℕ) (s : PageAlloc) (k number : ℕ)
    → Ready s
    → 0 < number
    → number ≤ 2 ^ k
    → k + left ≡ max_order + 1
    → Answers (alloc_from left s k number) s number k
alloc_from-Answers zero s k number ready pos fits e =
    inr (unfold alloc_from in refl, λ o l h. absurd (omega arith))
alloc_from-Answers (suc left) s k number ready pos fits e = look (s.free k) refl (
    alloc_from-Answers left s (k + 1) number ready pos
      (omega (arith, ap (λ (x : ℕ). 2 ^ x) (suc_last k), pow_twice k)) (omega arith))
  where
    look :
        (xs : List ℕ)
        → s.free k ≡ xs
        → Answers (alloc_from left s (k + 1) number) s number (k + 1)
        → Answers (alloc_from (suc left) s k number) s number k
    look (b ∷ bs) at rest = inl (
        rw (alloc_from_take left s k b number bs at) (
          alloc_block-IsGiven s k b number bs at (ready k b bs (omega arith) at) pos fits
            (omega arith)))
    look [] at (inl given) = inl (rw (alloc_from_skip left s k number at) given)
    look [] at (inr (failed, empty)) = inr (
      alloc_from_skip left s k number at ∙ failed,
      λ o l h. elim (eq_or_ne o k) [ inl same ↦ rw same at | inr ne ↦ empty o (omega arith) h ],
    )

at_target_order :
    (s : PageAlloc) (number : ℕ)
    → Ready s
    → 0 < number
    → number < 2 ^ 32
    → Answers (do_alloc_pages s number) s number (target_order number)
unfolding do_alloc_pages
at_target_order s number ready pos small =
    let fits = (target_order_lem number pos small).0 in
    elim (le_or_lt (target_order number) max_order) [
      | inl low ↦
          alloc_from-Answers (max_order + 1 - target_order number) s (target_order number) number
            ready pos fits (omega arith)
      | inr high ↦
          let no_orders : max_order + 1 - target_order number ≡ 0 = omega arith in
          inr (rw no_orders (unfold alloc_from in refl), λ o l h. absurd (omega arith))
    ]

-- `do_alloc_pages` of any number of pages of 32 bits but 0, where the first block of every free list
-- may be given out, either gives out that many pages in a row, which leave the free lists while no
-- other page does, or fails when no list from the smallest order that fits on holds a block.
pub do_alloc_pages-Answers :
    (s : PageAlloc) (number k : ℕ)
    → Ready s
    → 0 < number
    → number < 2 ^ 32
    → IsLeastOrder number k
    → Answers (do_alloc_pages s number) s number k
do_alloc_pages-Answers s number k ready pos small least =
    subst (Answers (do_alloc_pages s number) s number)
      (target_order-IsLeastOrder number k pos small least)
      (at_target_order s number ready pos small)
