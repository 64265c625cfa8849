-- ===== src/PageAlloc/Tests.antt =====
-- Runs of kernel/src/mm/mm.c on a free block of eight pages at page 8.
use k_os.Base.{◌≡◌, refl, false, some, [], ◌∷◌, arith, get_or}
use k_os.PageAlloc.{
  PageAlloc, is_free, trim_block, trim_loop, split_block, add_to_freelists, list_add, with_page,
  is_subblock_master, get_order_idx, get_buddy, is_master, xor_bit,
}
use k_os.Base.{if◌then◌else◌, ◌==◌, eq_or_ne, inl, inr, ◌-◌, ◌⊎◌, ◌≤◌, ◌<◌, ◌^◌}
use k_os.PageAlloc.{join_block}
use k_os.PageAlloc.Join.{Rejoins, join_block-split_block}
use k_os.PageAlloc.Requests.{do_alloc_pages, target_order}
use k_os.PageAlloc.Requests.Order.{target_order_lem}
use k_os.PageAlloc.Requests.Answer.{Ready, Answers, do_alloc_pages-Answers}
use k_os.PageAlloc.Blocks.{IsAligned, Splits}
use k_os.PageAlloc.Trim.{IsTrimmed, trim_block-IsTrimmed}

-- The orders that joining eight single pages leaves behind.
abbrev eight : PageAlloc
eight = record {
  pages = λ p. record {
    used = false;
    perm = false;
    cache = false;
    order = get_or (0 ∷ 0 ∷ 0 ∷ 0 ∷ 0 ∷ 0 ∷ 0 ∷ 0 ∷ 3 ∷ 0 ∷ 1 ∷ 0 ∷ 2 ∷ 0 ∷ 1 ∷ 0 ∷ []) p 0;
    compound_num = 0;
  };
  free = λ k. [];
  in_use = 0;
  available = 8;
}

eight-IsAligned : IsAligned 3 8
eight-IsAligned = record { count = 1; start = refl }

eight-Splits : Splits eight.pages 3 8
unfolding is_free
eight-Splits = (
  ((refl, refl, refl), (refl, refl, refl), refl),
  ((refl, refl, refl), (refl, refl, refl), refl),
  refl,
)

-- Of five pages in hand, one page and a block of two pages are left over.
five :
    (s : PageAlloc) × (trim_block eight 8 5 ≡ some s) × (s.free 0 ≡ 13 ∷ []) × (s.free 1 ≡ 14 ∷ [])
unfolding trim_block trim_loop split_block add_to_freelists list_add with_page is_subblock_master
    get_order_idx get_buddy is_master xor_bit is_free
five = (_, refl, refl, refl)

trim_block-IsTrimmed_example : IsTrimmed (trim_block eight 8 5) eight 3 8 5
trim_block-IsTrimmed_example =
    trim_block-IsTrimmed 3 eight 8 5 eight-IsAligned refl eight-Splits (omega arith) (omega arith)
      (omega arith)

-- The same block, on the free list of its order.
abbrev listed : PageAlloc
listed = record eight { free = λ k. if k == 3 then 8 ∷ [] else [] }

listed-Ready : Ready listed
listed-Ready k b bs small e = elim (eq_or_ne k 3) [
  | inl at ↦
      let first : b ≡ 8 = ground (arith, e) in
      rw (at, first)
        (record {
          aligned = eight-IsAligned;
          order = refl;
          splits = eight-Splits;
          unflagged = λ p l h. (refl, refl, refl);
        })
  | inr ne ↦ absurd (ground (arith, e))
]

do_alloc_pages-Answers_example : Answers (do_alloc_pages listed 5) listed 5 3
do_alloc_pages-Answers_example =
    do_alloc_pages-Answers listed 5 3 listed-Ready (omega arith) (omega arith)
      (omega arith, inr (omega arith))

target_order_example :
    (5 ≤ 2 ^ target_order 5) × ((target_order 5 ≡ 0) ⊎ (2 ^ (target_order 5 - 1) < 5))
target_order_example = target_order_lem 5 (omega arith) (omega arith)

join_block-split_block_example :
    (t : PageAlloc) × (split_block eight 8 ≡ some (t, 12)) × Rejoins eight (join_block t 12) 8
join_block-split_block_example =
    join_block-split_block eight 2 8 12 eight-IsAligned refl eight-Splits (omega arith) (inr refl)
