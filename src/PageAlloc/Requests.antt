-- ===== src/PageAlloc/Requests.antt =====
-- The requests to the page allocator of kernel/src/mm/mm.c: taking pages and giving them back.
-- `log2` of kernel/inc/arch/math.h is the position of the highest bit; its loop gets fuel for the 32
-- bits of its argument.
pub mod Order
pub mod Give
pub mod Answer
use k_os.Base.{
  ℕ, zero, suc, ◌+◌, ◌-◌, ◌*◌, ◌/◌, ◌^◌, Bool, true, false, not, ◌&&◌, ◌||◌, Option, none, some,
  List, [], ◌∷◌, ltb, leb, ◌==◌, if◌then◌else◌,
}
use k_os.Base.Word.{add32, sub32}
use k_os.PageAlloc.{
  Page, PageAlloc, with_page, list_rm, trim_block, ripple_join, xor_bit, max_order,
}

-- `log2_32`
unfoldable pub log2_from : ℕ → ℕ → ℕ
log2_from zero n = 0
log2_from (suc f) n = if ltb n 2 then 0 else suc (log2_from f (n / 2))

unfoldable pub log2 : ℕ → ℕ
log2 n = log2_from 32 n

-- `target_order` of `do_alloc_pages`
unfoldable pub target_order : ℕ → ℕ
target_order number = if number == 2 ^ log2 number then log2 number else log2 number + 1

-- The loop of `do_alloc_pages` that marks `left` pages from `page` on.
unfoldable pub mark_used : ℕ → PageAlloc → ℕ → Option PageAlloc
mark_used zero s page = some s
mark_used (suc left) s page =
    let p = s.pages page in
    if p.used || p.perm || p.cache
    then none
    else mark_used left (with_page s page (record p { used = true })) (page + 1)

-- One order of `do_alloc_pages`, with a block at hand.
unfoldable pub alloc_block : PageAlloc → ℕ → ℕ → ℕ → Option (PageAlloc × ℕ)
alloc_block s order block number =
    if (s.pages block).used then none else elim (trim_block (list_rm s order block) block number) [
      | none ↦ none
      | some t ↦ elim (mark_used number t block) [
        | none ↦ none
        | some u ↦ some (record u { in_use = add32 u.in_use number }, block)
      ]
    ]

-- The loop of `do_alloc_pages` over the orders, with `left` of them to go.
unfoldable pub alloc_from : ℕ → PageAlloc → ℕ → ℕ → Option (PageAlloc × ℕ)
alloc_from zero s order number = none
alloc_from (suc left) s order number = elim (s.free order) [
  | [] ↦ alloc_from left s (order + 1) number
  | block ∷ _ ↦ alloc_block s order block number
]

-- `do_alloc_pages`
unfoldable pub do_alloc_pages : PageAlloc → ℕ → Option (PageAlloc × ℕ)
do_alloc_pages s number =
    alloc_from (max_order + 1 - target_order number) s (target_order number) number

-- The loop of `free_page` that clears the flags of `left` pages from `page` on.
unfoldable pub clear_flags : ℕ → PageAlloc → ℕ → Option PageAlloc
clear_flags zero s page = some s
clear_flags (suc left) s page =
    let p = s.pages page in
    if p.perm || not p.used
    then none
    else clear_flags left
        (with_page s page (record p { used = false; perm = false; cache = false })) (page + 1)

-- `free_page`
unfoldable pub free_page : PageAlloc → ℕ → Option PageAlloc
free_page s page =
    let page_size = 2 ^ (s.pages page).order in
    elim (clear_flags page_size (record s { in_use = sub32 s.in_use page_size }) page) [
      | none ↦ none
      | some t ↦ ripple_join t page
    ]

-- The loop of `free_pages`; every round clears a bit of `num`.
unfoldable pub free_from : ℕ → PageAlloc → ℕ → ℕ → Option PageAlloc
free_from zero s master num = none
free_from (suc f) s master num =
    if num == 0
    then some s
    else if num == (s.pages master).order
    then none
    else elim (free_page s master) [
      | none ↦ none
      | some t ↦ free_from f t (master + 2 ^ log2 num) (xor_bit num (log2 num))
    ]

-- `free_pages`
unfoldable pub free_pages : PageAlloc → ℕ → ℕ → Option PageAlloc
free_pages s pages num =
    free_from 33 (with_page s pages (record (s.pages pages) { compound_num = 0 })) pages num

-- `claim_page`
unfoldable pub claim_page : PageAlloc → ℕ → Option PageAlloc
claim_page s idx = elim (free_page (with_page s idx (record (s.pages idx) { perm = false })) idx) [
  | none ↦ none
  | some t ↦ some (record t { available = add32 t.available 1 })
]

-- `claim_pages`, with `num` pages to go from `idx` on.
unfoldable pub claim_pages : ℕ → PageAlloc → ℕ → Option PageAlloc
claim_pages zero s idx = some s
claim_pages (suc num) s idx = elim (claim_page s idx) [
  | none ↦ none
  | some t ↦ claim_pages num t (idx + 1)
]
