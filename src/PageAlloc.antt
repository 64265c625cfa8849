-- ===== src/PageAlloc.antt =====
-- The page allocator of kernel/src/mm/mm.c: blocks of 2 ^ order pages, halved and joined again. A
-- page is its index in the array `pages`, a free list is a sequence of the indices of its blocks,
-- and `none` is a failed BUG_ON or the panic for want of memory. As built without CONFIG_DEBUG_MM,
-- `check_not_in_freelists` does nothing.
pub mod Blocks
pub mod Cover
pub mod Trim
pub mod Join
pub mod Requests
mod Tests
use k_os.Base.{
  ℕ, zero, suc, ◌+◌, ◌-◌, ◌*◌, ◌/◌, ◌%◌, ◌^◌, Bool, true, false, not, ◌&&◌, ◌||◌, Option, none,
  some, List, [], ◌∷◌, ltb, leb, ◌==◌, if◌then◌else◌,
}

-- `MAX_ORDER`
abbrev pub max_order : ℕ
max_order = 10

-- The fields of `page_t` that the allocator changes; the flags PAGE_FLAG_USED, PAGE_FLAG_PERM and
-- PAGE_FLAG_CACHE are Booleans.
pub record Page : Type 0 where
  pub used : Bool
  pub perm : Bool
  pub cache : Bool
  pub order : ℕ
  pub compound_num : ℕ

-- `pages`, `free_page_list`, `pages_in_use` and `pages_avaliable`
pub record PageAlloc : Type 0 where
  pub pages : ℕ → Page
  pub free : ℕ → List ℕ
  pub in_use : ℕ
  pub available : ℕ

-- `pages[i] = p`
unfoldable pub with_page : PageAlloc → ℕ → Page → PageAlloc
with_page s i p = record s { pages = λ j. if j == i then p else s.pages j }

-- `list_add(&page->list, &free_page_list[k])`
unfoldable pub list_add : PageAlloc → ℕ → ℕ → PageAlloc
list_add s k i = record s { free = λ j. if j == k then i ∷ s.free k else s.free j }

-- `list_rm(&page->list)` of a page in a free list
unfoldable pub unlink : ℕ → List ℕ → List ℕ
unlink i [] = []
unlink i (x ∷ xs) = if x == i then xs else x ∷ unlink i xs

unfoldable pub list_rm : PageAlloc → ℕ → ℕ → PageAlloc
list_rm s k i = record s { free = λ j. if j == k then unlink i (s.free k) else s.free j }

-- `get_order_idx`
unfoldable pub get_order_idx : ℕ → ℕ → ℕ
get_order_idx idx order = idx / 2 ^ order

-- `is_free`
unfoldable pub is_free : Page → Bool
is_free p = not p.used && not p.perm

-- `is_master`
unfoldable pub is_master : PageAlloc → ℕ → Bool
is_master s i = get_order_idx i (s.pages i).order % 2 == 0

-- `is_subblock_master`
unfoldable pub is_subblock_master : PageAlloc → ℕ → Bool
is_subblock_master s i =
    if (s.pages i).order == 0 then true else get_order_idx i ((s.pages i).order - 1) % 2 == 0

-- `get_buddy`
unfoldable pub get_buddy : PageAlloc → ℕ → ℕ
get_buddy s i = if is_master s i then i + 2 ^ (s.pages i).order else i - 2 ^ (s.pages i).order

-- `get_master`
unfoldable pub get_master : PageAlloc → ℕ → ℕ
get_master s i = if is_master s i then i else get_buddy s i

-- `add_to_freelists`
unfoldable pub add_to_freelists : PageAlloc → ℕ → Option PageAlloc
add_to_freelists s i =
    if not (is_free (s.pages i))
    then none
    else if not (is_subblock_master s i)
    then none
    else some (list_add s (s.pages i).order i)

-- `split_block`: the state behind it, and the buddy.
unfoldable pub split_block : PageAlloc → ℕ → Option (PageAlloc × ℕ)
split_block s master =
    let p = s.pages master in
    let s' = with_page s master (record p { order = p.order - 1 }) in
    let slave = get_buddy s' master in
    if not (is_subblock_master s master) || p.order == 0
    then none
    else if not ((s'.pages master).order == (s'.pages slave).order)
    then none
    else if not (is_free (s'.pages master)) || not (is_free (s'.pages slave))
    then none
    else some (s', slave)

-- `join_block`: the state behind it, and the master.
unfoldable pub join_block : PageAlloc → ℕ → Option (PageAlloc × ℕ)
join_block s page =
    let master = get_master s page in
    let buddy = get_buddy s master in
    let p = s.pages master in
    if not (p.order == (s.pages buddy).order) || p.order == max_order
    then none
    else if not (is_free p) || not (is_free (s.pages buddy))
    then none
    else some (with_page s master (record p { order = p.order + 1 }), master)

-- `actual ^= (1ULL << k)`
unfoldable pub xor_bit : ℕ → ℕ → ℕ
xor_bit a k = if a / 2 ^ k % 2 == 1 then a - 2 ^ k else a + 2 ^ k

-- The loop of `trim_block`. Every round lowers the order of the block at hand by one.
unfoldable pub trim_loop : ℕ → PageAlloc → ℕ → ℕ → Option PageAlloc
trim_loop zero s block actual = none
trim_loop (suc f) s block actual =
    let p = s.pages block in
    let block_size = 2 ^ p.order in
    if actual == 0
    then none
    else if actual == block_size
    then some s
    else if p.order == 0 || not (is_free p) || ltb block_size actual
    then none
    else elim (split_block s block) [
      | none ↦ none
      | some (s', buddy) ↦
          if leb actual (block_size / 2)
          then (if not (is_free (s'.pages buddy)) then none else elim (add_to_freelists s' buddy) [
            | none ↦ none
            | some s'' ↦ trim_loop f s'' block actual
          ])
          else trim_loop f s' buddy (xor_bit actual (s'.pages block).order)
    ]

-- `trim_block`
unfoldable pub trim_block : PageAlloc → ℕ → ℕ → Option PageAlloc
trim_block s block actual =
    if actual == 0 || not (is_free (s.pages block))
    then none
    else trim_loop (suc (s.pages block).order) s block actual

-- The loop of `ripple_join`. Every round raises the order of the block by one, up to `max_order`.
unfoldable pub ripple_loop : ℕ → PageAlloc → ℕ → Option PageAlloc
ripple_loop zero s block = none
ripple_loop (suc f) s block =
    let buddy = get_buddy s block in
    let p = s.pages block in
    if is_free (s.pages buddy) && ((s.pages buddy).order == p.order) && ltb p.order max_order
    then elim (join_block (list_rm s p.order buddy) block) [
      | none ↦ none
      | some (s', block') ↦
          let rest = ripple_loop f s' block' in
          if not (is_free (s'.pages block')) then none else rest
    ]
    else add_to_freelists s block

-- `ripple_join`
unfoldable pub ripple_join : PageAlloc → ℕ → Option PageAlloc
ripple_join s page = if not (is_free (s.pages page)) then none else ripple_loop 11 s page
