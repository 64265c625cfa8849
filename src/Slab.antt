-- ===== src/Slab.antt =====
-- kernel/src/mm/cache.c: the slab allocator. A cache owns pages of `max` objects of one size; the
-- header of a page links its free objects by index. Pages are named by their addresses, `pages`
-- holds their headers, and a list holds the addresses of the pages on it, the first one first.
-- `none` is a failed BUG_ON or a panic. The page that `alloc_page` would give is the argument
-- `fresh` of the operations that may need one.
pub mod Page
pub mod State
pub mod Take
pub mod Alloc
pub mod Fresh
pub mod Free
pub mod Classes
mod Tests
use k_os.Base.{
  ℕ, zero, suc, ◌+◌, ◌-◌, ◌*◌, ◌/◌, ◌^◌, Bool, true, false, ◌&&◌, ◌||◌, not, Option, none, some,
  List, [], ◌∷◌, leb, ◌==◌, if◌then◌else◌, get_or, set,
}
use k_os.Base.Word.{add32, sub32, mul32}

-- `FREELIST_END`, `PAGE_SIZE` and `sizeof(cache_page_t)`
abbrev pub freelist_end : ℕ
freelist_end = 2 ^ 31

abbrev pub page_size : ℕ
page_size = 0x1000

abbrev pub header_size : ℕ
header_size = 32

-- `cache_page_t`, less its list node and its pointers to the cache and the page.
pub record CachePage : Type 0 where
  pub left : ℕ
  pub free : ℕ
  pub freelist : List ℕ
  pub mem : ℕ

-- `struct cache`, less its lock and flags, with the headers of its pages.
pub record Cache : Type 0 where
  pub size : ℕ
  pub max : ℕ
  pub full : List ℕ
  pub partial : List ℕ
  pub empty : List ℕ
  pub pages : ℕ → CachePage

-- The header at `a` replaced.
abbrev pub put_page : (ℕ → CachePage) → ℕ → CachePage → ℕ → CachePage
put_page pages a pg b = if b == a then pg else pages b

-- `list_rm`: the page is taken off the list that it is on.
unfoldable pub list_rm : ℕ → List ℕ → List ℕ
list_rm a [] = []
list_rm a (b ∷ bs) = if b == a then list_rm a bs else b ∷ list_rm a bs

-- `freelist[i] = i + 1` from `i` on, for `n` entries, and then `freelist[left - 1] = FREELIST_END`.
unfoldable pub link_from : ℕ → ℕ → List ℕ
link_from i zero = []
link_from i (suc n) = (i + 1) ∷ link_from (i + 1) n

-- `cache_alloc_page`, where `a` is the page from `alloc_page`.
unfoldable pub cache_alloc_page : Cache → ℕ → Option Cache
cache_alloc_page c a =
    if c.max == 0
    then none
    else some (record c {
      empty = a ∷ c.empty;
      pages = put_page c.pages a (record {
        left = c.max;
        free = 0;
        freelist = set (link_from 0 c.max) (c.max - 1) freelist_end;
        mem = add32 a (add32 header_size (mul32 4 c.max));
      });
    })

-- `cache_do_alloc`
unfoldable pub cache_do_alloc : CachePage → Option CachePage
cache_do_alloc pg =
    if pg.free == freelist_end
    then none
    else some (record pg { left = sub32 pg.left 1; free = get_or pg.freelist pg.free freelist_end })

-- `cache_do_free`
unfoldable pub cache_do_free : CachePage → ℕ → CachePage
cache_do_free pg free_idx = record pg {
  left = add32 pg.left 1;
  freelist = set pg.freelist free_idx pg.free;
  free = free_idx;
}

-- The object that `cache_alloc` takes from the page at `a`, and the page behind it.
unfoldable pub take_object : Cache → ℕ → Option (ℕ × CachePage)
take_object c a =
    let pg = c.pages a in
    elim (cache_do_alloc pg) [
      | none ↦ none
      | some pg' ↦ some (add32 pg.mem (mul32 pg.free c.size), pg')
    ]

-- The branch of `cache_alloc` for a page of the partial list.
unfoldable pub alloc_partial : Cache → ℕ → Option (ℕ × Cache)
alloc_partial c a = elim (take_object c a) [
  | none ↦ none
  | some (obj, pg) ↦
      let c' = record c { pages = put_page c.pages a pg } in
      some (
        obj,
        if pg.left == 0 then record c' { partial = list_rm a c.partial; full = a ∷ c.full } else c',
      )
]

-- The branch of `cache_alloc` for a page of the empty list.
unfoldable pub alloc_empty : Cache → ℕ → Option (ℕ × Cache)
alloc_empty c a = elim (take_object c a) [
  | none ↦ none
  | some (obj, pg) ↦
      let c' = record c { pages = put_page c.pages a pg; empty = list_rm a c.empty } in
      some (
        obj,
        if pg.left == 0
            then record c' { full = a ∷ c.full }
            else record c' { partial = a ∷ c.partial },
      )
]

-- `cache_alloc` behind its first line.
unfoldable pub alloc_listed : Cache → Option (ℕ × Cache)
alloc_listed c = elim c.partial [
  | a ∷ _ ↦ alloc_partial c a
  | [] ↦ elim c.empty [ a ∷ _ ↦ alloc_empty c a | [] ↦ none ]
]

unfoldable pub list_empty : List ℕ → Bool
list_empty [] = true
list_empty (a ∷ as_) = false

-- `cache_alloc`
unfoldable pub cache_alloc : Cache → ℕ → Option (ℕ × Cache)
cache_alloc c fresh =
    if list_empty c.partial && list_empty c.empty
    then elim (cache_alloc_page c fresh) [ none ↦ none | some c' ↦ alloc_listed c' ]
    else alloc_listed c

-- `mem_to_cache_page`
unfoldable pub mem_to_cache_page : ℕ → ℕ
mem_to_cache_page mem = mem / page_size * page_size

-- The first half of `cache_free`: the page at `a` is moved by its count before the call.
unfoldable pub move_page : Cache → ℕ → Cache
move_page c a =
    if add32 (c.pages a).left 1 == c.max
    then record c {
      full = list_rm a c.full;
      partial = list_rm a c.partial;
      empty = a ∷ list_rm a c.empty;
    }
    else if (c.pages a).left == 0
    then record c {
      full = list_rm a c.full;
      partial = a ∷ list_rm a c.partial;
      empty = list_rm a c.empty;
    }
    else c

-- `cache_free`
unfoldable pub cache_free : Cache → ℕ → Cache
cache_free c mem =
    let a = mem_to_cache_page mem in
    let pg = c.pages a in
    record (move_page c a) {
      pages = put_page c.pages a (cache_do_free pg (sub32 mem pg.mem / c.size));
    }

-- `cache_create` for objects of `size` bytes: how many fit a page, and no page yet.
unfoldable pub cache_create : ℕ → Cache
cache_create size = record {
  size = size;
  max = (page_size - header_size) / (size + 4);
  full = [];
  partial = [];
  empty = [];
  pages = λ _. record { left = 0; free = freelist_end; freelist = []; mem = 0 };
}

-- `KALLOC_CACHE_SHIFT_MIN` and `KALLOC_CACHE_SHIFT_MAX`
abbrev pub shift_min : ℕ
shift_min = 3

abbrev pub shift_max : ℕ
shift_max = 11

-- The loop of `kalloc_cache_index` from `i` on; `none` is the BUG behind it.
unfoldable pub index_from : ℕ → ℕ → ℕ → Option ℕ
index_from zero i size = none
index_from (suc rounds) i size =
    let rest = index_from rounds (i + 1) size in
    if leb size (2 ^ i) then some (i - shift_min) else rest

-- `kalloc_cache_index`
unfoldable pub kalloc_cache_index : ℕ → Option ℕ
unfolding index_from
kalloc_cache_index size = index_from (shift_max - shift_min + 1) shift_min size

-- The check of `kalloc_cache_alloc`, which panics on a request that is too large.
unfoldable pub kalloc_class : ℕ → Option ℕ
kalloc_class size = if leb size (2 ^ shift_max) then kalloc_cache_index size else none
