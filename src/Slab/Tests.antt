-- ===== src/Slab/Tests.antt =====
-- Runs of kernel/src/mm/cache.c on a cache of four objects to a page.
use k_os.Base.{
  ℕ, ◌+◌, ◌*◌, ◌≤◌, ◌≡◌, refl, ◌⊎◌, inl, inr, none, some, List, [], ◌∷◌, ◌==◌, arith, Bool-cases,
}
use k_os.Base.Word.{add32, sub32, mul32}
use k_os.Slab.{
  Cache, CachePage, kalloc_class, page_size, header_size, freelist_end, cache_create, cache_alloc,
  cache_free, cache_alloc_page, alloc_listed, alloc_empty, list_empty, put_page, take_object,
  cache_do_alloc, link_from, list_rm,
}
use k_os.Slab.Page.{upto}
use k_os.Slab.State.{Slots, put_slots, PageAt, IsCache}
use k_os.Slab.Take.{object}
use k_os.Slab.Alloc.{IsAllocated, cache_alloc-listed}
use k_os.Slab.Fresh.{cache_alloc-new}
use k_os.Slab.Free.{cache_free-IsCache}
use k_os.Slab.Classes.{cache_create-IsCache, objects_apart, IsClass, kalloc_class-IsClass}

abbrev no_header : CachePage
no_header = record { left = 0; free = freelist_end; freelist = []; mem = 0 }

abbrev none_yet : Cache
none_yet = record {
  size = 1000;
  max = 4;
  full = [];
  partial = [];
  empty = [];
  pages = λ _. no_header;
}

abbrev no_slots : Slots
no_slots _ = none

cache_create-IsCache_example : IsCache (cache_create 1000) no_slots
cache_create-IsCache_example = cache_create-IsCache 1000 (omega arith) (omega arith)

none_yet-IsCache : IsCache none_yet no_slots
unfolding cache_create
none_yet-IsCache = cache_create-IsCache 1000 (omega arith) (omega arith)

cache_alloc-new_example :
    IsAllocated
      (cache_alloc none_yet 0x1000)
      none_yet
      (put_slots no_slots 0x1000 (upto 0 4))
      0x1000
      (upto 0 4)
cache_alloc-new_example =
    cache_alloc-new none_yet no_slots none_yet-IsCache 0x1000 refl refl (omega arith) refl refl

-- The page at 0x1000 after its object 0 went out.
abbrev header : CachePage
header = record { left = 3; free = 1; freelist = 1 ∷ 2 ∷ 3 ∷ freelist_end ∷ []; mem = 0x1030 }

abbrev one_out : Cache
one_out = record none_yet { partial = 0x1000 ∷ []; pages = put_page (λ _. no_header) 0x1000 header }

abbrev slots : Slots
slots = put_slots no_slots 0x1000 (1 ∷ 2 ∷ 3 ∷ [])

one_out-returned :
    (o : Cache) × (cache_alloc none_yet 0x1000 ≡ some (0x1030, o))
    × (o.partial ≡ 0x1000 ∷ [])
    × (o.pages 0x1000 ≡ header)
unfolding cache_alloc cache_alloc_page alloc_listed alloc_empty list_empty take_object
    cache_do_alloc link_from list_rm add32 sub32 mul32
one_out-returned = (_, refl, refl, refl)

header-PageAt : PageAt header 4 0x1000 (1 ∷ 2 ∷ 3 ∷ [])
header-PageAt = record {
  page = record {
    count = refl;
    links = refl;
    small = omega arith;
    fits = omega arith;
    chain = ground arith;
  };
  mem = refl;
  aligned = refl;
  high = omega arith;
}

one_out-IsCache : IsCache one_out slots
one_out-IsCache = record {
  some_objects = omega arith;
  some_bytes = omega arith;
  fits = omega arith;
  has_page = λ a xs e. elim (Bool-cases (a == 0x1000)) [
    | inl hit ↦
        let at : a ≡ 0x1000 = ground arith in
        let same : xs ≡ 1 ∷ 2 ∷ 3 ∷ [] = ground (arith, e) in rw (at, same) header-PageAt
    | inr miss ↦ absurd (ground (arith, e, miss))
  ];
  listed = λ a. ground arith;
}

cache_alloc-listed_example :
    (a : ℕ) × (free : List ℕ) × (slots a ≡ some free)
    × IsAllocated (cache_alloc one_out 0x2000) one_out slots a free
unfolding list_empty
cache_alloc-listed_example = cache_alloc-listed one_out slots one_out-IsCache 0x2000 refl

cache_free-IsCache_example :
    IsCache
      (cache_free one_out (object one_out 0x1000 0))
      (put_slots slots 0x1000 (0 ∷ 1 ∷ 2 ∷ 3 ∷ []))
cache_free-IsCache_example =
    cache_free-IsCache one_out slots 0x1000 0 (1 ∷ 2 ∷ 3 ∷ []) one_out-IsCache refl (omega arith)
      refl

objects_apart_example :
    (0x1000 + header_size + 4 * 4 ≤ object one_out 0x1000 1)
    × (object one_out 0x1000 1 + 1000 ≤ 0x1000 + page_size)
    × ((object one_out 0x1000 1 + 1000 ≤ object one_out 0x2000 1)
        ⊎ (object one_out 0x2000 1 + 1000 ≤ object one_out 0x1000 1))
objects_apart_example =
    objects_apart one_out slots one_out-IsCache 0x1000 0x2000 1 1 refl refl (omega arith)
      (omega arith) (inl (omega arith))

kalloc_class-IsClass_example : IsClass 100 (kalloc_class 100)
kalloc_class-IsClass_example = kalloc_class-IsClass 100
