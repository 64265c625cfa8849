-- ===== src/Slab/Fresh.antt =====
-- `cache_alloc` of kernel/src/mm/cache.c when it has to take a new page.
use k_os.Base.{
  ℕ, ◌+◌, ◌-◌, ◌*◌, ◌%◌, ◌<◌, ◌^◌, ◌≡◌, refl, ◌∙◌, ap, true, false, ◌&&◌, none, some, [], ◌∷◌, ◌==◌,
  arith,
}
use k_os.Base.Word.{add32, mul32, add32_exact, mul32_exact}
use k_os.Slab.{
  Cache, CachePage, page_size, header_size, put_page, alloc_empty, cache_alloc, cache_alloc_page,
  list_empty,
}
use k_os.Slab.Page.{upto, IsPage-new, new_links, length-upto, upto-cons}
use k_os.Slab.State.{Slots, put_slots, IsCache, Changed-IsCache}
use k_os.Slab.Take.{take_object-Taken}
use k_os.Slab.Alloc.{IsAllocated, alloc_empty-Taken, alloc_listed-empty}

module _ (c : Cache) (σ : Slots) (v : IsCache c σ) (a : ℕ) (unknown : σ a ≡ none)
    (al : a % page_size ≡ 0) (hi : a + page_size < 2 ^ 32) where
  -- The header that `cache_alloc_page` writes.
  abbrev new_header : CachePage
  new_header = record {
    left = c.max;
    free = 0;
    freelist = new_links c.max;
    mem = a + header_size + 4 * c.max;
  }

  abbrev with_page : Cache
  with_page = record c { empty = a ∷ c.empty; pages = put_page c.pages a new_header }

  cache_alloc_page_lem : cache_alloc_page c a ≡ some with_page
  unfolding cache_alloc_page
  cache_alloc_page_lem =
      let some_left : (c.max == 0) ≡ false = ground (arith, v.some_objects) in
      let e : add32 a (add32 header_size (mul32 4 c.max)) ≡ a + header_size + 4 * c.max =
        ap (λ (n : ℕ). add32 a (add32 header_size n)) (mul32_exact 4 c.max (omega (arith, v.fits)))
        ∙ ap (add32 a) (add32_exact header_size (4 * c.max) (omega (arith, v.fits)))
        ∙ add32_exact a (header_size + 4 * c.max) (omega (arith, v.fits))
        ∙ omega arith in
      rw (cache_alloc_page, some_left, e)

  with_page-IsCache : IsCache with_page (put_slots σ a (upto 0 c.max))
  with_page-IsCache =
      Changed-IsCache v
        (record {
          same_size = refl;
          same_max = refl;
          pages = refl;
          here = ground (arith, rw unknown at (v.listed a), length-upto 0 c.max, v.some_objects);
          elsewhere = λ b ne. ground arith;
        })
        (record {
          page = IsPage-new c.max _ v.some_objects (omega (arith, v.fits));
          mem = refl;
          aligned = al;
          high = hi;
        })

  enters : c.partial ≡ [] → c.empty ≡ [] → cache_alloc c a ≡ alloc_empty with_page a
  unfolding cache_alloc list_empty
  enters e e' =
      let both : (list_empty c.partial && list_empty c.empty) ≡ true = ground (arith, e, e') in
      rw (cache_alloc, both, cache_alloc_page_lem) (alloc_listed-empty with_page a c.empty e refl)

  -- In a valid cache whose partial and empty lists are empty, and with a new page that is aligned,
  -- not the cache's yet and ends below 2 ^ 32, `cache_alloc` hands out an object of that page, and
  -- leaves the cache valid with the page's other objects free.
  pub cache_alloc-new :
      c.partial ≡ []
      → c.empty ≡ []
      → IsAllocated (cache_alloc c a) c (put_slots σ a (upto 0 c.max)) a (upto 0 c.max)
  cache_alloc-new e e' =
      let first = upto-cons 0 c.max v.some_objects in
      let s : put_slots σ a (upto 0 c.max) a ≡ some (0 ∷ upto 1 (c.max - 1)) =
        ground (arith, first) in
      let taken =
        take_object-Taken with_page (put_slots σ a (upto 0 c.max)) a 0 (upto 1 (c.max - 1))
          with_page-IsCache (with_page-IsCache.has_page a (0 ∷ upto 1 (c.max - 1)) s) in
      let out =
        alloc_empty-Taken with_page (put_slots σ a (upto 0 c.max)) a 0 with_page-IsCache
          (upto 1 (c.max - 1)) taken s (ground arith) in
      record {
        i = out.i;
        rest = out.rest;
        c' = out.c';
        first = first ∙ out.first;
        returns = enters e e' ∙ out.returns;
        low = out.low;
        taken = out.taken;
        valid = out.valid;
      }
