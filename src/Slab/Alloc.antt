-- ===== src/Slab/Alloc.antt =====
-- `cache_alloc` of kernel/src/mm/cache.c hands out a free object of a page of the cache.
use k_os.Base.{
  ℕ, ◌<◌, ◌≡◌, refl, ◌∙◌, ap, sym, subst, ◌⊎◌, inl, inr, true, false, ◌&&◌, Option, none, some,
  List, [], ◌∷◌, ◌==◌, arith,
}
use k_os.Slab.{
  Cache, CachePage, put_page, list_rm, alloc_partial, alloc_empty, alloc_listed, cache_alloc,
  list_empty,
}
use k_os.Slab.Page.{contains}
use k_os.Slab.State.{Slots, put_slots, OnLists, IsCache, contains-list_rm, Changed, Changed-IsCache}
use k_os.Slab.Take.{object, Taken, take_object-Taken}

-- The outcome of `cache_alloc`: the object `i` of the page at `a`, which was free with `rest`, is
-- handed out, and `rest` is what is left free of that page; all other pages are as before.
pub record IsAllocated (out : Option (ℕ × Cache)) (c : Cache) (σ : Slots) (a : ℕ) (free : List ℕ)
    : Type 0 where
  pub i : ℕ
  pub rest : List ℕ
  pub c' : Cache
  pub first : free ≡ i ∷ rest
  pub returns : out ≡ some (object c a i, c')
  pub low : i < c.max
  pub taken : contains rest i ≡ false
  pub valid : IsCache c' (put_slots σ a rest)

module _ (c : Cache) (σ : Slots) (a i : ℕ) (v : IsCache c σ) where
  -- What the lists say of a page of the partial or the empty list with `i ∷ rest` free.
  on_lists :
      (rest : List ℕ)
      → σ a ≡ some (i ∷ rest)
      → OnLists c.max
          (contains c.full a)
          (contains c.partial a)
          (contains c.empty a)
          (some (i ∷ rest))
  on_lists rest e = rw e at (v.listed a)

  partial_used_up :
      (pg : CachePage)
      → σ a ≡ some (i ∷ [])
      → contains c.partial a ≡ true
      → Changed c
          (record c {
            pages = put_page c.pages a pg;
            partial = list_rm a c.partial;
            full = a ∷ c.full;
          })
          a
          pg
          []
  partial_used_up pg e on = record {
    same_size = refl;
    same_max = refl;
    pages = refl;
    here = ground (arith, on_lists [] e, contains-list_rm a c.partial a, v.some_objects);
    elsewhere = λ b ne. ground (arith, contains-list_rm a c.partial b);
  }

  partial_still :
      (pg : CachePage) (j : ℕ) (rest : List ℕ)
      → σ a ≡ some (i ∷ j ∷ rest)
      → contains c.partial a ≡ true
      → Changed c (record c { pages = put_page c.pages a pg }) a pg (j ∷ rest)
  partial_still pg j rest e on = record {
    same_size = refl;
    same_max = refl;
    pages = refl;
    here = ground (arith, on_lists (j ∷ rest) e, v.some_objects);
    elsewhere = λ b ne. (refl, refl, refl);
  }

  -- The page at `a` leaves the empty list for the full or the partial one.
  empty_used_up :
      (pg : CachePage)
      → σ a ≡ some (i ∷ [])
      → contains c.empty a ≡ true
      → Changed c
          (record c { pages = put_page c.pages a pg; empty = list_rm a c.empty; full = a ∷ c.full })
          a
          pg
          []
  empty_used_up pg e on = record {
    same_size = refl;
    same_max = refl;
    pages = refl;
    here = ground (arith, on_lists [] e, contains-list_rm a c.empty a, v.some_objects);
    elsewhere = λ b ne. ground (arith, contains-list_rm a c.empty b);
  }

  empty_opened :
      (pg : CachePage) (j : ℕ) (rest : List ℕ)
      → σ a ≡ some (i ∷ j ∷ rest)
      → contains c.empty a ≡ true
      → Changed c
          (record c {
            pages = put_page c.pages a pg;
            empty = list_rm a c.empty;
            partial = a ∷ c.partial;
          })
          a
          pg
          (j ∷ rest)
  empty_opened pg j rest e on = record {
    same_size = refl;
    same_max = refl;
    pages = refl;
    here = ground (arith, on_lists (j ∷ rest) e, contains-list_rm a c.empty a, v.some_objects);
    elsewhere = λ b ne. ground (arith, contains-list_rm a c.empty b);
  }

  allocated :
      {out : Option (ℕ × Cache)} (rest : List ℕ) (c' : Cache) (t : Taken c a i rest)
      → out ≡ some (object c a i, c')
      → Changed c c' a t.pg rest
      → IsAllocated out c σ a (i ∷ rest)
  allocated rest c' t e ch = record {
    i = i;
    rest = rest;
    c' = c';
    first = refl;
    returns = e;
    low = t.low;
    taken = t.out;
    valid = Changed-IsCache v ch t.left;
  }

  alloc_partial-Taken :
      (rest : List ℕ)
      → Taken c a i rest
      → σ a ≡ some (i ∷ rest)
      → contains c.partial a ≡ true
      → IsAllocated (alloc_partial c a) c σ a (i ∷ rest)
  unfolding alloc_partial
  alloc_partial-Taken [] t e on =
      let none_left : (t.pg.left == 0) ≡ true = ground (arith, t.left.page.count) in
      allocated [] _ t (rw (alloc_partial, t.returns, none_left)) (partial_used_up t.pg e on)
  alloc_partial-Taken (j ∷ rest) t e on =
      let more : (t.pg.left == 0) ≡ false = ground (arith, t.left.page.count) in
      allocated (j ∷ rest) _ t (rw (alloc_partial, t.returns, more))
        (partial_still t.pg j rest e on)

  pub alloc_empty-Taken :
      (rest : List ℕ)
      → Taken c a i rest
      → σ a ≡ some (i ∷ rest)
      → contains c.empty a ≡ true
      → IsAllocated (alloc_empty c a) c σ a (i ∷ rest)
  unfolding alloc_empty
  alloc_empty-Taken [] t e on =
      let none_left : (t.pg.left == 0) ≡ true = ground (arith, t.left.page.count) in
      allocated [] _ t (rw (alloc_empty, t.returns, none_left)) (empty_used_up t.pg e on)
  alloc_empty-Taken (j ∷ rest) t e on =
      let more : (t.pg.left == 0) ≡ false = ground (arith, t.left.page.count) in
      allocated (j ∷ rest) _ t (rw (alloc_empty, t.returns, more)) (empty_opened t.pg j rest e on)

-- A page on the partial or the empty list has a free object.
free_object :
    (c : Cache) (σ : Slots) (a : ℕ)
    → IsCache c σ
    → (contains c.partial a ≡ true) ⊎ (contains c.empty a ≡ true)
    → (i : ℕ) × (rest : List ℕ) × (σ a ≡ some (i ∷ rest))
free_object c σ a v on = find (σ a) refl
  where
    find : (o : Option (List ℕ)) → σ a ≡ o → (i : ℕ) × (rest : List ℕ) × (σ a ≡ some (i ∷ rest))
    find none e = absurd (ground (arith, rw e at (v.listed a)))
    find (some []) e = absurd (ground (arith, rw e at (v.listed a), v.some_objects))
    find (some (i ∷ rest)) e = (i, rest, e)

alloc_listed-partial :
    (c : Cache) (a : ℕ) (ps : List ℕ) → c.partial ≡ a ∷ ps → alloc_listed c ≡ alloc_partial c a
unfolding alloc_listed
alloc_listed-partial c a ps e = ground arith

pub alloc_listed-empty :
    (c : Cache) (a : ℕ) (es : List ℕ)
    → c.partial ≡ []
    → c.empty ≡ a ∷ es
    → alloc_listed c ≡ alloc_empty c a
unfolding alloc_listed
alloc_listed-empty c a es e e' = ground arith

module _ (c : Cache) (σ : Slots) (v : IsCache c σ) where
  -- A page of the cache gives one of its free objects.
  abbrev Gives : Option (ℕ × Cache) → Type 0
  Gives out = (a : ℕ) × (free : List ℕ) × (σ a ≡ some free) × IsAllocated out c σ a free

  Gives-partial : (a : ℕ) → contains c.partial a ≡ true → Gives (alloc_partial c a)
  Gives-partial a on =
      let (i, rest, s) = free_object c σ a v (inl on) in
      (
        a,
        i ∷ rest,
        s,
        alloc_partial-Taken c σ a i v rest
            (take_object-Taken c σ a i rest v (v.has_page a (i ∷ rest) s)) s on,
      )

  Gives-empty : (a : ℕ) → contains c.empty a ≡ true → Gives (alloc_empty c a)
  Gives-empty a on =
      let (i, rest, s) = free_object c σ a v (inr on) in
      (
        a,
        i ∷ rest,
        s,
        alloc_empty-Taken c σ a i v rest
            (take_object-Taken c σ a i rest v (v.has_page a (i ∷ rest) s)) s on,
      )

  Gives-listed :
      (ps es : List ℕ)
      → c.partial ≡ ps
      → c.empty ≡ es
      → (list_empty ps && list_empty es) ≡ false
      → Gives (alloc_listed c)
  unfolding list_empty
  Gives-listed (a ∷ ps) es e e' ne =
      subst Gives (sym (alloc_listed-partial c a ps e))
        (Gives-partial a (ap (λ xs. contains xs a) e ∙ ground arith))
  Gives-listed [] (a ∷ es) e e' ne =
      subst Gives (sym (alloc_listed-empty c a es e e'))
        (Gives-empty a (ap (λ xs. contains xs a) e' ∙ ground arith))
  Gives-listed [] [] e e' ne = cc

  -- In a valid cache with a page on its partial or its empty list, `cache_alloc` hands out an
  -- object that was free in one of its pages, and leaves the cache valid with the same free objects
  -- but that one.
  pub cache_alloc-listed :
      (fresh : ℕ)
      → (list_empty c.partial && list_empty c.empty) ≡ false
      → Gives (cache_alloc c fresh)
  unfolding cache_alloc
  cache_alloc-listed fresh ne = rw (cache_alloc, ne) (Gives-listed c.partial c.empty refl refl ne)
