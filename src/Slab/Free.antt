-- ===== src/Slab/Free.antt =====
-- `cache_free` of kernel/src/mm/cache.c takes an object back.
use k_os.Base.{
  ℕ, zero, suc, ◌+◌, ◌*◌, ◌/◌, ◌≤◌, ◌<◌, ◌≡◌, refl, ◌∙◌, subst, inl, inr, false, some, List, [],
  ◌∷◌, ◌==◌, arith, length, Bool-cases, get_or,
}
use k_os.Base.Word.{add32, sub32, add32_exact, sub32_exact}
use k_os.Base.Products.{lt-mul}
use k_os.Slab.{
  Cache, CachePage, put_page, list_rm, mem_to_cache_page, move_page, cache_do_free, cache_free,
  freelist_end,
}
use k_os.Slab.Page.{contains, Chain, cache_do_free-IsPage}
use k_os.Slab.State.{Slots, put_slots, PageAt, IsCache, contains-list_rm, Changed, Changed-IsCache}
use k_os.Slab.Take.{object}

-- Different numbers below a bound.
abbrev Distinct : ℕ → List ℕ → Type 0
Distinct n [] = Unit
Distinct n (x ∷ xs) = (x < n) × (contains xs x ≡ false) × Distinct n xs

Chain-Distinct : (fl : List ℕ) (free : ℕ) (xs : List ℕ) → Chain fl free xs → Distinct (length fl) xs
Chain-Distinct fl free [] c = tt
Chain-Distinct fl free (i ∷ xs) c = (c.1, c.2, Chain-Distinct fl (get_or fl i freelist_end) xs c.3)

list_rm-absent : (a : ℕ) (xs : List ℕ) → contains xs a ≡ false → list_rm a xs ≡ xs
unfolding list_rm
list_rm-absent a [] h = refl
list_rm-absent a (x ∷ xs) h = ground (arith, list_rm-absent a xs)

Distinct-tighten :
    (n : ℕ) (xs : List ℕ) → contains xs n ≡ false → Distinct (suc n) xs → Distinct n xs
Distinct-tighten n [] h d = tt
Distinct-tighten n (x ∷ xs) h d = (ground arith, d.1, Distinct-tighten n xs (ground arith) d.2)

Distinct-list_rm :
    (n a : ℕ) (xs : List ℕ)
    → (a ≡ n)
    → Distinct (suc n) xs
    → Distinct n (list_rm a xs) × (length xs ≤ suc (length (list_rm a xs)))
unfolding list_rm
Distinct-list_rm n a [] e d = (tt, omega arith)
Distinct-list_rm n a (x ∷ xs) e d = elim (Bool-cases (x == a)) [
  | inl hit ↦
      let out : contains xs a ≡ false = ground (arith, d.1) in
      rw (hit, list_rm-absent a xs out) (Distinct-tighten n xs (rw (← e) out) d.2, omega arith)
  | inr miss ↦
      let (ds, l) = Distinct-list_rm n a xs e d.2 in
      rw miss ((ground arith, ground (arith, contains-list_rm a xs x), ds), omega arith)
]

-- There are at most `n` different numbers below `n`.
Distinct-length : (n : ℕ) (xs : List ℕ) → Distinct n xs → length xs ≤ n
Distinct-length zero [] d = omega arith
Distinct-length zero (x ∷ xs) d = absurd (omega arith)
Distinct-length (suc n) xs d =
    let (d', l) = Distinct-list_rm n n xs refl d in
    omega (arith, Distinct-length n (list_rm n xs) d')

module _ (c : Cache) (σ : Slots) (a i : ℕ) (xs : List ℕ) (v : IsCache c σ) (s : σ a ≡ some xs)
    (low : i < c.max) (used : contains xs i ≡ false) where
  place : PageAt (c.pages a) c.max a xs
  place = v.has_page a xs s

  room : length xs < c.max
  room = Distinct-length c.max (i ∷ xs) (
    low,
    used,
    subst (λ (n : ℕ). Distinct n xs) place.page.links
        (Chain-Distinct (c.pages a).freelist (c.pages a).free xs place.page.chain),
  )

  inside : i * c.size + c.size ≤ c.max * c.size
  inside = lt-mul i c.max c.size low

  -- The object's address leads back to its page and to its index.
  page_of : mem_to_cache_page (object c a i) ≡ a
  unfolding mem_to_cache_page
  page_of = omega (arith, place.aligned, inside, v.fits, v.some_bytes)

  index_of : sub32 (object c a i) (c.pages a).mem / c.size ≡ i
  index_of =
      let e : sub32 (object c a i) (c.pages a).mem ≡ i * c.size =
        sub32_exact (object c a i) (c.pages a).mem (omega (arith, place.mem))
          (omega (arith, place.high, inside, v.fits))
        ∙ omega (arith, place.mem) in
      rw e (grind (arith, v.some_bytes))

  -- The object's page goes to the list that its count, one higher, says.
  move_page-Changed :
      (pg : CachePage)
      → Changed c (record (move_page c a) { pages = put_page c.pages a pg }) a pg (i ∷ xs)
  unfolding move_page
  move_page-Changed pg =
      let count : (c.pages a).left ≡ length xs = place.page.count in
      let more : add32 (c.pages a).left 1 ≡ length xs + 1 =
        add32_exact (c.pages a).left 1 (omega (arith, place.page.small, room)) ∙ omega arith in
      rw (more, count)
        (record {
          same_size = ground arith;
          same_max = ground arith;
          pages = refl;
          here = ground (
            arith,
            rw s at (v.listed a),
            contains-list_rm a c.full a,
            contains-list_rm a c.partial a,
            contains-list_rm a c.empty a,
            room,
            v.some_objects,
          );
          elsewhere = λ b ne. ground (
            arith,
            contains-list_rm a c.full b,
            contains-list_rm a c.partial b,
            contains-list_rm a c.empty b,
          );
        })

  -- In a valid cache, `cache_free` of an object of one of its pages that is not free makes it free
  -- again, in front of the page's other free objects, and leaves the cache valid, with the page on
  -- the list that its count says and the free objects of other pages as they were.
  pub cache_free-IsCache : IsCache (cache_free c (object c a i)) (put_slots σ a (i ∷ xs))
  unfolding cache_free
  cache_free-IsCache =
      rw (cache_free, page_of, index_of)
        (Changed-IsCache v (move_page-Changed (cache_do_free (c.pages a) i)) (record {
          page = cache_do_free-IsPage (c.pages a) c.max i xs place.page low used room;
          mem = unfold cache_do_free in place.mem;
          aligned = place.aligned;
          high = place.high;
        }))
