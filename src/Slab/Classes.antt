-- ===== src/Slab/Classes.antt =====
-- The sizes of kernel/src/mm/cache.c: a new cache, where its objects lie, and the cache that a
-- request of `kmalloc` goes to.
use k_os.Base.{
  ℕ, ◌+◌, ◌-◌, ◌*◌, ◌%◌, ◌≤◌, ◌<◌, ◌^◌, ◌≡◌, refl, ◌≢◌, ◌⊎◌, inl, inr, Option, none, some, arith,
  eq_or_ne,
}
use k_os.Base.Products.{lt-mul}
use k_os.Slab.{
  Cache, page_size, header_size, cache_create, kalloc_cache_index, kalloc_class, shift_min,
  shift_max,
}
use k_os.Slab.State.{Slots, IsCache}
use k_os.Slab.Take.{object}

-- A new cache for objects of at least one byte, of which one fits a page with its header and its
-- link, is valid and owns no page.
pub cache_create-IsCache :
    (size : ℕ)
    → 0 < size
    → header_size + 4 + size ≤ page_size
    → IsCache (cache_create size) (λ _. none)
unfolding cache_create
cache_create-IsCache size pos fits = record {
  some_objects = grind arith;
  some_bytes = pos;
  fits = grind arith;
  has_page = λ a xs e. cc;
  listed = λ a. (refl, refl, refl);
}

module _ (c : Cache) (σ : Slots) (v : IsCache c σ) where
  -- In a valid cache, every object of an aligned page lies in that page behind the header and the
  -- links, and two different objects of aligned pages have no byte in common.
  pub objects_apart :
      (a b i j : ℕ)
      → a % page_size ≡ 0
      → b % page_size ≡ 0
      → i < c.max
      → j < c.max
      → (a ≢ b) ⊎ (i ≢ j)
      → (a + header_size + 4 * c.max ≤ object c a i)
        × (object c a i + c.size ≤ a + page_size)
        × ((object c a i + c.size ≤ object c b j) ⊎ (object c b j + c.size ≤ object c a i))
  objects_apart a b i j al bl li lj ne =
      let room = lt-mul i c.max c.size li in
      let room' = lt-mul j c.max c.size lj in
      (
        omega arith,
        omega (arith, v.fits),
        elim (eq_or_ne a b) [
          | inl e ↦ elim (eq_or_ne i j) [
            | inl e' ↦ absurd (ground arith)
            | inr (inl l) ↦ inl (omega (arith, lt-mul i j c.size l))
            | inr (inr l) ↦ inr (omega (arith, lt-mul j i c.size l))
          ]
          | inr (inl l) ↦ inl (omega (arith, v.fits))
          | inr (inr l) ↦ inr (omega (arith, v.fits))
        ],
      )

-- The class that `kalloc_cache_alloc` picks for a request.
abbrev pub IsClass : ℕ → Option ℕ → Type 0
IsClass size none = 2 ^ shift_max < size
IsClass size (some k) =
    (k ≤ shift_max - shift_min)
    × (size ≤ 2 ^ (k + shift_min))
    × ((k ≡ 0) ⊎ (2 ^ (k + shift_min - 1) < size))

-- A request of up to 2048 bytes goes to the smallest of the nine caches that fits it, and a larger
-- one is refused.
pub kalloc_class-IsClass : (size : ℕ) → IsClass size (kalloc_class size)
unfolding kalloc_class kalloc_cache_index
kalloc_class-IsClass size = ground arith
