-- ===== src/Slab/State.antt =====
-- The state of a cache of kernel/src/mm/cache.c against its free objects: which pages it owns, and
-- which objects of each are free.
use k_os.Base.{
  ℕ, ◌+◌, ◌*◌, ◌%◌, ◌≤◌, ◌<◌, ◌^◌, ◌≡◌, inl, inr, Bool, false, ◌&&◌, not, Option, none, some, List,
  [], ◌∷◌, ◌==◌, if◌then◌else◌, arith, length, ltb, Bool-cases, ==_refl,
}
use k_os.Slab.{Cache, CachePage, page_size, header_size, put_page, list_rm}
use k_os.Slab.Page.{contains, IsPage}

-- For each page of the cache, its free objects by index; `none` is no page of the cache.
abbrev pub Slots : Type 0
Slots = ℕ → Option (List ℕ)

abbrev pub put_slots : Slots → ℕ → List ℕ → Slots
put_slots σ a xs b = if b == a then some xs else σ b

-- A page with `xs` free of `max` is on the list that its count says, and on no other.
abbrev pub OnLists : ℕ → Bool → Bool → Bool → Option (List ℕ) → Type 0
OnLists max full partial empty none = (full ≡ false) × (partial ≡ false) × (empty ≡ false)
OnLists max full partial empty (some xs) =
    (full ≡ (length xs == 0))
    × (partial ≡ (ltb 0 (length xs) && ltb (length xs) max))
    × (empty ≡ (length xs == max))

-- The header `pg` is that of the page at `a` with `xs` free, below the end of the address space;
-- its objects begin behind the header and the links.
pub record PageAt (pg : CachePage) (max a : ℕ) (xs : List ℕ) : Type 0 where
  pub page : IsPage pg max xs
  pub mem : pg.mem ≡ a + header_size + 4 * max
  pub aligned : a % page_size ≡ 0
  pub high : a + page_size < 2 ^ 32

pub record IsCache (c : Cache) (σ : Slots) : Type 0 where
  pub some_objects : 0 < c.max
  pub some_bytes : 0 < c.size
  pub fits : header_size + 4 * c.max + c.max * c.size ≤ page_size
  pub has_page : (a : ℕ) (xs : List ℕ) → σ a ≡ some xs → PageAt (c.pages a) c.max a xs
  pub listed :
      (a : ℕ) → OnLists c.max (contains c.full a) (contains c.partial a) (contains c.empty a) (σ a)

pub contains-list_rm :
    (a : ℕ) (xs : List ℕ) (b : ℕ) → contains (list_rm a xs) b ≡ (not (b == a) && contains xs b)
unfolding list_rm
contains-list_rm a [] b = ground arith
contains-list_rm a (x ∷ xs) b = ground (arith, contains-list_rm a xs b)

-- One page changed: its header and its place on the lists.
pub record Changed (c c' : Cache) (a : ℕ) (pg : CachePage) (xs : List ℕ) : Type 0 where
  pub same_size : c'.size ≡ c.size
  pub same_max : c'.max ≡ c.max
  pub pages : c'.pages ≡ put_page c.pages a pg
  pub here :
      OnLists c.max (contains c'.full a) (contains c'.partial a) (contains c'.empty a) (some xs)
  pub elsewhere :
      (b : ℕ)
      → (b == a) ≡ false
      → (contains c'.full b ≡ contains c.full b)
        × (contains c'.partial b ≡ contains c.partial b)
        × (contains c'.empty b ≡ contains c.empty b)

pub Changed-IsCache :
    {c c' : Cache} {σ : Slots} {a : ℕ} {pg : CachePage} {xs : List ℕ}
    → IsCache c σ
    → Changed c c' a pg xs
    → PageAt pg c.max a xs
    → IsCache c' (put_slots σ a xs)
Changed-IsCache {c} {c'} {σ} {a} {pg} {xs} v ch p = record {
  some_objects = rw ch.same_max v.some_objects;
  some_bytes = rw ch.same_size v.some_bytes;
  fits = rw (ch.same_max, ch.same_size) v.fits;
  has_page = λ b ys e. elim (Bool-cases (b == a)) [
    | inl hit ↦
        let e' : xs ≡ ys = ground (arith, e) in
        let at : b ≡ a = ground arith in rw (ch.pages, ch.same_max, at, ==_refl a, ← e') p
    | inr miss ↦ rw (ch.pages, ch.same_max, miss) (v.has_page b ys (ground (arith, e)))
  ];
  listed = λ b. elim (Bool-cases (b == a)) [
    | inl hit ↦ let at : b ≡ a = ground arith in rw (at, ==_refl a, ch.same_max) ch.here
    | inr miss ↦
        let (f, p', e) = ch.elsewhere b miss in rw (miss, f, p', e, ch.same_max) (v.listed b)
  ];
}
