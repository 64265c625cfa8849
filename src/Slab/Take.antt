-- ===== src/Slab/Take.antt =====
-- Taking an object off a page, in `cache_alloc` of kernel/src/mm/cache.c.
use k_os.Base.{ℕ, ◌+◌, ◌*◌, ◌≤◌, ◌<◌, ◌≡◌, ◌∙◌, false, some, List, ◌∷◌, arith}
use k_os.Base.Word.{add32_exact, mul32_exact}
use k_os.Base.Products.{lt-mul}
use k_os.Slab.{Cache, CachePage, header_size, take_object}
use k_os.Slab.Page.{contains, cache_do_alloc-IsPage}
use k_os.Slab.State.{Slots, PageAt, IsCache}

-- The address of the object `i` of the page at `a`.
abbrev pub object : Cache → ℕ → ℕ → ℕ
object c a i = a + header_size + 4 * c.max + i * c.size

-- What taking an object off a page with `i ∷ rest` free gives.
pub record Taken (c : Cache) (a i : ℕ) (rest : List ℕ) : Type 0 where
  pub pg : CachePage
  pub returns : take_object c a ≡ some (object c a i, pg)
  pub low : i < c.max
  pub out : contains rest i ≡ false
  pub left : PageAt pg c.max a rest

pub take_object-Taken :
    (c : Cache) (σ : Slots) (a i : ℕ) (rest : List ℕ)
    → IsCache c σ
    → PageAt (c.pages a) c.max a (i ∷ rest)
    → Taken c a i rest
unfolding take_object
take_object-Taken c σ a i rest v p =
    let (at, low, out, (pg, done, left, mem)) =
      cache_do_alloc-IsPage (c.pages a) c.max i rest p.page in
    let inside : i * c.size + c.size ≤ c.max * c.size = lt-mul i c.max c.size low in
    record {
      pg = pg;
      returns = rw (
        take_object,
        done,
        at,
        mul32_exact i c.size (omega (arith, v.fits)),
        p.mem,
        add32_exact (a + header_size + 4 * c.max) (i * c.size) (omega (arith, v.fits, p.high)),
      );
      low = low;
      out = out;
      left = record { page = left; mem = mem ∙ p.mem; aligned = p.aligned; high = p.high };
    }
