-- ===== src/Slab/Page.antt =====
-- The free list inside one page of kernel/src/mm/cache.c: a chain of different indices, as many as
-- the page's count says.
use k_os.Base.{
  ℕ, zero, suc, ◌+◌, ◌-◌, ◌≤◌, ◌<◌, ◌^◌, ◌≡◌, refl, ◌∙◌, ap, sym, Bool, false, ◌||◌, none, some,
  List, [], ◌∷◌, ◌==◌, arith, length, length-set, get_or, set, get_or-set_self, get_or-set_ne,
}
use k_os.Base.Word.{add32_exact, sub32_exact}
use k_os.Slab.{CachePage, freelist_end, link_from, cache_do_alloc, cache_do_free}

abbrev pub contains : List ℕ → ℕ → Bool
contains [] a = false
contains (b ∷ bs) a = b == a || contains bs a

-- The links from `free` on visit the indices `slots` in order, each one different, and end.
abbrev pub Chain : List ℕ → ℕ → List ℕ → Type 0
Chain fl free [] = free ≡ freelist_end
Chain fl free (i ∷ slots) =
    (free ≡ i)
    × (i < length fl)
    × (contains slots i ≡ false)
    × Chain fl (get_or fl i freelist_end) slots

-- The page's free objects are `slots`.
pub record IsPage (pg : CachePage) (max : ℕ) (slots : List ℕ) : Type 0 where
  pub count : pg.left ≡ length slots
  pub links : length pg.freelist ≡ max
  pub small : max < 2 ^ 31
  pub fits : length slots ≤ max
  pub chain : Chain pg.freelist pg.free slots

-- A write to an index that the chain does not visit leaves the chain.
Chain-set :
    (fl : List ℕ) (free : ℕ) (slots : List ℕ) (i v : ℕ)
    → contains slots i ≡ false
    → Chain fl free slots
    → Chain (set fl i v) free slots
Chain-set fl free [] i v out c = c
Chain-set fl free (j ∷ slots) i v out c = (
  c.0,
  omega (arith, length-set fl i v, c.1),
  c.2,
  rw (get_or-set_ne fl i j v freelist_end (λ e. ground arith))
      (Chain-set fl (get_or fl j freelist_end) slots i v (ground arith) c.3),
)

-- `cache_do_alloc` takes the first free object off the chain.
pub cache_do_alloc-IsPage :
    (pg : CachePage) (max i : ℕ) (slots : List ℕ)
    → IsPage pg max (i ∷ slots)
    → (pg.free ≡ i)
      × (i < max)
      × (contains slots i ≡ false)
      × ((pg' : CachePage) × (cache_do_alloc pg ≡ some pg')
          × IsPage pg' max slots
          × (pg'.mem ≡ pg.mem))
unfolding cache_do_alloc
cache_do_alloc-IsPage pg max i slots p =
    let (at, low, out, rest) = p.chain in
    let inside : (pg.free == freelist_end) ≡ false = ground (arith, p.links, p.small) in
    (
      at,
      omega (arith, p.links),
      out,
      (
        record pg { left = pg.left - 1; free = get_or pg.freelist i freelist_end },
        rw (
          inside,
          at,
          sub32_exact pg.left 1 (omega (arith, p.count)) (omega (arith, p.count, p.fits, p.small)),
        ),
        record {
          count = omega (arith, p.count);
          links = p.links;
          small = p.small;
          fits = omega (arith, p.fits);
          chain = rest;
        },
        refl,
      ),
    )

-- On a page with no free object `cache_do_alloc` fails its check.
pub cache_do_alloc-nil : (pg : CachePage) (max : ℕ) → IsPage pg max [] → cache_do_alloc pg ≡ none
unfolding cache_do_alloc
cache_do_alloc-nil pg max p = ground (arith, p.chain)

-- `cache_do_free` puts an object that is not free in front of the chain.
pub cache_do_free-IsPage :
    (pg : CachePage) (max i : ℕ) (slots : List ℕ)
    → IsPage pg max slots
    → i < max
    → contains slots i ≡ false
    → length slots < max
    → IsPage (cache_do_free pg i) max (i ∷ slots)
unfolding cache_do_free
cache_do_free-IsPage pg max i slots p low out room = record {
  count = add32_exact pg.left 1 (omega (arith, p.count, p.small)) ∙ omega (arith, p.count);
  links = length-set pg.freelist i pg.free ∙ p.links;
  small = p.small;
  fits = omega arith;
  chain = (
    refl,
    omega (arith, length-set pg.freelist i pg.free, p.links),
    out,
    rw (get_or-set_self pg.freelist i pg.free freelist_end (omega (arith, p.links)))
        (Chain-set pg.freelist pg.free slots i pg.free out p.chain),
  );
}

-- The `n` indices from `i` on.
abbrev pub upto : ℕ → ℕ → List ℕ
upto i zero = []
upto i (suc n) = i ∷ upto (suc i) n

pub upto-cons : (i n : ℕ) → 0 < n → upto i n ≡ i ∷ upto (suc i) (n - 1)
upto-cons i zero h = absurd (omega arith)
upto-cons i (suc n) h = ap (λ (k : ℕ). i ∷ upto (suc i) k) (omega arith)

pub length-upto : (i n : ℕ) → length (upto i n) ≡ n
length-upto i zero = refl
length-upto i (suc n) = ap suc (length-upto (suc i) n)

not-contains-upto : (i n a : ℕ) → a < i → contains (upto i n) a ≡ false
not-contains-upto i zero a h = refl
not-contains-upto i (suc n) a h = ground (arith, not-contains-upto (suc i) n a (omega arith))

length-link_from : (i n : ℕ) → length (link_from i n) ≡ n
unfolding link_from
length-link_from i zero = refl
length-link_from i (suc n) = ap suc (length-link_from (i + 1) n)

get_or-link_from : (i n k d : ℕ) → k < n → get_or (link_from i n) k d ≡ i + k + 1
unfolding link_from
get_or-link_from i zero k d h = absurd (omega arith)
get_or-link_from i (suc n) zero d h = omega arith
get_or-link_from i (suc n) (suc k) d h = get_or-link_from (i + 1) n k d (omega arith) ∙ omega arith

-- The links of a new page.
abbrev pub new_links : ℕ → List ℕ
new_links max = set (link_from 0 max) (max - 1) freelist_end

Chain-new_links : (max n i : ℕ) → i + suc n ≡ max → Chain (new_links max) i (upto i (suc n))
Chain-new_links max zero i e = (
  refl,
  omega (arith, length-set (link_from 0 max) (max - 1) freelist_end, length-link_from 0 max),
  refl,
  ap (λ (k : ℕ). get_or (new_links max) k freelist_end) {y = max - 1} (omega arith)
      ∙ get_or-set_self (link_from 0 max) (max - 1) freelist_end freelist_end
          (omega (arith, length-link_from 0 max)),
)
Chain-new_links max (suc n) i e =
    let next : get_or (new_links max) i freelist_end ≡ suc i =
      get_or-set_ne (link_from 0 max) (max - 1) i freelist_end freelist_end
        (λ h. absurd (omega arith))
      ∙ get_or-link_from 0 max i freelist_end (omega arith)
      ∙ omega arith in
    (
      refl,
      omega (arith, length-set (link_from 0 max) (max - 1) freelist_end, length-link_from 0 max),
      not-contains-upto (suc i) (suc n) i (omega arith),
      rw next (Chain-new_links max n (suc i) (omega arith)),
    )

-- A new page of `max` objects has all of them free, in order.
pub IsPage-new :
    (max mem : ℕ)
    → 0 < max
    → max < 2 ^ 31
    → IsPage (record { left = max; free = 0; freelist = new_links max; mem = mem }) max (upto 0 max)
IsPage-new zero mem pos small = absurd (omega arith)
IsPage-new (suc max) mem pos small = record {
  count = sym (length-upto 0 (suc max));
  links =
      length-set (link_from 0 (suc max)) (suc max - 1) freelist_end ∙ length-link_from 0 (suc max);
  small = small;
  fits = omega (arith, length-upto 0 (suc max));
  chain = Chain-new_links (suc max) max 0 (omega arith);
}
