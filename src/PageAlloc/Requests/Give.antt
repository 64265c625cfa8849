-- ===== src/PageAlloc/Requests/Give.antt =====
-- What `do_alloc_pages` of kernel/src/mm/mm.c gives out.
use k_os.Base.{
  ℕ, zero, suc, ◌+◌, ◌^◌, ◌≤◌, ◌<◌, ◌≡◌, refl, ap, sym, ◌∙◌, subst, inl, inr, true, false, ◌&&◌,
  ◌||◌, Option, some, List, ◌∷◌, arith, ltb, leb, Bool-cases, if◌then◌else◌,
}
use k_os.Base.Word.{add32}
use k_os.PageAlloc.{Page, PageAlloc, with_page, list_rm, trim_block, max_order}
use k_os.PageAlloc.Blocks.{pow_pos, IsAligned, Splits}
use k_os.PageAlloc.Cover.{within, cover, cover-list_rm}
use k_os.PageAlloc.Trim.{IsTrimmed, trim_block-IsTrimmed}
use k_os.PageAlloc.Requests.{mark_used, alloc_block}

-- A page without flags.
abbrev pub Unflagged : Page → Type 0
Unflagged p = (p.used ≡ false) × (p.perm ≡ false) × (p.cache ≡ false)

-- The pages with those of `[low, high)` used.
abbrev pub marked : (ℕ → Page) → ℕ → ℕ → ℕ → Page
marked ps low high p = if leb low p && ltb p high then record (ps p) { used = true } else ps p

abbrev Marks : Option PageAlloc → PageAlloc → ℕ → ℕ → Type 0
Marks out s n page =
    (t : PageAlloc) × (out ≡ some t)
    × (t.free ≡ s.free)
    × (t.in_use ≡ s.in_use)
    × ((p : ℕ) → t.pages p ≡ marked s.pages page (page + n) p)

mark_used_next :
    (n : ℕ) (s : PageAlloc) (page : ℕ)
    → Unflagged (s.pages page)
    → mark_used (suc n) s page
      ≡ mark_used n (with_page s page (record (s.pages page) { used = true })) (page + 1)
unfolding mark_used
mark_used_next n s page (used, perm, cache) =
    let clear : ((s.pages page).used || (s.pages page).perm || (s.pages page).cache) ≡ false =
      ground (arith, used, perm, cache) in
    rw (mark_used, clear) refl

mark_used-Marks :
    (n : ℕ) (s : PageAlloc) (page : ℕ)
    → ((p : ℕ) → page ≤ p → p < page + n → Unflagged (s.pages p))
    → Marks (mark_used n s page) s n page
unfolding mark_used with_page
mark_used-Marks zero s page h = (s, refl, refl, refl, λ p. ground arith)
mark_used-Marks (suc n) s page h =
    let s₁ : PageAlloc = with_page s page (record (s.pages page) { used = true }) in
    let (t, out, free, in_use, pages) =
      mark_used-Marks n s₁ (page + 1) (λ p l r. ground (arith, h p (omega arith) (omega arith))) in
    (
      t,
      mark_used_next n s page (h page (omega arith) (omega arith)) ∙ out,
      free,
      in_use,
      λ p. pages p ∙ ground arith,
    )

-- A block of order `k` at `b` that may be given out.
pub record IsReady (s : PageAlloc) (k b : ℕ) : Type 0 where
  pub aligned : IsAligned k b
  pub order : (s.pages b).order ≡ k
  pub splits : Splits s.pages k b
  pub unflagged : (p : ℕ) → b ≤ p → p < b + 2 ^ k → Unflagged (s.pages p)

-- The pages `[block, block + number)` are given out: they leave the free lists, no other page does,
-- and they are marked as used. Nothing else changes but the orders of pages.
pub record IsGiven (out : Option (PageAlloc × ℕ)) (s : PageAlloc) (number : ℕ) : Type 0 where
  pub s' : PageAlloc
  pub block : ℕ
  pub returns : out ≡ some (s', block)
  pub counted :
      (p : ℕ)
      → cover max_order s'.free p + within block (block + number) p ≡ cover max_order s.free p
  pub flags :
      (p : ℕ)
      → s'.pages p ≡ record (marked s.pages block (block + number) p) { order = (s'.pages p).order }
  pub in_use : s'.in_use ≡ add32 s.in_use number

-- Pages that differ in their order only, marked.
marked_orders :
    (ps qs us : ℕ → Page) (low high p : ℕ)
    → us p ≡ marked qs low high p
    → qs p ≡ record (ps p) { order = (qs p).order }
    → us p ≡ record (marked ps low high p) { order = (us p).order }
marked_orders ps qs us low high p e h = elim (Bool-cases (leb low p && ltb p high)) [
  | inl hit ↦
      let at : us p ≡ record (qs p) { used = true } = e ∙ rw hit refl in
      rw hit (
        at
        ∙ ap (λ (q : Page). record q { used = true }) h
        ∙ ap (λ (o : ℕ). record (ps p) { used = true; order = o })
            (sym (ap (λ (q : Page). q.order) at)))
  | inr miss ↦
      let at : us p ≡ qs p = e ∙ rw miss refl in
      rw miss
        (at ∙ h ∙ ap (λ (o : ℕ). record (ps p) { order = o }) (sym (ap (λ (q : Page). q.order) at)))
]

pub alloc_block-IsGiven :
    (s : PageAlloc) (k b number : ℕ) (bs : List ℕ)
    → s.free k ≡ b ∷ bs
    → IsReady s k b
    → 0 < number
    → number ≤ 2 ^ k
    → k ≤ max_order
    → IsGiven (alloc_block s k b number) s number
unfolding alloc_block
alloc_block-IsGiven s k b number bs e r some_pages fits small =
    let used = (r.unflagged b (omega arith) (omega (arith, pow_pos k))).0 in
    let t : IsTrimmed (trim_block (list_rm s k b) b number) (list_rm s k b) k b number =
      trim_block-IsTrimmed k (list_rm s k b) b number r.aligned (unfold list_rm in r.order)
        (unfold list_rm in r.splits) some_pages fits small in
    let orders : (p : ℕ) → t.s'.pages p ≡ record (s.pages p) { order = (t.s'.pages p).order } =
      unfold list_rm in t.flags in
    let (u, out, free, in_use, pages) =
      mark_used-Marks number t.s' b
        (λ p l h. subst Unflagged (sym (orders p)) (r.unflagged p l (omega arith))) in
    record {
      s' = record u { in_use = add32 u.in_use number };
      block = b;
      returns = rw (alloc_block, used, t.returns, out) refl;
      counted = λ p.
          let before = cover-list_rm max_order s k b p bs small e in
          let behind = t.released p in
          let same : cover max_order u.free p ≡ cover max_order t.s'.free p =
            ap (λ (f : ℕ → List ℕ). cover max_order f p) free in
          ground (arith, before, behind, same);
      flags = λ p. marked_orders s.pages t.s'.pages u.pages b (b + number) p (pages p) (orders p);
      in_use = ap (λ (n : ℕ). add32 n number) (in_use ∙ t.same_in_use ∙ unfold list_rm in refl);
    }
