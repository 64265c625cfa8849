-- ===== src/PageAlloc/Join.antt =====
-- `join_block` of kernel/src/mm/mm.c undoes `split_block`.
use k_os.Base.{
  ℕ, suc, ◌+◌, ◌^◌, ◌<◌, ◌≡◌, refl, ◌∙◌, ap, true, false, some, ◌⊎◌, inl, inr, arith, ◌==◌, ==_refl,
  Option, Bool-cases,
}
use k_os.PageAlloc.{
  Page, PageAlloc, with_page, is_free, is_master, get_order_idx, get_master, split_block,
  join_block, max_order,
}
use k_os.PageAlloc.Blocks.{
  pow_pos, IsAligned, IsAligned-even, IsAligned-odd, Splits, Splits-head, with_order,
  with_order_self, with_order_other, is_free-with_order, split_block_lem, get_buddy_lower,
  get_buddy_upper,
}

module _ (s : PageAlloc) (k b : ℕ) (al : IsAligned (suc k) b) where
  get_master_lower : (s.pages b).order ≡ k → get_master s b ≡ b
  unfolding get_master is_master get_order_idx
  get_master_lower e = rw (e, IsAligned-even k b al) refl

  get_master_upper : (s.pages (b + 2 ^ k)).order ≡ k → get_master s (b + 2 ^ k) ≡ b
  unfolding get_master is_master get_order_idx
  get_master_upper e = rw (get_buddy_upper s k b al e, e, IsAligned-odd k b al) refl

  -- The two halves of order `k` are free, and joined from either of them.
  join_block_lem :
      (page : ℕ)
      → (page ≡ b) ⊎ (page ≡ b + 2 ^ k)
      → (s.pages b).order ≡ k
      → (s.pages (b + 2 ^ k)).order ≡ k
      → is_free (s.pages b) ≡ true
      → is_free (s.pages (b + 2 ^ k)) ≡ true
      → k < max_order
      → join_block s page ≡ some (with_order s b (k + 1), b)
  unfolding join_block
  join_block_lem page which e e' free free' small =
      let master : get_master s page ≡ b = elim which [
        | inl at ↦ rw at (get_master_lower e)
        | inr at ↦ rw at (get_master_upper e')
      ] in
      let room : (k == max_order) ≡ false = ground arith in
      rw (join_block, master, get_buddy_lower s k b al e, free, free', e', e, ==_refl k, room) refl

-- A block that is halved and joined again, from either half, is the block that it was, and every
-- other page is untouched.
abbrev pub Rejoins : PageAlloc → Option (PageAlloc × ℕ) → ℕ → Type 0
Rejoins s out b =
    (s' : PageAlloc) × (out ≡ some (s', b))
    × ((p : ℕ) → s'.pages p ≡ s.pages p)
    × (s'.free ≡ s.free)
    × (s'.in_use ≡ s.in_use)
    × (s'.available ≡ s.available)

with_order-with_order :
    (s : PageAlloc) (b k p : ℕ)
    → (s.pages b).order ≡ suc k
    → (with_order (with_order s b k) b (k + 1)).pages p ≡ s.pages p
unfolding with_page
with_order-with_order s b k p e = elim (Bool-cases (p == b)) [
  | inl hit ↦
      let at : p ≡ b = ground arith in
      let order : k + 1 ≡ (s.pages b).order = omega arith in rw (at, ==_refl b, order) refl
  | inr miss ↦ rw miss (ground (arith, miss))
]

-- `split_block` of a free block of order `k + 1` up to the largest one, at a multiple of its size
-- and divided as it should be, returns its two halves, and `join_block` of either half gives the
-- block back, with every page, the free lists and the counts as before.
pub join_block-split_block :
    (s : PageAlloc) (k b page : ℕ)
    → IsAligned (suc k) b
    → (s.pages b).order ≡ suc k
    → Splits s.pages (suc k) b
    → k < max_order
    → (page ≡ b) ⊎ (page ≡ b + 2 ^ k)
    → (t : PageAlloc) × (split_block s b ≡ some (t, b + 2 ^ k)) × Rejoins s (join_block t page) b
unfolding with_page
join_block-split_block s k b page al e h small which =
    let one = pow_pos k in
    let other = with_order_other s b k (b + 2 ^ k) (omega arith) in
    let self = with_order_self s b k in
    (
      with_order s b k,
      split_block_lem s k b al e h,
      (
        with_order (with_order s b k) b (k + 1),
        join_block_lem (with_order s b k) k b al page which (ap (λ (p : Page). p.order) self)
            (ap (λ (p : Page). p.order) other ∙ h.2)
            (is_free-with_order s b k b ∙ Splits-head s.pages k b h.0)
            (is_free-with_order s b k (b + 2 ^ k) ∙ Splits-head s.pages k (b + 2 ^ k) h.1) small,
        (λ p. with_order-with_order s b k p e),
        refl,
        refl,
        refl,
      ),
    )
