-- ===== src/RingBuff/Valid.antt =====
-- The representation invariant of kernel/inc/common/ringbuff.h: `front` and `back` point to blocks
-- inside the storage, never to its end, and every distance is a number of whole blocks.
use k_os.Base.{
  ℕ, ◌+◌, ◌-◌, ◌*◌, ◌^◌, ◌≤◌, ◌<◌, ◌≡◌, ap, ◌∙◌, inl, inr, some, arith, ◌==◌, le_or_lt, min,
  Bool-cases,
}
use k_os.Base.Products.{sub-mul, le-mul, lt-mul}
use k_os.Base.Word.{add32, add32_exact, mul32, mul32_exact}
use k_os.RingBuff.{RingBuff, init, wrap, advance_front, advance_back}

-- `n` bytes are a number of whole blocks of `t` bytes.
pub record IsWhole (t n : ℕ) : Type 0 where
  pub count : ℕ
  pub size : n ≡ count * t

pub IsWhole-zero : (t : ℕ) → IsWhole t 0
IsWhole-zero t = record { count = 0; size = omega arith }

pub IsWhole-one : (t : ℕ) → IsWhole t t
IsWhole-one t = record { count = 1; size = omega arith }

pub IsWhole-add : {t a b : ℕ} → IsWhole t a → IsWhole t b → IsWhole t (a + b)
IsWhole-add v w = record { count = v.count + w.count; size = omega arith }

pub IsWhole-sub : {t a b : ℕ} → IsWhole t a → IsWhole t b → b ≤ a → IsWhole t (a - b)
IsWhole-sub {t} v w h = elim (le_or_lt w.count v.count) [
  | inl l ↦ record {
    count = v.count - w.count;
    size = omega (arith, sub-mul v.count w.count t l, v.size, w.size);
  }
  | inr l ↦ record { count = 0; size = omega (arith, lt-mul v.count w.count t l, v.size, w.size) }
]

pub IsWhole-min : {t a b : ℕ} → IsWhole t a → IsWhole t b → IsWhole t (min a b)
IsWhole-min {a} {b} v w = elim (le_or_lt a b) [
  | inl l ↦ record { count = v.count; size = omega (arith, v.size) }
  | inr l ↦ record { count = w.count; size = omega (arith, w.size) }
]

-- Different numbers of whole blocks are a block apart.
pub IsWhole-gap : {t a b : ℕ} → IsWhole t a → IsWhole t b → a < b → a + t ≤ b
IsWhole-gap {t} v w h = elim (le_or_lt w.count v.count) [
  | inl l ↦ absurd (omega (arith, sub-mul v.count w.count t l, v.size, w.size))
  | inr l ↦ omega (arith, lt-mul v.count w.count t l, v.size, w.size)
]

-- The same number of bytes, written another way.
pub IsWhole-eq : {t a : ℕ} (b : ℕ) → IsWhole t a → a ≡ b → IsWhole t b
IsWhole-eq b v e = record { count = v.count; size = omega (arith, v.size) }

-- `front` and `back` stand at block boundaries of the storage `[start, end)`.
pub record IsValid (rb : RingBuff) (t : ℕ) : Type 0 where
  pub block : 0 < t
  pub front_low : rb.start ≤ rb.front
  pub front_in : rb.front < rb.end
  pub back_low : rb.start ≤ rb.back
  pub back_in : rb.back < rb.end
  pub fits : rb.end < 2 ^ 32
  pub front_whole : IsWhole t (rb.front - rb.start)
  pub back_whole : IsWhole t (rb.back - rb.start)
  pub end_whole : IsWhole t (rb.end - rb.start)

-- What the invariant says without multiplication.
pub record Spacing (rb : RingBuff) (t : ℕ) : Type 0 where
  pub front_room : rb.front + t ≤ rb.end
  pub back_room : rb.back + t ≤ rb.end
  pub below : rb.front < rb.back → rb.front + t ≤ rb.back
  pub above : rb.back < rb.front → rb.back + t ≤ rb.front

pub IsValid-Spacing : {rb : RingBuff} {t : ℕ} → IsValid rb t → Spacing rb t
IsValid-Spacing v = record {
  front_room = omega (arith, IsWhole-gap v.front_whole v.end_whole (omega arith));
  back_room = omega (arith, IsWhole-gap v.back_whole v.end_whole (omega arith));
  below = λ h. omega (arith, IsWhole-gap v.front_whole v.back_whole (omega arith));
  above = λ h. omega (arith, IsWhole-gap v.back_whole v.front_whole (omega arith));
}

-- `wrap` brings an address up to the end back into the storage, at a block boundary.
record InStorage (rb : RingBuff) (t x : ℕ) : Type 0 where
  low : rb.start ≤ x
  high : x < rb.end
  whole : IsWhole t (x - rb.start)

wrap-InStorage :
    {rb : RingBuff} {t : ℕ} (x : ℕ)
    → IsValid rb t
    → rb.start ≤ x
    → x ≤ rb.end
    → IsWhole t (x - rb.start)
    → InStorage rb t (wrap rb x)
unfolding wrap
wrap-InStorage {rb} {t} x v low high whole = elim (Bool-cases (x == rb.end)) [
  | inl hit ↦ rw hit (record {
    low = omega arith;
    high = omega (arith, v.front_low, v.front_in);
    whole = IsWhole-eq _ (IsWhole-zero t) (omega arith);
  })
  | inr miss ↦ rw miss (record { low = low; high = ground arith; whole = whole })
]

abbrev pub front_after : RingBuff → ℕ → RingBuff
front_after rb amt = record rb { front = wrap rb (rb.front + amt) }

abbrev pub back_after : RingBuff → ℕ → RingBuff
back_after rb amt = record rb { back = wrap rb (rb.back + amt) }

module _ {rb : RingBuff} {t amt : ℕ} (v : IsValid rb t) (w : IsWhole t amt) where
  -- Advancing by whole blocks as far as the end does not fail, and keeps the invariant.
  pub advance_front-IsValid :
      rb.front + amt ≤ rb.end
      → (advance_front rb amt ≡ some (front_after rb amt)) × IsValid (front_after rb amt) t
  unfolding advance_front
  advance_front-IsValid h =
      let moved : IsWhole t (rb.front + amt - rb.start) =
        IsWhole-eq _ (IsWhole-add v.front_whole w) (omega (arith, v.front_low)) in
      let at = wrap-InStorage (rb.front + amt) v (omega (arith, v.front_low)) h moved in
      (
        rw (add32_exact rb.front amt (omega (arith, v.fits))) (ground (arith, at.high)),
        record {
          block = v.block;
          front_low = at.low;
          front_in = at.high;
          back_low = v.back_low;
          back_in = v.back_in;
          fits = v.fits;
          front_whole = at.whole;
          back_whole = v.back_whole;
          end_whole = v.end_whole;
        },
      )

  pub advance_back-IsValid :
      rb.back + amt ≤ rb.end
      → (advance_back rb amt ≡ some (back_after rb amt)) × IsValid (back_after rb amt) t
  unfolding advance_back
  advance_back-IsValid h =
      let moved : IsWhole t (rb.back + amt - rb.start) =
        IsWhole-eq _ (IsWhole-add v.back_whole w) (omega (arith, v.back_low)) in
      let at = wrap-InStorage (rb.back + amt) v (omega (arith, v.back_low)) h moved in
      (
        rw (add32_exact rb.back amt (omega (arith, v.fits))) (ground (arith, at.high)),
        record {
          block = v.block;
          front_low = v.front_low;
          front_in = v.front_in;
          back_low = at.low;
          back_in = at.high;
          fits = v.fits;
          front_whole = v.front_whole;
          back_whole = at.whole;
          end_whole = v.end_whole;
        },
      )

-- `_do_ringbuff_init` makes a valid buffer, if blocks are not empty and the storage of `len + 1`
-- blocks ends below 2 ^ 32.
pub init-IsValid :
    (buff len t : ℕ) → 0 < t → buff + (len + 1) * t < 2 ^ 32 → IsValid (init buff len t) t
unfolding init
init-IsValid buff len t pos fits =
    let room = le-mul (len + 1) t pos in
    let blocks = ap (λ (x : ℕ). mul32 x t) (add32_exact len 1 (omega arith)) in
    let size = blocks ∙ mul32_exact (len + 1) t (omega arith) in
    let e : add32 buff (mul32 (add32 len 1) t) ≡ buff + (len + 1) * t =
      ap (add32 buff) size ∙ add32_exact buff ((len + 1) * t) fits in
    record {
      block = pos;
      front_low = omega arith;
      front_in = omega arith;
      back_low = omega arith;
      back_in = omega arith;
      fits = omega arith;
      front_whole = IsWhole-eq _ (IsWhole-zero t) (omega arith);
      back_whole = IsWhole-eq _ (IsWhole-zero t) (omega arith);
      end_whole = record { count = len + 1; size = omega arith };
    }
