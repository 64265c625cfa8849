-- ===== src/RingBuff/Contents.antt =====
-- The abstract view of kernel/inc/common/ringbuff.h: the bytes that are queued, oldest first, and
-- the free space behind them.
use k_os.Base.{
  ℕ, ◌+◌, ◌-◌, ◌≤◌, ◌<◌, ◌≡◌, ◌∙◌, ap, ap₂, sym, inl, inr, arith, leb, if◌then◌else◌, Bool-cases,
  leb→le, le→leb, eq_or_ne, ◌↔◌, true, List, ◌++◌, length, length-append, take, drop,
  take-append_left, drop-append_left,
}
use k_os.Base.Memory.{Memory, bytes, length-bytes, take-bytes, drop-bytes}
use k_os.RingBuff.{RingBuff, wrap, is_empty, chunksize_read}
use k_os.RingBuff.Valid.{IsValid, front_after}
use k_os.RingBuff.Chunks.{chunksize_read_lem}

-- The queued bytes, oldest first.
abbrev pub contents : RingBuff → Memory → List ℕ
contents rb m =
    if leb rb.front rb.back
    then bytes m rb.front (rb.back - rb.front)
    else bytes m rb.front (rb.end - rb.front) ++ bytes m rb.start (rb.back - rb.start)

-- How many bytes are queued, and how many more may be: one block always stays free.
abbrev pub used : RingBuff → ℕ
used rb =
    if leb rb.front rb.back then rb.back - rb.front else (rb.end - rb.front) + (rb.back - rb.start)

abbrev pub room : RingBuff → ℕ → ℕ
room rb t = rb.end - rb.start - t - used rb

pub length-contents : (rb : RingBuff) (m : Memory) → length (contents rb m) ≡ used rb
length-contents rb m = elim (Bool-cases (leb rb.front rb.back)) [
  | inl flat ↦ rw flat (length-bytes m rb.front (rb.back - rb.front))
  | inr split ↦ rw split (
      length-append (bytes m rb.front (rb.end - rb.front)) (bytes m rb.start (rb.back - rb.start))
      ∙ ap₂ ◌+◌ (length-bytes m rb.front (rb.end - rb.front))
          (length-bytes m rb.start (rb.back - rb.start)))
]

-- Taking up to a chunk off the front splits the contents there.
pub take-contents :
    {rb : RingBuff} {t : ℕ} (m : Memory) (k : ℕ)
    → IsValid rb t
    → k ≤ chunksize_read rb
    → take k (contents rb m) ≡ bytes m rb.front k
take-contents {rb} m k v h = elim (Bool-cases (leb rb.front rb.back)) [
  | inl flat ↦
      let e : chunksize_read rb ≡ rb.back - rb.front = chunksize_read_lem v ∙ rw flat in
      rw flat (take-bytes m rb.front (rb.back - rb.front) k (omega arith))
  | inr split ↦
      let e : chunksize_read rb ≡ rb.end - rb.front = chunksize_read_lem v ∙ rw split in
      rw split (
        take-append_left k (bytes m rb.front (rb.end - rb.front))
          (bytes m rb.start (rb.back - rb.start))
          (omega (arith, length-bytes m rb.front (rb.end - rb.front)))
        ∙ take-bytes m rb.front (rb.end - rb.front) k (omega arith))
]

pub contents_flat :
    (rb : RingBuff) (m : Memory)
    → rb.front ≤ rb.back
    → contents rb m ≡ bytes m rb.front (rb.back - rb.front)
contents_flat rb m h = ground arith

pub contents_split :
    (rb : RingBuff) (m : Memory)
    → rb.back < rb.front
    → contents rb m ≡ bytes m rb.front (rb.end - rb.front) ++ bytes m rb.start (rb.back - rb.start)
contents_split rb m h = ground arith

pub wrap_inside : (rb : RingBuff) (x : ℕ) → x < rb.end → wrap rb x ≡ x
unfolding wrap
wrap_inside rb x h = ground arith

pub wrap_end : (rb : RingBuff) (x : ℕ) → x ≡ rb.end → wrap rb x ≡ rb.start
unfolding wrap
wrap_end rb x h = ground arith

drop-split :
    (rb : RingBuff) (m : Memory) (k : ℕ)
    → rb.back < rb.front
    → rb.front + k ≤ rb.end
    → rb.start ≤ rb.back
    → contents (front_after rb k) m
      ≡ bytes m (rb.front + k) (rb.end - rb.front - k) ++ bytes m rb.start (rb.back - rb.start)
drop-split rb m k l fits low = elim (eq_or_ne (rb.front + k) rb.end) [
  | inl hit ↦
      let w = wrap_end rb (rb.front + k) hit in
      contents_flat (front_after rb k) m (rw w low)
      ∙ rw w (
          ap (λ (n : ℕ). bytes m (rb.front + k) n ++ bytes m rb.start (rb.back - rb.start)) {x = 0}
            (omega arith))
  | inr (inl inner) ↦
      let w = wrap_inside rb (rb.front + k) inner in
      contents_split (front_after rb k) m (rw w (omega arith))
      ∙ rw w (
          ap (λ (n : ℕ). bytes m (rb.front + k) n ++ bytes m rb.start (rb.back - rb.start))
            (omega arith))
  | inr (inr past) ↦ absurd (omega arith)
]

-- What is left is the contents without what was taken.
pub drop-contents :
    {rb : RingBuff} {t : ℕ} (m : Memory) (k : ℕ)
    → IsValid rb t
    → k ≤ chunksize_read rb
    → contents (front_after rb k) m ≡ drop k (contents rb m)
drop-contents {rb} m k v h = elim (Bool-cases (leb rb.front rb.back)) [
  | inl flat ↦
      let e : chunksize_read rb ≡ rb.back - rb.front = chunksize_read_lem v ∙ rw flat in
      let l = leb→le rb.front rb.back flat in
      let w = wrap_inside rb (rb.front + k) (omega (arith, v.back_in)) in
      contents_flat (front_after rb k) m (rw w (omega arith))
      ∙ rw w (ap (bytes m (rb.front + k)) (omega arith))
      ∙ sym (drop-bytes m rb.front (rb.back - rb.front) k (omega arith))
      ∙ sym (ap (drop k) (contents_flat rb m l))
  | inr split ↦
      let e : chunksize_read rb ≡ rb.end - rb.front = chunksize_read_lem v ∙ rw split in
      let l : rb.back < rb.front = ground arith in
      let first = bytes m rb.front (rb.end - rb.front) in
      let rest = bytes m rb.start (rb.back - rb.start) in
      let dropped : drop k (contents rb m)
          ≡ bytes m (rb.front + k) (rb.end - rb.front - k) ++ rest =
        ap (drop k) (contents_split rb m l)
        ∙ drop-append_left k first rest (omega (arith, length-bytes m rb.front (rb.end - rb.front)))
        ∙ ap (λ xs. xs ++ rest) (drop-bytes m rb.front (rb.end - rb.front) k (omega arith)) in
      drop-split rb m k l (omega (arith, v.front_in)) v.back_low ∙ sym dropped
]

module _ {rb : RingBuff} {t : ℕ} (v : IsValid rb t) where
  -- A chunk is part of the contents, and behind a whole chunk all that is left is one chunk.
  pub chunksize_read-le : chunksize_read rb ≤ used rb
  chunksize_read-le = ground (arith, chunksize_read_lem v)

  front_after_chunk : (front_after rb (chunksize_read rb)).front ≤ rb.back
  front_after_chunk = elim (Bool-cases (leb rb.front rb.back)) [
    | inl flat ↦
        let l = leb→le rb.front rb.back flat in
        let e : rb.front + chunksize_read rb ≡ rb.back =
          let c : chunksize_read rb ≡ rb.back - rb.front = chunksize_read_lem v ∙ rw flat in
          omega arith in
        rw (e, wrap_inside rb rb.back v.back_in) (omega arith)
    | inr split ↦
        let e : chunksize_read rb ≡ rb.end - rb.front = chunksize_read_lem v ∙ rw split in
        rw (wrap_end rb (rb.front + chunksize_read rb) (omega (arith, v.front_in))) v.back_low
  ]

  pub chunksize_read_rest :
      IsValid (front_after rb (chunksize_read rb)) t
      → chunksize_read (front_after rb (chunksize_read rb))
        ≡ used (front_after rb (chunksize_read rb))
  chunksize_read_rest v' = let l = le→leb _ _ front_after_chunk in chunksize_read_lem v' ∙ rw l

  -- The test for an empty buffer.
  pub is_empty_iff : (is_empty rb ≡ true) ↔ (used rb ≡ 0)
  unfolding is_empty
  is_empty_iff = ground (arith, v.front_in, v.back_low)

-- The contents stand as they were, if the storage does.
pub contents-agree :
    {rb : RingBuff} {t : ℕ} (m m' : Memory)
    → IsValid rb t
    → ((p n : ℕ) → rb.start ≤ p → p + n ≤ rb.end → bytes m' p n ≡ bytes m p n)
    → contents rb m' ≡ contents rb m
contents-agree {rb} m m' v same = elim (Bool-cases (leb rb.front rb.back)) [
  | inl flat ↦
      let l = leb→le rb.front rb.back flat in
      rw flat (same rb.front (rb.back - rb.front) v.front_low (omega (arith, v.back_in)))
  | inr split ↦ rw split (
      ap₂ ◌++◌ (same rb.front (rb.end - rb.front) v.front_low (omega (arith, v.front_in)))
        (same rb.start (rb.back - rb.start) (omega arith) (omega (arith, v.back_low, v.back_in))))
]
