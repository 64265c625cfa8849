-- ===== src/RingBuff/Extend.antt =====
-- What moving the back of a ring buffer and writing into its free bytes do to its contents
-- (kernel/inc/common/ringbuff.h).
use k_os.Base.{
  ℕ, ◌+◌, ◌-◌, ◌≤◌, ◌<◌, ◌≡◌, ◌∙◌, ap, ap₂, sym, ◌++◌, append-nil, append_assoc, ◌⊎◌, inl, inr,
  arith, leb, Bool-cases, leb→le, eq_or_ne,
}
use k_os.Base.Memory.{Memory, bytes, bytes-append}
use k_os.CString.{memcpy}
use k_os.CString.Blocks.{bytes-memcpy_apart}
use k_os.RingBuff.{RingBuff, chunksize_write}
use k_os.RingBuff.Valid.{IsValid, IsValid-Spacing, back_after}
use k_os.RingBuff.Chunks.{chunksize_write_fits, chunksize_write_lem}
use k_os.RingBuff.Contents.{contents, contents_flat, contents_split, wrap_inside, wrap_end}

extend_flat :
    (rb : RingBuff) (m : Memory) (k : ℕ)
    → rb.front ≤ rb.back
    → rb.start ≤ rb.front
    → rb.back + k ≤ rb.end
    → ((rb.back + k < rb.end) ⊎ (rb.start < rb.front))
    → contents (back_after rb k) m ≡ bytes m rb.front (rb.back + k - rb.front)
extend_flat rb m k l low fits free = elim (eq_or_ne (rb.back + k) rb.end) [
  | inl hit ↦
      let w = wrap_end rb (rb.back + k) hit in
      contents_split (back_after rb k) m (rw w (omega arith))
      ∙ rw (w, hit)
          (ap (λ (n : ℕ). bytes m rb.front (rb.end - rb.front) ++ bytes m rb.start n) {y = 0}
              (omega arith)
            ∙ append-nil (bytes m rb.front (rb.end - rb.front)))
  | inr (inl inner) ↦
      let w = wrap_inside rb (rb.back + k) inner in
      contents_flat (back_after rb k) m (rw w (omega arith)) ∙ rw w
  | inr (inr past) ↦ absurd (omega arith)
]

-- The contents with the back moved on over `k` free bytes.
pub extend-contents :
    {rb : RingBuff} {t : ℕ} (m : Memory) (k : ℕ)
    → IsValid rb t
    → k ≤ chunksize_write rb t
    → contents (back_after rb k) m ≡ contents rb m ++ bytes m rb.back k
extend-contents {rb} {t} m k v h = elim (Bool-cases (leb rb.front rb.back)) [
  | inl flat ↦
      let l = leb→le rb.front rb.back flat in
      let fits = (chunksize_write_fits v).0 in
      let free : (rb.back + k < rb.end) ⊎ (rb.start < rb.front) =
        ground (arith, chunksize_write_lem v, v.back_in, v.front_low, v.block) in
      extend_flat rb m k l v.front_low (omega arith) free
      ∙ bytes-append m rb.front (rb.back - rb.front) k rb.back (rb.back + k - rb.front)
          (omega arith) (omega arith)
      ∙ ap (λ xs. xs ++ bytes m rb.back k) (sym (contents_flat rb m l))
  | inr split ↦
      let l : rb.back < rb.front = ground arith in
      let e : chunksize_write rb t ≡ rb.front - rb.back - t = chunksize_write_lem v ∙ rw split in
      let sp = (IsValid-Spacing v).above l in
      let w = wrap_inside rb (rb.back + k) (omega (arith, v.front_in)) in
      let first = bytes m rb.front (rb.end - rb.front) in
      contents_split (back_after rb k) m (rw w (omega (arith, v.block)))
      ∙ rw w (
          ap (λ xs. first ++ xs)
            (bytes-append m rb.start (rb.back - rb.start) k rb.back (rb.back + k - rb.start)
              (omega (arith, v.back_low)) (omega (arith, v.back_low)))
          ∙ sym (append_assoc first (bytes m rb.start (rb.back - rb.start)) (bytes m rb.back k)))
      ∙ ap (λ xs. xs ++ bytes m rb.back k) (sym (contents_split rb m l))
]

-- Writing over free bytes behind the back leaves the contents as they were.
pub contents-memcpy :
    {rb : RingBuff} {t : ℕ} (m : Memory) (buff k : ℕ)
    → IsValid rb t
    → k ≤ chunksize_write rb t
    → (rb.back ≤ buff) ⊎ (buff + k ≤ rb.back)
    → contents rb (memcpy rb.back buff k m) ≡ contents rb m
contents-memcpy {rb} {t} m buff k v h clear = elim (Bool-cases (leb rb.front rb.back)) [
  | inl flat ↦
      let l = leb→le rb.front rb.back flat in
      contents_flat rb (memcpy rb.back buff k m) l
      ∙ bytes-memcpy_apart rb.back buff k m rb.front (rb.back - rb.front) clear (omega arith)
      ∙ sym (contents_flat rb m l)
  | inr split ↦
      let l : rb.back < rb.front = ground arith in
      let e : chunksize_write rb t ≡ rb.front - rb.back - t = chunksize_write_lem v ∙ rw split in
      contents_split rb (memcpy rb.back buff k m) l
      ∙ ap₂ ◌++◌
          (bytes-memcpy_apart rb.back buff k m rb.front (rb.end - rb.front) clear (omega arith))
          (bytes-memcpy_apart rb.back buff k m rb.start (rb.back - rb.start) clear
            (omega (arith, v.back_low)))
      ∙ sym (contents_split rb m l)
]
