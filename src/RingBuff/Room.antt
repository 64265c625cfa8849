-- ===== src/RingBuff/Room.antt =====
-- The free space of kernel/inc/common/ringbuff.h: the chunk that can be written, the test for a full
-- buffer and the two counts.
use k_os.Base.{
  ℕ, zero, suc, ◌^◌, ◌+◌, ◌-◌, ◌*◌, ◌/◌, ◌%◌, ◌≤◌, ◌<◌, ◌≡◌, ◌≢◌, sym, ◌⊎◌, ◌↔◌, inl, inr, arith,
  leb, true, Bool-cases, leb→le, some,
}
use k_os.Base.Products.{le-mul}
use k_os.Base.Word.{sub32_exact, add32_exact}
use k_os.RingBuff.{
  RingBuff, chunksize_write, is_full, space_used, space_left, bytes_queued, bytes_free,
}
use k_os.RingBuff.Valid.{
  IsWhole, IsWhole-zero, IsWhole-eq, IsWhole-add, IsWhole-sub, IsWhole-gap, IsValid,
  IsValid-Spacing,
}
use k_os.RingBuff.Chunks.{chunksize_write_lem}
use k_os.RingBuff.Contents.{used, room}

-- A number of whole blocks is divided by their size without a rest.
whole-div : {t n : ℕ} → 0 < t → (w : IsWhole t n) → (n % t ≡ 0) × (n / t ≡ w.count)
whole-div {t} {n} h w = rw w.size (grind arith, grind arith)

module _ {rb : RingBuff} {t : ℕ} (v : IsValid rb t) where
  -- A front behind the start of the storage is a block behind it.
  pub front_gap : rb.start < rb.front → rb.start + t ≤ rb.front
  front_gap h = omega (arith, IsWhole-gap (IsWhole-zero t) v.front_whole (omega arith))

  pub chunksize_write-le : chunksize_write rb t ≤ room rb t
  chunksize_write-le =
      let sp = IsValid-Spacing v in
      rw (chunksize_write_lem v) (
        ground (
          arith, v.front_low, v.back_low, v.back_in, v.front_in, sp.back_room, sp.above, front_gap,
        ))

  -- The chunk is all the room, unless the room goes round the end of the storage.
  pub chunksize_write-room :
      (rb.back < rb.front) ⊎ (rb.front ≡ rb.start) → chunksize_write rb t ≡ room rb t
  chunksize_write-room h =
      let sp = IsValid-Spacing v in
      rw (chunksize_write_lem v)
        (ground (arith, v.front_low, v.back_low, v.back_in, v.front_in, sp.back_room, sp.above))

  -- In a valid ring buffer, `ringbuff_is_full` is true exactly when there is no room and the front
  -- is not at the start of the storage.
  pub is_full_iff : (is_full rb t ≡ true) ↔ ((room rb t ≡ 0) × (rb.front ≢ rb.start))
  unfolding is_full
  is_full_iff =
      let sp = IsValid-Spacing v in
      rw (add32_exact rb.back t (omega (arith, v.fits, sp.back_room))) (
        ground (
          arith, v.block, v.front_low, v.back_low, v.back_in, v.front_in, sp.back_room, sp.above,
          front_gap,
        ))

  used-IsWhole : IsWhole t (used rb)
  used-IsWhole = elim (Bool-cases (leb rb.front rb.back)) [
    | inl flat ↦
        let l = leb→le rb.front rb.back flat in
        rw flat (
          IsWhole-eq _ (IsWhole-sub v.back_whole v.front_whole (omega arith))
            (omega (arith, v.front_low)))
    | inr split ↦ rw split (
        IsWhole-add
          (IsWhole-eq _ (IsWhole-sub v.end_whole v.front_whole (omega (arith, v.front_in)))
            (omega (arith, v.front_low, v.front_in)))
          v.back_whole)
  ]

  used-room : used rb + room rb t + t ≡ rb.end - rb.start
  used-room =
      let sp = IsValid-Spacing v in
      ground (arith, v.front_low, v.back_low, v.back_in, v.front_in, sp.back_room, sp.above)

  bytes_queued_lem : bytes_queued rb ≡ used rb
  unfolding bytes_queued
  bytes_queued_lem = ground (
    arith,
    v.fits,
    v.front_low,
    v.back_low,
    v.back_in,
    v.front_in,
    sub32_exact rb.back rb.front,
    sub32_exact rb.end rb.front,
    sub32_exact rb.back rb.start,
    add32_exact (rb.end - rb.front) (rb.back - rb.start),
  )

  bytes_free_lem : bytes_free rb ≡ room rb t + t
  unfolding bytes_free
  bytes_free_lem =
      let sp = IsValid-Spacing v in
      ground (
        arith,
        v.fits,
        v.front_low,
        v.back_low,
        v.back_in,
        v.front_in,
        sp.back_room,
        sp.above,
        sub32_exact rb.front rb.back,
        sub32_exact rb.end rb.back,
        sub32_exact rb.front rb.start,
        add32_exact (rb.end - rb.back) (rb.front - rb.start),
      )

  space_used_lem : (w : IsWhole t (used rb)) → space_used rb t ≡ some w.count
  unfolding space_used
  space_used_lem w =
      let (q, q') = whole-div v.block w in rw bytes_queued_lem (ground (arith, q, q'))

  space_left_lem :
      (k : ℕ)
      → room rb t + t ≡ suc k * t
      → suc k < 2 ^ 32
      → (space_left rb t ≡ some k) × (k * t ≡ room rb t)
  unfolding space_left
  space_left_lem k e small =
      let (q, q') = whole-div v.block (record { count = suc k; size = e }) in
      (rw bytes_free_lem (ground (arith, q, q', sub32_exact (suc k) 1)), omega arith)

  space_left-some :
      (k : ℕ)
      → room rb t + t ≡ k * t
      → (left : ℕ) × (space_left rb t ≡ some left) × (left * t ≡ room rb t)
  space_left-some zero e = absurd (omega (arith, v.block))
  space_left-some (suc k) e =
      let (out, size) =
        space_left_lem k e
          (omega (arith, le-mul (suc k) t v.block, used-room, v.fits, v.front_in)) in
      (k, out, size)

  -- In a valid ring buffer `ringbuff_space_used` and `ringbuff_space_left` do not fail: they count
  -- the blocks queued and those that there is room for, which are together all blocks of the
  -- storage but one.
  pub space_lem :
      ((queued : ℕ) × (space_used rb t ≡ some queued) × (queued * t ≡ used rb))
      × ((left : ℕ) × (space_left rb t ≡ some left) × (left * t ≡ room rb t))
      × (used rb + room rb t + t ≡ rb.end - rb.start)
  space_lem = (
    (used-IsWhole.count, space_used_lem used-IsWhole, sym used-IsWhole.size),
    space_left-some free.count free.size,
    used-room,
  )
    where
      free : IsWhole t (room rb t + t)
      free =
          IsWhole-eq _ (IsWhole-sub v.end_whole used-IsWhole (omega (arith, used-room)))
            (omega (arith, used-room))
