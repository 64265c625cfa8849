-- ===== src/RingBuff/Chunks.antt =====
-- The chunk sizes of kernel/inc/common/ringbuff.h in a valid buffer: no difference wraps, a chunk
-- ends inside the storage, and it is a number of whole blocks.
use k_os.Base.{
  ℕ, ◌+◌, ◌-◌, ◌≤◌, ◌<◌, ◌≡◌, ◌∙◌, inl, inr, arith, leb, ◌==◌, if◌then◌else◌, Bool-cases, leb→le,
}
use k_os.Base.Word.{sub32_exact}
use k_os.RingBuff.{RingBuff, chunksize_read, chunksize_write}
use k_os.RingBuff.Valid.{IsWhole, IsWhole-eq, IsWhole-sub, IsWhole-one, IsValid, IsValid-Spacing}

module _ {rb : RingBuff} {t : ℕ} (v : IsValid rb t) where
  -- The chunk sizes, with the differences that do not wrap.
  pub chunksize_read_lem :
      chunksize_read rb ≡ (if leb rb.front rb.back then rb.back - rb.front else rb.end - rb.front)
  unfolding chunksize_read
  chunksize_read_lem = ground (
    arith,
    v.front_in,
    v.back_in,
    v.fits,
    sub32_exact rb.back rb.front,
    sub32_exact rb.end rb.front,
  )

  -- A read chunk ends inside the storage, and is whole blocks.
  pub chunksize_read_fits : (rb.front + chunksize_read rb ≤ rb.end) × IsWhole t (chunksize_read rb)
  chunksize_read_fits = elim (Bool-cases (leb rb.front rb.back)) [
    | inl flat ↦
        let e : chunksize_read rb ≡ rb.back - rb.front = chunksize_read_lem ∙ rw flat in
        let l = leb→le rb.front rb.back flat in
        (
          omega (arith, v.back_in),
          IsWhole-eq _ (IsWhole-sub v.back_whole v.front_whole (omega arith))
              (omega (arith, v.front_low, v.back_low)),
        )
    | inr split ↦
        let e : chunksize_read rb ≡ rb.end - rb.front = chunksize_read_lem ∙ rw split in
        (
          omega (arith, v.front_in),
          IsWhole-eq _ (IsWhole-sub v.end_whole v.front_whole (omega (arith, v.front_in)))
              (omega (arith, v.front_low, v.front_in)),
        )
  ]

  pub chunksize_write_lem : chunksize_write rb t ≡ (
      if leb rb.front rb.back
      then rb.end - rb.back - (if rb.front == rb.start then t else 0)
      else rb.front - rb.back - t)
  unfolding chunksize_write
  chunksize_write_lem =
      let sp = IsValid-Spacing v in
      ground (
        arith,
        v.front_in,
        v.back_in,
        v.fits,
        sp.back_room,
        sp.above,
        sub32_exact rb.end rb.back,
        sub32_exact rb.front rb.back,
        sub32_exact (rb.end - rb.back) t,
        sub32_exact (rb.end - rb.back) 0,
        sub32_exact (rb.front - rb.back) t,
      )

  -- A written chunk ends inside the storage, and is whole blocks.
  pub chunksize_write_fits :
      (rb.back + chunksize_write rb t ≤ rb.end) × IsWhole t (chunksize_write rb t)
  chunksize_write_fits = elim (Bool-cases (leb rb.front rb.back)) [
    | inl flat ↦ elim (Bool-cases (rb.front == rb.start)) [
      | inl tight ↦
          let e : chunksize_write rb t ≡ rb.end - rb.back - t =
            chunksize_write_lem ∙ rw (flat, tight) in
          let sp = (IsValid-Spacing v).back_room in
          (omega arith, IsWhole-eq _ (IsWhole-sub gap (IsWhole-one t) (omega arith)) (omega arith))
      | inr loose ↦
          let e : chunksize_write rb t ≡ rb.end - rb.back =
            chunksize_write_lem ∙ rw (flat, loose) (omega arith) in
          (omega (arith, v.back_in), IsWhole-eq _ gap (omega arith))
    ]
    | inr split ↦
        let e : chunksize_write rb t ≡ rb.front - rb.back - t = chunksize_write_lem ∙ rw split in
        let l : rb.back < rb.front = ground arith in
        let sp = (IsValid-Spacing v).above l in
        let between : IsWhole t (rb.front - rb.back) =
          IsWhole-eq _ (IsWhole-sub v.front_whole v.back_whole (omega arith))
            (omega (arith, v.front_low, v.back_low)) in
        (
          omega (arith, v.front_in),
          IsWhole-eq _ (IsWhole-sub between (IsWhole-one t) (omega arith)) (omega arith),
        )
  ]
    where
      gap : IsWhole t (rb.end - rb.back)
      gap =
          IsWhole-eq _ (IsWhole-sub v.end_whole v.back_whole (omega (arith, v.back_in)))
            (omega (arith, v.back_low, v.back_in))
