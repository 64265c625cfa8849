-- ===== src/RingBuff/Write.antt =====
-- `_do_ringbuff_write` of kernel/inc/common/ringbuff.h puts bytes behind the contents.
use k_os.Base.{
  ℕ, ◌+◌, ◌-◌, ◌≤◌, ◌<◌, ◌^◌, ◌≡◌, refl, ◌∙◌, ap, ap₂, sym, subst, ◌++◌, append_assoc, ◌⊎◌, inl,
  inr, arith, ltb, ◌&&◌, Bool-cases, le_or_lt, eq_or_ne, length, length-append, some, not, min,
}
use k_os.Base.Memory.{Memory, bytes, bytes-append, bytes_ext, length-bytes}
use k_os.Base.Word.{sub32_exact, add32_exact, c_min-min}
use k_os.CString.{memcpy}
use k_os.CString.Blocks.{bytes-memcpy, memcpy_lem}
use k_os.RingBuff.{RingBuff, Outcome, write_chunk, write_more, write, chunksize_write, is_full}
use k_os.RingBuff.Valid.{
  IsWhole, IsWhole-min, IsWhole-eq, IsWhole-sub, IsValid, back_after, advance_back-IsValid,
}
use k_os.RingBuff.Chunks.{chunksize_write_fits, chunksize_write_lem}
use k_os.RingBuff.Contents.{contents, used, room, length-contents, wrap_end}
use k_os.RingBuff.Room.{chunksize_write-le, chunksize_write-room, is_full_iff}
use k_os.RingBuff.Read.{Apart}
use k_os.RingBuff.Extend.{extend-contents, contents-memcpy}

-- `amt` bytes at `buff` went behind the contents of the buffer, and nothing outside the storage
-- changed.
pub record IsWritten (out : Outcome) (rb : RingBuff) (t buff amt : ℕ) (m : Memory) : Type 0 where
  pub rb' : RingBuff
  pub m' : Memory
  pub returns : out ≡ some (amt, rb', m')
  pub queued : contents rb' m' ≡ contents rb m ++ bytes m buff amt
  pub valid : IsValid rb' t
  pub same_start : rb'.start ≡ rb.start
  pub same_end : rb'.end ≡ rb.end
  pub others : (a : ℕ) → (a < rb.start) ⊎ (rb.end ≤ a) → m' a ≡ m a

module _ {rb : RingBuff} {t : ℕ} (buff len : ℕ) (m : Memory) (v : IsValid rb t)
    (whole : IsWhole t len) (apart : Apart rb buff len) where
  write_chunk-IsWritten :
      (amt : ℕ)
      → amt ≡ min len (chunksize_write rb t)
      → (r : IsWritten (write_chunk rb buff len t m) rb t buff amt m) × (r.rb' ≡ back_after rb amt)
  unfolding write_chunk
  write_chunk-IsWritten amt e =
      let (fits, blocks) = chunksize_write_fits v in
      let (advanced, valid) =
        advance_back-IsValid {amt = amt} v (IsWhole-eq amt (IsWhole-min whole blocks) (sym e))
          (omega arith) in
      let amount = c_min-min len (chunksize_write rb t) ∙ sym e in
      let clear : (rb.back ≤ buff) ⊎ (buff + amt ≤ rb.back) =
        omega (arith, v.back_low, v.back_in) in
      (
        record {
          rb' = back_after rb amt;
          m' = memcpy rb.back buff amt m;
          returns = rw (write_chunk, amount, advanced, amount);
          queued =
              extend-contents (memcpy rb.back buff amt m) amt v (omega arith)
              ∙ ap₂ ◌++◌ (contents-memcpy m buff amt v (omega arith) clear)
                  (bytes-memcpy rb.back buff amt m clear);
          valid = valid;
          same_start = refl;
          same_end = refl;
          others = λ a out. memcpy_lem rb.back buff amt m a clear ∙ ground (arith, v.back_low);
        },
        refl,
      )

IsWritten-returns :
    {out : Outcome} {rb : RingBuff} {t buff amt : ℕ} {m : Memory}
    (r : IsWritten out rb t buff amt m)
    → IsWritten (some (amt, r.rb', r.m')) rb t buff amt m
IsWritten-returns r = record {
  rb' = r.rb';
  m' = r.m';
  returns = refl;
  queued = r.queued;
  valid = r.valid;
  same_start = r.same_start;
  same_end = r.same_end;
  others = r.others;
}

-- A second write takes up where the first one ended.
IsWritten-IsWritten :
    {out out' : Outcome} {rb : RingBuff} {t buff amt more : ℕ} {m : Memory}
    (first : IsWritten out rb t buff amt m)
    (second : IsWritten out' first.rb' t (buff + amt) more first.m')
    → Apart rb buff (amt + more)
    → IsWritten (some (amt + more, second.rb', second.m')) rb t buff (amt + more) m
IsWritten-IsWritten {rb} {buff} {amt} {more} {m} first second apart = record {
  rb' = second.rb';
  m' = second.m';
  returns = refl;
  queued =
      second.queued
      ∙ ap₂ ◌++◌ first.queued kept
      ∙ append_assoc (contents rb m) (bytes m buff amt) (bytes m (buff + amt) more)
      ∙ ap (λ xs. contents rb m ++ xs)
          (sym (bytes-append m buff amt more (buff + amt) (amt + more) refl refl));
  valid = second.valid;
  same_start = second.same_start ∙ first.same_start;
  same_end = second.same_end ∙ first.same_end;
  others = λ a out.
      second.others a (omega (arith, first.same_start, first.same_end)) ∙ first.others a out;
}
  where
    kept : bytes first.m' (buff + amt) more ≡ bytes m (buff + amt) more
    kept =
        bytes_ext first.m' m (buff + amt) (buff + amt) more
          (λ i l. first.others (buff + amt + i) (omega arith))

-- What the second half of a write does after a first half of `amt` bytes.
write_more-IsWritten :
    {out : Outcome} {rb : RingBuff} {t buff amt : ℕ} (len : ℕ) {m : Memory}
    (first : IsWritten out rb t buff amt m)
    → buff + len < 2 ^ 32
    → IsWhole t (len - amt)
    → Apart rb buff len
    → amt ≤ len
    → (amt ≡ len) ⊎ (chunksize_write first.rb' t ≡ room first.rb' t)
    → IsWritten
        (write_more buff len t amt first.rb' first.m')
        rb
        t
        buff
        (amt + min (len - amt) (room first.rb' t))
        m
unfolding write_more
write_more-IsWritten {rb} {t} {buff} {amt} len {m} first small whole apart le last =
    elim (Bool-cases (ltb amt len && not (is_full first.rb' t))) [
      | inl again ↦
          let l : amt < len = ground arith in
          let (second, _) =
            write_chunk-IsWritten (buff + amt) (len - amt) first.m' first.valid whole
              (omega (arith, first.same_start, first.same_end)) (min (len - amt) (room first.rb' t))
              (ground (arith, last)) in
          rw
            (
              again,
              add32_exact buff amt (omega arith),
              sub32_exact len amt le (omega arith),
              second.returns,
              add32_exact amt (min (len - amt) (room first.rb' t)) (omega arith),
            )
            (IsWritten-IsWritten first second (omega arith))
      | inr done ↦
          let e : amt ≡ amt + min (len - amt) (room first.rb' t) =
            ground (arith, (is_full_iff first.valid).0) in
          rw done (
            subst (λ (n : ℕ). IsWritten (some (amt, first.rb', first.m')) rb t buff n m) e
              (IsWritten-returns first))
    ]

-- Behind a first half, all is written or one chunk of room is left.
one_chunk_left :
    {rb rb' : RingBuff} {t : ℕ} (len amt : ℕ)
    → IsValid rb t
    → IsValid rb' t
    → amt ≡ min len (chunksize_write rb t)
    → rb' ≡ back_after rb amt
    → (room rb' t ≡ room rb t - amt)
    → (amt ≡ len) ⊎ (chunksize_write rb' t ≡ room rb' t)
one_chunk_left {rb} {rb'} {t} len amt v v' e e' less = elim (le_or_lt len (chunksize_write rb t)) [
  | inl l ↦ inl (omega arith)
  | inr l ↦ inr (elim (le_or_lt rb.front rb.back) [
    | inr split ↦ spent l (chunksize_write-room v (inl split))
    | inl flat ↦ elim (eq_or_ne rb.front rb.start) [
      | inl tight ↦ spent l (chunksize_write-room v (inr tight))
      | inr loose ↦
          let c : chunksize_write rb t ≡ rb.end - rb.back =
            chunksize_write_lem v ∙ ground (arith, v.front_low) in
          let turned : rb'.back ≡ rb.start =
            ap (λ (r : RingBuff). r.back) e'
            ∙ wrap_end rb (rb.back + amt) (omega (arith, v.back_in)) in
          let same : rb'.front ≡ rb.front = ap (λ (r : RingBuff). r.front) e' in
          chunksize_write-room v' (inl (omega (arith, v.front_low)))
    ]
  ])
]
  where
    spent :
        chunksize_write rb t < len
        → chunksize_write rb t ≡ room rb t
        → chunksize_write rb' t ≡ room rb' t
    spent l all = omega (arith, chunksize_write-le v', chunksize_write-le v)

module _ {rb : RingBuff} {t : ℕ} (buff len : ℕ) (m : Memory) (v : IsValid rb t)
    (whole : IsWhole t len) (apart : Apart rb buff len) (small : buff + len < 2 ^ 32) where
  write-first :
      (amt : ℕ)
      → amt ≡ min len (chunksize_write rb t)
      → IsWritten (write rb buff len t m) rb t buff (min len (room rb t)) m
  unfolding write
  write-first amt e =
      let (first, advanced) = write_chunk-IsWritten buff len m v whole apart amt e in
      let more : used first.rb' ≡ used rb + amt = omega (
        arith,
        ap length first.queued,
        length-contents first.rb' first.m',
        length-contents rb m,
        length-append (contents rb m) (bytes m buff amt),
        length-bytes m buff amt,
      ) in
      let less : room first.rb' t ≡ room rb t - amt =
        omega (arith, first.same_start, first.same_end) in
      let le = chunksize_write-le v in
      let total : amt + min (len - amt) (room first.rb' t) ≡ min len (room rb t) = omega arith in
      let rest : IsWhole t (len - amt) =
        IsWhole-sub whole (IsWhole-eq amt (IsWhole-min whole (chunksize_write_fits v).1) (sym e))
          (omega arith) in
      rw (write, first.returns)
        (subst (λ (n : ℕ). IsWritten (write_more buff len t amt first.rb' first.m') rb t buff n m)
          total
          (write_more-IsWritten len first small rest apart (omega arith)
            (one_chunk_left len amt v first.valid e advanced less)))

  -- In a valid ring buffer, a write of whole blocks from a place outside the storage that ends
  -- below 2 ^ 32 puts as many bytes as there is room for, up to `len`, behind the contents in
  -- order, leaves the buffer valid, and changes no byte outside the storage.
  pub write-IsWritten : IsWritten (write rb buff len t m) rb t buff (min len (room rb t)) m
  write-IsWritten = write-first (min len (chunksize_write rb t)) refl
