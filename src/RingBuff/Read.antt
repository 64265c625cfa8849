-- ===== src/RingBuff/Read.antt =====
-- `_do_ringbuff_read` of kernel/inc/common/ringbuff.h takes bytes off the front of the contents.
use k_os.Base.{
  ℕ, ◌+◌, ◌-◌, ◌≤◌, ◌<◌, ◌^◌, ◌≡◌, refl, ◌∙◌, ap, ap₂, sym, subst, ◌++◌, ◌⊎◌, inl, inr, arith, ltb,
  false, ◌&&◌, Bool-cases, le_or_lt, length, some, not, min, take, drop, take-take-drop, drop-drop,
  length-drop,
}
use k_os.Base.Memory.{Memory, bytes, bytes-append, bytes_ext}
use k_os.Base.Word.{sub32_exact, add32_exact, c_min-min}
use k_os.CString.{memcpy}
use k_os.CString.Blocks.{inside, bytes-memcpy, bytes-memcpy_apart, memcpy_lem}
use k_os.RingBuff.{RingBuff, Outcome, read_chunk, read_more, read, chunksize_read, is_empty}
use k_os.RingBuff.Valid.{
  IsWhole, IsWhole-min, IsWhole-eq, IsWhole-sub, IsValid, front_after, advance_front-IsValid,
}
use k_os.RingBuff.Chunks.{chunksize_read_fits}
use k_os.RingBuff.Contents.{
  contents, contents-agree, used, length-contents, take-contents, drop-contents, chunksize_read-le,
  chunksize_read_rest, is_empty_iff,
}

-- `amt` bytes went from the front of the buffer to `buff`, and nothing else changed.
pub record IsRead (out : Outcome) (rb : RingBuff) (t buff amt : ℕ) (m : Memory) : Type 0 where
  pub rb' : RingBuff
  pub m' : Memory
  pub returns : out ≡ some (amt, rb', m')
  pub got : bytes m' buff amt ≡ take amt (contents rb m)
  pub left : contents rb' m' ≡ drop amt (contents rb m)
  pub valid : IsValid rb' t
  pub same_start : rb'.start ≡ rb.start
  pub same_end : rb'.end ≡ rb.end
  pub others : (a : ℕ) → inside buff amt a ≡ false → m' a ≡ m a

-- `[p, p + n)` lies outside the storage.
abbrev pub Apart : RingBuff → ℕ → ℕ → Type 0
Apart rb p n = (p + n ≤ rb.start) ⊎ (rb.end ≤ p)

module _ {rb : RingBuff} {t : ℕ} (buff len : ℕ) (m : Memory) (v : IsValid rb t)
    (whole : IsWhole t len) (apart : Apart rb buff len) where
  read_chunk-IsRead :
      (amt : ℕ)
      → amt ≡ min len (chunksize_read rb)
      → (r : IsRead (read_chunk rb buff len m) rb t buff amt m) × (r.rb' ≡ front_after rb amt)
  unfolding read_chunk
  read_chunk-IsRead amt e =
      let (fits, blocks) = chunksize_read_fits v in
      let (advanced, valid) =
        advance_front-IsValid {amt = amt} v (IsWhole-eq amt (IsWhole-min whole blocks) (sym e))
          (omega arith) in
      let amount = c_min-min len (chunksize_read rb) ∙ sym e in
      let clear : (buff ≤ rb.front) ⊎ (rb.front + amt ≤ buff) =
        omega (arith, v.front_low, v.front_in) in
      (
        record {
          rb' = front_after rb amt;
          m' = memcpy buff rb.front amt m;
          returns = rw (read_chunk, amount, advanced, amount);
          got = bytes-memcpy buff rb.front amt m clear ∙ sym (take-contents m amt v (omega arith));
          left =
              contents-agree m (memcpy buff rb.front amt m) valid
                (λ p n low high. bytes-memcpy_apart buff rb.front amt m p n clear (omega arith))
              ∙ drop-contents m amt v (omega arith);
          valid = valid;
          same_start = refl;
          same_end = refl;
          others = λ a out. memcpy_lem buff rb.front amt m a clear ∙ rw out;
        },
        refl,
      )

IsRead-returns :
    {out : Outcome} {rb : RingBuff} {t buff amt : ℕ} {m : Memory} (r : IsRead out rb t buff amt m)
    → IsRead (some (amt, r.rb', r.m')) rb t buff amt m
IsRead-returns r = record {
  rb' = r.rb';
  m' = r.m';
  returns = refl;
  got = r.got;
  left = r.left;
  valid = r.valid;
  same_start = r.same_start;
  same_end = r.same_end;
  others = r.others;
}

-- A second read takes up where the first one ended.
IsRead-IsRead :
    {out out' : Outcome} {rb : RingBuff} {t buff amt more : ℕ} {m : Memory}
    (first : IsRead out rb t buff amt m)
    (second : IsRead out' first.rb' t (buff + amt) more first.m')
    → IsRead (some (amt + more, second.rb', second.m')) rb t buff (amt + more) m
IsRead-IsRead {rb} {buff} {amt} {more} {m} first second = record {
  rb' = second.rb';
  m' = second.m';
  returns = refl;
  got =
      bytes-append second.m' buff amt more (buff + amt) (amt + more) refl refl
      ∙ ap₂ ◌++◌ (kept ∙ first.got) (second.got ∙ ap (take more) first.left)
      ∙ sym (take-take-drop amt more (amt + more) (contents rb m) refl);
  left =
      second.left
      ∙ ap (drop more) first.left
      ∙ sym (drop-drop amt more (amt + more) (contents rb m) refl);
  valid = second.valid;
  same_start = second.same_start ∙ first.same_start;
  same_end = second.same_end ∙ first.same_end;
  others = λ a out. ground (arith, second.others a, first.others a);
}
  where
    kept : bytes second.m' buff amt ≡ bytes first.m' buff amt
    kept =
        bytes_ext second.m' first.m' buff buff amt (λ i l. ground (arith, second.others (buff + i)))

-- What the second half of a read does after a first half of `amt` bytes.
read_more-IsRead :
    {out : Outcome} {rb : RingBuff} {t buff amt : ℕ} (len : ℕ) {m : Memory}
    (first : IsRead out rb t buff amt m)
    → buff + len < 2 ^ 32
    → IsWhole t (len - amt)
    → Apart rb buff len
    → amt ≤ len
    → (amt ≡ len) ⊎ (chunksize_read first.rb' ≡ used first.rb')
    → IsRead
        (read_more buff len amt first.rb' first.m')
        rb
        t
        buff
        (amt + min (len - amt) (used first.rb'))
        m
unfolding read_more
read_more-IsRead {rb} {t} {buff} {amt} len {m} first small whole apart le last =
    elim (Bool-cases (ltb amt len && not (is_empty first.rb'))) [
      | inl again ↦
          let l : amt < len = ground arith in
          let (second, _) =
            read_chunk-IsRead (buff + amt) (len - amt) first.m' first.valid whole
              (omega (arith, first.same_start, first.same_end)) (min (len - amt) (used first.rb'))
              (ground (arith, last)) in
          rw
            (
              again,
              add32_exact buff amt (omega arith),
              sub32_exact len amt le (omega arith),
              second.returns,
              add32_exact amt (min (len - amt) (used first.rb')) (omega arith),
            )
            (IsRead-IsRead first second)
      | inr done ↦
          let e : amt ≡ amt + min (len - amt) (used first.rb') =
            ground (arith, (is_empty_iff first.valid).0) in
          rw done (
            subst (λ (n : ℕ). IsRead (some (amt, first.rb', first.m')) rb t buff n m) e
              (IsRead-returns first))
    ]

-- Behind a first half, all is read or one chunk is left.
one_chunk_left :
    {rb rb' : RingBuff} {t : ℕ} (len amt : ℕ)
    → IsValid rb t
    → IsValid rb' t
    → amt ≡ min len (chunksize_read rb)
    → rb' ≡ front_after rb amt
    → (amt ≡ len) ⊎ (chunksize_read rb' ≡ used rb')
one_chunk_left {rb} {rb'} {t} len amt v v' e e' = elim (le_or_lt len (chunksize_read rb)) [
  | inl l ↦ inl (omega arith)
  | inr l ↦
      let all : rb' ≡ front_after rb (chunksize_read rb) = e' ∙ ap (front_after rb) (omega arith) in
      inr (rw all (chunksize_read_rest v (rw all at v')))
]

module _ {rb : RingBuff} {t : ℕ} (buff len : ℕ) (m : Memory) (v : IsValid rb t)
    (whole : IsWhole t len) (apart : Apart rb buff len) (small : buff + len < 2 ^ 32) where
  read-first :
      (amt : ℕ)
      → amt ≡ min len (chunksize_read rb)
      → IsRead (read rb buff len m) rb t buff (min len (used rb)) m
  unfolding read
  read-first amt e =
      let (first, advanced) = read_chunk-IsRead buff len m v whole apart amt e in
      let fewer : used first.rb' ≡ used rb - amt = omega (
        arith,
        ap length first.left,
        length-contents first.rb' first.m',
        length-contents rb m,
        length-drop amt (contents rb m),
      ) in
      let le = chunksize_read-le v in
      let total : amt + min (len - amt) (used first.rb') ≡ min len (used rb) = omega arith in
      let rest : IsWhole t (len - amt) =
        IsWhole-sub whole (IsWhole-eq amt (IsWhole-min whole (chunksize_read_fits v).1) (sym e))
          (omega arith) in
      rw (read, first.returns)
        (subst (λ (n : ℕ). IsRead (read_more buff len amt first.rb' first.m') rb t buff n m) total
          (read_more-IsRead len first small rest apart (omega arith)
            (one_chunk_left len amt v first.valid e advanced)))

  -- In a valid ring buffer, a read of whole blocks into a place outside the storage that ends below
  -- 2 ^ 32 takes as many bytes as there are, up to `len`: it copies them there in order, leaves the
  -- rest queued and the buffer valid, and changes no other byte.
  pub read-IsRead : IsRead (read rb buff len m) rb t buff (min len (used rb)) m
  read-IsRead = read-first (min len (chunksize_read rb)) refl
