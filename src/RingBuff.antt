-- ===== src/RingBuff.antt =====
-- kernel/inc/common/ringbuff.h: a ring buffer of blocks of `typesize` bytes in memory. The four
-- fields are addresses, and one block stays free, so that `front == back` means empty. A function
-- that writes returns the new state; `none` is a failed BUG_ON. The block that `_do_ringbuff_init`
-- gets from `kmalloc` is its argument `buff`.
pub mod Valid
pub mod Chunks
pub mod Contents
pub mod Room
pub mod Read
pub mod Extend
pub mod Write
mod Tests
use k_os.Base.{
  ℕ, suc, ◌+◌, ◌*◌, ◌/◌, ◌%◌, Bool, ◌&&◌, not, Option, none, some, ltb, leb, ◌==◌, if◌then◌else◌,
}
use k_os.Base.Memory.{Memory}
use k_os.Base.Word.{add32, sub32, mul32, c_min}
use k_os.CString.{memcpy}

-- `ringbuff_head_t`
pub record RingBuff : Type 0 where
  pub start : ℕ
  pub end : ℕ
  pub front : ℕ
  pub back : ℕ

-- `_do_ringbuff_init`
unfoldable pub init : ℕ → ℕ → ℕ → RingBuff
init buff len typesize = record {
  start = buff;
  end = add32 buff (mul32 (add32 len 1) typesize);
  front = buff;
  back = buff;
}

-- `_ringbuff_chunksize_read`
unfoldable pub chunksize_read : RingBuff → ℕ
chunksize_read rb = if leb rb.front rb.back then sub32 rb.back rb.front else sub32 rb.end rb.front

-- `_ringbuff_chunksize_write`
unfoldable pub chunksize_write : RingBuff → ℕ → ℕ
chunksize_write rb typesize =
    if leb rb.front rb.back
    then sub32 (sub32 rb.end rb.back) (if rb.front == rb.start then typesize else 0)
    else sub32 (sub32 rb.front rb.back) typesize

-- `if(x == rb->end) x = rb->start;`
unfoldable pub wrap : RingBuff → ℕ → ℕ
wrap rb x = if x == rb.end then rb.start else x

-- `_ringbuff_advance_front`
unfoldable pub advance_front : RingBuff → ℕ → Option RingBuff
unfolding wrap
advance_front rb amt =
    let x = wrap rb (add32 rb.front amt) in
    if leb rb.end x then none else some (record rb { front = x })

-- `_ringbuff_advance_back`
unfoldable pub advance_back : RingBuff → ℕ → Option RingBuff
unfolding wrap
advance_back rb amt =
    let x = wrap rb (add32 rb.back amt) in
    if leb rb.end x then none else some (record rb { back = x })

-- `_ringbuff_is_empty`
unfoldable pub is_empty : RingBuff → Bool
is_empty rb = rb.front == rb.back

-- `_ringbuff_is_full`
unfoldable pub is_full : RingBuff → ℕ → Bool
is_full rb typesize = rb.front == add32 rb.back typesize

-- `bytes_left` of `_ringbuff_space_used`
unfoldable pub bytes_queued : RingBuff → ℕ
bytes_queued rb =
    if leb rb.front rb.back
    then sub32 rb.back rb.front
    else add32 (sub32 rb.end rb.front) (sub32 rb.back rb.start)

-- `bytes_left` of `_ringbuff_space_left`
unfoldable pub bytes_free : RingBuff → ℕ
bytes_free rb =
    if ltb rb.back rb.front
    then sub32 rb.front rb.back
    else add32 (sub32 rb.end rb.back) (sub32 rb.front rb.start)

-- `_ringbuff_space_used`
unfoldable pub space_used : RingBuff → ℕ → Option ℕ
space_used rb typesize =
    if not (bytes_queued rb % typesize == 0) then none else some (bytes_queued rb / typesize)

-- `_ringbuff_space_left`
unfoldable pub space_left : RingBuff → ℕ → Option ℕ
space_left rb typesize =
    if not (bytes_free rb % typesize == 0) then none else some (sub32 (bytes_free rb / typesize) 1)

-- What a read or a write returns: the number of bytes, the buffer's head and the memory.
abbrev pub Outcome : Type 0
Outcome = Option (ℕ × RingBuff × Memory)

-- `_do_ringbuff_read_chunk`
unfoldable pub read_chunk : RingBuff → ℕ → ℕ → Memory → Outcome
read_chunk rb buff len m =
    let amt = c_min len (chunksize_read rb) in
    elim (advance_front rb amt) [
      | none ↦ none
      | some rb' ↦ some (amt, rb', memcpy buff rb.front amt m)
    ]

-- The second half of `_do_ringbuff_read`, after a first chunk of `amt` bytes.
unfoldable pub read_more : ℕ → ℕ → ℕ → RingBuff → Memory → Outcome
read_more buff len amt rb m =
    if ltb amt len && not (is_empty rb)
    then elim (read_chunk rb (add32 buff amt) (sub32 len amt) m) [
      | none ↦ none
      | some (more, rb', m') ↦ some (add32 amt more, rb', m')
    ]
    else some (amt, rb, m)

-- `_do_ringbuff_read`
unfoldable pub read : RingBuff → ℕ → ℕ → Memory → Outcome
read rb buff len m = elim (read_chunk rb buff len m) [
  | none ↦ none
  | some (amt, rb', m') ↦ read_more buff len amt rb' m'
]

-- `_do_ringbuff_write_chunk`
unfoldable pub write_chunk : RingBuff → ℕ → ℕ → ℕ → Memory → Outcome
write_chunk rb buff len typesize m =
    let amt = c_min len (chunksize_write rb typesize) in
    elim (advance_back rb amt) [
      | none ↦ none
      | some rb' ↦ some (amt, rb', memcpy rb.back buff amt m)
    ]

-- The second half of `_do_ringbuff_write`, after a first chunk of `amt` bytes.
unfoldable pub write_more : ℕ → ℕ → ℕ → ℕ → RingBuff → Memory → Outcome
write_more buff len typesize amt rb m =
    if ltb amt len && not (is_full rb typesize)
    then elim (write_chunk rb (add32 buff amt) (sub32 len amt) typesize m) [
      | none ↦ none
      | some (more, rb', m') ↦ some (add32 amt more, rb', m')
    ]
    else some (amt, rb, m)

-- `_do_ringbuff_write`
unfoldable pub write : RingBuff → ℕ → ℕ → ℕ → Memory → Outcome
write rb buff len typesize m = elim (write_chunk rb buff len typesize m) [
  | none ↦ none
  | some (amt, rb', m') ↦ write_more buff len typesize amt rb' m'
]
