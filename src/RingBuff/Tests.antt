-- ===== src/RingBuff/Tests.antt =====
-- Runs of kernel/inc/common/ringbuff.h: a ring of four blocks of two bytes at 0x100 whose contents
-- go around its end.
use k_os.Base.{ℕ, ◌+◌, ◌-◌, ◌*◌, ◌≡◌, refl, ◌↔◌, ◌≢◌, inr, true, some, [], ◌∷◌, arith, min}
use k_os.Base.Memory.{Memory}
use k_os.Base.Word.{add32, sub32, c_min}
use k_os.RingBuff.{
  RingBuff, init, read, write, is_full, space_used, space_left, read_chunk, read_more,
  chunksize_read, advance_front, wrap, is_empty,
}
use k_os.RingBuff.Valid.{IsWhole, IsValid, init-IsValid}
use k_os.RingBuff.Contents.{contents, used, room}
use k_os.RingBuff.Room.{is_full_iff, space_lem}
use k_os.RingBuff.Read.{IsRead, read-IsRead}
use k_os.RingBuff.Write.{IsWritten, write-IsWritten}

-- Two blocks are queued, one in front of the end and one behind the start.
abbrev around : RingBuff
around = record { start = 0x100; end = 0x108; front = 0x106; back = 0x102 }

-- The bytes 1, 2, ... 8 in the storage, and 9, 10, ... behind it.
abbrev mem : Memory
mem a = a - 0xff

around-IsValid : IsValid around 2
around-IsValid = record {
  block = omega arith;
  front_low = omega arith;
  front_in = omega arith;
  back_low = omega arith;
  back_in = omega arith;
  fits = omega arith;
  front_whole = record { count = 3; size = refl };
  back_whole = record { count = 1; size = refl };
  end_whole = record { count = 4; size = refl };
}

four-IsWhole : IsWhole 2 4
four-IsWhole = record { count = 2; size = refl }

queued : contents around mem ≡ 7 ∷ 8 ∷ 1 ∷ 2 ∷ []
queued = refl

read_amount : (o : ℕ × RingBuff × Memory) × (read around 0x200 6 mem ≡ some o) × (o.0 ≡ 4)
unfolding read read_chunk read_more chunksize_read advance_front wrap is_empty add32 sub32 c_min
read_amount = (_, refl, refl)

init-IsValid_example : IsValid (init 0x100 3 2) 2
init-IsValid_example = init-IsValid 0x100 3 2 (omega arith) (omega arith)

is_full_example : (is_full around 2 ≡ true) ↔ ((room around 2 ≡ 0) × (around.front ≢ around.start))
is_full_example = is_full_iff around-IsValid

space_example :
    ((n : ℕ) × (space_used around 2 ≡ some n) × (n * 2 ≡ used around))
    × ((n : ℕ) × (space_left around 2 ≡ some n) × (n * 2 ≡ room around 2))
    × (used around + room around 2 + 2 ≡ around.end - around.start)
space_example = space_lem around-IsValid

read_example : IsRead (read around 0x200 4 mem) around 2 0x200 (min 4 (used around)) mem
read_example = read-IsRead 0x200 4 mem around-IsValid four-IsWhole (inr (omega arith)) (omega arith)

write_example : IsWritten (write around 0x200 4 2 mem) around 2 0x200 (min 4 (room around 2)) mem
write_example =
    write-IsWritten 0x200 4 mem around-IsValid four-IsWhole (inr (omega arith)) (omega arith)
