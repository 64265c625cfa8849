-- ===== src/Keyboard/Tests.antt =====
-- Runs of kernel/src/driver/console/keyboard.c on key buffers of four bytes.
use k_os.Base.{ℕ, ◌+◌, ◌-◌, ◌<◌, ◌≡◌, refl, inr, none, [], ◌∷◌, arith}
use k_os.Base.Memory.{Memory}
use k_os.RingBuff.{RingBuff}
use k_os.RingBuff.Valid.{IsValid}
use k_os.Keyboard.{keybuff_append}
use k_os.Keyboard.Append.{IsQueued, append-queues, append-panics, append-loses}

-- A key buffer of four bytes at 0x100.
abbrev keys : ℕ → ℕ → RingBuff
keys front back = record { start = 0x100; end = 0x104; front = front; back = back }

abbrev mem : Memory
mem a = a - 0xff

keys-IsValid : (i j : ℕ) → i < 4 → j < 4 → IsValid (keys (0x100 + i) (0x100 + j)) 1
keys-IsValid i j h k = record {
  block = omega arith;
  front_low = omega arith;
  front_in = omega arith;
  back_low = omega arith;
  back_in = omega arith;
  fits = omega arith;
  front_whole = record { count = i; size = omega arith };
  back_whole = record { count = j; size = omega arith };
  end_whole = record { count = 4; size = refl };
}

append-queues_example :
    IsQueued (keybuff_append (keys 0x102 0x103) 0x200 mem) (keys 0x102 0x103) mem (0x101 ∷ [])
append-queues_example =
    append-queues 0x200 mem (keys-IsValid 2 3 (omega arith) (omega arith)) (inr (omega arith))
      (omega arith) (omega arith)

append-panics_example : keybuff_append (keys 0x102 0x101) 0x200 mem ≡ none
append-panics_example =
    append-panics 0x200 mem (keys-IsValid 2 1 (omega arith) (omega arith)) (inr (omega arith))
      (omega arith) refl (omega arith)

append-loses_example :
    IsQueued (keybuff_append (keys 0x100 0x103) 0x200 mem) (keys 0x100 0x103) mem []
append-loses_example =
    append-loses 0x200 mem (keys-IsValid 0 3 (omega arith) (omega arith)) (inr (omega arith))
      (omega arith) refl refl
