-- ===== src/Keyboard.antt =====
-- The key buffer of kernel/src/driver/console/keyboard.c: a ring buffer of single bytes that the
-- interrupt handler appends to. `code` is the address of the byte to append; `none` is a panic.
pub mod Append
mod Tests
use k_os.Base.{ℕ, Option, none, some, Bool, if◌then◌else◌}
use k_os.Base.Memory.{Memory}
use k_os.RingBuff.{RingBuff, Outcome}
use k_os.RingBuff

-- `keybuff_append`, up to the call of `tty_notify`.
unfoldable pub keybuff_append : RingBuff → ℕ → Memory → Option (RingBuff × Memory)
keybuff_append keyrb code m =
    if RingBuff.is_full keyrb 1
    then none
    else elim (RingBuff.write keyrb code 1 1 m) [ none ↦ none | some (_, rb, m') ↦ some (rb, m') ]

-- `keybuff_read`
unfoldable pub keybuff_read : RingBuff → ℕ → ℕ → Memory → Outcome
keybuff_read keyrb buff len m = RingBuff.read keyrb buff len m

-- `keybuff_is_empty`
unfoldable pub keybuff_is_empty : RingBuff → Bool
keybuff_is_empty keyrb = RingBuff.is_empty keyrb
