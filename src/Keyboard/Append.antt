-- ===== src/Keyboard/Append.antt =====
-- What becomes of a key code in `keybuff_append` of kernel/src/driver/console/keyboard.c.
use k_os.Base.{
  ℕ, ◌+◌, ◌<◌, ◌^◌, ◌≡◌, refl, ◌≢◌, ◌++◌, arith, false, List, [], ◌∷◌, Option, some, none, min,
}
use k_os.Base.Memory.{Memory, bytes}
use k_os.RingBuff.{RingBuff, is_full, write}
use k_os.RingBuff.Valid.{IsWhole, IsValid}
use k_os.RingBuff.Contents.{contents, room}
use k_os.RingBuff.Room.{is_full_iff}
use k_os.RingBuff.Read.{Apart}
use k_os.RingBuff.Write.{IsWritten, write-IsWritten}
use k_os.Keyboard.{keybuff_append}

one-IsWhole : IsWhole 1 1
one-IsWhole = record { count = 1; size = refl }

-- The key code at `code` is in the buffer, behind what was there before.
abbrev pub IsQueued : Option (RingBuff × Memory) → RingBuff → Memory → List ℕ → Type 0
IsQueued out rb m added =
    (rb' : RingBuff) × (m' : Memory) × (out ≡ some (rb', m'))
    × IsValid rb' 1
    × (contents rb' m' ≡ contents rb m ++ added)

module _ {rb : RingBuff} (code : ℕ) (m : Memory) (v : IsValid rb 1) (apart : Apart rb code 1)
    (small : code + 1 < 2 ^ 32) where
  append-written :
      (n : ℕ)
      → is_full rb 1 ≡ false
      → min 1 (room rb 1) ≡ n
      → IsQueued (keybuff_append rb code m) rb m (bytes m code n)
  unfolding keybuff_append
  append-written n open_ e =
      let w : IsWritten (write rb code 1 1 m) rb 1 code n m =
        rw e at (write-IsWritten code 1 m v one-IsWhole apart small) in
      (w.rb', w.m', rw (open_, w.returns), w.valid, w.queued)

  -- In a valid key buffer, with the key code at an address below 2 ^ 32 - 1 outside the storage,
  -- `keybuff_append` puts the key code behind those that wait if there is room, and leaves the
  -- buffer valid.
  pub append-queues : 0 < room rb 1 → IsQueued (keybuff_append rb code m) rb m (m code ∷ [])
  append-queues free = append-written 1 (ground (arith, (is_full_iff v).0)) (omega arith)

  -- In a valid key buffer that is full and whose front is not at the start of the storage,
  -- `keybuff_append` panics.
  pub append-panics : room rb 1 ≡ 0 → rb.front ≢ rb.start → keybuff_append rb code m ≡ none
  unfolding keybuff_append
  append-panics full moved = rw ((is_full_iff v).1 (full, moved))

  -- In a valid key buffer that is full and whose front is at the start of the storage, with the key
  -- code at an address below 2 ^ 32 - 1 outside the storage, `keybuff_append` does not panic: the
  -- key code is lost without a sign, and the keys that wait are as before.
  pub append-loses :
      room rb 1 ≡ 0 → rb.front ≡ rb.start → IsQueued (keybuff_append rb code m) rb m []
  append-loses full at_start = append-written 0 (ground (arith, (is_full_iff v).0)) (omega arith)
