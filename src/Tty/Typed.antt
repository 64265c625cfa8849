-- ===== src/Tty/Typed.antt =====
-- What a key of kernel/src/driver/console/tty.c puts before the reader.
use k_os.Base.{
  ℕ, suc, ◌+◌, ◌-◌, ◌%◌, ◌<◌, ◌≤◌, ◌^◌, ◌≡◌, ◌≢◌, refl, ◌∙◌, ap₂, Bool, true, false, some, List, [],
  ◌∷◌, ◌++◌, ltb, ◌==◌, length, take, drop, take_all, length-take, arith,
}
use k_os.Base.Int.{pos}
use k_os.Base.Word.{c_min, c_min-min, sub32, add32}
use k_os.Tty.{
  Tty, set_key, translate_keycode, handle_key, handle_keystate, is_capital, is_ctrl_down,
  is_shift_down, is_alt_down, is_interrupt, ringbuff_write, queue_bytes, populate_key, populate_rb,
  ConsoleRead, got, buff_len, bytes_read, ringbuff_read, read_round, tty_char_read, lshift_key,
  rshift_key, caps_key, ctrl_key, alt_key,
}

queue_bytes_room :
    (tty : Tty) (bs : List ℕ)
    → 0 < length bs
    → length tty.rb + length bs ≤ buff_len
    → queue_bytes tty bs ≡ some (pos (length bs), record tty { rb = tty.rb ++ bs })
unfolding queue_bytes ringbuff_write
queue_bytes_room tty bs some_ room =
    let n : c_min (length bs) (2048 - length tty.rb) ≡ length bs =
      omega (arith, c_min-min (length bs) (2048 - length tty.rb), room) in
    let all : take (length bs) bs ≡ bs = take_all (length bs) bs (omega arith) in
    let z : (length bs == 0) ≡ false = ground arith in rw (n, z, all) refl

pressed_lem :
    (tty : Tty) (c ch : ℕ)
    → c < 128
    → translate_keycode (set_key tty.keystate c true) c ≡ some ch
    → handle_keystate tty c ≡ some (ch, record tty { keystate = set_key tty.keystate c true })
unfolding handle_keystate handle_key
pressed_lem tty c ch l e =
    let press : ltb c 128 ≡ true = ground arith in
    let code : c % 128 ≡ c = omega arith in ap₂ (handle_key tty) code press ∙ rw e refl

-- A key with a character that is pressed and is no interrupt, where the buffer has room: its character
-- goes behind those that wait, and the key is down.
pub populate_rb-queues :
    (tty : Tty) (c ch : ℕ) (next : ConsoleRead)
    → c < 128
    → length tty.rb < buff_len
    → translate_keycode (set_key tty.keystate c true) c ≡ some ch
    → ch ≢ 0
    → is_interrupt (record tty { keystate = set_key tty.keystate c true }) ch ≡ false
    → populate_rb tty (got c) next
      ≡ some
          (pos 1, record tty { keystate = set_key tty.keystate c true; rb = tty.rb ++ (ch ∷ []) })
unfolding populate_rb populate_key handle_keystate
populate_rb-queues tty c ch next l room e nz quiet =
    let plain : (c == 224) ≡ false = ground arith in
    let shown : (ch == 0) ≡ false = ground arith in
    let tty' : Tty = record tty { keystate = set_key tty.keystate c true } in
    let step : populate_key tty c ≡ queue_bytes tty' (ch ∷ []) =
      simp (populate_key, pressed_lem tty c ch l e, quiet, shown) refl in
    rw plain (step ∙ queue_bytes_room tty' (ch ∷ []) (omega arith) (omega arith))

-- The key C with Ctrl down, and neither the left shift key nor Alt: an interrupt is sent and nothing
-- is queued, where the character is no capital. That holds with the right shift key down, too, if Caps
-- Lock is on.
pub populate_rb-interrupts :
    (tty : Tty) (next : ConsoleRead)
    → tty.keystate ctrl_key ≡ true
    → tty.keystate lshift_key ≡ false
    → tty.keystate alt_key ≡ false
    → tty.keystate rshift_key ≡ tty.keystate caps_key
    → populate_rb tty (got 46) next
      ≡ some (
        pos 0,
        record tty { keystate = set_key tty.keystate 46 true; interrupts = suc tty.interrupts },
      )
unfolding populate_rb populate_key is_interrupt is_ctrl_down is_shift_down is_alt_down is_capital
    set_key translate_keycode
populate_rb-interrupts tty next ctrl lshift alt same =
    let keys : ℕ → Bool = set_key tty.keystate 46 true in
    let small : is_capital keys ≡ false = ground arith in
    let ch : translate_keycode keys 46 ≡ some b'c' = rw (translate_keycode, small) refl in
    let tty' : Tty = record tty { keystate = keys } in
    let fires : is_interrupt tty' b'c' ≡ true = ground arith in
    simp (populate_rb, populate_key, pressed_lem tty 46 b'c' (omega arith) ch, fires) refl

-- What came first is read first: a read of at most `len` bytes, where bytes wait, gives the oldest ones
-- and leaves the rest, and the count of readers is as before.
pub tty_char_read-oldest :
    (tty : Tty) (len : ℕ) (aborted : Bool)
    → 0 < len
    → 0 < length tty.rb
    → tty.read_waiting < 2 ^ 32 - 1
    → tty_char_read tty len aborted
      ≡ bytes_read (take len tty.rb) (record tty { rb = drop len tty.rb })
unfolding tty_char_read read_round ringbuff_read sub32 add32
tty_char_read-oldest tty len aborted l w r =
    let some_ : (length (take len tty.rb) == 0) ≡ false = ground (arith, length-take len tty.rb) in
    let count : sub32 (add32 tty.read_waiting 1) 1 ≡ tty.read_waiting = omega arith in
    simp (tty_char_read, read_round, ringbuff_read, some_, count) refl
