-- ===== src/Tty/Tests.antt =====
-- The terminal of kernel/src/driver/console/tty.c on concrete keys.
use k_os.Base.{ℕ, ◌≡◌, refl, Bool, true, false, ◌||◌, none, some, [], ◌∷◌, ◌==◌, arith}
use k_os.Base.Int.{pos}
use k_os.Base.Word.{c_min}
use k_os.Tty.{
  Tty, set_key, translate_keycode, handle_key, handle_keystate, is_capital, is_interrupt,
  populate_rb, populate_key, populate_special, special_tail, queue_bytes, ringbuff_write, got,
  nothing, bytes_read, tty_char_read, tty_char_poll,
}
use k_os.Tty.Keys.{handle_codes, is_held, handle_codes-is_held}
use k_os.Tty.Typed.{populate_rb-queues, populate_rb-interrupts, tty_char_read-oldest}

-- A terminal with a byte that waits, and some keys down.
abbrev with_keys : (ℕ → Bool) → Tty
with_keys keys = record {
  keystate = keys;
  rb = b'h' ∷ [];
  read_waiting = 0;
  wait_semaphore = 0;
  interrupts = 0;
}

abbrev no_keys : ℕ → Bool
no_keys k = false

abbrev ctrl_and_capitals : ℕ → Bool
ctrl_and_capitals k = k == 29 || k == 54 || k == 58

-- Shift pressed, A pressed, Shift let go.
handle_codes-is_held_example :
    (keys : ℕ → Bool) × (handle_codes (42 ∷ 30 ∷ 170 ∷ []) (with_keys no_keys)
      ≡ some (record (with_keys no_keys) { keystate = keys }))
    × ((k : ℕ) → keys k ≡ is_held k (42 ∷ 30 ∷ 170 ∷ []) false)
handle_codes-is_held_example =
    handle_codes-is_held (42 ∷ 30 ∷ 170 ∷ []) (with_keys no_keys)
      (omega arith, (omega arith, (omega arith, tt)))

populate_rb-queues_example :
    populate_rb (with_keys no_keys) (got 23) nothing
    ≡ some (
      pos 1,
      record (with_keys no_keys) { keystate = set_key no_keys 23 true; rb = b'h' ∷ b'i' ∷ [] },
    )
unfolding translate_keycode is_capital set_key is_interrupt
populate_rb-queues_example =
    populate_rb-queues (with_keys no_keys) 23 b'i' nothing (omega arith) (omega arith) refl
      (omega arith) refl

populate_rb-interrupts_example :
    populate_rb (with_keys ctrl_and_capitals) (got 46) nothing
    ≡ some (
      pos 0,
      record (with_keys ctrl_and_capitals) {
        keystate = set_key ctrl_and_capitals 46 true;
        interrupts = 1;
      },
    )
populate_rb-interrupts_example =
    populate_rb-interrupts (with_keys ctrl_and_capitals) nothing refl refl refl refl

tty_char_read-oldest_example :
    tty_char_read (with_keys no_keys) 5 false
    ≡ bytes_read (b'h' ∷ []) (record (with_keys no_keys) { rb = [] })
tty_char_read-oldest_example =
    tty_char_read-oldest (with_keys no_keys) 5 false (omega arith) (omega arith) (omega arith)

-- The key F11 has no entry in the table.
beyond_table : populate_rb (with_keys no_keys) (got 87) nothing ≡ none
unfolding populate_rb populate_key handle_keystate handle_key translate_keycode is_capital set_key
beyond_table = refl

-- A byte waits, and the terminal is not readable.
not_readable : tty_char_poll (with_keys no_keys) ≡ false
unfolding tty_char_poll
not_readable = refl

-- An arrow key is three bytes.
arrow :
    populate_rb (with_keys no_keys) (got 224) (got 72)
    ≡ some (pos 3, record (with_keys no_keys) { rb = b'h' ∷ 27 ∷ b'[' ∷ b'A' ∷ [] })
unfolding populate_rb populate_special special_tail queue_bytes ringbuff_write c_min
arrow = refl
