-- ===== src/Tty.antt =====
-- kernel/src/driver/console/tty.c: the terminal, from key codes to the characters that wait for a reader.
-- The ring buffer is the list of its bytes, which takes `buff_len` of them, as RingBuff.Read and
-- RingBuff.Write show. What a read of the console's file gives is an argument; `none` is a panic or a
-- read outside of the table of keys. Errors are the numbers that are returned as negative ones.
pub mod Keymap
pub mod Keys
pub mod Typed
mod Tests
use k_os.Base.{
  ℕ, zero, suc, ◌+◌, ◌-◌, ◌*◌, ◌%◌, ◌^◌, Bool, true, false, ◌||◌, ◌&&◌, not, Option, none, some,
  List, [], ◌∷◌, ◌++◌, ltb, leb, ◌==◌, if◌then◌else◌, length, take, drop, get_elem?, min,
}
use k_os.Base.Int.{ℤ, pos, negsuc}
use k_os.Base.Word.{add32, sub32, c_min}
use k_os.Tty.Keymap.{keymap}

-- `BUFFLEN`
abbrev pub buff_len : ℕ
buff_len = 2048

-- `LSHIFT_KEY`, `RSHIFT_KEY`, `CAPS_KEY`, `CTRL_KEY` and `ALT_KEY`
abbrev pub lshift_key : ℕ
lshift_key = 42

abbrev pub rshift_key : ℕ
rshift_key = 54

abbrev pub caps_key : ℕ
caps_key = 58

abbrev pub ctrl_key : ℕ
ctrl_key = 29

abbrev pub alt_key : ℕ
alt_key = 56

-- `KBD_SPECIAL_CHAR`
abbrev pub kbd_special_char : ℕ
kbd_special_char = 224

-- `tty_t`: the bytes in `rb`, the count of `wait_semaphore`, and how many times the group of processes
-- got a SIGINT.
pub record Tty : Type 0 where
  pub keystate : ℕ → Bool
  pub rb : List ℕ
  pub read_waiting : ℕ
  pub wait_semaphore : ℕ
  pub interrupts : ℕ

-- `tty->keystate[code] = press`
unfoldable pub set_key : (ℕ → Bool) → ℕ → Bool → ℕ → Bool
set_key f code press k = if k == code then press else f k

-- Whether the character is a capital.
unfoldable pub is_capital : (ℕ → Bool) → Bool
is_capital keys =
    let capital = keys lshift_key || keys rshift_key in
    if keys caps_key then not capital else capital

-- `translate_keycode`
unfoldable pub translate_keycode : (ℕ → Bool) → ℕ → Option ℕ
translate_keycode keys code = get_elem? keymap (code * 2 + (if is_capital keys then 1 else 0))

-- `handle_keystate` of a key that is pressed or let go.
unfoldable pub handle_key : Tty → ℕ → Bool → Option (ℕ × Tty)
handle_key tty code press =
    let keys = set_key tty.keystate code press in
    let tty' : Tty = record tty { keystate = keys } in
    if press
    then elim (translate_keycode keys code) [ none ↦ none | some ch ↦ some (ch, tty') ]
    else some (0, tty')

-- `handle_keystate`: the character, or 0 for a key that is let go, and the keys that are down.
unfoldable pub handle_keystate : Tty → ℕ → Option (ℕ × Tty)
handle_keystate tty c = handle_key tty (c % 2 ^ 7) (ltb c (2 ^ 7))

-- `is_ctrl_down`, `is_shift_down` and `is_alt_down`
unfoldable pub is_ctrl_down : Tty → Bool
is_ctrl_down tty = tty.keystate ctrl_key

unfoldable pub is_shift_down : Tty → Bool
is_shift_down tty = tty.keystate lshift_key || tty.keystate lshift_key

unfoldable pub is_alt_down : Tty → Bool
is_alt_down tty = tty.keystate alt_key

-- `ringbuff_write`: what there is room for goes behind the bytes that wait.
unfoldable pub ringbuff_write : List ℕ → List ℕ → ℕ × List ℕ
ringbuff_write rb bs = let n = c_min (length bs) (buff_len - length rb) in (n, rb ++ take n bs)

-- `ringbuff_read` of at most `len` bytes
unfoldable pub ringbuff_read : List ℕ → ℕ → List ℕ × List ℕ
ringbuff_read rb len = (take len rb, drop len rb)

-- What `read_one_from_console` gives: an error, nothing, or a byte.
pub data ConsoleRead : Type 0 where
  failed : ℕ → ConsoleRead
  nothing : ConsoleRead
  got : ℕ → ConsoleRead

-- `EIO` and `EINTR`
abbrev pub eio : ℕ
eio = 5

abbrev pub eintr : ℕ
eintr = 4

-- The value -e.
unfoldable pub minus : ℕ → ℤ
minus zero = pos 0
minus (suc e) = negsuc e

-- The end of `populate_rb`: bytes into the buffer.
unfoldable pub queue_bytes : Tty → List ℕ → Option (ℤ × Tty)
queue_bytes tty bs =
    let (n, rb) = ringbuff_write tty.rb bs in
    if n == 0 then none else some (pos n, record tty { rb = rb })

-- The sequence of a special key, without what all of them begin with.
unfoldable pub special_tail : ℕ → Option (List ℕ)
special_tail c =
    if c == 72
    then some (b'A' ∷ [])
    else if c == 75
    then some (b'D' ∷ [])
    else if c == 77
    then some (b'C' ∷ [])
    else if c == 80
    then some (b'B' ∷ [])
    else if c == 71
    then some (b'H' ∷ [])
    else if c == 79
    then some (b'F' ∷ [])
    else if c == 83
    then some (b'3' ∷ b'~' ∷ [])
    else none

-- A special key, whose code is read next.
unfoldable pub populate_special : Tty → ConsoleRead → Option (ℤ × Tty)
populate_special tty (failed e) = some (minus e, tty)
populate_special tty nothing = some (minus eio, tty)
populate_special tty (got c) = elim (special_tail c) [
  | none ↦ some (pos 0, tty)
  | some tail ↦ queue_bytes tty (27 ∷ b'[' ∷ tail)
]

-- The interrupt: a `c` with Ctrl alone.
unfoldable pub is_interrupt : Tty → ℕ → Bool
is_interrupt tty ch =
    ch == b'c' && is_ctrl_down tty && not (is_shift_down tty) && not (is_alt_down tty)

-- The other keys.
unfoldable pub populate_key : Tty → ℕ → Option (ℤ × Tty)
populate_key tty c = elim (handle_keystate tty c) [
  | none ↦ none
  | some (ch, tty') ↦
      if is_interrupt tty' ch
      then some (pos 0, record tty' { interrupts = suc tty'.interrupts })
      else if ch == 0
      then some (pos 0, tty')
      else queue_bytes tty' (ch ∷ [])
]

-- `populate_rb`, with what its two reads of the console give.
unfoldable pub populate_rb : Tty → ConsoleRead → ConsoleRead → Option (ℤ × Tty)
populate_rb tty (failed e) next = some (minus e, tty)
populate_rb tty nothing next = some (minus eio, tty)
populate_rb tty (got c) next =
    if c == kbd_special_char then populate_special tty next else populate_key tty c

-- `tty_notify`, after the terminal was made.
unfoldable pub tty_notify : Tty → ConsoleRead → ConsoleRead → Option Tty
tty_notify tty first next = elim (populate_rb tty first next) [
  | none ↦ none
  | some (_, tty') ↦ some (
      if tty'.read_waiting == 0
      then tty'
      else record tty' { wait_semaphore = suc tty'.wait_semaphore })
]

-- What a round of the loop of `tty_char_read` comes to: bytes, an interruption, or a wait at the
-- semaphore.
pub data ReadStep : Type 0 where
  bytes_read : List ℕ → Tty → ReadStep
  interrupted : ℤ → Tty → ReadStep
  waits : Tty → ReadStep

-- A round of the loop of `tty_char_read`; `aborted` is `should_abort_slow_io()`.
unfoldable pub read_round : Tty → ℕ → Bool → ReadStep
read_round tty len aborted =
    let (bs, rb) = ringbuff_read tty.rb len in
    let out : Tty = record tty { rb = rb; read_waiting = sub32 tty.read_waiting 1 } in
    if not (length bs == 0)
    then bytes_read bs out
    else if aborted
    then interrupted (minus eintr) out
    else waits tty

-- `tty_char_read` up to where it waits or returns.
unfoldable pub tty_char_read : Tty → ℕ → Bool → ReadStep
tty_char_read tty len aborted =
    read_round (record tty { read_waiting = add32 tty.read_waiting 1 }) len aborted

-- `fp->readable` of `tty_char_poll`
unfoldable pub tty_char_poll : Tty → Bool
tty_char_poll tty = length tty.rb == 0
