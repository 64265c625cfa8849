-- ===== src/Vram.antt =====
-- kernel/src/driver/console/vram.c: the text console, 80 columns and 25 rows. The text memory is byte
-- memory from address 0 on, two bytes for each cell. `put_char` is `none` where its cell is outside of
-- the text memory; the other loops write the memory wherever the code does, also beyond the screen.
-- `none` is also a sum of `int`s that overflows. A `char` is a byte. The bell is left out.
pub mod Escape
pub mod Cells
pub mod Scroll
pub mod Bounds
pub mod OnScreen
pub mod Erase
mod Tests
use k_os.Base.{
  ℕ, zero, suc, ◌+◌, ◌-◌, ◌*◌, ◌/◌, ◌%◌, ◌^◌, Bool, true, false, ◌||◌, ◌&&◌, not, Option, none,
  some, List, [], ◌∷◌, ltb, leb, ◌==◌, if◌then◌else◌,
}
use k_os.Base.Word.{add32, sub32, c_min, c_max}
use k_os.Base.Memory.{Memory, store}
use k_os.CString.{memmove}

-- `CONSOLE_WIDTH`, `CONSOLE_HEIGHT` and `TABSTOP_WIDTH`
abbrev pub console_width : ℕ
console_width = 80

abbrev pub console_height : ℕ
console_height = 25

abbrev pub tabstop_width : ℕ
tabstop_width = 8

-- `term_state_t`
pub data TermState : Type 0 where
  term_normal : TermState
  term_escseq : TermState
  term_expect_csi_partb : TermState

-- `console_t`; `cursor` is the place in the cursor registers, and the bytes of `escseq_buff` up to
-- `escseq_buff_front` are a list.
pub record Console : Type 0 where
  pub vram : Memory
  pub row : ℕ
  pub col : ℕ
  pub color : ℕ
  pub cursor : ℕ
  pub state : TermState
  pub escseq_buff : List ℕ

-- `do_refresh_cursor`: the registers take the low 14 bits of a 16-bit place.
unfoldable pub do_refresh_cursor : Console → Console
do_refresh_cursor c = record c { cursor = (c.row * console_width + c.col) % 2 ^ 16 % 2 ^ 14 }

-- A cell.
unfoldable pub put_cell : Memory → ℕ → ℕ → ℕ → Memory
put_cell m i ch color = store (store m (i * 2) ch) (i * 2 + 1) color

-- The loops that write blanks, `n` of them from a cell on.
unfoldable pub blank_right : ℕ → ℕ → ℕ → Memory → Memory
blank_right zero i color m = m
blank_right (suc n) i color m = blank_right n (suc i) color (put_cell m i b' ' color)

-- The same to the left, down to the first of `n` cells before the cell `i`.
unfoldable pub blank_left : ℕ → ℕ → ℕ → Memory → Memory
blank_left zero i color m = m
blank_left (suc n) i color m = blank_left n i color (put_cell m (i + n) b' ' color)

-- `do_clear`
unfoldable pub do_clear : Console → Console
do_clear c = do_refresh_cursor (record c {
  row = 0;
  col = 0;
  vram = blank_right (console_width * console_height) 0 c.color c.vram;
})

-- `vram_color` and `vram_clear`
unfoldable vram_color : Console → ℕ → Console
vram_color c color = record c { color = color }

unfoldable vram_clear : Console → Console
vram_clear c = do_clear c

-- `do_erase` to the end: the rows that are left, from a column of the first one on.
unfoldable pub erase_down : ℕ → ℕ → ℕ → ℕ → Memory → Memory
erase_down zero r col color m = m
erase_down (suc n) r col color m =
    erase_down n (suc r) 0 color
      (blank_right (console_width - col) (r * console_width + col) color m)

-- `do_erase` to the start: `n` rows, the last one with its first `cols` cells.
unfoldable pub erase_up : ℕ → ℕ → ℕ → Memory → Memory
erase_up zero cols color m = m
erase_up (suc r) cols color m =
    erase_up r console_width color (blank_left cols (r * console_width) color m)

-- `do_erase`
unfoldable pub do_erase : Console → Bool → Console
do_erase c to_end = record c {
  vram =
      if to_end
      then erase_down (console_height - c.row) c.row c.col c.color c.vram
      else if ltb c.row console_height
      then erase_up (suc c.row) (if ltb c.col console_width then suc c.col else 0) c.color c.vram
      else c.vram;
}

-- `cursor_up`, `cursor_down`, `cursor_forward` and `cursor_back`
unfoldable pub cursor_up : Console → ℕ → Console
cursor_up c amt = do_refresh_cursor (record c { row = c.row - c_min c.row amt })

unfoldable pub cursor_down : Console → ℕ → Console
cursor_down c amt =
    do_refresh_cursor (record c { row = add32 c.row (c_max (sub32 console_height c.row) amt) })

unfoldable pub cursor_forward : Console → ℕ → Console
cursor_forward c amt =
    do_refresh_cursor (record c { col = add32 c.col (c_max (sub32 console_width c.col) amt) })

unfoldable pub cursor_back : Console → ℕ → Console
cursor_back c amt = do_refresh_cursor (record c { col = c.col - c_min c.col amt })

-- `cursor_position`
unfoldable pub cursor_position : Console → ℕ → ℕ → Console
cursor_position c r k =
    do_refresh_cursor (record c {
      row = c_min (r - 1) (console_height - 1);
      col = c_min (k - 1) (console_width - 1);
    })

-- The rows move up by one and the last one is blank.
unfoldable pub scroll : Console → Console
scroll c = record c {
  vram =
      blank_right console_width ((console_height - 1) * console_width) c.color
        (memmove 0 (console_width * 2) ((console_height - 1) * console_width * 2) c.vram);
  row = console_height - 1;
}

-- `fix_pos_overflow`
unfoldable pub fix_pos_overflow : Console → Console
fix_pos_overflow c =
    let c' : Console =
      if c.col == console_width then record c { col = 0; row = add32 c.row 1 } else c in
    if c'.row == console_height then scroll c' else c'

-- The loop of a tab, at most `n` columns on.
unfoldable pub tab_loop : ℕ → ℕ → ℕ
tab_loop zero col = col
tab_loop (suc n) col =
    let rest = tab_loop n (col + 1) in
    if not (col % tabstop_width == 0) && ltb col (console_width - 1) then rest else col

-- A tab; seven columns are the most that it skips.
unfoldable pub tab : Console → Console
tab c =
    let c' : Console = record c { col = add32 c.col 1 } in
    if c'.col == console_width then fix_pos_overflow c' else record c' { col = tab_loop 7 c'.col }

-- The cell at the cursor: its address is twice this, in 32 bits.
unfoldable pub cell_index : Console → ℕ
cell_index c = (c.row * console_width + c.col) % 2 ^ 31

-- The `default` of `process_char`: the character goes into its cell.
unfoldable pub put_char : Console → ℕ → Option Console
put_char c ch =
    let i = cell_index c in
    if leb (console_width * console_height) i
    then none
    else some
        (fix_pos_overflow (record c { vram = put_cell c.vram i ch c.color; col = add32 c.col 1 }))

-- `process_char` and `vram_putc`
unfoldable pub process_char : Console → ℕ → Option Console
process_char c ch =
    if ch == 7
    then some c
    else if ch == 8
    then some (cursor_back c 1)
    else if ch == 9
    then some (tab c)
    else if ch == b'\n'
    then some (fix_pos_overflow (record c { col = 0; row = add32 c.row 1 }))
    else if ch == b'\r'
    then some (record c { col = 0 })
    else put_char c ch
