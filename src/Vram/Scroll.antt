-- ===== src/Vram/Scroll.antt =====
-- Characters on the screen of kernel/src/driver/console/vram.c: the cell at the cursor, the next cell, and
-- the scrolling at the end of the last row.
use k_os.Base.{
  ℕ, ◌+◌, ◌%◌, ◌≤◌, ◌<◌, ◌^◌, ◌≡◌, refl, ◌∙◌, true, false, ltb, leb, ◌==◌, if◌then◌else◌, arith,
  eq_or_ne, inl, inr, none, some,
}
use k_os.Base.Word.{add32, sub32, c_max-max}
use k_os.Base.Memory.{Memory}
use k_os.CString.{memmove}
use k_os.CString.Blocks.{memmove_lem}
use k_os.Vram.{
  Console, console_width, console_height, put_cell, scroll, fix_pos_overflow, cell_index, put_char,
  cursor_down, do_refresh_cursor,
}
use k_os.Vram.Cells.{blank, blank_right-blanked}

-- The memory of a screen that has moved up by a row.
abbrev pub moved_up : ℕ → Memory → Memory
moved_up color m j = if ltb j 3840 then m (j + 160) else if ltb j 4000 then blank color j else m j

pub scroll-moved_up : (c : Console) (j : ℕ) → (scroll c).vram j ≡ moved_up c.color c.vram j
unfolding scroll
scroll-moved_up c j =
    blank_right-blanked 80 1920 c.color (memmove 0 160 3840 c.vram) j
    ∙ ground (arith, memmove_lem 0 160 3840 c.vram j)

-- The three cases of `fix_pos_overflow`: within a row, at the end of a row, at the end of the last one.
fix_pos_overflow_within :
    (c : Console) → c.row < console_height → c.col < console_width → fix_pos_overflow c ≡ c
unfolding fix_pos_overflow
fix_pos_overflow_within c low left =
    let e : (c.col == 80) ≡ false = ground arith in
    let e' : (c.row == 25) ≡ false = ground arith in simp (fix_pos_overflow, e, e') refl

fix_pos_overflow_next :
    (c : Console)
    → c.row < 24
    → c.col ≡ 80
    → fix_pos_overflow c ≡ record c { col = 0; row = c.row + 1 }
unfolding fix_pos_overflow add32
fix_pos_overflow_next c low left =
    let e : (c.col == 80) ≡ true = ground arith in
    let same : (c.row + 1) % 2 ^ 32 ≡ c.row + 1 = omega arith in
    let e' : (c.row + 1 == 25) ≡ false = ground arith in simp (fix_pos_overflow, e, same, e') refl

fix_pos_overflow_last :
    (c : Console)
    → c.row ≡ 24
    → c.col ≡ 80
    → fix_pos_overflow c ≡ scroll (record c { col = 0; row = 25 })
unfolding fix_pos_overflow add32
fix_pos_overflow_last c low left =
    let e : (c.col == 80) ≡ true = ground arith in simp (fix_pos_overflow, e, low) refl

-- A character with the cursor on the screen goes into the cell at the cursor. The cursor goes to the
-- next cell; from the last one it goes to the start of the last row, and the screen moves up by a row.
pub put_char-screen :
    (c : Console) (ch : ℕ)
    → c.row < console_height
    → c.col < console_width
    → (c' : Console) × (put_char c ch ≡ some c')
      × (cell_index c' ≡ (if cell_index c == 1999 then 1920 else cell_index c + 1))
      × ((j : ℕ)
          → c'.vram j ≡ (
              if cell_index c == 1999
              then moved_up c.color (put_cell c.vram (cell_index c) ch c.color) j
              else put_cell c.vram (cell_index c) ch c.color j))
unfolding cell_index add32 put_char scroll
put_char-screen c ch low left =
    let inside : leb 2000 (cell_index c) ≡ false = ground arith in
    let c₁ : Console = record c {
      vram = put_cell c.vram (cell_index c) ch c.color;
      col = (c.col + 1) % 2 ^ 32;
    } in
    let step : put_char c ch ≡ some (fix_pos_overflow c₁) = simp (put_char, inside) refl in
    elim (eq_or_ne c.col 79) [
      | inr other ↦
          let e : (cell_index c == 1999) ≡ false = ground arith in
          (
            c₁,
            rw (step, fix_pos_overflow_within c₁ low (omega arith)) refl,
            ground arith,
            λ j. rw e refl,
          )
      | inl right ↦ elim (eq_or_ne c.row 24) [
        | inr other ↦
            let e : (cell_index c == 1999) ≡ false = ground arith in
            (
              record c₁ { col = 0; row = c.row + 1 },
              rw (step, fix_pos_overflow_next c₁ (omega arith) (omega arith)) refl,
              ground arith,
              λ j. rw e refl,
            )
        | inl last ↦
            let e : (cell_index c == 1999) ≡ true = ground arith in
            (
              scroll (record c₁ { col = 0; row = 25 }),
              rw (step, fix_pos_overflow_last c₁ last (omega arith)) refl,
              simp (scroll, e) refl,
              λ j. rw e (scroll-moved_up (record c₁ { col = 0; row = 25 }) j),
            )
      ]
    ]

-- `cursor_down` with the cursor on the screen, by an amount below 2 ^ 24, leaves it below the last row,
-- and a character that comes next is written outside of the text memory.
pub cursor_down-lost :
    (c : Console) (amt ch : ℕ)
    → c.row < console_height
    → c.col < console_width
    → amt < 2 ^ 24
    → (console_height ≤ (cursor_down c amt).row) × (put_char (cursor_down c amt) ch ≡ none)
unfolding cursor_down do_refresh_cursor put_char cell_index add32 sub32
cursor_down-lost c amt ch low left h =
    (ground (arith, c_max-max (sub32 25 c.row) amt), ground (arith, c_max-max (sub32 25 c.row) amt))
