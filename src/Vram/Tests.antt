-- ===== src/Vram/Tests.antt =====
-- The text console of kernel/src/driver/console/vram.c on concrete inputs.
use k_os.Base.{
  ℕ, ◌+◌, ◌≤◌, ◌≡◌, refl, true, Option, none, some, [], ◌∷◌, ◌==◌, if◌then◌else◌, arith,
}
use k_os.Base.Word.{c_min}
use k_os.CString.{isdigit}
use k_os.Vram.{
  term_normal, term_escseq, Console, console_height, do_refresh_cursor, do_erase, put_cell,
  cell_index, put_char, cursor_up, cursor_down,
}
use k_os.Vram.Escape.{
  set_arg, add_digit, read_args, read_escseq_args, arg_or, execute_escseq, execute_args,
  interpret_escseq, is_terminating_char, put_escseq_buff, handle_in_state, vram_handle, write_chars,
  vram_write,
}
use k_os.Vram.Cells.{blanked}
use k_os.Vram.Erase.{do_erase-blanked}
use k_os.Vram.Scroll.{moved_up, put_char-screen, cursor_down-lost}

-- A console in the last cell of its screen.
abbrev last_cell : Console
last_cell = record {
  vram = λ j. j;
  row = 24;
  col = 79;
  color = 7;
  cursor = 0;
  state = term_normal;
  escseq_buff = [];
}

-- A console in a sequence, behind `12`.
abbrev in_sequence : Console
in_sequence = record last_cell { state = term_escseq; escseq_buff = b'1' ∷ b'2' ∷ [] }

do_erase-blanked_example : (do_erase last_cell true).vram 3998 ≡ blanked 3998 4000 7 (λ j. j) 3998
do_erase-blanked_example = do_erase-blanked last_cell true 3998 (omega arith) (omega arith)

put_char-screen_example :
    (c' : Console) × (put_char last_cell b'x' ≡ some c')
    × (cell_index c' ≡ (if cell_index last_cell == 1999 then 1920 else cell_index last_cell + 1))
    × ((j : ℕ)
        → c'.vram j ≡ (
            if cell_index last_cell == 1999
            then moved_up 7 (put_cell (λ k. k) (cell_index last_cell) b'x' 7) j
            else put_cell (λ k. k) (cell_index last_cell) b'x' 7 j))
put_char-screen_example = put_char-screen last_cell b'x' (omega arith) (omega arith)

cursor_down-lost_example :
    (console_height ≤ (cursor_down last_cell 1).row)
    × (put_char (cursor_down last_cell 1) b'x' ≡ none)
cursor_down-lost_example =
    cursor_down-lost last_cell 1 b'x' (omega arith) (omega arith) (omega arith)

-- The position behind a string.
unfoldable position : Option Console → Option (ℕ × ℕ)
position none = none
position (some c) = some (c.row, c.col)

-- `ESC [ 1 2 A` goes up by twelve rows.
up_twelve : position (vram_write last_cell (27 ∷ b'[' ∷ b'1' ∷ b'2' ∷ b'A' ∷ [])) ≡ some (12, 79)
unfolding position vram_write write_chars vram_handle handle_in_state put_escseq_buff
    is_terminating_char interpret_escseq read_escseq_args read_args set_arg add_digit execute_args
    execute_escseq arg_or cursor_up do_refresh_cursor c_min isdigit
up_twelve = refl
