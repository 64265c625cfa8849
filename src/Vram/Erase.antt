-- ===== src/Vram/Erase.antt =====
-- `do_erase` and `do_clear` of kernel/src/driver/console/vram.c.
use k_os.Base.{
  ℕ, zero, suc, ◌+◌, ◌-◌, ◌*◌, ◌≤◌, ◌<◌, ◌≡◌, ◌∙◌, Bool, true, false, ltb, if◌then◌else◌, arith,
}
use k_os.Base.Memory.{Memory}
use k_os.Vram.{
  Console, console_width, console_height, blank_right, blank_left, erase_down, erase_up, do_erase,
}
use k_os.Vram.Cells.{blanked, blank_right-blanked, blank_left-blanked}

erase_down-blanked :
    (n r col color : ℕ) (m : Memory) (j : ℕ)
    → col ≤ 80
    → erase_down n r col color m j ≡ blanked ((r * 80 + col) * 2) ((r + n) * 160) color m j
unfolding erase_down
erase_down-blanked zero r col color m j h = ground arith
erase_down-blanked (suc n) r col color m j h =
    let row = blank_right (80 - col) (r * 80 + col) color m in
    erase_down-blanked n (suc r) 0 color row j (omega arith)
    ∙ ground (arith, blank_right-blanked (80 - col) (r * 80 + col) color m j)

erase_up-blanked :
    (r cols color : ℕ) (m : Memory) (j : ℕ)
    → cols ≤ 80
    → erase_up (suc r) cols color m j ≡ blanked 0 ((r * 80 + cols) * 2) color m j
unfolding erase_up
erase_up-blanked zero cols color m j h = blank_left-blanked cols (0 * 80) color m j ∙ ground arith
erase_up-blanked (suc r) cols color m j h =
    erase_up-blanked r 80 color (blank_left cols (suc r * 80) color m) j (omega arith)
    ∙ ground (arith, blank_left-blanked cols (suc r * 80) color m j)

-- With the cursor on the screen, `do_erase` makes blank the cells from the cursor to the end, or
-- those from the start to the cursor, the cursor's own in both cases, and no others.
pub do_erase-blanked :
    (c : Console) (to_end : Bool) (j : ℕ)
    → c.row < console_height
    → c.col < console_width
    → (do_erase c to_end).vram j ≡ (
        if to_end
        then blanked ((c.row * 80 + c.col) * 2) 4000 c.color c.vram j
        else blanked 0 ((c.row * 80 + c.col) * 2 + 2) c.color c.vram j)
unfolding do_erase
do_erase-blanked c true j low left =
    erase_down-blanked (25 - c.row) c.row c.col c.color c.vram j (omega arith) ∙ ground arith
do_erase-blanked c false j low left =
    let here : ltb c.row 25 ≡ true = ground arith in
    let inside : ltb c.col 80 ≡ true = ground arith in
    simp (here, inside)
      (erase_up-blanked c.row (suc c.col) c.color c.vram j (omega arith) ∙ ground arith)
