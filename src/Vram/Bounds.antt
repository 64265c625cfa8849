-- ===== src/Vram/Bounds.antt =====
-- The cursor of kernel/src/driver/console/vram.c stays on the screen, and only the cells of the screen
-- are written, but for two commands.
use k_os.Base.{
  ℕ, zero, suc, ◌+◌, ◌-◌, ◌*◌, ◌%◌, ◌≤◌, ◌<◌, ◌^◌, ◌≡◌, ◌≢◌, refl, ◌∙◌, ap, sym, subst, Bool, true,
  false, ◌&&◌, not, some, List, All, length, ltb, leb, ◌==◌, if◌then◌else◌, arith, Bool-cases, inl,
  inr,
}
use k_os.Base.Word.{add32, c_min-min}
use k_os.Base.Memory.{Memory}
use k_os.Vram.{
  Console, console_width, console_height, do_refresh_cursor, do_clear, do_erase, cursor_up,
  cursor_back, cursor_position, scroll, fix_pos_overflow, tab_loop, tab, put_cell, cell_index,
  put_char, process_char,
}
use k_os.Vram.Cells.{put_cell_lem, blank_right-blanked}
use k_os.Vram.Erase.{do_erase-blanked}
use k_os.Vram.Scroll.{scroll-moved_up}

-- Neither of the commands B and C.
abbrev pub IsHarmless : ℕ → Type 0
IsHarmless ch = (ch ≢ b'B') × (ch ≢ b'C')

-- A sequence that is not ended holds neither of them, and has less than `most` bytes.
abbrev pub IsBuff : ℕ → List ℕ → Type 0
IsBuff most bs = All IsHarmless bs × (length bs < most)

-- The memory beyond the cells of the screen, two bytes each, is that of `start`.
abbrev pub IsBeyond : Memory → Memory → Type 0
IsBeyond start m = (j : ℕ) → console_width * console_height * 2 ≤ j → m j ≡ start j

-- The cursor is on the screen, and only the cells of the screen were written since `start`.
pub record IsOnScreen (most : ℕ) (start : Memory) (c : Console) : Type 0 where
  pub row : c.row < console_height
  pub col : c.col < console_width
  pub buff : IsBuff most c.escseq_buff
  pub rest : IsBeyond start c.vram

pub cursor_up-IsOnScreen :
    {most : ℕ}
    → {start : Memory} → (c : Console) (n : ℕ) → IsOnScreen most start c
    → IsOnScreen most start (cursor_up c n)
unfolding cursor_up do_refresh_cursor
cursor_up-IsOnScreen c n v = record {
  row = omega (arith, v.row);
  col = v.col;
  buff = v.buff;
  rest = v.rest;
}

pub cursor_back-IsOnScreen :
    {most : ℕ}
    → {start : Memory} → (c : Console) (n : ℕ) → IsOnScreen most start c
    → IsOnScreen most start (cursor_back c n)
unfolding cursor_back do_refresh_cursor
cursor_back-IsOnScreen c n v = record {
  row = v.row;
  col = omega (arith, v.col);
  buff = v.buff;
  rest = v.rest;
}

pub cursor_position-IsOnScreen :
    {most : ℕ}
    → {start : Memory} → (c : Console) (r k : ℕ) → IsOnScreen most start c
    → IsOnScreen most start (cursor_position c r k)
unfolding cursor_position do_refresh_cursor
cursor_position-IsOnScreen c r k v = record {
  row = omega (arith, c_min-min (r - 1) 24);
  col = omega (arith, c_min-min (k - 1) 79);
  buff = v.buff;
  rest = v.rest;
}

pub do_clear-IsOnScreen :
    {most : ℕ}
    → {start : Memory} → (c : Console) → IsOnScreen most start c
    → IsOnScreen most start (do_clear c)
unfolding do_clear do_refresh_cursor
do_clear-IsOnScreen c v = record {
  row = omega arith;
  col = omega arith;
  buff = v.buff;
  rest = λ j h. blank_right-blanked 2000 0 c.color c.vram j ∙ ground arith ∙ v.rest j h;
}

do_erase-beyond :
    (c : Console) (b : Bool) (j : ℕ)
    → c.row < console_height
    → c.col < console_width
    → 4000 ≤ j
    → (do_erase c b).vram j ≡ c.vram j
do_erase-beyond c true j low left h = do_erase-blanked c true j low left ∙ ground arith
do_erase-beyond c false j low left h = do_erase-blanked c false j low left ∙ ground arith

pub do_erase-IsOnScreen :
    {most : ℕ}
    → {start : Memory} → (c : Console) (b : Bool) → IsOnScreen most start c
    → IsOnScreen most start (do_erase c b)
unfolding do_erase
do_erase-IsOnScreen c b v = record {
  row = v.row;
  col = v.col;
  buff = v.buff;
  rest = λ j h. do_erase-beyond c b j v.row v.col h ∙ v.rest j h;
}

fix_pos_overflow-IsBuff :
    {most : ℕ}
    → (c : Console) → IsBuff most c.escseq_buff
    → IsBuff most (fix_pos_overflow c).escseq_buff
unfolding fix_pos_overflow scroll
fix_pos_overflow-IsBuff {most} c v =
    let same : (fix_pos_overflow c).escseq_buff ≡ c.escseq_buff = ground arith in
    subst (IsBuff most) (sym same) v

-- Scrolling writes no other cells.
fix_pos_overflow-beyond : (c : Console) (j : ℕ) → 4000 ≤ j → (fix_pos_overflow c).vram j ≡ c.vram j
unfolding fix_pos_overflow
fix_pos_overflow-beyond c j h =
    let c' : Console =
      if c.col == console_width then record c { col = 0; row = add32 c.row 1 } else c in
    let same : c'.vram ≡ c.vram = ground arith in
    elim (Bool-cases (c'.row == console_height)) [
      | inl over ↦ rw over (scroll-moved_up c' j ∙ ground arith ∙ ap (λ (m : Memory). m j) same)
      | inr inside ↦ rw inside (ap (λ (m : Memory). m j) same)
    ]

put_cell-IsBeyond :
    (start m : Memory) (i ch color : ℕ)
    → i < 2000
    → IsBeyond start m
    → IsBeyond start (put_cell m i ch color)
put_cell-IsBeyond start m i ch color l v = λ j h. put_cell_lem m i ch color j ∙ ground arith ∙ v j h

-- Where the cursor may be before `fix_pos_overflow`.
fix_pos_overflow-IsOnScreen :
    {most : ℕ}
    → {start : Memory} → (c : Console) → c.col ≤ console_width
    → c.row + (if c.col == console_width then 1 else 0) ≤ console_height
    → IsBuff most c.escseq_buff
    → IsBeyond start c.vram
    → IsOnScreen most start (fix_pos_overflow c)
unfolding fix_pos_overflow scroll add32
fix_pos_overflow-IsOnScreen c left low v w = record {
  row = ground (arith, left, low);
  col = ground (arith, left, low);
  buff = fix_pos_overflow-IsBuff c v;
  rest = λ j h. fix_pos_overflow-beyond c j h ∙ w j h;
}

tab_loop-le : (n col : ℕ) → col < console_width → tab_loop n col < console_width
unfolding tab_loop
tab_loop-le zero col h = h
tab_loop-le (suc n) col h = elim (Bool-cases (not (col % 8 == 0) && ltb col 79)) [
  | inl go ↦ rw go (tab_loop-le n (col + 1) (ground (arith, go)))
  | inr stop ↦ rw stop h
]

tab-IsOnScreen :
    {most : ℕ}
    → {start : Memory} → (c : Console) → IsOnScreen most start c
    → IsOnScreen most start (tab c)
unfolding tab add32
tab-IsOnScreen c v =
    let c' : Console = record c { col = (c.col + 1) % 2 ^ 32 } in
    elim (Bool-cases ((c.col + 1) % 2 ^ 32 == console_width)) [
      | inl over ↦ rw over (
          fix_pos_overflow-IsOnScreen c' (ground (arith, over)) (ground (arith, v.row, over)) v.buff
            v.rest)
      | inr inside ↦ rw inside (record {
        row = v.row;
        col = tab_loop-le 7 ((c.col + 1) % 2 ^ 32) (ground (arith, v.col, inside));
        buff = v.buff;
        rest = v.rest;
      })
    ]

put_char-IsOnScreen :
    {most : ℕ}
    → {start : Memory} → (c : Console) (ch : ℕ) → IsOnScreen most start c
    → (c' : Console) × (put_char c ch ≡ some c') × IsOnScreen most start c'
unfolding put_char cell_index add32
put_char-IsOnScreen {start = start} c ch v =
    let inside : leb 2000 ((c.row * 80 + c.col) % 2 ^ 31) ≡ false = ground (arith, v.row, v.col) in
    let c₁ : Console = record c {
      vram = put_cell c.vram (cell_index c) ch c.color;
      col = (c.col + 1) % 2 ^ 32;
    } in
    (
      fix_pos_overflow c₁,
      simp (put_char, inside) refl,
      fix_pos_overflow-IsOnScreen c₁ (omega (arith, v.col)) (ground (arith, v.row, v.col)) v.buff (
          put_cell-IsBeyond start c.vram (cell_index c) ch c.color (ground (arith, v.row, v.col))
            v.rest),
    )

pub process_char-IsOnScreen :
    {most : ℕ}
    → {start : Memory} → (c : Console) (ch : ℕ) → IsOnScreen most start c
    → (c' : Console) × (process_char c ch ≡ some c') × IsOnScreen most start c'
unfolding process_char add32
process_char-IsOnScreen c ch v = elim (Bool-cases (ch == 7)) [
  | inl bell ↦ (c, rw bell refl, v)
  | inr e₁ ↦ elim (Bool-cases (ch == 8)) [
    | inl back ↦ (cursor_back c 1, rw (e₁, back) refl, cursor_back-IsOnScreen c 1 v)
    | inr e₂ ↦ elim (Bool-cases (ch == 9)) [
      | inl stop ↦ (tab c, rw (e₁, e₂, stop) refl, tab-IsOnScreen c v)
      | inr e₃ ↦ elim (Bool-cases (ch == b'\n')) [
        | inl line ↦
            let c₁ : Console = record c { col = 0; row = (c.row + 1) % 2 ^ 32 } in
            (
              fix_pos_overflow c₁,
              rw (e₁, e₂, e₃, line) refl,
              fix_pos_overflow-IsOnScreen c₁ (omega arith) (ground (arith, v.row)) v.buff v.rest,
            )
        | inr e₄ ↦ elim (Bool-cases (ch == b'\r')) [
          | inl return ↦
              let c₁ : Console = record c { col = 0 } in
              (
                c₁,
                rw (e₁, e₂, e₃, e₄, return) refl,
                record { row = v.row; col = omega arith; buff = v.buff; rest = v.rest },
              )
          | inr e₅ ↦
              let (c', e, v') = put_char-IsOnScreen c ch v in (c', rw (e₁, e₂, e₃, e₄, e₅) e, v')
        ]
      ]
    ]
  ]
]
