-- ===== src/Vram/Cells.antt =====
-- What the loops of kernel/src/driver/console/vram.c that write cells make of the text memory.
use k_os.Base.{
  ℕ, zero, suc, ◌+◌, ◌*◌, ◌%◌, ◌≡◌, refl, ◌∙◌, ◌&&◌, ltb, leb, ◌==◌, if◌then◌else◌, arith,
}
use k_os.Base.Memory.{Memory}
use k_os.Vram.{put_cell, blank_right, blank_left}

-- The bytes of blank cells of a color.
abbrev pub blank : ℕ → ℕ → ℕ
blank color j = if j % 2 == 0 then b' ' else color

-- The memory with blanks in the bytes from `a` to `b`, which are even.
abbrev pub blanked : ℕ → ℕ → ℕ → Memory → Memory
blanked a b color m j = if leb a j && ltb j b then blank color j else m j

pub put_cell_lem :
    (m : Memory) (i ch color j : ℕ)
    → put_cell m i ch color j ≡ (if j == i * 2 then ch else if j == i * 2 + 1 then color else m j)
unfolding put_cell
put_cell_lem m i ch color j = ground arith

put_cell-blanked :
    (m : Memory) (i a color j : ℕ)
    → a ≡ suc i
    → put_cell m i b' ' color j ≡ blanked (i * 2) (a * 2) color m j
unfolding put_cell
put_cell-blanked m i a color j e = ground arith

pub blank_right-blanked :
    (n i color : ℕ) (m : Memory) (j : ℕ)
    → blank_right n i color m j ≡ blanked (i * 2) ((i + n) * 2) color m j
unfolding blank_right
blank_right-blanked zero i color m j = ground arith
blank_right-blanked (suc n) i color m j =
    blank_right-blanked n (suc i) color (put_cell m i b' ' color) j
    ∙ ground (arith, put_cell-blanked m i (suc i) color j refl)

pub blank_left-blanked :
    (n i color : ℕ) (m : Memory) (j : ℕ)
    → blank_left n i color m j ≡ blanked (i * 2) ((i + n) * 2) color m j
unfolding blank_left
blank_left-blanked zero i color m j = ground arith
blank_left-blanked (suc n) i color m j =
    blank_left-blanked n i color (put_cell m (i + n) b' ' color) j
    ∙ ground (arith, put_cell-blanked m (i + n) (suc (i + n)) color j refl)
