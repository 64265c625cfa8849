-- ===== src/Ufd/Counts.antt =====
-- The counts of references of kernel/src/fs/fd.c against the descriptors that hold a file.
use k_os.Base.{ℕ, ◌+◌, ◌-◌, ◌<◌, ◌^◌, ◌≡◌, none, some, List, [], ◌∷◌, ◌==◌, if◌then◌else◌, arith}
use k_os.Base.Word.{add32}
use k_os.Ufd.{
  Ufd, Files, set_refs, gfdt_get, gfdt_free, gfdt_put, put_entry, get_entry, ufd_context_destroy,
}

-- How many descriptors of an entry, and of a table, hold a file.
abbrev pub holds : ℕ → Ufd → ℕ
holds f none = 0
holds f (some g) = if f == g then 1 else 0

abbrev pub count : ℕ → List Ufd → ℕ
count f [] = 0
count f (u ∷ us) = holds f u + count f us

-- The count of each file is what a table and the rest of the kernel hold of it, which fits into a
-- word.
abbrev pub IsCounted : Files → List Ufd → (ℕ → ℕ) → Type 0
IsCounted fs table others =
    (f : ℕ) → (fs.refs f ≡ count f table + others f) × (fs.refs f < 2 ^ 32 - 1)

-- One entry more and one less.
pub gfdt_get-refs :
    (fs : Files) (f g : ℕ)
    → fs.refs g < 2 ^ 32 - 1
    → (gfdt_get fs f).refs g ≡ fs.refs g + (if g == f then 1 else 0)
unfolding gfdt_get set_refs add32
gfdt_get-refs fs f g h = ground arith

pub gfdt_put-refs :
    (fs : Files) (f g : ℕ) → (gfdt_put fs f).refs g ≡ fs.refs g - (if g == f then 1 else 0)
unfolding gfdt_put gfdt_free set_refs
gfdt_put-refs fs f g = ground arith

pub put_entry-refs :
    (fs : Files) (u : Ufd) (g : ℕ) → (put_entry fs u).refs g ≡ fs.refs g - holds g u
unfolding put_entry
put_entry-refs fs none g = omega arith
put_entry-refs fs (some f) g = gfdt_put-refs fs f g

pub get_entry-refs :
    (fs : Files) (u : Ufd) (g : ℕ)
    → fs.refs g < 2 ^ 32 - 1
    → (get_entry fs u).refs g ≡ fs.refs g + holds g u
unfolding get_entry
get_entry-refs fs none g h = omega arith
get_entry-refs fs (some f) g h = gfdt_get-refs fs f g h

-- When a context with right counts is destroyed, each file is left with what the rest of the kernel
-- holds of it.
pub ufd_context_destroy-others :
    (table : List Ufd) (fs : Files) (others : ℕ → ℕ)
    → IsCounted fs table others
    → (f : ℕ) → (ufd_context_destroy fs table).refs f ≡ others f
unfolding ufd_context_destroy
ufd_context_destroy-others [] fs others v f = omega (arith, (v f).0)
ufd_context_destroy-others (u ∷ us) fs others v f =
    ufd_context_destroy-others us (put_entry fs u) others
      (λ g. (
        omega (arith, put_entry-refs fs u g, (v g).0),
        omega (arith, put_entry-refs fs u g, (v g).1),
      ))
      f
