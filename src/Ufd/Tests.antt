-- ===== src/Ufd/Tests.antt =====
-- The table of descriptors of kernel/src/sched/sched.c on concrete files.
use k_os.Base.{
  ℕ, zero, suc, ◌≡◌, refl, ap, none, some, List, [], ◌∷◌, ◌==◌, if◌then◌else◌, set, get_or, length,
  arith,
}
use k_os.Ufd.{
  Ufd, Files, ufd_invalid, ufdt_add, ufdt_replace, ufdt_install, ufdt_is_present, ufd_context_build,
  clear_entries, ufd_context_destroy, put_ufds,
}
use k_os.Ufd.Counts.{count, IsCounted, ufd_context_destroy-others}
use k_os.Ufd.Table.{IsLowest, ufdt_add-IsCounted, ufdt_replace-IsCounted}

-- Entries without a file.
abbrev empty_entries : ℕ → List Ufd
empty_entries zero = []
empty_entries (suc n) = none ∷ empty_entries n

-- A table that holds the file 7 and nothing else.
abbrev one_file : List Ufd
one_file = some 7 ∷ empty_entries 511

abbrev files : Files
files = record { refs = λ f. if f == 7 then 1 else 0; in_use = 1; freed = [] }

abbrev nobody : ℕ → ℕ
nobody f = 0

count-empty_entries : (n f : ℕ) → count f (empty_entries n) ≡ 0
count-empty_entries zero f = refl
count-empty_entries (suc n) f = omega (arith, count-empty_entries n f)

length-empty_entries : (n : ℕ) → length (empty_entries n) ≡ n
length-empty_entries zero = refl
length-empty_entries (suc n) = ap suc (length-empty_entries n)

one_file-IsCounted : IsCounted files one_file nobody
one_file-IsCounted f = let z = count-empty_entries 511 f in (ground (arith, z), ground arith)

ufd_context_destroy-others_example : (ufd_context_destroy files one_file).refs 7 ≡ 0
ufd_context_destroy-others_example =
    ufd_context_destroy-others one_file files nobody one_file-IsCounted 7

ufdt_add-IsCounted_example :
    (r : ℕ) × (fs' : Files) × (table' : List Ufd) × (ufdt_add files one_file 7
      ≡ some (r, fs', table'))
    × IsLowest one_file 0 r
    × (table' ≡ (if r == ufd_invalid then one_file else set one_file r (some 7)))
    × IsCounted fs' table' nobody
ufdt_add-IsCounted_example =
    ufdt_add-IsCounted files one_file nobody 7 one_file-IsCounted
      (ap suc (length-empty_entries 511)) (omega arith)

ufdt_replace-IsCounted_example :
    (fs' : Files) × (table' : List Ufd) × (ufdt_replace files one_file 3 7 ≡ some (fs', table'))
    × (get_or table' 3 none ≡ some 7)
    × IsCounted fs' table' nobody
ufdt_replace-IsCounted_example =
    ufdt_replace-IsCounted files one_file nobody 3 7 one_file-IsCounted
      (ap suc (length-empty_entries 511)) (omega arith) (omega arith)

-- A descriptor behind the table.
replace_behind : ufdt_replace files [] 512 7 ≡ none
unfolding ufdt_replace ufdt_is_present ufdt_install
replace_behind = refl

-- The memory of a table whose last entry is not 0.
abbrev used_memory : ℕ → List Ufd
used_memory zero = some 9 ∷ []
used_memory (suc n) = none ∷ used_memory n

-- The last entry of a new table is what was in its memory.
last_entry : get_or (ufd_context_build (used_memory 511)).table 511 none ≡ some 9
unfolding ufd_context_build clear_entries
last_entry = refl

-- The last thread of a context gives it back, and its file is not closed.
kept_file : (put_ufds files (record { refs = 1; table = one_file })).0.freed ≡ []
unfolding put_ufds
kept_file = refl
