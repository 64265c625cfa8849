-- ===== src/Ufd.antt =====
-- The descriptors of files in kernel/src/sched/sched.c, and the counts of references in kernel/src/fs/fd.c.
-- A file is a number. The table is its entries from the first on; what a fresh table holds before it is
-- written, which is what kmalloc left there, is an argument. `none` is a write behind the table.
pub mod Counts
pub mod Table
mod Tests
use k_os.Base.{
  ℕ, zero, suc, ◌+◌, ◌-◌, ◌^◌, Bool, true, false, ◌&&◌, not, Option, none, some, List, [], ◌∷◌, ltb,
  leb, ◌==◌, if◌then◌else◌, set, get_or,
}
use k_os.Base.Int.{ℤ, pos, negsuc}
use k_os.Base.Word.{add32, sub32}

-- `ufd_t`, without its flags, which are always 0; NULL is `none`.
abbrev pub Ufd : Type 0
Ufd = Option ℕ

-- `MAX_NUM_FDS`, the entries of a page, and `UFD_INVALID`
abbrev pub max_num_fds : ℕ
max_num_fds = 512

abbrev pub ufd_invalid : ℕ
ufd_invalid = 4294967295

-- EBADF, returned as its negative.
abbrev pub minus_ebadf : ℤ
minus_ebadf = negsuc 8

-- The counts of the files, the number of files in use, and the files that were closed for good, the
-- last one first.
pub record Files : Type 0 where
  pub refs : ℕ → ℕ
  pub in_use : ℕ
  pub freed : List ℕ

-- `f->refs`, set.
unfoldable pub set_refs : (ℕ → ℕ) → ℕ → ℕ → ℕ → ℕ
set_refs r f n g = if g == f then n else r g

-- `gfdt_obtain`, which gets the file `f` from its cache.
unfoldable pub gfdt_obtain : Files → ℕ → Files
gfdt_obtain fs f = record fs { refs = set_refs fs.refs f 0; in_use = add32 fs.in_use 1 }

-- `gfdt_get`
unfoldable pub gfdt_get : Files → ℕ → Files
gfdt_get fs f = record fs { refs = set_refs fs.refs f (add32 (fs.refs f) 1) }

-- `gfdt_free`
unfoldable pub gfdt_free : Files → ℕ → Files
gfdt_free fs f = record fs { freed = f ∷ fs.freed; in_use = sub32 fs.in_use 1 }

-- `gfdt_put`
unfoldable pub gfdt_put : Files → ℕ → Files
gfdt_put fs f =
    let n = if fs.refs f == 0 then 0 else fs.refs f - 1 in
    let fs' : Files = record fs { refs = set_refs fs.refs f n } in
    if n == 0 then gfdt_free fs' f else fs'

-- `ufd_context_t`
pub record Ufds : Type 0 where
  pub refs : ℕ
  pub table : List Ufd

-- Whether an entry holds a file.
unfoldable pub is_some : Ufd → Bool
is_some none = false
is_some (some f) = true

-- `__ufdt_is_present`
unfoldable pub ufdt_is_present : List Ufd → ℕ → Bool
ufdt_is_present table ufd = ltb ufd max_num_fds && is_some (get_or table ufd none)

-- The loop of `__ufdt_find_next`, with `n` entries left.
unfoldable pub find_next : ℕ → ℕ → List Ufd → ℕ
find_next zero idx table = ufd_invalid
find_next (suc n) idx table =
    let rest = find_next n (suc idx) table in if not (ufdt_is_present table idx) then idx else rest

-- `__ufdt_find_next`
unfoldable pub ufdt_find_next : List Ufd → ℕ
ufdt_find_next table = find_next max_num_fds 0 table

-- `__ufdt_install`
unfoldable pub ufdt_install : Files → List Ufd → ℕ → ℕ → Option (Files × List Ufd)
ufdt_install fs table idx gfd =
    if ltb idx max_num_fds then some (gfdt_get fs gfd, set table idx (some gfd)) else none

-- `ufdt_add`
unfoldable pub ufdt_add : Files → List Ufd → ℕ → Option (ℕ × Files × List Ufd)
ufdt_add fs table gfd =
    let added = ufdt_find_next table in
    if added == ufd_invalid
    then some (added, fs, table)
    else elim (ufdt_install fs table added gfd) [
      | none ↦ none
      | some (fs', table') ↦ some (added, fs', table')
    ]

-- `gfdt_put` of what an entry holds.
unfoldable pub put_entry : Files → Ufd → Files
put_entry fs none = fs
put_entry fs (some f) = gfdt_put fs f

-- `__ufdt_close` of an entry that is present.
unfoldable pub ufdt_close_present : Files → List Ufd → ℕ → Files × List Ufd
ufdt_close_present fs table ufd = (put_entry fs (get_or table ufd none), set table ufd none)

-- `ufdt_close`
unfoldable pub ufdt_close : Files → List Ufd → ℕ → ℤ × Files × List Ufd
ufdt_close fs table ufd =
    if not (ufdt_is_present table ufd)
    then (minus_ebadf, fs, table)
    else let (fs', table') = ufdt_close_present fs table ufd in (pos 0, fs', table')

-- `ufdt_replace`, which returns 0
unfoldable pub ufdt_replace : Files → List Ufd → ℕ → ℕ → Option (Files × List Ufd)
ufdt_replace fs table ufd fd =
    if ufdt_is_present table ufd
    then (let (fs', table') = ufdt_close_present fs table ufd in ufdt_install fs' table' ufd fd)
    else ufdt_install fs table ufd fd

-- `ufdt_valid`
unfoldable pub ufdt_valid : List Ufd → ℕ → Bool
ufdt_valid table ufd = if leb max_num_fds ufd then false else is_some (get_or table ufd none)

-- `ufdt_get`
unfoldable pub ufdt_get : List Ufd → ℕ → Ufd
ufdt_get table ufd = if ufdt_is_present table ufd then get_or table ufd none else none

-- The loop of `ufd_context_build`: `n` entries of a table are cleared.
unfoldable pub clear_entries : ℕ → List Ufd → List Ufd
clear_entries zero raw = raw
clear_entries (suc n) [] = []
clear_entries (suc n) (u ∷ raw) = none ∷ clear_entries n raw

-- `ufd_context_build`
unfoldable pub ufd_context_build : List Ufd → Ufds
ufd_context_build raw = record { refs = 1; table = clear_entries (max_num_fds - 1) raw }

-- `gfdt_get` of what an entry holds.
unfoldable pub get_entry : Files → Ufd → Files
get_entry fs none = fs
get_entry fs (some f) = gfdt_get fs f

-- The loop of `ufd_context_dup`: `n` entries go from a table to another.
unfoldable pub dup_entries : ℕ → Files → List Ufd → List Ufd → Files × List Ufd
dup_entries zero fs src raw = (fs, raw)
dup_entries (suc n) fs [] raw = (fs, raw)
dup_entries (suc n) fs (u ∷ src) [] = (fs, [])
dup_entries (suc n) fs (u ∷ src) (v ∷ raw) =
    let (fs', dst) = dup_entries n (get_entry fs u) src raw in (fs', u ∷ dst)

-- `ufd_context_dup`
unfoldable pub ufd_context_dup : Files → Ufds → List Ufd → Files × Ufds
ufd_context_dup fs src raw =
    let (fs', table) = dup_entries (max_num_fds - 1) fs src.table raw in
    (fs', record { refs = 1; table = table })

-- `ufd_context_destroy`
unfoldable pub ufd_context_destroy : Files → List Ufd → Files
ufd_context_destroy fs [] = fs
ufd_context_destroy fs (u ∷ us) = ufd_context_destroy (put_entry fs u) us

-- `put_ufds` of a thread: the count behind it is compared as it was before.
unfoldable pub put_ufds : Files → Ufds → Files × Ufds
put_ufds fs ufds =
    let newrefs = ufds.refs in
    let ufds' : Ufds = record ufds { refs = sub32 ufds.refs 1 } in
    if newrefs == 0 then (ufd_context_destroy fs ufds.table, ufds') else (fs, ufds')
