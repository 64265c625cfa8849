-- ===== src/Ufd/Table.antt =====
-- The table of descriptors of kernel/src/sched/sched.c: which one a file gets, and that the counts of
-- the files stay right.
use k_os.Base.{
  ℕ, zero, suc, ◌+◌, ◌-◌, ◌<◌, ◌≤◌, ◌^◌, ◌≡◌, ◌⊎◌, refl, ◌∙◌, sym, ap, subst, true, false, none,
  some, List, [], ◌∷◌, ltb, ◌==◌, if◌then◌else◌, set, get_or, get_or-set_self, length-set, length,
  Bool-cases, eq_or_ne, inl, inr, arith,
}
use k_os.Ufd.{
  Ufd, Files, max_num_fds, ufd_invalid, gfdt_get, is_some, ufdt_is_present, find_next,
  ufdt_find_next, ufdt_install, ufdt_add, ufdt_close_present, ufdt_replace,
}
use k_os.Ufd.Counts.{holds, count, IsCounted, put_entry-refs, gfdt_get-refs}

-- A table with another entry at one place.
count-set :
    (f : ℕ) (table : List Ufd) (i : ℕ) (u : Ufd)
    → i < length table
    → count f (set table i u) + holds f (get_or table i none) ≡ count f table + holds f u
count-set f [] i u h = absurd (omega arith)
count-set f (v ∷ vs) zero u h = omega arith
count-set f (v ∷ vs) (suc i) u h = omega (arith, count-set f vs i u (omega arith))

holds_absent : (f : ℕ) (u : Ufd) → is_some u ≡ false → holds f u ≡ 0
unfolding is_some
holds_absent f none e = refl
holds_absent f (some g) e = absurd (ground (arith, e))

-- What the search for a descriptor ends with.
abbrev pub IsLowest : List Ufd → ℕ → ℕ → Type 0
IsLowest table from r =
    ((r ≡ ufd_invalid) × ((i : ℕ) → from ≤ i → i < max_num_fds → ufdt_is_present table i ≡ true))
    ⊎ ((r < max_num_fds)
        × (ufdt_is_present table r ≡ false)
        × ((i : ℕ) → from ≤ i → i < r → ufdt_is_present table i ≡ true))

-- What holds of an entry and of all behind it.
from_here : (P : ℕ → Type 0) (idx i : ℕ) → P idx → (suc idx ≤ i → P i) → idx ≤ i → P i
from_here P idx i here f l = elim (eq_or_ne i idx) [
  | inl e ↦ subst P (sym e) here
  | inr ne ↦ f (omega arith)
]

taken_here :
    (table : List Ufd) (idx r : ℕ)
    → ufdt_is_present table idx ≡ true
    → IsLowest table (suc idx) r
    → IsLowest table idx r
taken_here table idx r here (inl (e, all)) = inl (
  e,
  λ i l h. from_here (λ (k : ℕ). ufdt_is_present table k ≡ true) idx i here (λ m. all i m h) l,
)
taken_here table idx r here (inr (small, free, all)) = inr (
  small,
  free,
  λ i l h. from_here (λ (k : ℕ). ufdt_is_present table k ≡ true) idx i here (λ m. all i m h) l,
)

find_next-IsLowest :
    (n idx : ℕ) (table : List Ufd)
    → n + idx ≡ max_num_fds
    → IsLowest table idx (find_next n idx table)
unfolding find_next
find_next-IsLowest zero idx table e = inl (refl, λ i l h. absurd (omega arith))
find_next-IsLowest (suc n) idx table e = elim (Bool-cases (ufdt_is_present table idx)) [
  | inr free ↦ rw free (inr (omega arith, free, λ i l h. absurd (omega arith)))
  | inl taken ↦ rw taken (
      taken_here table idx (find_next n (suc idx) table) taken
        (find_next-IsLowest n (suc idx) table (omega arith)))
]

not_there :
    (table : List Ufd) (i : ℕ)
    → i < max_num_fds
    → ufdt_is_present table i ≡ false
    → is_some (get_or table i none) ≡ false
unfolding ufdt_is_present
not_there table i l e = let inside : ltb i 512 ≡ true = ground arith in sym (rw inside refl) ∙ e

bound_more :
    (fs fs' : Files) (f g : ℕ)
    → fs.refs f < 2 ^ 32 - 2
    → fs'.refs g ≡ fs.refs g + (if g == f then 1 else 0)
    → fs.refs g < 2 ^ 32 - 1
    → fs'.refs g < 2 ^ 32 - 1
bound_more fs fs' f g room more h = elim (eq_or_ne g f) [
  | inl e ↦ let same : fs.refs g ≡ fs.refs f = ap fs.refs e in ground (arith, more, same, room)
  | inr ne ↦ ground (arith, more, ne, h)
]

-- `ufdt_install` into an entry that holds no file.
ufdt_install-IsCounted :
    (fs : Files) (table : List Ufd) (others : ℕ → ℕ) (i f : ℕ)
    → IsCounted fs table others
    → length table ≡ max_num_fds
    → i < max_num_fds
    → is_some (get_or table i none) ≡ false
    → (fs.refs f < 2 ^ 32 - 2)
    → (fs' : Files) × (ufdt_install fs table i f ≡ some (fs', set table i (some f)))
      × IsCounted fs' (set table i (some f)) others
unfolding ufdt_install
ufdt_install-IsCounted fs table others i f v len l free room =
    let inside : ltb i 512 ≡ true = ground arith in
    (
      gfdt_get fs f,
      rw inside refl,
      λ g.
          let more = gfdt_get-refs fs f g (v g).1 in
          let moved = count-set g table i (some f) (omega arith) in
          let empty = holds_absent g (get_or table i none) free in
          (
            omega (arith, more, moved, empty, (v g).0),
            bound_more fs (gfdt_get fs f) f g room more (v g).1,
          ),
    )

-- `ufdt_close` of an entry.
ufdt_close_present-IsCounted :
    (fs : Files) (table : List Ufd) (others : ℕ → ℕ) (i : ℕ)
    → IsCounted fs table others
    → i < length table
    → IsCounted (ufdt_close_present fs table i).0 (set table i none) others
unfolding ufdt_close_present
ufdt_close_present-IsCounted fs table others i v l g =
    let less = put_entry-refs fs (get_or table i none) g in
    let moved = count-set g table i none l in
    (omega (arith, less, moved, (v g).0), omega (arith, less, (v g).1))

-- A descriptor for a file with a count below 2 ^ 32 - 2, in a table with right counts: it is the lowest
-- one that is free, and the file stands there; where none is free, the table and the counts are as
-- before. The counts are right again.
pub ufdt_add-IsCounted :
    (fs : Files) (table : List Ufd) (others : ℕ → ℕ) (f : ℕ)
    → IsCounted fs table others
    → length table ≡ max_num_fds
    → fs.refs f < 2 ^ 32 - 2
    → (r : ℕ) × (fs' : Files) × (table' : List Ufd) × (ufdt_add fs table f ≡ some (r, fs', table'))
      × IsLowest table 0 r
      × (table' ≡ (if r == ufd_invalid then table else set table r (some f)))
      × IsCounted fs' table' others
unfolding ufdt_add ufdt_find_next
ufdt_add-IsCounted fs table others f v len room = go (find_next-IsLowest 512 0 table refl)
  where
    r : ℕ
    r = find_next 512 0 table

    go :
        IsLowest table 0 r
        → (r' : ℕ) × (fs' : Files) × (table' : List Ufd) × (ufdt_add fs table f
            ≡ some (r', fs', table'))
          × IsLowest table 0 r'
          × (table' ≡ (if r' == ufd_invalid then table else set table r' (some f)))
          × IsCounted fs' table' others
    go (inl (e, all)) =
        let full : (r == 4294967295) ≡ true = ground (arith, e) in
        (r, fs, table, rw full refl, inl (e, all), rw full refl, v)
    go (inr (small, free, all)) =
        let there : (r == 4294967295) ≡ false = ground (arith, small) in
        let absent : is_some (get_or table r none) ≡ false = not_there table r small free in
        let (fs', e, v') = ufdt_install-IsCounted fs table others r f v len small absent room in
        (
          r,
          fs',
          set table r (some f),
          rw (there, e) refl,
          inr (small, free, all),
          rw there refl,
          v',
        )

-- `ufdt_replace` of a descriptor in a table with right counts, by a file with a count below 2 ^ 32 - 2:
-- it holds the new file, and the counts are right, that of a file that it held before included.
pub ufdt_replace-IsCounted :
    (fs : Files) (table : List Ufd) (others : ℕ → ℕ) (ufd f : ℕ)
    → IsCounted fs table others
    → length table ≡ max_num_fds
    → ufd < max_num_fds
    → fs.refs f < 2 ^ 32 - 2
    → (fs' : Files) × (table' : List Ufd) × (ufdt_replace fs table ufd f ≡ some (fs', table'))
      × (get_or table' ufd none ≡ some f)
      × IsCounted fs' table' others
unfolding ufdt_replace ufdt_close_present is_some
ufdt_replace-IsCounted fs table others ufd f v len l room =
    elim (Bool-cases (ufdt_is_present table ufd)) [
      | inl held ↦
          let closed = ufdt_close_present fs table ufd in
          let v₁ = ufdt_close_present-IsCounted fs table others ufd v (omega arith) in
          let empty : is_some (get_or (set table ufd none) ufd none) ≡ false =
            ap is_some (get_or-set_self table ufd none none (omega arith)) in
          let (fs', e, v') =
            ufdt_install-IsCounted closed.0 (set table ufd none) others ufd f v₁
              (length-set table ufd none ∙ len) l empty
              (omega (arith, put_entry-refs fs (get_or table ufd none) f, room)) in
          (
            fs',
            set (set table ufd none) ufd (some f),
            rw held e,
            get_or-set_self (set table ufd none) ufd (some f) none
                (omega (arith, length-set table ufd none)),
            v',
          )
      | inr free ↦
          let (fs', e, v') =
            ufdt_install-IsCounted fs table others ufd f v len l (not_there table ufd l free)
              room in
          (
            fs',
            set table ufd (some f),
            rw free e,
            get_or-set_self table ufd (some f) none (omega arith),
            v',
          )
    ]
