-- ===== src/Vfs/Walk.antt =====
-- `vfs_lookup` of kernel/src/fs/vfs.c on a path whose names have entries.
use k_os.Base.{
  ℕ, zero, suc, ◌<◌, ◌≡◌, ◌≢◌, refl, ◌∙◌, true, false, Option, none, some, List, [], ◌∷◌, ◌++◌, All,
  length, take, ◌==◌, ==_refl, ◌&&◌, Bool-cases, inl, inr, ap, ap₂, arith,
}
use k_os.Vfs.{Inode, VfsPath, Vfs, same_name, str_to_key, hash_32, dentry_hash_bits}
use k_os.Vfs.Lookup.{next_segment, cached_child, child_step, segment_step, lookup_loop}

-- The bytes of a path, from its names.
abbrev pub joined : List (List ℕ) → List ℕ
joined [] = []
joined (s ∷ []) = s
joined (s ∷ t ∷ ss) = s ++ (b'/' ∷ joined (t ∷ ss))

-- A name: no separator in it, neither empty nor one of the two dots.
pub record IsName (s : List ℕ) : Type 0 where
  pub plain : All (λ (c : ℕ). c ≢ b'/') s
  pub full : (length s == 0) ≡ false
  pub no_dot : same_name s (b'.' ∷ []) ≡ false
  pub no_dots : same_name s (b'.' ∷ b'.' ∷ []) ≡ false

-- The chain of `children_tab` in which a name is.
abbrev pub bucket : List ℕ → ℕ
bucket name = hash_32 (str_to_key name) dentry_hash_bits

-- Of the entries of a list in the chain of a name, the first one whose name begins with this name has
-- exactly this name; entries before it begin with it only in other chains.
pub data Holds (v : Vfs) (s : List ℕ) : List ℕ → ℕ → Type 0 where
  first : {e : ℕ} {ds : List ℕ} → (v.dentry e).name ≡ s → Holds v s (e ∷ ds) e
  later :
      {d e : ℕ} {ds : List ℕ}
      → ((more : List ℕ) → (v.dentry d).name ≡ s ++ more → bucket (v.dentry d).name ≢ bucket s)
      → Holds v s ds e
      → Holds v s (d ∷ ds) e

-- From an entry along names to an entry, through directories on which nothing is mounted.
pub data Walks (v : Vfs) : ℕ → List (List ℕ) → ℕ → Type 0 where
  arrived : {d : ℕ} → Walks v d [] d
  enters :
      {d e q : ℕ} {s : List ℕ} {ss : List (List ℕ)} (i : Inode)
      → (v.dentry d).inode ≡ some i
      → i.directory ≡ true
      → i.mountpoint ≡ false
      → IsName s
      → Holds v s (v.dentry d).children e
      → Walks v e ss q
      → Walks v d (s ∷ ss) q

next_segment_last : (s : List ℕ) → All (λ (c : ℕ). c ≢ b'/') s → next_segment s ≡ (s, none)
unfolding next_segment
next_segment_last [] h = refl
next_segment_last (c ∷ cs) (h, hs) =
    let other : (c == b'/') ≡ false = ground (arith, h) in rw (other, next_segment_last cs hs) refl

next_segment_inner :
    (s rest : List ℕ)
    → All (λ (c : ℕ). c ≢ b'/') s
    → next_segment (s ++ (b'/' ∷ rest)) ≡ (s, some rest)
unfolding next_segment
next_segment_inner [] rest h = refl
next_segment_inner (c ∷ cs) rest (h, hs) =
    let other : (c == b'/') ≡ false = ground (arith, h) in
    rw (other, next_segment_inner cs rest hs) refl

same_name_refl : (s : List ℕ) → same_name s s ≡ true
unfolding same_name
same_name_refl [] = refl
same_name_refl (c ∷ cs) = rw (==_refl c, same_name_refl cs) refl

same_name-take : (s : List ℕ) → same_name (take (length s) s) s ≡ true
unfolding same_name
same_name-take [] = refl
same_name-take (c ∷ cs) = rw (==_refl c, same_name-take cs) refl

-- What `memcmp` finds the same begins with the name.
begins_with :
    (name s : List ℕ)
    → same_name (take (length s) name) s ≡ true
    → (more : List ℕ) × (name ≡ s ++ more)
unfolding same_name
begins_with name [] e = (name, refl)
begins_with [] (c ∷ cs) e = absurd (ground (arith, e))
begins_with (b ∷ bs) (c ∷ cs) e =
    let (more, f) = begins_with bs cs (ground (arith, e)) in (more, ap₂ ◌∷◌ (ground (arith, e)) f)

-- `memcmp` finds the entry that has the name.
cached_child-Holds :
    (v : Vfs) (s ds : List ℕ) (e : ℕ) → Holds v s ds e → cached_child ds v s ≡ some e
unfolding cached_child
cached_child-Holds v s ds e (first {ds = us} same) =
    let hit : same_name (take (length s) (v.dentry e).name) s ≡ true =
      ap (λ n. same_name (take (length s) n) s) same ∙ same_name-take s in
    let chain : (bucket (v.dentry e).name == bucket s) ≡ true =
      ap (λ n. bucket n == bucket s) same ∙ ==_refl (bucket s) in
    rw (chain, hit) refl
cached_child-Holds v s ds e (later {d = d} {ds = us} other rest) =
    let name = (v.dentry d).name in
    elim (Bool-cases (bucket name == bucket s && same_name (take (length s) name) s)) [
      | inr miss ↦ rw miss (cached_child-Holds v s us e rest)
      | inl hit ↦
          let (more, f) = begins_with name s (ground (arith, hit)) in
          absurd (other more f (ground (arith, hit)))
    ]

module _ (fs_lookup : ℕ → List ℕ → Option Inode) (depth : ℕ) (v : Vfs) where
  segment_cached :
      (p : VfsPath) (s : List ℕ) (e : ℕ)
      → IsName s
      → cached_child (v.dentry p.dentry).children v s ≡ some e
      → segment_step fs_lookup depth v p s ≡ some (v, some (record p { dentry = e }))
  unfolding segment_step child_step
  segment_cached p s e h found =
      simp (segment_step, h.full, h.no_dot, h.no_dots, child_step, found) refl

  -- A round of the loop at a name.
  round_last :
      (f c : ℕ) (cs : List ℕ) (p : VfsPath) (i : Inode) (e : ℕ)
      → (v.dentry p.dentry).inode ≡ some i
      → i.directory ≡ true
      → i.mountpoint ≡ false
      → IsName (c ∷ cs)
      → cached_child (v.dentry p.dentry).children v (c ∷ cs) ≡ some e
      → lookup_loop fs_lookup (suc f) depth v p (c ∷ cs) ≡ some (v, some (record p { dentry = e }))
  unfolding lookup_loop
  round_last f c cs p i e node dir plain h found =
      simp
        (
          lookup_loop,
          next_segment_last (c ∷ cs) h.plain,
          node,
          dir,
          plain,
          segment_cached p (c ∷ cs) e h found,
        )
        refl

  round_inner :
      (f c : ℕ) (cs rest : List ℕ) (p : VfsPath) (i : Inode) (e : ℕ)
      → (v.dentry p.dentry).inode ≡ some i
      → i.directory ≡ true
      → i.mountpoint ≡ false
      → IsName (c ∷ cs)
      → cached_child (v.dentry p.dentry).children v (c ∷ cs) ≡ some e
      → lookup_loop fs_lookup (suc f) depth v p (c ∷ (cs ++ (b'/' ∷ rest)))
        ≡ lookup_loop fs_lookup f depth v (record p { dentry = e }) rest
  unfolding lookup_loop
  round_inner f c cs rest p i e node dir plain h found =
      simp
        (
          lookup_loop,
          next_segment_inner (c ∷ cs) rest h.plain,
          node,
          dir,
          plain,
          segment_cached p (c ∷ cs) e h found,
        )
        refl

  -- Names that lead from an entry to another, through directories on which nothing is mounted: for each
  -- name, of the children of its directory in the chain of the table that the name is looked up in,
  -- the first one whose name begins with it has exactly this name. The loop of `vfs_lookup` on the
  -- names with separators between them ends at the last entry within one round more than there are
  -- names, and changes nothing. A name is not empty, not `.` or `..`, and has no separator.
  pub lookup_loop-Walks :
      (ss : List (List ℕ)) (f : ℕ) (p : VfsPath) (q : ℕ)
      → length ss < f
      → Walks v p.dentry ss q
      → lookup_loop fs_lookup f depth v p (joined ss) ≡ some (v, some (record p { dentry = q }))
  unfolding lookup_loop
  lookup_loop-Walks ss zero p q l w = absurd (omega arith)
  lookup_loop-Walks [] (suc f) p q l arrived = refl
  lookup_loop-Walks ([] ∷ ss) (suc f) p q l (enters i node dir plain h held w) =
      absurd (ground (arith, h.full))
  lookup_loop-Walks ((c ∷ cs) ∷ []) (suc f) p q l (enters i node dir plain h held arrived) =
      round_last f c cs p i q node dir plain h
        (cached_child-Holds v (c ∷ cs) (v.dentry p.dentry).children q held)
  lookup_loop-Walks ((c ∷ cs) ∷ t ∷ ss) (suc f) p q l (enters {e = e} i node dir plain h held w) =
      round_inner f c cs (joined (t ∷ ss)) p i e node dir plain h
        (cached_child-Holds v (c ∷ cs) (v.dentry p.dentry).children e held)
      ∙ lookup_loop-Walks (t ∷ ss) f (record p { dentry = e }) q (omega arith) w
