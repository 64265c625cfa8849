-- ===== src/Vfs/Create.antt =====
-- Where `vfs_create` of kernel/src/fs/vfs.c makes an entry for a path that begins at the root.
use k_os.Base.{
  ℕ, suc, ◌-◌, ◌≡◌, ◌≢◌, refl, ap, false, Option, none, some, List, [], ◌∷◌, All, length, take,
  ◌==◌, arith,
}
use k_os.Vfs.{Inode, VfsPath, Vfs, same_name}
use k_os.Vfs.Lookup.{last_from, last_segment, enter_mount, lookup_loop, vfs_lookup, get_path_wd}
use k_os.Vfs.Walk.{IsName}

last_from_plain : (seg s : List ℕ) → All (λ (c : ℕ). c ≢ b'/') s → last_from seg s ≡ seg
unfolding last_from
last_from_plain seg [] h = refl
last_from_plain seg (c ∷ []) h = refl
last_from_plain seg (c ∷ d ∷ cs) (h, hs) =
    let other : (c == b'/') ≡ false = ground (arith, h) in
    rw other (last_from_plain seg (d ∷ cs) hs)

enter_mount_plain :
    (v : Vfs) (p : VfsPath) (i : Inode)
    → (v.dentry p.dentry).inode ≡ some i
    → i.mountpoint ≡ false
    → enter_mount v p ≡ some p
unfolding enter_mount
enter_mount_plain v p i e plain = simp (enter_mount, e, plain) refl

vfs_lookup_empty :
    (fs_lookup : ℕ → List ℕ → Option Inode) (f depth : ℕ) (v : Vfs) (p : VfsPath)
    → enter_mount v p ≡ some p
    → vfs_lookup fs_lookup (suc f) depth v (some p) [] ≡ some (v, some p)
unfolding vfs_lookup lookup_loop
vfs_lookup_empty fs_lookup f depth v p e =
    let entered : Option VfsPath → Option (Vfs × Option VfsPath) =
      λ o. elim o [ none ↦ none | some q ↦ some (v, some q) ] in
    ap entered e

-- Nothing is left before the last segment.
get_path_wd_alone :
    (fs_lookup : ℕ → List ℕ → Option Inode) (fuel depth : ℕ) (v : Vfs) (p : VfsPath)
    (path last : List ℕ)
    → last_segment path ≡ last
    → same_name path last ≡ false
    → take (length path - length last - 1) path ≡ []
    → vfs_lookup fs_lookup fuel depth v (some p) [] ≡ some (v, some p)
    → get_path_wd fs_lookup fuel depth v (some p) path ≡ some (v, some p, last)
unfolding get_path_wd
get_path_wd_alone fs_lookup fuel depth v p path last seg other empty found =
    simp (get_path_wd, seg, other, empty, found) refl

-- A path that is a separator and a name, looked up from a place that is no mountpoint: the directory
-- in which `vfs_create` makes the entry is that place, wherever it is, and not the root.
pub get_path_wd_absolute :
    (fs_lookup : ℕ → List ℕ → Option Inode) (f depth : ℕ) (v : Vfs) (p : VfsPath) (s : List ℕ)
    (i : Inode)
    → IsName s
    → (v.dentry p.dentry).inode ≡ some i
    → i.mountpoint ≡ false
    → get_path_wd fs_lookup (suc f) depth v (some p) (b'/' ∷ s) ≡ some (v, some p, s)
unfolding last_segment last_from same_name
get_path_wd_absolute fs_lookup f depth v p [] i h e plain = absurd (ground (arith, h.full))
get_path_wd_absolute fs_lookup f depth v p (c ∷ cs) i h e plain =
    let last : last_from (c ∷ cs) (c ∷ cs) ≡ c ∷ cs = last_from_plain (c ∷ cs) (c ∷ cs) h.plain in
    let other : (b'/' == c) ≡ false = ground (arith, h.plain.0) in
    let nothing_left : suc (suc (length cs)) - suc (length cs) - 1 ≡ 0 = omega arith in
    get_path_wd_alone fs_lookup (suc f) depth v p (b'/' ∷ c ∷ cs) (c ∷ cs) last (rw other refl)
      (ap (λ (n : ℕ). take n (b'/' ∷ c ∷ cs)) nothing_left)
      (vfs_lookup_empty fs_lookup f depth v p (enter_mount_plain v p i e plain))
