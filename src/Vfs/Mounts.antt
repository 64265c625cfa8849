-- ===== src/Vfs/Mounts.antt =====
-- Mounting and unmounting in kernel/src/fs/vfs.c.
use k_os.Base.{
  ℕ, ◌≡◌, ◌≢◌, refl, ◌∙◌, sym, ap, Bool, true, false, Option, none, some, List, ◌∷◌, ◌==◌, ==_refl,
  eq_or_ne, inl, inr, arith,
}
use k_os.Vfs.{
  Inode, Mount, VfsPath, Vfs, set_dentry, set_mount, is_on, find_mount, get_mount, flag_mountpoint,
  vfs_mount_add, remove_mount, vfs_umount,
}

-- The mount that `vfs_mount_add` puts on a place.
abbrev pub placed : Vfs → ℕ → VfsPath → Mount
placed v m p = record (v.mount m) { parent = some p.mount; mountpoint = p.dentry }

-- The mounts and the entries behind it.
abbrev pub added : Vfs → ℕ → VfsPath → Inode → Vfs
added v m p i =
    flag_mountpoint (record (set_mount v m (placed v m p)) { mounted = m ∷ v.mounted }) p.dentry i
      true

placed-is_on : (v : Vfs) (m : ℕ) (p : VfsPath) → is_on p (placed v m p) ≡ true
unfolding is_on
placed-is_on v m p = ground arith

vfs_umount_lem :
    (v : Vfs) (p : VfsPath) (j : Inode) (m : ℕ)
    → (v.dentry p.dentry).inode ≡ some j
    → j.mountpoint ≡ true
    → get_mount v p ≡ some m
    → (m == v.root_mount) ≡ false
    → vfs_umount v p
      ≡ some
          (true, record (flag_mountpoint v p.dentry j false) { mounted = remove_mount m v.mounted })
unfolding vfs_umount
vfs_umount_lem v p j m e on found other = simp (vfs_umount, e, on, found, other) refl

remove_mount_first : (m : ℕ) (ms : List ℕ) → remove_mount m (m ∷ ms) ≡ ms
unfolding remove_mount
remove_mount_first m ms = rw (==_refl m) refl

-- A mount on a directory that is no mountpoint yet and on which nothing is mounted: it goes well, the
-- new mount is what `get_mount` finds there, and the directory is a mountpoint. Unmounting takes the
-- mount off the table and makes the directory what it was, if the mount is not the root.
pub vfs_umount-vfs_mount_add :
    (v : Vfs) (m : ℕ) (p : VfsPath) (i : Inode)
    → (v.dentry p.dentry).inode ≡ some i
    → i.directory ≡ true
    → i.mountpoint ≡ false
    → get_mount v p ≡ none
    → m ≢ v.root_mount
    → (v₁ : Vfs) × (v₂ : Vfs) × (vfs_mount_add v m p ≡ some (true, v₁))
      × (get_mount v₁ p ≡ some m)
      × (vfs_umount v₁ p ≡ some (true, v₂))
      × (v₂.mounted ≡ v.mounted)
      × ((d : ℕ) → v₂.dentry d ≡ v.dentry d)
unfolding vfs_mount_add get_mount find_mount flag_mountpoint set_dentry set_mount
vfs_umount-vfs_mount_add v m p i e dir plain free nr =
    let v₁ : Vfs = added v m p i in
    let found : get_mount v₁ p ≡ some m = rw (==_refl m, placed-is_on v m p) refl in
    let there : (v₁.dentry p.dentry).inode ≡ some (record i { mountpoint = true }) =
      rw (==_refl p.dentry) refl in
    let other : (m == v.root_mount) ≡ false = ground arith in
    let v₂ : Vfs = record (flag_mountpoint v₁ p.dentry (record i { mountpoint = true }) false) {
      mounted = v.mounted;
    } in
    let same : record i { mountpoint = false } ≡ i =
      ap (λ (b : Bool). record i { mountpoint = b }) (sym plain) in
    let here : v₂.dentry p.dentry ≡ v.dentry p.dentry = rw (==_refl p.dentry) (
      ap (λ (x : Option Inode). record (v.dentry p.dentry) { inode = x })
        (ap {B = Option Inode} some same ∙ sym e)) in
    let restored : (d : ℕ) → v₂.dentry d ≡ v.dentry d = λ d. elim (eq_or_ne d p.dentry) [
      | inl eq ↦ ap v₂.dentry eq ∙ here ∙ ap v.dentry (sym eq)
      | inr ne ↦ let off : (d == p.dentry) ≡ false = ground arith in rw off refl
    ] in
    (
      v₁,
      v₂,
      simp (vfs_mount_add, e, dir, free) refl,
      found,
      vfs_umount_lem v₁ p (record i { mountpoint = true }) m there refl found other
          ∙ ap
              (λ (ms : List ℕ). some (
                true,
                record (flag_mountpoint v₁ p.dentry (record i { mountpoint = true }) false) {
                  mounted = ms;
                },
              ))
              (remove_mount_first m v.mounted),
      refl,
      λ d. restored d,
    )
