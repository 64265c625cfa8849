-- ===== src/Vfs.antt =====
-- kernel/src/fs/vfs.c: directory entries and mounts, with the lookup of paths in `Vfs.Lookup`. Entries and mounts are numbers, a
-- name and a path are their bytes before the NUL; `none` is a failed BUG_ON. What a file system finds
-- for a name that has no entry yet is the argument `fs_lookup`, from the directory and the name to an
-- inode.
pub mod Lookup
pub mod Mounts
pub mod Walk
pub mod Create
mod Tests
use k_os.Base.{
  ℕ, zero, suc, ◌+◌, ◌-◌, ◌*◌, ◌/◌, ◌%◌, ◌^◌, Bool, true, false, ◌&&◌, ◌||◌, not, Option, none,
  some, List, [], ◌∷◌, ltb, ◌==◌, if◌then◌else◌, length, take,
}

-- The flags of an `inode_t`: INODE_FLAG_DIRECTORY and INODE_FLAG_MOUNTPOINT.
pub record Inode : Type 0 where
  pub directory : Bool
  pub mountpoint : Bool

-- `dentry_t`; the entries in `children_tab`, the last one that was added first.
pub record Dentry : Type 0 where
  pub name : List ℕ
  pub parent : Option ℕ
  pub inode : Option Inode
  pub children : List ℕ

-- `mount_t`, with the root of its file system
pub record Mount : Type 0 where
  pub parent : Option ℕ
  pub mountpoint : ℕ
  pub root : ℕ

-- `path_t`
pub record VfsPath : Type 0 where
  pub mount : ℕ
  pub dentry : ℕ

-- The entries, the mounts, the mounts in `mount_hashtable`, `root_mount`, and the next entry that
-- `dentry_cache` gives out.
pub record Vfs : Type 0 where
  pub dentry : ℕ → Dentry
  pub mount : ℕ → Mount
  pub mounted : List ℕ
  pub root_mount : ℕ
  pub fresh : ℕ

-- Whether names are the same.
unfoldable pub same_name : List ℕ → List ℕ → Bool
same_name [] [] = true
same_name [] (b ∷ bs) = false
same_name (a ∷ xs) [] = false
same_name (a ∷ xs) (b ∷ bs) = a == b && same_name xs bs

-- An entry and a mount, written back.
unfoldable pub set_dentry : Vfs → ℕ → Dentry → Vfs
set_dentry v d x = record v { dentry = λ e. if e == d then x else v.dentry e }

unfoldable pub set_mount : Vfs → ℕ → Mount → Vfs
set_mount v m x = record v { mount = λ n. if n == m then x else v.mount n }

-- `str_to_key`; a `char` is signed.
unfoldable pub key_from : ℕ → List ℕ → ℕ
key_from key [] = key
key_from key (c ∷ cs) = key_from ((key * (if ltb c 128 then c else c + 2 ^ 32 - 256)) % 2 ^ 32) cs

unfoldable pub str_to_key : List ℕ → ℕ
str_to_key name = key_from 1 name

-- `hash_32`
unfoldable pub hash_32 : ℕ → ℕ → ℕ
hash_32 key bits = (key * 2654404609) % 2 ^ 32 / 2 ^ (32 - bits)

-- `DENTRY_HASH_BITS`
abbrev pub dentry_hash_bits : ℕ
dentry_hash_bits = 5

-- `MNT_ROOT`
unfoldable pub mnt_root : Vfs → ℕ → VfsPath
mnt_root v m = record { mount = m; dentry = (v.mount m).root }

-- `dentry_activate` below a parent
unfoldable pub dentry_activate : Vfs → ℕ → ℕ → Vfs
dentry_activate v child parent =
    let v' = set_dentry v child (record (v.dentry child) { parent = some parent }) in
    set_dentry v' parent
      (record (v'.dentry parent) { children = child ∷ (v'.dentry parent).children })

-- Whether a mount stands on a place.
unfoldable pub is_on : VfsPath → Mount → Bool
is_on p m = elim m.parent [ none ↦ false | some n ↦ n == p.mount && m.mountpoint == p.dentry ]

-- The loop of `get_mount`.
unfoldable pub find_mount : List ℕ → Vfs → VfsPath → Option ℕ
find_mount [] v p = none
find_mount (m ∷ ms) v p =
    let rest = find_mount ms v p in if is_on p (v.mount m) then some m else rest

-- `get_mount`
unfoldable pub get_mount : Vfs → VfsPath → Option ℕ
get_mount v p = find_mount v.mounted v p

-- The inode of an entry with another INODE_FLAG_MOUNTPOINT.
unfoldable pub flag_mountpoint : Vfs → ℕ → Inode → Bool → Vfs
flag_mountpoint v d i on =
    set_dentry v d (record (v.dentry d) { inode = some (record i { mountpoint = on }) })

-- `vfs_mount_add`
unfoldable pub vfs_mount_add : Vfs → ℕ → VfsPath → Option (Bool × Vfs)
vfs_mount_add v m p = elim (v.dentry p.dentry).inode [
  | none ↦ none
  | some i ↦ if not i.directory then some (false, v) else elim (get_mount v p) [
    | some n ↦ some (false, v)
    | none ↦
        let v' =
          set_mount v m (record (v.mount m) { parent = some p.mount; mountpoint = p.dentry }) in
        some (true, flag_mountpoint (record v' { mounted = m ∷ v.mounted }) p.dentry i true)
  ]
]

-- `hashtable_rm`
unfoldable pub remove_mount : ℕ → List ℕ → List ℕ
remove_mount m [] = []
remove_mount m (n ∷ ns) = let rest = remove_mount m ns in if n == m then ns else n ∷ rest

-- `vfs_umount`
unfoldable pub vfs_umount : Vfs → VfsPath → Option (Bool × Vfs)
vfs_umount v p = elim (v.dentry p.dentry).inode [
  | none ↦ none
  | some i ↦ if not i.mountpoint then some (false, v) else elim (get_mount v p) [
    | none ↦ none
    | some m ↦
        if m == v.root_mount
        then none
        else let v' = flag_mountpoint v p.dentry i false in
          some (true, record v' { mounted = remove_mount m v.mounted })
  ]
]
