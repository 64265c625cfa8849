-- ===== src/Vfs/Tests.antt =====
-- Paths and mounts of kernel/src/fs/vfs.c on a small tree.
use k_os.Base.{
  ℕ, zero, suc, ◌≡◌, ◌≢◌, refl, true, false, Option, none, some, List, [], ◌∷◌, ◌==◌, if◌then◌else◌,
  arith,
}
use k_os.Vfs.{
  dentry_activate, set_dentry, Inode, Dentry, VfsPath, Vfs, same_name, key_from, str_to_key,
  hash_32, mnt_root, find_mount, get_mount, vfs_mount_add, vfs_umount,
}
use k_os.Vfs.Lookup.{
  get_path_wd, Created, create_entry, vfs_create, last_from, last_segment, next_segment,
  leave_roots, go_up, cached_child, child_step, segment_step, lookup_loop, enter_mount, vfs_lookup,
}
use k_os.Vfs.Mounts.{vfs_umount-vfs_mount_add}
use k_os.Vfs.Create.{get_path_wd_absolute}
use k_os.Vfs.Walk.{joined, IsName, bucket, first, later, Walks, arrived, enters, lookup_loop-Walks}

abbrev a_directory : Inode
a_directory = record { directory = true; mountpoint = false }

abbrev a_file : Inode
a_file = record { directory = false; mountpoint = false }

-- The name `p`, repeated.
abbrev ps : ℕ → List ℕ
ps zero = []
ps (suc n) = b'p' ∷ ps n

-- The entries `/`, `/etc`, `/etc/rc` and `/pppppppppp`.
abbrev entry : ℕ → Dentry
entry d =
    if d == 0
    then record { name = []; parent = none; inode = some a_directory; children = 3 ∷ 1 ∷ [] }
    else if d == 1
    then record {
      name = b'e' ∷ b't' ∷ b'c' ∷ [];
      parent = some 0;
      inode = some a_directory;
      children = 2 ∷ [];
    }
    else if d == 2
    then record { name = b'r' ∷ b'c' ∷ []; parent = some 1; inode = some a_file; children = [] }
    else record { name = ps 10; parent = some 0; inode = some a_file; children = [] }

abbrev tree : Vfs
tree = record {
  dentry = entry;
  mount = λ m. record { parent = none; mountpoint = 0; root = 0 };
  mounted = [];
  root_mount = 0;
  fresh = 4;
}

-- A file system that knows no other names.
abbrev knows_nothing : ℕ → List ℕ → Option Inode
knows_nothing d name = none

abbrev root : VfsPath
root = record { mount = 0; dentry = 0 }

abbrev etc_rc : List (List ℕ)
etc_rc = (b'e' ∷ b't' ∷ b'c' ∷ []) ∷ (b'r' ∷ b'c' ∷ []) ∷ []

etc-IsName : IsName (b'e' ∷ b't' ∷ b'c' ∷ [])
unfolding same_name
etc-IsName = record {
  plain = (omega arith, (omega arith, (omega arith, tt)));
  full = refl;
  no_dot = refl;
  no_dots = refl;
}

rc-IsName : IsName (b'r' ∷ b'c' ∷ [])
unfolding same_name
rc-IsName = record {
  plain = (omega arith, (omega arith, tt));
  full = refl;
  no_dot = refl;
  no_dots = refl;
}

-- The entry before `etc` begins with another byte.
ps_other :
    (more : List ℕ)
    → ps 10 ≡ b'e' ∷ b't' ∷ b'c' ∷ more
    → bucket (ps 10) ≢ bucket (b'e' ∷ b't' ∷ b'c' ∷ [])
ps_other more e = absurd (ground (arith, e))

etc_rc-Walks : Walks tree 0 etc_rc 2
etc_rc-Walks =
    enters a_directory refl refl refl etc-IsName (later ps_other (first refl))
      (enters a_directory refl refl refl rc-IsName (first refl) arrived)

lookup_loop-Walks_example :
    lookup_loop knows_nothing 3 0 tree root (joined etc_rc)
    ≡ some (tree, some (record root { dentry = 2 }))
lookup_loop-Walks_example =
    lookup_loop-Walks knows_nothing 0 tree etc_rc 3 root 2 (omega arith) etc_rc-Walks

vfs_umount-vfs_mount_add_example :
    (v₁ : Vfs) × (v₂ : Vfs) × (vfs_mount_add tree 5 (record root { dentry = 1 }) ≡ some (true, v₁))
    × (get_mount v₁ (record root { dentry = 1 }) ≡ some 5)
    × (vfs_umount v₁ (record root { dentry = 1 }) ≡ some (true, v₂))
    × (v₂.mounted ≡ [])
    × ((d : ℕ) → v₂.dentry d ≡ entry d)
unfolding get_mount find_mount
vfs_umount-vfs_mount_add_example =
    vfs_umount-vfs_mount_add tree 5 (record root { dentry = 1 }) a_directory refl refl refl refl
      (omega arith)

-- The place that a path leads to.
place : Option (Vfs × Option VfsPath) → Option ℕ
place none = none
place (some (v, none)) = none
place (some (v, some p)) = some p.dentry

-- `/pppppppp` is not there, but leads to `/pppppppppp`.
shorter_name : place (vfs_lookup knows_nothing 9 9 tree none (b'/' ∷ ps 8)) ≡ some 3
unfolding place vfs_lookup mnt_root lookup_loop next_segment segment_step child_step cached_child
    same_name hash_32 str_to_key key_from enter_mount
shorter_name = refl

-- `/etc/../etc/./rc`
dotted :
    place (
      vfs_lookup knows_nothing 9 9 tree none (
        b'/' ∷ b'e' ∷ b't' ∷ b'c' ∷ b'/' ∷ b'.' ∷ b'.' ∷ b'/' ∷ b'e' ∷ b't' ∷ b'c' ∷ b'/' ∷ b'.'
        ∷ b'/' ∷ b'r' ∷ b'c' ∷ []))
    ≡ some 2
unfolding place vfs_lookup mnt_root lookup_loop next_segment segment_step go_up leave_roots
    child_step cached_child same_name hash_32 str_to_key key_from enter_mount
dotted = refl

last_of_path : last_segment (b'/' ∷ b'e' ∷ b'/' ∷ b'r' ∷ b'c' ∷ []) ≡ b'r' ∷ b'c' ∷ []
unfolding last_segment last_from
last_of_path = refl

abbrev etc : VfsPath
etc = record { mount = 0; dentry = 1 }

get_path_wd_absolute_example :
    get_path_wd knows_nothing 5 5 tree (some etc) (b'/' ∷ b'r' ∷ b'c' ∷ [])
    ≡ some (tree, some etc, b'r' ∷ b'c' ∷ [])
get_path_wd_absolute_example =
    get_path_wd_absolute knows_nothing 4 5 tree etc (b'r' ∷ b'c' ∷ []) a_directory rc-IsName refl
      refl

-- The parent of the entry 4.
parent_of_new : Option (Vfs × Created) → Option ℕ
parent_of_new none = none
parent_of_new (some (v, c)) = (v.dentry 4).parent

-- `/new`, made from `/etc`, is an entry of `/etc`.
made_elsewhere :
    parent_of_new (
      vfs_create knows_nothing
        (λ d name. some a_file)
        9
        9
        tree
        (some etc)
        (b'/' ∷ b'n' ∷ b'e' ∷ b'w' ∷ []))
    ≡ some 1
unfolding parent_of_new vfs_create create_entry dentry_activate set_dentry get_path_wd last_segment
    last_from vfs_lookup mnt_root lookup_loop next_segment segment_step child_step cached_child
    same_name hash_32 str_to_key key_from enter_mount
made_elsewhere = refl
