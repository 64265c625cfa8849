-- ===== src/Vfs/Lookup.antt =====
-- The paths of kernel/src/fs/vfs.c: their segments, where they lead, and the entry that is made for one.
use k_os.Base.{
  ℕ, zero, suc, ◌-◌, Bool, false, ◌&&◌, ◌||◌, not, Option, none, some, List, [], ◌∷◌, ◌==◌,
  if◌then◌else◌, length, take,
}
use k_os.Vfs.{
  Inode, Dentry, VfsPath, Vfs, same_name, set_dentry, str_to_key, hash_32, dentry_hash_bits,
  mnt_root, dentry_activate, get_mount,
}

-- `last_segment`: the bytes from the last separator on that has bytes behind it.
unfoldable pub last_from : List ℕ → List ℕ → List ℕ
last_from seg [] = seg
last_from seg (c ∷ []) = seg
last_from seg (c ∷ d ∷ cs) = last_from (if c == b'/' then d ∷ cs else seg) (d ∷ cs)

unfoldable pub last_segment : List ℕ → List ℕ
last_segment path = last_from path path

-- The next segment of a path, and what comes behind its separator, if there is one.
unfoldable pub next_segment : List ℕ → List ℕ × Option (List ℕ)
next_segment [] = ([], none)
next_segment (c ∷ cs) =
    let (seg, rest) = next_segment cs in if c == b'/' then ([], some cs) else (c ∷ seg, rest)

-- `BUG_ON(!(cwd.dentry->inode->flags & INODE_FLAG_MOUNTPOINT))`
unfoldable pub is_mountpoint : Vfs → ℕ → Bool
is_mountpoint v d = elim (v.dentry d).inode [ none ↦ false | some i ↦ i.mountpoint ]

-- The mount roots that `..` leaves; the first argument is fuel, a mount each.
unfoldable pub leave_roots : ℕ → Vfs → VfsPath → Option VfsPath
leave_roots zero v p = none
leave_roots (suc f) v p =
    let up : VfsPath → Option VfsPath = λ q. leave_roots f v q in
    elim (v.dentry p.dentry).parent [
      | some d ↦ some p
      | none ↦ if p.mount == v.root_mount then some p else elim (v.mount p.mount).parent [
        | none ↦ none
        | some m ↦
            if not (is_mountpoint v (v.mount p.mount).mountpoint)
            then none
            else up (record { mount = m; dentry = (v.mount p.mount).mountpoint })
      ]
    ]

-- The segment `..`
unfoldable pub go_up : ℕ → Vfs → VfsPath → Option VfsPath
go_up fuel v p = elim (leave_roots fuel v p) [
  | none ↦ none
  | some q ↦ elim (v.dentry q.dentry).parent [
    | none ↦ some q
    | some d ↦ some (record q { dentry = d })
  ]
]

-- The child that the table has for a segment: in the chain of its key, `memcmp` looks at the bytes of
-- the segment only.
unfoldable pub cached_child : List ℕ → Vfs → List ℕ → Option ℕ
cached_child [] v seg = none
cached_child (d ∷ ds) v seg =
    let rest = cached_child ds v seg in
    let name = (v.dentry d).name in
    if hash_32 (str_to_key name) dentry_hash_bits == hash_32 (str_to_key seg) dentry_hash_bits
      && same_name (take (length seg) name) seg
    then some d
    else rest

-- The step from a directory to what a segment names: the table first, then the file system. No place
-- means that nothing has this name.
unfoldable pub child_step :
    (ℕ → List ℕ → Option Inode) → Vfs → VfsPath → List ℕ → Vfs × Option VfsPath
child_step fs_lookup v p seg = elim (cached_child (v.dentry p.dentry).children v seg) [
  | some d ↦ (v, some (record p { dentry = d }))
  | none ↦ elim (fs_lookup p.dentry seg) [
    | none ↦ (v, none)
    | some i ↦
        let new : Dentry = record { name = seg; parent = none; inode = some i; children = [] } in
        let v' = set_dentry v v.fresh new in
        (record v' { fresh = suc v.fresh }, some (record p { dentry = v.fresh }))
  ]
]

-- A segment: nothing and `.` stay, `..` goes up.
unfoldable pub segment_step :
    (ℕ → List ℕ → Option Inode) → ℕ → Vfs → VfsPath → List ℕ → Option (Vfs × Option VfsPath)
segment_step fs_lookup fuel v p seg =
    if length seg == 0 || same_name seg (b'.' ∷ [])
    then some (v, some p)
    else if same_name seg (b'.' ∷ b'.' ∷ [])
    then elim (go_up fuel v p) [ none ↦ none | some q ↦ some (v, some q) ]
    else some (child_step fs_lookup v p seg)

-- The loop of `vfs_lookup`: a round enters a mount or takes a segment. The first argument is fuel; the
-- second is the fuel of a `..`.
unfoldable pub lookup_loop :
    (ℕ → List ℕ → Option Inode) → ℕ → ℕ → Vfs → VfsPath → List ℕ → Option (Vfs × Option VfsPath)
lookup_loop fs_lookup zero depth v p path = none
lookup_loop fs_lookup (suc f) depth v p [] = some (v, some p)
lookup_loop fs_lookup (suc f) depth v p (c ∷ cs) =
    let again : Vfs → VfsPath → List ℕ → Option (Vfs × Option VfsPath) =
      λ w q rest. lookup_loop fs_lookup f depth w q rest in
    let (seg, rest) = next_segment (c ∷ cs) in
    elim (v.dentry p.dentry).inode [
      | none ↦ none
      | some i ↦
          if not i.directory
          then some (v, none)
          else if i.mountpoint
          then elim (get_mount v p) [ none ↦ none | some m ↦ again v (mnt_root v m) (c ∷ cs) ]
          else elim (segment_step fs_lookup depth v p seg) [
            | none ↦ none
            | some (w, none) ↦ some (w, none)
            | some (w, some q) ↦ elim rest [ none ↦ some (w, some q) | some bs ↦ again w q bs ]
          ]
    ]

-- The end of `vfs_lookup`: a place that is a mountpoint is the root of what is mounted there.
unfoldable pub enter_mount : Vfs → VfsPath → Option VfsPath
enter_mount v p = elim (v.dentry p.dentry).inode [
  | none ↦ none
  | some i ↦
      if i.mountpoint
      then elim (get_mount v p) [ none ↦ none | some m ↦ some (mnt_root v m) ]
      else some p
]

-- `vfs_lookup`; -ENOENT is no place.
unfoldable pub vfs_lookup :
    (ℕ → List ℕ → Option Inode)
    → ℕ
    → ℕ
    → Vfs
    → Option VfsPath
    → List ℕ
    → Option (Vfs × Option VfsPath)
vfs_lookup fs_lookup fuel depth v start path =
    let from_root : List ℕ → Option (Vfs × Option VfsPath) =
      λ bs. lookup_loop fs_lookup fuel depth v (mnt_root v v.root_mount) bs in
    let found : Option (Vfs × Option VfsPath) = elim path [
      | [] ↦ elim start [ none ↦ from_root [] | some p ↦ lookup_loop fs_lookup fuel depth v p [] ]
      | c ∷ cs ↦ if c == b'/' then from_root cs else elim start [
        | none ↦ from_root (c ∷ cs)
        | some p ↦ lookup_loop fs_lookup fuel depth v p (c ∷ cs)
      ]
    ] in
    elim found [
      | none ↦ none
      | some (w, none) ↦ some (w, none)
      | some (w, some p) ↦ elim (enter_mount w p) [ none ↦ none | some q ↦ some (w, some q) ]
    ]

-- `get_path_wd`: the directory that a path names before its last segment, and that segment. Where the
-- last segment is all, the start is the directory; `*start` of no start is `none`.
unfoldable pub get_path_wd :
    (ℕ → List ℕ → Option Inode)
    → ℕ
    → ℕ
    → Vfs
    → Option VfsPath
    → List ℕ
    → Option (Vfs × Option VfsPath × List ℕ)
get_path_wd fs_lookup fuel depth v start path =
    let last = last_segment path in
    if same_name path last
    then elim start [ none ↦ none | some p ↦ some (v, some p, last) ]
    else elim (vfs_lookup fs_lookup fuel depth v start
        (take (length path - length last - 1) path)) [
          | none ↦ none
          | some (w, wd) ↦ some (w, wd, last)
        ]

-- What `vfs_create` returns: 0 or a negative error.
pub data Created : Type 0 where
  made : VfsPath → Created
  exists : VfsPath → Created
  no_entry : Created
  refused : Created

-- The end of `vfs_create`, where nothing has the name: the file system makes an inode or refuses.
unfoldable pub create_entry : (ℕ → List ℕ → Option Inode) → Vfs → VfsPath → List ℕ → Vfs × Created
create_entry fs_create v wd last =
    let d = v.fresh in
    let named =
      record (set_dentry v d (record { name = last; parent = none; inode = none; children = [] })) {
        fresh = suc d;
      } in
    elim (fs_create wd.dentry last) [
      | none ↦ (named, refused)
      | some i ↦ (
        dentry_activate (set_dentry named d (record (named.dentry d) { inode = some i })) d
            wd.dentry,
        made (record wd { dentry = d }),
      )
    ]

-- `vfs_create`
unfoldable pub vfs_create :
    (ℕ → List ℕ → Option Inode)
    → (ℕ → List ℕ → Option Inode)
    → ℕ
    → ℕ
    → Vfs
    → Option VfsPath
    → List ℕ
    → Option (Vfs × Created)
vfs_create fs_lookup fs_create fuel depth v start path =
    elim (get_path_wd fs_lookup fuel depth v start path) [
      | none ↦ none
      | some (w, none, last) ↦ some (w, no_entry)
      | some (w, some wd, last) ↦
          if length path == 0
          then some (w, no_entry)
          else elim (vfs_lookup fs_lookup fuel depth w (some wd) last) [
            | none ↦ none
            | some (u, some f) ↦ some (u, exists f)
            | some (u, none) ↦ some (create_entry fs_create u wd last)
          ]
    ]
