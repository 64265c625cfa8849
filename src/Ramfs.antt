-- ===== src/Ramfs.antt =====
-- kernel/src/fs/type/ramfs.c: files as lists of chunks of 1024 bytes. The list of a record's chunks
-- is a sequence, and a pointer to one of them is its index, `none` for NULL. Buffers are functions
-- from offsets to bytes; a failed BUG_ON and the panics are `none`. Loops take fuel.
pub mod Layout
pub mod Put
pub mod Write
pub mod Read
mod Tests
use k_os.Base.{
  ℕ, zero, suc, ◌+◌, ◌-◌, ◌%◌, ◌≤◌, ◌<◌, Option, none, some, List, [], ◌∷◌, ◌++◌, Bool, ltb, leb,
  ◌==◌, ◌&&◌, if◌then◌else◌, length, get_or, set,
}
use k_os.Base.Word.{add32, sub32, c_min, c_max}

-- `CHUNK_SIZE`
abbrev pub chunk_size : ℕ
chunk_size = 1024

-- `chunk_t`
pub record Chunk : Type 0 where
  pub used : ℕ
  pub buff : ℕ → ℕ

-- The fields of `file_t` that this file system changes, the size of the inode and the record.
pub record File : Type 0 where
  pub private : Option ℕ
  pub offset : ℕ
  pub size : ℕ
  pub chunks : List Chunk

-- `memcpy(buff + off, src, len)` on a buffer of its own.
unfoldable pub copy_in : (ℕ → ℕ) → ℕ → (ℕ → ℕ) → ℕ → ℕ → ℕ
copy_in buff off src len j = if leb off j && ltb j (off + len) then src (j - off) else buff j

-- A chunk as `chunk_alloc` leaves it, and the one read where there is none. `chunk_alloc` leaves the
-- bytes of the cache in the buffer; here they are zeros, and a read ends at `used`.
abbrev pub new_chunk : Chunk
new_chunk = record { used = 0; buff = λ j. 0 }

-- The chunk at an index.
abbrev pub chunk_at : List Chunk → ℕ → Chunk
chunk_at chunks c = get_or chunks c new_chunk

-- `list_next(c, &r->chunks, list)`
unfoldable pub list_next : List Chunk → ℕ → Option ℕ
list_next chunks c = if ltb (c + 1) (length chunks) then some (c + 1) else none

-- `chunk_read`: the number of bytes, and where they go.
unfoldable pub chunk_read : Chunk → (ℕ → ℕ) → ℕ → ℕ → ℕ → Option (ℕ × (ℕ → ℕ))
chunk_read c buff amt len off =
    if ltb c.used off
    then none
    else let n = c_min (c.used - off) len in some (n, copy_in buff amt (λ j. c.buff (off + j)) n)

-- `chunk_write`: the number of bytes, the chunk and the size of the record.
unfoldable pub chunk_write : Chunk → ℕ → (ℕ → ℕ) → ℕ → ℕ → ℕ → Option (ℕ × Chunk × ℕ)
chunk_write c record_size src amt len off =
    if leb chunk_size off
    then none
    else let n = c_min (chunk_size - off) len in
      let used = c_max c.used (off + n) in
      some (
        n,
        record { used = used; buff = copy_in c.buff off (λ j. src (amt + j)) n },
        add32 record_size (used - c.used),
      )

-- `file->private` behind a transfer that ends at `pos` in the chunk `c`.
unfoldable pub private_after : List Chunk → ℕ → ℕ → Option ℕ
private_after chunks c pos = if pos % chunk_size == 0 then list_next chunks c else some c

-- `if(!c) c = chunk_alloc(r)`: the chunks and the index.
unfoldable pub or_alloc : List Chunk → Option ℕ → List Chunk × ℕ
or_alloc chunks (some c) = (chunks, c)
or_alloc chunks none = (chunks ++ (new_chunk ∷ []), length chunks)

-- `chunk_write` at the chunk `i`: the number of bytes, the index and the file.
unfoldable pub put_at : File → (ℕ → ℕ) → ℕ → ℕ → ℕ → List Chunk × ℕ → Option (ℕ × ℕ × File)
put_at s src len off amt (chunks, i) =
    elim (chunk_write (chunk_at chunks i) s.size src amt (len - amt) (add32 off amt % chunk_size)) [
      | none ↦ none
      | some (n, ch, size) ↦ some (n, i, record s { chunks = set chunks i ch; size = size })
    ]

-- The loop of `record_write`, with `amt` of `len` bytes done.
unfoldable pub write_loop : ℕ → File → Option ℕ → (ℕ → ℕ) → ℕ → ℕ → ℕ → Option File
write_loop zero s c src len off amt = none
write_loop (suc f) s c src len off amt = elim (put_at s src len off amt (or_alloc s.chunks c)) [
  | none ↦ none
  | some (n, i, s') ↦
      if len == amt + n
      then some (record s' { private = private_after s'.chunks i (add32 off (amt + n)) })
      else write_loop f s' (list_next s'.chunks i) src len off (amt + n)
]

-- `record_write`: what it returns, and the file.
unfoldable pub record_write : ℕ → File → (ℕ → ℕ) → ℕ → Option (ℕ × File)
record_write fuel s src len =
    if len == 0 then some (0, s) else elim (write_loop fuel s s.private src len s.offset 0) [
      | none ↦ none
      | some s' ↦ some (len, record s' { offset = add32 s'.offset len })
    ]

-- The loop of `record_read`, at the chunk `c`, with `amt` of `len` bytes done. `list_is_last` of
-- kernel/inc/common/list.h is true of the list's head only, so never of a chunk.
unfoldable pub read_loop : ℕ → File → ℕ → (ℕ → ℕ) → ℕ → ℕ → ℕ → Option (ℕ × (ℕ → ℕ) × Option ℕ)
read_loop zero s c dst len off amt = none
read_loop (suc f) s c dst len off amt =
    elim (chunk_read (chunk_at s.chunks c) dst amt (len - amt) (add32 off amt % chunk_size)) [
      | none ↦ none
      | some (n, dst') ↦
          if len == amt + n
          then some (amt + n, dst', private_after s.chunks c (add32 off (amt + n)))
          else elim (list_next s.chunks c) [
            | none ↦ some (amt + n, dst', s.private)
            | some c' ↦ read_loop f s c' dst' len off (amt + n)
          ]
    ]

-- `record_read`: what it returns, the buffer and the file.
unfoldable pub record_read : ℕ → File → (ℕ → ℕ) → ℕ → Option (ℕ × (ℕ → ℕ) × File)
record_read fuel s dst len = elim s.private [
  | none ↦ some (0, dst, s)
  | some c ↦ if len == 0 then some (0, dst, s) else elim (read_loop fuel s c dst len s.offset 0) [
    | none ↦ none
    | some (amt, dst', p) ↦ some (amt, dst', record s { private = p; offset = add32 s.offset amt })
  ]
]

-- `ramfs_file_open` of a file that is not a directory.
unfoldable pub ramfs_file_open : File → File
ramfs_file_open s = record s { private = elim s.chunks [ [] ↦ none | c ∷ cs ↦ some 0 ] }

-- The loop of `ramfs_file_seek`, at the chunk `i` and the position `pos`.
unfoldable pub seek_loop : List Chunk → ℕ → ℕ → ℕ → Option ℕ
seek_loop [] i pos offset = none
seek_loop (c ∷ cs) i pos offset =
    if ltb (sub32 offset pos) chunk_size
    then (if ltb c.used (sub32 offset pos) then none else some i)
    else seek_loop cs (i + 1) (add32 pos chunk_size) offset

-- `ramfs_file_seek` with SEEK_SET
unfoldable pub ramfs_file_seek : File → ℕ → Option File
ramfs_file_seek s offset = elim (seek_loop s.chunks 0 0 offset) [
  | none ↦ none
  | some i ↦ some (record s { private = some i; offset = offset })
]
