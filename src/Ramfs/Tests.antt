-- ===== src/Ramfs/Tests.antt =====
-- A file of 1500 bytes in two chunks, for kernel/src/fs/type/ramfs.c.
use k_os.Base.{
  ℕ, ◌+◌, ◌-◌, ◌*◌, ◌≤◌, ◌<◌, ◌≡◌, refl, some, [], ◌∷◌, ltb, if◌then◌else◌, min, max, arith, zero,
  suc,
}
use k_os.Ramfs.{Chunk, File, chunk_at, record_read, record_write}
use k_os.Ramfs.Layout.{byte, cursor, IsOpen}
use k_os.Ramfs.Put.{written}
use k_os.Ramfs.Write.{record_write-IsStored}
use k_os.Ramfs.Read.{pointer, record_read-Fills}

abbrev chunk : ℕ → Chunk
chunk used = record { used = used; buff = λ j. j }

abbrev file : ℕ → File
file offset = record {
  private = cursor (chunk 1024 ∷ chunk 476 ∷ []) offset;
  offset = offset;
  size = 1500;
  chunks = chunk 1024 ∷ chunk 476 ∷ [];
}

file-used :
    (i : ℕ) → i < 2 → (chunk_at (chunk 1024 ∷ chunk 476 ∷ []) i).used ≡ min 1024 (1500 - 1024 * i)
file-used zero l = refl
file-used (suc zero) l = refl
file-used (suc (suc i)) l = absurd (omega arith)

file-IsOpen : (offset : ℕ) → offset ≤ 1500 → IsOpen (file offset)
file-IsOpen offset h = record {
  layout = record { enough = omega arith; no_more = omega arith; used = file-used };
  at = refl;
  inside = h;
}

abbrev src : ℕ → ℕ
src j = j + 7

record_write_example :
    (s' : File) × (record_write 2000 (file 1400) src 2000 ≡ some (2000, s'))
    × IsOpen s'
    × (s'.size ≡ max 1500 3400)
    × (s'.offset ≡ 3400)
    × ((q : ℕ) → byte s'.chunks q ≡ written src 0 1400 2000 (byte (file 1400).chunks) q)
record_write_example =
    record_write-IsStored 2000 (file 1400) src 2000 (file-IsOpen 1400 (omega arith)) (omega arith)
      (omega arith) (omega arith)

-- A read of 600 bytes of which there are only 100.
record_read_example :
    (dst' : ℕ → ℕ) × (record_read 2 (file 1400) src 600
      ≡ some
          (100, dst', record (file 1400) { private = pointer (file 1400) 1400 600; offset = 1500 }))
    × ((j : ℕ) → dst' j ≡ (if ltb j 100 then byte (file 1400).chunks (1400 + j) else src j))
record_read_example =
    record_read-Fills 2 (file 1400) src 600 (file-IsOpen 1400 (omega arith)) (omega arith)
      (omega arith)
