-- ===== src/Ramfs/Layout.antt =====
-- How the bytes of a file of kernel/src/fs/type/ramfs.c lie in its chunks.
use k_os.Base.{
  ℕ, zero, suc, ◌+◌, ◌-◌, ◌*◌, ◌/◌, ◌%◌, ◌≤◌, ◌<◌, ◌≡◌, refl, ◌∙◌, Option, none, some, List, [],
  ◌∷◌, ◌++◌, ltb, ◌==◌, if◌then◌else◌, length, set, min, arith,
}
use k_os.Ramfs.{Chunk, File, new_chunk, chunk_at, list_next, private_after}

-- The byte at a position of the file.
abbrev pub byte : List Chunk → ℕ → ℕ
byte chunks p = (chunk_at chunks (p / 1024)).buff (p % 1024)

-- All chunks but the last are full, and the last one is not empty.
pub record IsFile (chunks : List Chunk) (size : ℕ) : Type 0 where
  pub enough : size ≤ 1024 * length chunks
  pub no_more : 1024 * length chunks < size + 1024
  pub used : (i : ℕ) → i < length chunks → (chunk_at chunks i).used ≡ min 1024 (size - 1024 * i)

-- The chunk that a file at the position `p` points to.
abbrev pub cursor : List Chunk → ℕ → Option ℕ
cursor chunks p = if ltb (p / 1024) (length chunks) then some (p / 1024) else none

-- The file's bytes are well laid out, and its pointer fits its offset.
pub record IsOpen (s : File) : Type 0 where
  pub layout : IsFile s.chunks s.size
  pub at : s.private ≡ cursor s.chunks s.offset
  pub inside : s.offset ≤ s.size

pub get_or-set :
    (cs : List Chunk) (i j : ℕ) (c : Chunk)
    → i < length cs
    → chunk_at (set cs i c) j ≡ (if j == i then c else chunk_at cs j)
get_or-set [] i j c h = absurd (omega arith)
get_or-set (x ∷ cs) zero zero c h = refl
get_or-set (x ∷ cs) zero (suc j) c h = ground arith
get_or-set (x ∷ cs) (suc i) zero c h = ground arith
get_or-set (x ∷ cs) (suc i) (suc j) c h = get_or-set cs i j c (omega arith) ∙ ground arith

pub get_or-append : (cs : List Chunk) (j : ℕ) → chunk_at (cs ++ (new_chunk ∷ [])) j ≡ chunk_at cs j
get_or-append [] zero = refl
get_or-append [] (suc j) = refl
get_or-append (x ∷ cs) zero = refl
get_or-append (x ∷ cs) (suc j) = get_or-append cs j

pub get_or-past : (cs : List Chunk) (j : ℕ) → length cs ≤ j → chunk_at cs j ≡ new_chunk
get_or-past [] j h = refl
get_or-past (x ∷ cs) zero h = absurd (omega arith)
get_or-past (x ∷ cs) (suc j) h = get_or-past cs j (omega arith)

-- Where the chunk's end is not reached, the pointer behind a transfer is the chunk's own.
pub private_after-cursor :
    (cs : List Chunk) (i p : ℕ)
    → i < length cs
    → 1024 * i < p
    → p ≤ 1024 * i + 1024
    → private_after cs i p ≡ cursor cs p
unfolding private_after list_next
private_after-cursor cs i p h low high = ground arith

pub list_next-cursor :
    (cs : List Chunk) (i p : ℕ) → p ≡ 1024 * i + 1024 → list_next cs i ≡ cursor cs p
unfolding list_next
list_next-cursor cs i p e = ground arith
