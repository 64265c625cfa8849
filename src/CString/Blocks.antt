-- ===== src/CString/Blocks.antt =====
-- The block operations of kernel/src/lib/string.c: `memset`, `memcpy` and `memmove`, each against
-- the memory that it should leave.
use k_os.Base.{lt→ltb, le→leb}
use k_os.Base.Memory.{bytes, bytes_ext}
use mathlib.Core.Path.{ap}
use k_os.Base.{
  ℕ, zero, suc, ◌+◌, ◌-◌, ◌%◌, ◌^◌, ◌≤◌, ◌≡◌, ◌⊎◌, inl, inr, Bool, ◌&&◌, ◌∙◌, arith, ltb, leb,
  if◌then◌else◌, Bool-cases,
}
use k_os.Base.Memory.{Memory, store}
use k_os.CString.{memset_loop, memset, memcpy_loop, memcpy, memmove_down, memmove}

-- Whether `a` lies in `[p, p + n)`.
abbrev pub inside : ℕ → ℕ → ℕ → Bool
inside p n a = leb p a && ltb a (p + n)

-- The memory with the block `[s, s + n)` of `m` at `d`.
abbrev pub copied : ℕ → ℕ → ℕ → Memory → Memory
copied d s n m a = if inside d n a then m (s + (a - d)) else m a

memset_loop_lem :
    (left i p c : ℕ) (m : Memory) (a : ℕ)
    → memset_loop left i p c m a ≡ (if inside (p + i) left a then c % 2 ^ 8 else m a)
unfolding memset_loop
memset_loop_lem zero i p c m a = ground arith
memset_loop_lem (suc left) i p c m a =
    memset_loop_lem left (suc i) p c (store m (p + i) (c % 2 ^ 8)) a ∙ ground arith

-- `memset` sets the bytes of `[p, p + n)` to `c` modulo 256 and no others.
pub memset_lem :
    (p c n : ℕ) (m : Memory) (a : ℕ) → memset p c n m a ≡ (if inside p n a then c % 2 ^ 8 else m a)
unfolding memset
memset_lem p c n m a = memset_loop_lem n 0 p c m a ∙ ground arith

-- Upwards: what is read is not yet written over, if the target lies below or apart.
memcpy_loop_lem :
    (left i d s : ℕ) (m : Memory) (a : ℕ)
    → (d ≤ s) ⊎ (s + i + left ≤ d)
    → memcpy_loop left i d s m a ≡ copied (d + i) (s + i) left m a
unfolding memcpy_loop
memcpy_loop_lem zero i d s m a h = ground arith
memcpy_loop_lem (suc left) i d s m a h =
    memcpy_loop_lem left (suc i) d s (store m (d + i) (m (s + i))) a (omega arith) ∙ step
  where
    step :
        copied (d + suc i) (s + suc i) left (store m (d + i) (m (s + i))) a
        ≡ copied (d + i) (s + i) (suc left) m a
    step = ground arith

-- `memcpy` copies a block to a target that lies below its source or apart from it, and changes
-- no other byte.
pub memcpy_lem :
    (d s n : ℕ) (m : Memory) (a : ℕ) → (d ≤ s) ⊎ (s + n ≤ d) → memcpy d s n m a ≡ copied d s n m a
unfolding memcpy
memcpy_lem d s n m a h = memcpy_loop_lem n 0 d s m a (omega arith) ∙ ground arith

memmove_down_lem :
    (n d s : ℕ) (m : Memory) (a : ℕ) → s ≤ d → memmove_down n d s m a ≡ copied d s n m a
unfolding memmove_down
memmove_down_lem zero d s m a h = ground arith
memmove_down_lem (suc i) d s m a h =
    memmove_down_lem i d s (store m (d + i) (m (s + i))) a h ∙ ground arith

-- `memmove` copies a block to any target, overlapping or not, and changes no other byte.
pub memmove_lem : (d s n : ℕ) (m : Memory) (a : ℕ) → memmove d s n m a ≡ copied d s n m a
unfolding memmove
memmove_lem d s n m a = elim (Bool-cases (ltb d s)) [
  | inl below ↦ rw below (memcpy_loop_lem n 0 d s m a (inl (ground arith)) ∙ ground arith)
  | inr above ↦ rw above (memmove_down_lem n d s m a (ground arith))
]

-- The target of `memcpy` holds the source's bytes.
pub bytes-memcpy :
    (d s n : ℕ) (m : Memory) → (d ≤ s) ⊎ (s + n ≤ d) → bytes (memcpy d s n m) d n ≡ bytes m s n
bytes-memcpy d s n m h = bytes_ext (memcpy d s n m) m d s n (λ i l.
    memcpy_lem d s n m (d + i) h
    ∙ rw (lt→ltb (d + i) (d + n) (omega arith), le→leb d (d + i) (omega arith))
        (ap m (omega arith)))

-- A block apart from the target of `memcpy` is left as it was.
pub bytes-memcpy_apart :
    (d s n : ℕ) (m : Memory) (q k : ℕ)
    → (d ≤ s) ⊎ (s + n ≤ d)
    → (q + k ≤ d) ⊎ (d + n ≤ q)
    → bytes (memcpy d s n m) q k ≡ bytes m q k
bytes-memcpy_apart d s n m q k h apart =
    bytes_ext (memcpy d s n m) m q q k (λ i l. memcpy_lem d s n m (q + i) h ∙ ground arith)
