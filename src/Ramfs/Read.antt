-- ===== src/Ramfs/Read.antt =====
-- `record_read` of kernel/src/fs/type/ramfs.c against the bytes of the file.
use k_os.Base.{
  ℕ, zero, suc, ◌+◌, ◌-◌, ◌*◌, ◌/◌, ◌%◌, ◌≤◌, ◌<◌, ◌^◌, ◌≡◌, refl, ap, ap₂, ◌∙◌, sym, true, false,
  Option, none, some, List, ltb, leb, ◌==◌, ◌&&◌, if◌then◌else◌, length, min, arith, le_or_lt, inl,
  inr, ◌⊎◌, Bool-cases, ==_refl, Option-cases,
}
use k_os.Base.Word.{add32, add32_exact, c_min-min}
use k_os.Ramfs.{
  Chunk, File, chunk_at, list_next, private_after, copy_in, chunk_read, read_loop, record_read,
}
use k_os.Ramfs.Layout.{byte, IsFile, cursor, IsOpen, private_after-cursor}

-- Where the file points behind a read of `len` bytes: to the place behind them if there are so many,
-- and to where it pointed before if there are fewer.
abbrev pub pointer : File → ℕ → ℕ → Option ℕ
pointer s off len = if leb (off + len) s.size then cursor s.chunks (off + len) else s.private

-- The outcome of a read with the first `amt` bytes in `dst` already.
abbrev Fills : Option (ℕ × (ℕ → ℕ) × Option ℕ) → File → (ℕ → ℕ) → ℕ → ℕ → ℕ → Type 0
Fills out s dst len off amt =
    (dst' : ℕ → ℕ) × (out ≡ some (min len (s.size - off), dst', pointer s off len))
    × ((j : ℕ)
        → dst' j ≡ (
            if leb amt j && ltb j (min len (s.size - off)) then byte s.chunks (off + j) else dst j))

module _ (s : File) (dst : ℕ → ℕ) (len off amt : ℕ) (v : IsFile s.chunks s.size)
    (here : (off + amt) / 1024 < length s.chunks) (inside : off + amt ≤ s.size) (more : amt < len)
    (fits : off + len < 2 ^ 31) where
  abbrev in_chunk : ℕ
  in_chunk = min (min 1024 (s.size - 1024 * ((off + amt) / 1024)) - (off + amt) % 1024) (len - amt)

  abbrev got : ℕ → ℕ
  got =
      copy_in dst amt (λ j. (chunk_at s.chunks ((off + amt) / 1024)).buff ((off + amt) % 1024 + j))
        in_chunk

  chunk_read_lem :
      chunk_read (chunk_at s.chunks ((off + amt) / 1024)) dst amt (len - amt) (add32 off amt % 1024)
      ≡ some (in_chunk, got)
  unfolding chunk_read
  chunk_read_lem =
      let had = v.used ((off + amt) / 1024) here in
      let ok : ltb (min 1024 (s.size - 1024 * ((off + amt) / 1024))) ((off + amt) % 1024) ≡ false =
        ground arith in
      rw (add32_exact off amt (omega arith), chunk_read, had, ok, c_min-min) refl

  got-byte :
      (j : ℕ)
      → got j ≡ (if leb amt j && ltb j (amt + in_chunk) then byte s.chunks (off + j) else dst j)
  unfolding copy_in
  got-byte j = elim (Bool-cases (leb amt j && ltb j (amt + in_chunk))) [
    | inl hit ↦
        let at : (off + j) / 1024 ≡ (off + amt) / 1024 = ground arith in
        let at' : (off + j) % 1024 ≡ (off + amt) % 1024 + (j - amt) = ground arith in
        rw hit (ap₂ (λ (i o : ℕ). (chunk_at s.chunks i).buff o) (sym at) (sym at'))
    | inr miss ↦ rw miss refl
  ]

  read_loop_all :
      (f : ℕ)
      → len ≡ amt + in_chunk
      → read_loop (suc f) s ((off + amt) / 1024) dst len off amt
        ≡ some (len, got, private_after s.chunks ((off + amt) / 1024) (off + len))
  unfolding read_loop
  read_loop_all f all =
      rw (read_loop, chunk_read_lem, ← all, ==_refl len, add32_exact off len (omega arith)) refl

  read_loop_short :
      (f : ℕ)
      → amt + in_chunk < len
      → list_next s.chunks ((off + amt) / 1024) ≡ none
      → read_loop (suc f) s ((off + amt) / 1024) dst len off amt
        ≡ some (amt + in_chunk, got, s.private)
  unfolding read_loop
  read_loop_short f short e =
      let no : (len == amt + in_chunk) ≡ false = ground arith in
      rw (read_loop, chunk_read_lem, no, e) refl

  read_loop_next :
      (f c' : ℕ)
      → amt + in_chunk < len
      → list_next s.chunks ((off + amt) / 1024) ≡ some c'
      → read_loop (suc f) s ((off + amt) / 1024) dst len off amt
        ≡ read_loop f s c' got len off (amt + in_chunk)
  unfolding read_loop
  read_loop_next f c' short e =
      let no : (len == amt + in_chunk) ≡ false = ground arith in
      rw (read_loop, chunk_read_lem, no, e) refl

list_next-none : (cs : List Chunk) (i : ℕ) → list_next cs i ≡ none → length cs ≤ i + 1
unfolding list_next
list_next-none cs i e = ground (arith, e)

list_next-some :
    (cs : List Chunk) (i c : ℕ) → list_next cs i ≡ some c → (c ≡ i + 1) × (c < length cs)
unfolding list_next
list_next-some cs i c e = ground (arith, e)

fill-fill :
    (amt n total j x y z w : ℕ)
    → amt + n ≤ total
    → w ≡ (if leb (amt + n) j && ltb j total then x else y)
    → y ≡ (if leb amt j && ltb j (amt + n) then x else z)
    → w ≡ (if leb amt j && ltb j total then x else z)
fill-fill amt n total j x y z w h e e' = ground arith

read_loop-Fills :
    (f : ℕ) (s : File) (c : ℕ) (dst : ℕ → ℕ) (len off amt : ℕ)
    → IsFile s.chunks s.size
    → c ≡ (off + amt) / 1024
    → c < length s.chunks
    → off + amt ≤ s.size
    → amt < len
    → off + len < 2 ^ 31
    → length s.chunks ≤ c + f
    → Fills (read_loop f s c dst len off amt) s dst len off amt
read_loop-Fills zero s c dst len off amt v at here inside more fits fuel = absurd (omega arith)
read_loop-Fills (suc f) s c dst len off amt v at here inside more fits fuel =
    let here' : (off + amt) / 1024 < length s.chunks = omega arith in
    let n : ℕ = in_chunk s dst len off amt v here' inside more fits in
    rw at (elim (le_or_lt len (amt + n)) [
      | inl done ↦
          let all : len ≡ amt + n = omega arith in
          let whole : min len (s.size - off) ≡ len = omega arith in
          let fitting : leb (off + len) s.size ≡ true = ground arith in
          let p =
            private_after-cursor s.chunks ((off + amt) / 1024) (off + len) here' (omega arith)
              (omega arith) in
          (
            got s dst len off amt v here' inside more fits,
            read_loop_all s dst len off amt v here' inside more fits f all
                ∙ rw (whole, fitting, p) refl,
            λ j. got-byte s dst len off amt v here' inside more fits j ∙ rw whole (rw (← all) refl),
          )
      | inr short ↦ elim (Option-cases (list_next s.chunks ((off + amt) / 1024))) [
        | inl last ↦
            let bound = list_next-none s.chunks ((off + amt) / 1024) last in
            let part : min len (s.size - off) ≡ amt + n = omega (arith, v.enough) in
            let missing : leb (off + len) s.size ≡ false = ground (arith, v.enough) in
            (
              got s dst len off amt v here' inside more fits,
              read_loop_short s dst len off amt v here' inside more fits f short last
                  ∙ rw (part, missing) refl,
              λ j. got-byte s dst len off amt v here' inside more fits j ∙ rw part refl,
            )
        | inr (c', next) ↦
            let (next_at, next_in) = list_next-some s.chunks ((off + amt) / 1024) c' next in
            let (dst', out, bytes) =
              read_loop-Fills f s c' (got s dst len off amt v here' inside more fits) len off
                (amt + n) v (omega (arith, v.no_more)) next_in (omega (arith, v.no_more)) short fits
                (omega arith) in
            (
              dst',
              read_loop_next s dst len off amt v here' inside more fits f c' short next ∙ out,
              λ j.
                  fill-fill amt n (min len (s.size - off)) j (byte s.chunks (off + j))
                    (got s dst len off amt v here' inside more fits j) (dst j) (dst' j)
                    (omega (arith, v.no_more)) (bytes j)
                    (got-byte s dst len off amt v here' inside more fits j),
            )
      ]
    ])

-- A read that finds nothing leaves the file as it was.
idle :
    (s : File) (len : ℕ)
    → IsOpen s
    → min len (s.size - s.offset) ≡ 0
    → s ≡ record s {
      private = pointer s s.offset len;
      offset = s.offset + min len (s.size - s.offset);
    }
idle s len v none_read = ap₂ (λ p o. record s { private = p; offset = o }) same (omega arith)
  where
    same : s.private ≡ pointer s s.offset len
    same = elim (Bool-cases (leb (s.offset + len) s.size)) [
      | inl fits ↦ let nothing : s.offset + len ≡ s.offset = ground arith in rw (fits, nothing) v.at
      | inr missing ↦ rw missing refl
    ]

record_read_nothing :
    (fuel : ℕ) (s : File) (dst : ℕ → ℕ) (len : ℕ)
    → (s.private ≡ none) ⊎ (len ≡ 0)
    → record_read fuel s dst len ≡ some (0, dst, s)
unfolding record_read
record_read_nothing fuel s dst len (inl e) =
    rw (record_read, e) (ap (λ p. some (0, dst, record s { private = p })) e)
record_read_nothing fuel s dst len (inr e) = elim (Option-cases s.private) [
  | inl e' ↦ rw (record_read, e') (ap (λ p. some (0, dst, record s { private = p })) e')
  | inr (c, e') ↦ rw (record_read, e', e) (ap (λ p. some (0, dst, record s { private = p })) e')
]

record_read_loop :
    (fuel : ℕ) (s : File) (dst : ℕ → ℕ) (len c n : ℕ) (dst' : ℕ → ℕ) (p : Option ℕ)
    → s.private ≡ some c
    → 0 < len
    → read_loop fuel s c dst len s.offset 0 ≡ some (n, dst', p)
    → record_read fuel s dst len
      ≡ some (n, dst', record s { private = p; offset = add32 s.offset n })
unfolding record_read
record_read_loop fuel s dst len c n dst' p e some_bytes out =
    let no : (len == 0) ≡ false = ground arith in rw (record_read, e, no, out) refl

-- `record_read` at the offset of an open file fills the buffer with the bytes from there on, `len` of
-- them or as many as there are, touches nothing behind them in the buffer, and raises the offset by
-- their number. If there are `len` of them the file is open behind them; if there are fewer, its
-- pointer stays where it was. As many rounds of fuel as the file has chunks are enough, and the
-- offset may not grow to 2 ^ 31.
pub record_read-Fills :
    (fuel : ℕ) (s : File) (dst : ℕ → ℕ) (len : ℕ)
    → IsOpen s
    → length s.chunks ≤ fuel
    → s.offset + len < 2 ^ 31
    → (dst' : ℕ → ℕ) × (record_read fuel s dst len
        ≡ some (
          min len (s.size - s.offset),
          dst',
          record s {
            private = pointer s s.offset len;
            offset = s.offset + min len (s.size - s.offset);
          },
        ))
      × ((j : ℕ)
          → dst' j
            ≡ (if ltb j (min len (s.size - s.offset)) then byte s.chunks (s.offset + j) else dst j))
record_read-Fills fuel s dst len v enough fits =
    elim (Bool-cases (ltb (s.offset / 1024) (length s.chunks) && ltb 0 len)) [
      | inr nothing ↦
          let no_bytes : min len (s.size - s.offset) ≡ 0 =
            ground (arith, v.layout.enough, v.inside) in
          let no_chunk : (s.private ≡ none) ⊎ (len ≡ 0) = ground (arith, v.at) in
          (
            dst,
            record_read_nothing fuel s dst len no_chunk
                ∙ ap₂ (λ (n : ℕ) (t : File). some (n, dst, t)) (sym no_bytes)
                    (idle s len v no_bytes),
            λ j. rw no_bytes (ground arith),
          )
      | inl here ↦
          let at : s.private ≡ some (s.offset / 1024) = v.at ∙ ground arith in
          let (dst', out, bytes) =
            read_loop-Fills fuel s (s.offset / 1024) dst len s.offset 0 v.layout (omega arith)
              (ground arith) (omega (arith, v.inside)) (ground arith) fits (omega arith) in
          (
            dst',
            record_read_loop fuel s dst len (s.offset / 1024) _ dst' _ at (ground arith) out
                ∙ ap
                    (λ (o : ℕ). some (
                      min len (s.size - s.offset),
                      dst',
                      record s { private = pointer s s.offset len; offset = o },
                    ))
                    (add32_exact s.offset (min len (s.size - s.offset)) (omega arith)),
            λ j. bytes j ∙ ground arith,
          )
    ]
