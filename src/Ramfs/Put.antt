-- ===== src/Ramfs/Put.antt =====
-- One round of the loop of `record_write` of kernel/src/fs/type/ramfs.c.
use k_os.Base.{
  ℕ, suc, ◌+◌, ◌-◌, ◌*◌, ◌/◌, ◌%◌, ◌≤◌, ◌<◌, ◌^◌, ◌≡◌, refl, ap, ◌∙◌, sym, true, false, some, List,
  [], ◌∷◌, ◌++◌, ltb, leb, ◌==◌, ◌&&◌, if◌then◌else◌, length, length-append, length-set, set, min,
  max, arith, eq_or_ne, le_or_lt, inl, inr, ◌⊎◌, Bool-cases, ◌⊎◌,
}
use k_os.Base.Word.{add32, add32_exact, c_min-min, c_max-max}
use k_os.Ramfs.{Chunk, File, new_chunk, chunk_at, copy_in, chunk_write, or_alloc}
use k_os.Ramfs.Layout.{byte, IsFile, cursor, get_or-set, get_or-append, get_or-past}

-- What writing `n` bytes of `src` from `amt` on at the position `p` makes of the bytes.
abbrev pub written : (ℕ → ℕ) → ℕ → ℕ → ℕ → (ℕ → ℕ) → ℕ → ℕ
written src amt p n old q = if leb p q && ltb q (p + n) then src (amt + (q - p)) else old q

-- The chunks with the one that is written to: it exists, and the bytes are as before.
pub record IsGrown (chunks grown : List Chunk) (i size : ℕ) : Type 0 where
  pub has : i < length grown
  pub count : (length grown ≤ suc i) ⊎ (length grown ≡ length chunks)
  pub same : (j : ℕ) → chunk_at grown j ≡ chunk_at chunks j
  pub enough : size ≤ 1024 * length grown
  pub used : (j : ℕ) → j < length grown → (chunk_at grown j).used ≡ min 1024 (size - 1024 * j)

pub or_alloc-IsGrown :
    (chunks : List Chunk) (size p : ℕ)
    → IsFile chunks size
    → p ≤ size
    → (grown : List Chunk) × (or_alloc chunks (cursor chunks p) ≡ (grown, p / 1024))
      × IsGrown chunks grown (p / 1024) size
unfolding or_alloc
or_alloc-IsGrown chunks size p v inside = elim (Bool-cases (ltb (p / 1024) (length chunks))) [
  | inl here ↦ (
    chunks,
    rw here refl,
    record {
      has = ground arith;
      count = inr refl;
      same = λ j. refl;
      enough = v.enough;
      used = v.used;
    },
  )
  | inr past ↦
      let last : p / 1024 ≡ length chunks = ground (arith, v.enough) in
      let more = length-append chunks (new_chunk ∷ []) in
      (
        chunks ++ (new_chunk ∷ []),
        rw past (ap (λ (i : ℕ). (chunks ++ (new_chunk ∷ []), i)) (sym last)),
        record {
          has = omega arith;
          count = inl (omega arith);
          same = get_or-append chunks;
          enough = omega (arith, v.enough);
          used = λ j l.
              let e = ap (λ (c : Chunk). c.used) (get_or-append chunks j) in
              e ∙ elim (le_or_lt (length chunks) j) [
                | inl out ↦
                    ap (λ (c : Chunk). c.used) (get_or-past chunks j out) ∙ omega (arith, v.enough)
                | inr in_ ↦ v.used j in_
              ];
        },
      )
]

-- One round of the loop: the chunks with `n` bytes written at the position `p` in the chunk `i`.
pub record IsPut (s : File) (src : ℕ → ℕ) (amt n p : ℕ) (chunks : List Chunk) (size : ℕ)
    : Type 0 where
  pub layout : IsFile chunks size
  pub grown : size ≡ max s.size (p + n)
  pub has : p / 1024 < length chunks
  pub bytes : (q : ℕ) → byte chunks q ≡ written src amt p n (byte s.chunks) q

module _ (s : File) (src : ℕ → ℕ) (amt m p : ℕ) (v : IsFile s.chunks s.size) (inside : p ≤ s.size)
    (some_bytes : 0 < m) (fits : p + m < 2 ^ 31) (small : s.size < 2 ^ 31) (grown : List Chunk)
    (g : IsGrown s.chunks grown (p / 1024) s.size) where
  abbrev amount : ℕ
  amount = min (1024 - p % 1024) m

  abbrev pub after : Chunk
  after = record {
    used = max (chunk_at grown (p / 1024)).used (p % 1024 + amount);
    buff = copy_in (chunk_at grown (p / 1024)).buff (p % 1024) (λ j. src (amt + j)) amount;
  }

  pub chunk_write_lem :
      chunk_write (chunk_at grown (p / 1024)) s.size src amt m (p % 1024)
      ≡ some (amount, after, max s.size (p + amount))
  unfolding chunk_write
  chunk_write_lem =
      let had : (chunk_at grown (p / 1024)).used ≡ min 1024 (s.size - 1024 * (p / 1024)) =
        g.used (p / 1024) g.has in
      let low : leb 1024 (p % 1024) ≡ false = ground arith in
      let size : add32 s.size (
            max (chunk_at grown (p / 1024)).used (p % 1024 + amount)
            - (chunk_at grown (p / 1024)).used)
          ≡ max s.size (p + amount) =
        add32_exact s.size _ (omega (arith, had)) ∙ omega (arith, had) in
      rw (chunk_write, low, c_min-min, c_max-max, size) refl

  set-used :
      (j : ℕ)
      → j < length grown
      → (chunk_at (set grown (p / 1024) after) j).used
        ≡ min 1024 (max s.size (p + amount) - 1024 * j)
  set-used j l =
      let had = g.used (p / 1024) g.has in
      let at = ap (λ (c : Chunk). c.used) (get_or-set grown (p / 1024) j after g.has) in
      elim (eq_or_ne j (p / 1024)) [
        | inl e ↦
            let here : (j == p / 1024) ≡ true = ground arith in at ∙ rw here (omega (arith, had))
        | inr ne ↦
            let away : (j == p / 1024) ≡ false = ground arith in
            at ∙ rw away (omega (arith, g.used j l))
      ]

  set-byte :
      (q : ℕ) → byte (set grown (p / 1024) after) q ≡ written src amt p amount (byte s.chunks) q
  unfolding copy_in
  set-byte q =
      let at =
        ap (λ (c : Chunk). c.buff (q % 1024))
          (get_or-set grown (p / 1024) (q / 1024) after g.has) in
      elim (eq_or_ne (q / 1024) (p / 1024)) [
        | inl e ↦
            let here : (q / 1024 == p / 1024) ≡ true = ground arith in
            let old : (chunk_at grown (p / 1024)).buff (q % 1024) ≡ byte s.chunks q =
              ap (λ (c : Chunk). c.buff (q % 1024)) (g.same (p / 1024))
              ∙ ap (λ (i : ℕ). (chunk_at s.chunks i).buff (q % 1024)) (sym e) in
            at ∙ rw here (ground (arith, old))
        | inr ne ↦
            let away : (q / 1024 == p / 1024) ≡ false = ground arith in
            let old : (chunk_at grown (q / 1024)).buff (q % 1024) ≡ byte s.chunks q =
              ap (λ (c : Chunk). c.buff (q % 1024)) (g.same (q / 1024)) in
            at ∙ rw away (old ∙ ground arith)
      ]

  pub set-IsPut : IsPut s src amt amount p (set grown (p / 1024) after) (max s.size (p + amount))
  set-IsPut =
      let had = g.used (p / 1024) g.has in
      let count = length-set grown (p / 1024) after in
      record {
        layout = record {
          enough = omega (arith, g.enough, g.has);
          no_more = omega (arith, g.count, v.no_more);
          used = λ j l. set-used j (omega (arith, l));
        };
        grown = refl;
        has = omega (arith, g.has);
        bytes = set-byte;
      }
