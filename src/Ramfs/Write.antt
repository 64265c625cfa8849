-- ===== src/Ramfs/Write.antt =====
-- `record_write` of kernel/src/fs/type/ramfs.c against the bytes of the file.
use k_os.Base.{
  ℕ, zero, suc, ◌+◌, ◌-◌, ◌/◌, ◌%◌, ◌≤◌, ◌<◌, ◌^◌, ◌≡◌, refl, ap, ◌∙◌, sym, false, Option, some,
  List, ◌==◌, set, min, max, arith, le_or_lt, inl, inr, ==_refl,
}
use k_os.Base.Word.{add32, add32_exact}
use k_os.Ramfs.{
  Chunk, File, chunk_at, list_next, private_after, chunk_write, or_alloc, put_at, write_loop,
  record_write,
}
use k_os.Ramfs.Layout.{byte, IsFile, cursor, IsOpen, private_after-cursor, list_next-cursor}
use k_os.Ramfs.Put.{written, or_alloc-IsGrown, after, chunk_write_lem, set-IsPut}

-- `src`'s bytes from `amt` to `len` are in the file, from `off + amt` on.
pub record IsStored (out : Option File) (s : File) (src : ℕ → ℕ) (amt len off : ℕ) : Type 0 where
  pub s' : File
  pub returns : out ≡ some s'
  pub layout : IsFile s'.chunks s'.size
  pub size : s'.size ≡ max s.size (off + len)
  pub at : s'.private ≡ cursor s'.chunks (off + len)
  pub same_offset : s'.offset ≡ s.offset
  pub bytes : (q : ℕ) → byte s'.chunks q ≡ written src amt (off + amt) (len - amt) (byte s.chunks) q

put_at_lem :
    (s : File) (src : ℕ → ℕ) (len off amt n i : ℕ) (grown : List Chunk) (ch : Chunk) (size : ℕ)
    → off + amt < 2 ^ 32
    → chunk_write (chunk_at grown i) s.size src amt (len - amt) ((off + amt) % 1024)
      ≡ some (n, ch, size)
    → put_at s src len off amt (grown, i)
      ≡ some (n, i, record s { chunks = set grown i ch; size = size })
unfolding put_at
put_at_lem s src len off amt n i grown ch size small e =
    rw (put_at, add32_exact off amt small, e) refl

write_loop_more :
    (f : ℕ) (s s' : File) (c : Option ℕ) (src : ℕ → ℕ) (len off amt n i : ℕ)
    → put_at s src len off amt (or_alloc s.chunks c) ≡ some (n, i, s')
    → amt + n < len
    → write_loop (suc f) s c src len off amt
      ≡ write_loop f s' (list_next s'.chunks i) src len off (amt + n)
unfolding write_loop
write_loop_more f s s' c src len off amt n i e more =
    let again : (len == amt + n) ≡ false = ground arith in rw (write_loop, e, again) refl

write_loop_last :
    (f : ℕ) (s s' : File) (c : Option ℕ) (src : ℕ → ℕ) (len off amt n i : ℕ)
    → put_at s src len off amt (or_alloc s.chunks c) ≡ some (n, i, s')
    → len ≡ amt + n
    → off + len < 2 ^ 32
    → write_loop (suc f) s c src len off amt
      ≡ some (record s' { private = private_after s'.chunks i (off + len) })
unfolding write_loop
write_loop_last f s s' c src len off amt n i e all fits =
    rw (write_loop, e, ← all, ==_refl len, add32_exact off len fits) refl

written-written :
    (src : ℕ → ℕ) (amt p n m k p' : ℕ) (old mid : ℕ → ℕ) (q : ℕ)
    → p' ≡ p + n
    → k ≡ n + m
    → mid q ≡ written src amt p n old q
    → written src (amt + n) p' m mid q ≡ written src amt p k old q
written-written src amt p n m k p' old mid q e e' h = ground arith

write_loop-IsStored :
    (f : ℕ) (s : File) (c : Option ℕ) (src : ℕ → ℕ) (len off amt : ℕ)
    → IsFile s.chunks s.size
    → c ≡ cursor s.chunks (off + amt)
    → off + amt ≤ s.size
    → amt < len
    → off + len < 2 ^ 31
    → s.size < 2 ^ 31
    → len ≤ amt + f
    → IsStored (write_loop f s c src len off amt) s src amt len off
write_loop-IsStored zero s c src len off amt v at inside more fits small fuel = absurd (omega arith)
write_loop-IsStored (suc f) s c src len off amt v at inside more fits small fuel =
    let (grown, alloc, g) = or_alloc-IsGrown s.chunks s.size (off + amt) v inside in
    let n = min (1024 - (off + amt) % 1024) (len - amt) in
    let ch =
      after s src amt (len - amt) (off + amt) v inside (omega arith) (omega arith) small grown g in
    let put =
      set-IsPut s src amt (len - amt) (off + amt) v inside (omega arith) (omega arith) small grown
        g in
    let wrote =
      chunk_write_lem s src amt (len - amt) (off + amt) v inside (omega arith) (omega arith) small
        grown g in
    let s₁ : File = record s {
      chunks = set grown ((off + amt) / 1024) ch;
      size = max s.size (off + amt + n);
    } in
    let round : put_at s src len off amt (or_alloc s.chunks c) ≡ some (n, (off + amt) / 1024, s₁) =
      ap (put_at s src len off amt) (ap (or_alloc s.chunks) at ∙ alloc)
      ∙ put_at_lem s src len off amt n ((off + amt) / 1024) grown ch (max s.size (off + amt + n))
          (omega arith) wrote in
    elim (le_or_lt len (amt + n)) [
      | inl done ↦
          let all : len ≡ amt + n = omega arith in
          record {
            s' = record s₁ { private = private_after s₁.chunks ((off + amt) / 1024) (off + len) };
            returns = write_loop_last f s s₁ c src len off amt n _ round all (omega arith);
            layout = put.layout;
            size = omega arith;
            at =
                private_after-cursor s₁.chunks ((off + amt) / 1024) (off + len) put.has
                  (omega arith) (omega arith);
            same_offset = refl;
            bytes = λ q.
                put.bytes q
                ∙ ap (λ (k : ℕ). written src amt (off + amt) k (byte s.chunks) q) (omega arith);
          }
      | inr more' ↦
          let next =
            list_next-cursor s₁.chunks ((off + amt) / 1024) (off + (amt + n)) (omega arith) in
          let rest =
            write_loop-IsStored f s₁ (list_next s₁.chunks ((off + amt) / 1024)) src len off
              (amt + n) put.layout next (omega arith) more' fits (omega arith) (omega arith) in
          record {
            s' = rest.s';
            returns = write_loop_more f s s₁ c src len off amt n _ round more' ∙ rest.returns;
            layout = rest.layout;
            size = omega (arith, rest.size);
            at = rest.at;
            same_offset = rest.same_offset;
            bytes = λ q.
                rest.bytes q
                ∙ written-written src amt (off + amt) n (len - (amt + n)) (len - amt)
                    (off + (amt + n)) (byte s.chunks) (byte s₁.chunks) q (omega arith) (omega arith)
                    (put.bytes q);
          }
    ]

-- `record_write` at the offset of an open file puts all `len` bytes there: the file reads as before
-- but for them, it is as long as it has to be, and it is open behind them; `len` rounds of fuel are
-- enough, and the file may not grow to 2 ^ 31 bytes.
pub record_write-IsStored :
    (fuel : ℕ) (s : File) (src : ℕ → ℕ) (len : ℕ)
    → IsOpen s
    → len ≤ fuel
    → s.offset + len < 2 ^ 31
    → s.size < 2 ^ 31
    → (s' : File) × (record_write fuel s src len ≡ some (len, s'))
      × IsOpen s'
      × (s'.size ≡ max s.size (s.offset + len))
      × (s'.offset ≡ s.offset + len)
      × ((q : ℕ) → byte s'.chunks q ≡ written src 0 s.offset len (byte s.chunks) q)
unfolding record_write
record_write-IsStored fuel s src zero v enough fits small =
    (s, refl, v, omega (arith, v.inside), omega arith, λ q. ground arith)
record_write-IsStored fuel s src (suc len) v enough fits small =
    let here : cursor s.chunks (s.offset + 0) ≡ cursor s.chunks s.offset =
      ap (cursor s.chunks) (omega arith) in
    let t =
      write_loop-IsStored fuel s s.private src (suc len) s.offset 0 v.layout (v.at ∙ sym here)
        (omega (arith, v.inside)) (omega arith) fits small (omega arith) in
    let exact = add32_exact s.offset (suc len) (omega arith) in
    let moved : add32 t.s'.offset (suc len) ≡ s.offset + suc len =
      ap (λ (o : ℕ). add32 o (suc len)) t.same_offset ∙ exact in
    let some_bytes : (suc len == 0) ≡ false = ground arith in
    (
      record t.s' { offset = add32 t.s'.offset (suc len) },
      rw (record_write, some_bytes, t.returns) refl,
      record {
        layout = t.layout;
        at = t.at ∙ ap (cursor t.s'.chunks) (sym moved);
        inside = omega (arith, moved, t.size);
      },
      t.size,
      moved,
      λ q. t.bytes q ∙ ground arith,
    )
