-- ===== src/Tcp/Taken.antt =====
-- `tcp_recv` of kernel/src/net/ip/tcp.c on the bytes that are not read yet.
use k_os.Base.{
  ℕ, zero, suc, ◌-◌, ◌%◌, ◌≤◌, ◌<◌, ◌≡◌, refl, ap, ap₂, ◌∙◌, sym, true, false, List, ◌∷◌, ◌==◌,
  length, take, drop, arith,
}
use k_os.Base.Word.{add32, add32_exact}
use k_os.Base.Memory.{bytes, length-bytes}
use k_os.Tcp.Conn.{Conn, Sock}
use k_os.Tcp.Calls.{returned, then_byte, is_empty, next_back, recv_loop, tcp_recv}
use k_os.Tcp.Stream.{start, unread, IsBuffer}

-- The connection behind the byte that is read next.
abbrev pub read_one : Sock → Sock
read_one s = record s { conn = record (s.conn) { recv_buff_back = next_back s.conn } }

not_empty :
    (c : Conn) (n : ℕ) → IsBuffer c → suc n ≤ length (unread c) → start c < c.recv_buff_front
not_empty c n v h = omega (arith, length-bytes c.recv_buff (start c) (c.recv_buff_front - start c))

read_one-back : (c : Conn) (n : ℕ) → IsBuffer c → suc n ≤ length (unread c) → next_back c ≡ start c
read_one-back c n v h =
    let more = not_empty c n v h in ap (λ k. start c % k) v.size ∙ omega (arith, more, v.inside)

read_one-unread :
    (s : Sock) (n : ℕ)
    → IsBuffer s.conn
    → suc n ≤ length (unread s.conn)
    → IsBuffer (read_one s).conn
      × (unread s.conn ≡ s.conn.recv_buff (next_back s.conn) ∷ unread (read_one s).conn)
read_one-unread s n v h =
    let more = not_empty s.conn n v h in
    let at = read_one-back s.conn n v h in
    let next : start (read_one s).conn ≡ suc (start s.conn) =
      ap (λ b. add32 b 1) at
      ∙ add32_exact (start s.conn) 1 (omega (arith, v.inside))
      ∙ omega arith in
    let count : s.conn.recv_buff_front - start s.conn
        ≡ suc (s.conn.recv_buff_front - start (read_one s).conn) =
      omega (arith, next) in
    (
      record {
        size = v.size;
        back = omega (arith, at, more, v.inside);
        ordered = omega (arith, next);
        inside = v.inside;
      },
      ap (bytes s.conn.recv_buff (start s.conn)) count
          ∙ ap₂ ◌∷◌ (ap s.conn.recv_buff (sym at)) (
              ap (λ p. bytes s.conn.recv_buff p (s.conn.recv_buff_front - start (read_one s).conn))
                (sym next)),
    )

filled : (c : Conn) (n : ℕ) → IsBuffer c → suc n ≤ length (unread c) → is_empty c ≡ false
filled c n v h = ground (arith, not_empty c n v h)

recv_loop_next :
    (f : ℕ) (s s' : Sock) (n : ℕ) (bs : List ℕ)
    → is_empty s.conn ≡ false
    → recv_loop f (read_one s) n ≡ returned bs s'
    → recv_loop (suc f) s (suc n) ≡ returned (s.conn.recv_buff (next_back s.conn) ∷ bs) s'
unfolding recv_loop then_byte
recv_loop_next f s s' n bs more e =
    let some_bytes : (suc n == 0) ≡ false = ground arith in
    let pred : suc n - 1 ≡ n = omega arith in rw (recv_loop, some_bytes, more, pred, e) refl

recv_loop-unread :
    (f : ℕ) (s : Sock) (n : ℕ)
    → IsBuffer s.conn
    → n ≤ length (unread s.conn)
    → n ≤ f
    → (s' : Sock) × (recv_loop f s n ≡ returned (take n (unread s.conn)) s')
      × IsBuffer s'.conn
      × (unread s'.conn ≡ drop n (unread s.conn))
unfolding recv_loop then_byte
recv_loop-unread zero s zero v h fuel = (s, refl, v, refl)
recv_loop-unread zero s (suc n) v h fuel = absurd (omega arith)
recv_loop-unread (suc f) s zero v h fuel = (s, refl, v, refl)
recv_loop-unread (suc f) s (suc n) v h fuel =
    let (v', e) = read_one-unread s n v h in
    let left : n ≤ length (unread (read_one s).conn) = omega (arith, ap length e) in
    let (s', rest, v'', dropped) = recv_loop-unread f (read_one s) n v' left (omega arith) in
    (
      s',
      recv_loop_next f s s' n (take n (unread (read_one s).conn)) (filled s.conn n v h) rest
          ∙ ap (λ bs. returned (take (suc n) bs) s') (sym e),
      v'',
      dropped ∙ ap (λ bs. drop (suc n) bs) (sym e),
    )

-- `tcp_recv` of at least one byte and no more than there are returns the first ones, in order, and
-- leaves the others to be read; a unit of fuel for each byte is enough.
pub tcp_recv-unread :
    (fuel : ℕ) (s : Sock) (len : ℕ)
    → s.inet ≡ true
    → IsBuffer s.conn
    → 0 < len
    → len ≤ length (unread s.conn)
    → len ≤ fuel
    → (s' : Sock) × (tcp_recv fuel s len ≡ returned (take len (unread s.conn)) s')
      × IsBuffer s'.conn
      × (unread s'.conn ≡ drop len (unread s.conn))
unfolding tcp_recv
tcp_recv-unread fuel s zero inet v more h enough = absurd (omega arith)
tcp_recv-unread fuel s (suc n) inet v more h enough =
    let (s', e, v', left) = recv_loop-unread fuel s (suc n) v h enough in
    (s', simp (tcp_recv, inet, filled s.conn n v h) e, v', left)
