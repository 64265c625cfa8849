-- ===== src/Tcp/Stream.antt =====
-- The receive buffer of a connection of kernel/src/net/ip/tcp.c as the bytes that are not read yet:
-- what `tcp_sock_handle` appends and `tcp_recv` takes.
use k_os.Base.{
  ℕ, ◌+◌, ◌-◌, ◌^◌, ◌≤◌, ◌<◌, ◌≡◌, refl, ap, ap₂, ◌∙◌, sym, true, false, none, some, List, [], ◌∷◌,
  ◌++◌, leb, ◌==◌, length, arith, Bool-cases, inl, inr, append-nil, append_assoc,
}
use k_os.Base.Word.{add32, add32_exact, sub32}
use k_os.Base.Memory.{store, bytes, bytes-append, bytes_ext}
use k_os.Tcp.Conn.{Conn, page_size}
use k_os.Tcp.Handle.{recv_store}

-- The place of the byte that is read next.
abbrev pub start : Conn → ℕ
start c = add32 c.recv_buff_back 1

-- The bytes that are received and not read.
abbrev pub unread : Conn → List ℕ
unread c = bytes c.recv_buff (start c) (c.recv_buff_front - start c)

-- The bytes lie in the page; what has been read lies before them.
pub record IsBuffer (c : Conn) : Type 0 where
  pub size : c.recv_buff_size ≡ page_size
  pub back : c.recv_buff_back < 2 ^ 32
  pub ordered : start c ≤ c.recv_buff_front
  pub inside : c.recv_buff_front ≤ page_size

-- The buffer never counts as full: that would need its end to lie two places before its start.
pub never_full : (c : Conn) → IsBuffer c → (c.recv_buff_front == sub32 c.recv_buff_back 1) ≡ false
unfolding add32 sub32
never_full c v = ground (arith, v.ordered, v.inside, v.back)

-- A byte behind the others.
abbrev stored : Conn → ℕ → Conn
stored c b = record c {
  recv_buff = store c.recv_buff c.recv_buff_front b;
  recv_buff_front = add32 c.recv_buff_front 1;
}

stored-IsBuffer :
    (c : Conn) (b : ℕ) → IsBuffer c → c.recv_buff_front < page_size → IsBuffer (stored c b)
stored-IsBuffer c b v low =
    let next = add32_exact c.recv_buff_front 1 (omega arith) in
    record {
      size = v.size;
      back = v.back;
      ordered = omega (arith, v.ordered, next);
      inside = omega (arith, next);
    }

unread-stored :
    (c : Conn) (b : ℕ)
    → IsBuffer c
    → c.recv_buff_front < page_size
    → unread (stored c b) ≡ unread c ++ (b ∷ [])
unread-stored c b v low =
    let next = add32_exact c.recv_buff_front 1 (omega arith) in
    let m = store c.recv_buff c.recv_buff_front b in
    let n = c.recv_buff_front - start c in
    let front : (c.recv_buff_front == c.recv_buff_front) ≡ true = ground arith in
    ap (bytes m (start c)) (omega (arith, next, v.ordered))
    ∙ bytes-append m (start c) n 1 c.recv_buff_front (n + 1) (omega (arith, v.ordered)) refl
    ∙ ap₂ ◌++◌ (bytes_ext m c.recv_buff (start c) (start c) n (λ i l. ground arith)) (rw front refl)

-- `recv_store` of bytes that fit.
pub recv_store-unread :
    (bs : List ℕ) (c : Conn)
    → IsBuffer c
    → c.recv_buff_front + length bs ≤ page_size
    → (c' : Conn) × (recv_store bs c ≡ some c')
      × IsBuffer c'
      × (unread c' ≡ unread c ++ bs)
      × (c'.next_peer_seq ≡ c.next_peer_seq)
      × (c'.recv_semaphore ≡ c.recv_semaphore)
unfolding recv_store
recv_store-unread [] c v fits = (c, refl, v, sym (append-nil (unread c)), refl, refl)
recv_store-unread (b ∷ bs) c v fits =
    let low : c.recv_buff_front < page_size = omega arith in
    let next = add32_exact c.recv_buff_front 1 (omega arith) in
    let more : leb page_size c.recv_buff_front ≡ false = ground arith in
    let (c', e, v', same, peer, count) =
      recv_store-unread bs (stored c b) (stored-IsBuffer c b v low) (omega (arith, next)) in
    (
      c',
      rw (recv_store, never_full c v, more) e,
      v',
      same ∙ ap (◌++ bs) (unread-stored c b v low) ∙ append_assoc (unread c) (b ∷ []) bs,
      peer,
      count,
    )

-- `recv_store` of bytes that do not fit writes outside the page.
pub recv_store_over :
    (bs : List ℕ) (c : Conn)
    → IsBuffer c
    → page_size < c.recv_buff_front + length bs
    → recv_store bs c ≡ none
unfolding recv_store
recv_store_over [] c v over = absurd (omega (arith, v.inside))
recv_store_over (b ∷ bs) c v over = elim (Bool-cases (leb page_size c.recv_buff_front)) [
  | inl full ↦ rw (recv_store, never_full c v, full) refl
  | inr more ↦
      let low : c.recv_buff_front < page_size = ground arith in
      let next = add32_exact c.recv_buff_front 1 (omega arith) in
      rw (recv_store, never_full c v, more)
        (recv_store_over bs (stored c b) (stored-IsBuffer c b v low) (omega (arith, next)))
]
