-- ===== src/Tcp/Received.antt =====
-- A segment with data for an open connection of kernel/src/net/ip/tcp.c: what `tcp_sock_handle` makes
-- of the bytes to read.
use k_os.Base.{
  ℕ, ◌+◌, ◌≤◌, ◌<◌, ◌≡◌, refl, ap, ap₂, ◌∙◌, sym, Bool, true, false, ◌&&◌, not, none, some, List,
  [], ◌++◌, ltb, ◌==◌, if◌then◌else◌, length, arith, inl, inr, append-nil, eq_or_ne,
}
use k_os.Base.Word.{add32}
use k_os.Swap.{swap_uint32}
use k_os.Tcp.Conn.{
  State, retry, syn_sent, syn_recieved, established, fin_waita, fin_waitb, closed, Conn, Sock,
  Header, page_size, tcp_send_ack,
}
use k_os.Tcp.Handle.{
  recv_store, keep_data, up_recv, recv_data, handle_flags, after_ack, handle_data, handle_in,
  tcp_sock_handle,
}
use k_os.Tcp.Stream.{unread, IsBuffer, never_full, recv_store-unread, recv_store_over}
use k_os.Tcp.Same.{
  IsSame, unread-IsSame, IsBuffer-IsSame, tcp_send_ack-IsSame, handle_flags-IsSame, IsSame-refl,
  after_ack-IsSame,
}

-- The states in which data is taken.
abbrev pub takes_data : State → Bool
takes_data established = true
takes_data fin_waita = true
takes_data fin_waitb = true
takes_data retry = false
takes_data syn_sent = false
takes_data syn_recieved = false
takes_data closed = false

-- What a segment with the data `raw` at the number `seq` makes of the stream.
pub record IsReceived (s s' : Sock) (seq : ℕ) (raw : List ℕ) : Type 0 where
  pub buffer : IsBuffer s'.conn
  pub stream :
      unread s'.conn
      ≡ unread s.conn ++ (if s.conn.next_peer_seq == seq && not s.shut_rd then raw else [])
  pub peer :
      s'.conn.next_peer_seq
      ≡ (if s.conn.next_peer_seq == seq then add32 seq (length raw) else s.conn.next_peer_seq)
  pub count :
      s'.conn.recv_semaphore
      ≡ s.conn.recv_semaphore + (if s.conn.next_peer_seq == seq then 1 else 0)

keep_data-unread :
    (shut : Bool) (raw : List ℕ) (c : Conn)
    → IsBuffer c
    → c.recv_buff_front + length raw ≤ page_size
    → (c' : Conn) × (keep_data shut raw c ≡ some c')
      × IsBuffer c'
      × (unread c' ≡ unread c ++ (if not shut then raw else []))
      × (c'.next_peer_seq ≡ c.next_peer_seq)
      × (c'.recv_semaphore ≡ c.recv_semaphore)
unfolding keep_data
keep_data-unread true raw c v fits = (c, refl, v, sym (append-nil (unread c)), refl, refl)
keep_data-unread false raw c v fits =
    let (c', e, v', same, peer, count) = recv_store-unread raw c v fits in
    (c', rw (keep_data, never_full c v) e, v', same, peer, count)

-- The data that is the next in order.
recv_data-IsReceived :
    (s : Sock) (seq : ℕ) (raw : List ℕ)
    → IsBuffer s.conn
    → s.conn.next_peer_seq ≡ seq
    → s.conn.recv_buff_front + length raw ≤ page_size
    → (s' : Sock) × (recv_data s seq raw ≡ some s') × IsReceived s s' seq raw
unfolding recv_data up_recv
recv_data-IsReceived s seq raw v at fits =
    let c : Conn = record (s.conn) { next_peer_seq = add32 seq (length raw) } in
    let v' : IsBuffer c = record {
      size = v.size;
      back = v.back;
      ordered = v.ordered;
      inside = v.inside;
    } in
    let here : (s.conn.next_peer_seq == seq) ≡ true = ground arith in
    let (c', e, v'', same, peer, count) = keep_data-unread s.shut_rd raw c v' fits in
    (
      record s { conn = record c' { recv_semaphore = c'.recv_semaphore + 1 } },
      ap (up_recv s) e,
      record {
        buffer = record {
          size = v''.size;
          back = v''.back;
          ordered = v''.ordered;
          inside = v''.inside;
        };
        stream = rw here same;
        peer = rw here peer;
        count = rw here (ap (λ n. n + 1) count);
      },
    )

IsReceived-IsSame :
    (s₁ s s' s'' : Sock) (seq : ℕ) (raw : List ℕ)
    → IsSame s₁.conn s.conn
    → s.shut_rd ≡ s₁.shut_rd
    → IsReceived s s' seq raw
    → IsSame s'.conn s''.conn
    → IsReceived s₁ s'' seq raw
IsReceived-IsSame s₁ s s' s'' seq raw e shut r e' = record {
  buffer = IsBuffer-IsSame s'.conn s''.conn e' r.buffer;
  stream =
      unread-IsSame s'.conn s''.conn e'
      ∙ r.stream
      ∙ ap (◌++ (if s.conn.next_peer_seq == seq && not s.shut_rd then raw else []))
          (unread-IsSame s₁.conn s.conn e)
      ∙ ap₂ (λ n b. unread s₁.conn ++ (if n == seq && not b then raw else [])) e.peer shut;
  peer = e'.peer ∙ r.peer ∙ ap (λ n. if n == seq then add32 seq (length raw) else n) e.peer;
  count = e'.count ∙ r.count ∙ ap₂ (λ k n. k + (if n == seq then 1 else 0)) e.count e.peer;
}

-- Data with another number.
other-IsReceived :
    (s : Sock) (seq : ℕ) (raw : List ℕ)
    → IsBuffer s.conn
    → (s.conn.next_peer_seq == seq) ≡ false
    → IsReceived s s seq raw
other-IsReceived s seq raw v away = record {
  buffer = v;
  stream = rw away (sym (append-nil (unread s.conn)));
  peer = rw away refl;
  count = rw away (omega arith);
}

-- The branch of an open connection.
handle_data-IsReceived :
    (s : Sock) (tcp : Header) (raw : List ℕ)
    → IsBuffer s.conn
    → 0 < length raw
    → s.conn.recv_buff_front + length raw ≤ page_size
    → (s' : Sock) × (handle_data s tcp raw ≡ some s')
      × IsReceived s s' (swap_uint32 tcp.seq_num) raw
unfolding handle_data
handle_data-IsReceived s tcp raw v more fits =
    let seq = swap_uint32 tcp.seq_num in
    let s₁ = after_ack s tcp in
    let (e, shut) = after_ack-IsSame s tcp in
    let v₁ = IsBuffer-IsSame s.conn s₁.conn e v in
    let filled : ltb 0 (length raw) ≡ true = ground arith in
    elim (eq_or_ne s₁.conn.next_peer_seq seq) [
      | inl at ↦
          let (s₂, r, got) = recv_data-IsReceived s₁ seq raw v₁ at (omega (arith, e.front)) in
          let low : ltb seq s₁.conn.next_peer_seq ≡ false = ground arith in
          let high : ltb s₁.conn.next_peer_seq seq ≡ false = ground arith in
          (
            handle_flags s₂ tcp (length raw),
            rw (handle_data, filled, low, high, r) refl,
            IsReceived-IsSame s s₁ s₂ (handle_flags s₂ tcp (length raw)) seq raw e shut got
                (handle_flags-IsSame s₂ tcp (length raw)),
          )
      | inr (inl less) ↦
          let low : ltb seq s₁.conn.next_peer_seq ≡ false = ground arith in
          let high : ltb s₁.conn.next_peer_seq seq ≡ true = ground arith in
          let got = other-IsReceived s₁ seq raw v₁ (ground arith) in
          (
            tcp_send_ack s₁ tcp.window_size,
            rw (handle_data, filled, low, high) refl,
            IsReceived-IsSame s s₁ s₁ (tcp_send_ack s₁ tcp.window_size) seq raw e shut got
                (tcp_send_ack-IsSame s₁ tcp.window_size),
          )
      | inr (inr greater) ↦
          let low : ltb seq s₁.conn.next_peer_seq ≡ true = ground arith in
          let got = other-IsReceived s₁ seq raw v₁ (ground arith) in
          (
            s₁,
            rw (handle_data, filled, low) refl,
            IsReceived-IsSame s s₁ s₁ s₁ seq raw e shut got (IsSame-refl s₁.conn),
          )
    ]

pub handle_in-handle_data :
    (st : State) (rand : ℕ) (s : Sock) (tcp : Header) (raw : List ℕ)
    → takes_data st ≡ true
    → handle_in st rand s tcp raw ≡ handle_data s tcp raw
unfolding handle_in
handle_in-handle_data established rand s tcp raw e = refl
handle_in-handle_data fin_waita rand s tcp raw e = refl
handle_in-handle_data fin_waitb rand s tcp raw e = refl
handle_in-handle_data retry rand s tcp raw e = absurd (ground arith)
handle_in-handle_data syn_sent rand s tcp raw e = absurd (ground arith)
handle_in-handle_data syn_recieved rand s tcp raw e = absurd (ground arith)
handle_in-handle_data closed rand s tcp raw e = absurd (ground arith)

-- A segment with data for an open connection, where the data fits behind what is in the page: its
-- bytes are added to the bytes to read when its number is the expected one and the reading direction
-- is not shut, and otherwise the bytes to read stay as they are; the expected number and the count of
-- `recv_semaphore` go on with data in order, and with no other.
pub tcp_sock_handle-IsReceived :
    (rand : ℕ) (s : Sock) (tcp : Header) (raw : List ℕ)
    → takes_data s.conn.state ≡ true
    → IsBuffer s.conn
    → 0 < length raw
    → s.conn.recv_buff_front + length raw ≤ page_size
    → (s' : Sock) × (tcp_sock_handle rand s tcp raw ≡ some s')
      × IsReceived s s' (swap_uint32 tcp.seq_num) raw
unfolding tcp_sock_handle
tcp_sock_handle-IsReceived rand s tcp raw st v more fits =
    let (s', e, got) = handle_data-IsReceived s tcp raw v more fits in
    (s', handle_in-handle_data s.conn.state rand s tcp raw st ∙ e, got)

-- Data in order, for an open connection that is not shut for reading, that does not fit behind what
-- is in the page is written outside the page: the place where the buffer ends is never taken back.
pub tcp_sock_handle_over :
    (rand : ℕ) (s : Sock) (tcp : Header) (raw : List ℕ)
    → takes_data s.conn.state ≡ true
    → IsBuffer s.conn
    → s.shut_rd ≡ false
    → s.conn.next_peer_seq ≡ swap_uint32 tcp.seq_num
    → page_size < s.conn.recv_buff_front + length raw
    → tcp_sock_handle rand s tcp raw ≡ none
unfolding tcp_sock_handle handle_data recv_data keep_data up_recv
tcp_sock_handle_over rand s tcp raw st v open_ at over =
    let seq = swap_uint32 tcp.seq_num in
    let s₁ = after_ack s tcp in
    let (e, shut) = after_ack-IsSame s tcp in
    let c : Conn = record (s₁.conn) { next_peer_seq = add32 seq (length raw) } in
    let v₁ = IsBuffer-IsSame s.conn s₁.conn e v in
    let v₂ : IsBuffer c = record {
      size = v₁.size;
      back = v₁.back;
      ordered = v₁.ordered;
      inside = v₁.inside;
    } in
    let filled : ltb 0 (length raw) ≡ true = ground (arith, v.inside) in
    let low : ltb seq s₁.conn.next_peer_seq ≡ false = ground (arith, e.peer) in
    let high : ltb s₁.conn.next_peer_seq seq ≡ false = ground (arith, e.peer) in
    let out : recv_store raw c ≡ none = recv_store_over raw c v₂ (omega (arith, e.front)) in
    let lost : keep_data false raw c ≡ none = rw (keep_data, never_full c v₂) out in
    let none_left : recv_data s₁ seq raw ≡ none =
      ap (λ b. up_recv s₁ (keep_data b raw c)) (shut ∙ open_) ∙ ap (up_recv s₁) lost in
    handle_in-handle_data s.conn.state rand s tcp raw st
    ∙ rw (handle_data, filled, low, high, none_left) refl
