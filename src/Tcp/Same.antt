-- ===== src/Tcp/Same.antt =====
-- What leaves the received bytes of a connection of kernel/src/net/ip/tcp.c alone.
use k_os.Base.{ℕ, ◌-◌, ◌≡◌, refl, ap, ap₂, ◌∙◌, arith, Bool-cases, inl, inr}
use k_os.Base.Word.{add32}
use k_os.Base.Memory.{bytes}
use k_os.Tcp.Conn.{
  Conn, Sock, Header, flag_ack, has_flag, tcp_send_control, tcp_send_ack, tcp_ack_recieved,
}
use k_os.Tcp.Handle.{handle_flags, after_ack}
use k_os.Tcp.Stream.{start, unread, IsBuffer}

-- What a step that leaves the stream alone keeps.
pub record IsSame (c c' : Conn) : Type 0 where
  pub buff : c'.recv_buff ≡ c.recv_buff
  pub front : c'.recv_buff_front ≡ c.recv_buff_front
  pub back : c'.recv_buff_back ≡ c.recv_buff_back
  pub size : c'.recv_buff_size ≡ c.recv_buff_size
  pub peer : c'.next_peer_seq ≡ c.next_peer_seq
  pub count : c'.recv_semaphore ≡ c.recv_semaphore

pub unread-IsSame : (c c' : Conn) → IsSame c c' → unread c' ≡ unread c
unread-IsSame c c' e =
    ap₂ (λ m b. bytes m (add32 b 1) (c'.recv_buff_front - add32 b 1)) e.buff e.back
    ∙ ap (λ f. bytes c.recv_buff (start c) (f - start c)) e.front

pub IsBuffer-IsSame : (c c' : Conn) → IsSame c c' → IsBuffer c → IsBuffer c'
IsBuffer-IsSame c c' e v =
    let at : start c' ≡ start c = ap (λ b. add32 b 1) e.back in
    record {
      size = e.size ∙ v.size;
      back = omega (arith, e.back, v.back);
      ordered = omega (arith, at, e.front, v.ordered);
      inside = omega (arith, e.front, v.inside);
    }

pub tcp_ack_recieved-IsSame : (c : Conn) (ack : ℕ) → IsSame c (tcp_ack_recieved c ack)
unfolding tcp_ack_recieved
tcp_ack_recieved-IsSame c ack = record {
  buff = refl;
  front = refl;
  back = refl;
  size = refl;
  peer = refl;
  count = refl;
}

pub tcp_send_ack-IsSame : (s : Sock) (w : ℕ) → IsSame s.conn (tcp_send_ack s w).conn
unfolding tcp_send_ack tcp_send_control
tcp_send_ack-IsSame s w = record {
  buff = refl;
  front = refl;
  back = refl;
  size = refl;
  peer = refl;
  count = refl;
}

pub handle_flags-IsSame :
    (s : Sock) (tcp : Header) (len : ℕ) → IsSame s.conn (handle_flags s tcp len).conn
unfolding handle_flags tcp_send_ack tcp_send_control
handle_flags-IsSame s tcp len = record {
  buff = ground arith;
  front = ground arith;
  back = ground arith;
  size = ground arith;
  peer = ground arith;
  count = ground arith;
}

pub IsSame-refl : (c : Conn) → IsSame c c
IsSame-refl c = record {
  buff = refl;
  front = refl;
  back = refl;
  size = refl;
  peer = refl;
  count = refl;
}

pub after_ack-IsSame :
    (s : Sock) (tcp : Header)
    → IsSame s.conn (after_ack s tcp).conn × ((after_ack s tcp).shut_rd ≡ s.shut_rd)
after_ack-IsSame s tcp = elim (Bool-cases (has_flag tcp.data_off_flags flag_ack)) [
  | inl e ↦ rw e (tcp_ack_recieved-IsSame s.conn tcp.ack_num, refl)
  | inr e ↦ rw e (IsSame-refl s.conn, refl)
]
