-- ===== src/Tcp/Tests.antt =====
-- A connection for kernel/src/net/ip/tcp.c with 3 bytes to read and one segment that is queued.
use k_os.Base.{
  ℕ, ◌-◌, ◌^◌, ◌≤◌, ◌<◌, ◌≡◌, refl, true, false, none, some, List, [], ◌∷◌, ◌++◌, take, drop, All,
  arith,
}
use k_os.Base.Word.{add32}
use k_os.Swap.{swap_uint32, swap_halves}
use k_os.Checksum.{sum_to_checksum}
use k_os.Tcp.Build.{SentHeader, tcp_build, received_sum, IsSegment, sum_to_checksum-tcp_build}
use k_os.Tcp.Conn.{
  Segment, State, syn_sent, established, closed, Conn, Sock, Header, Pending, tcp_ack_recieved,
}
use k_os.Tcp.Handle.{tcp_sock_handle}
use k_os.Tcp.Calls.{returned, tcp_connect, tcp_recv, tcp_send}
use k_os.Tcp.Acked.{state_after, IsUnacked, tcp_ack_recieved_lem}
use k_os.Tcp.Stream.{unread, IsBuffer}
use k_os.Tcp.Received.{IsReceived, tcp_sock_handle-IsReceived, tcp_sock_handle_over}
use k_os.Tcp.Taken.{tcp_recv-unread}
use k_os.Tcp.Handshake.{here, IsOpening}
use k_os.Tcp.Opening.{connect-IsOpening}
use k_os.Tcp.Refused.{attempts, attempts_lem}
use k_os.Tcp.Ends.{tcp_send-tcp_sock_handle}

abbrev queued : Pending
queued = record {
  dst_ip = 1;
  seq_num = 5;
  flags = 4096;
  window_size = 14600;
  urgent = 0;
  src_port_net = 192;
  dst_port_net = 20480;
  payload = 65 ∷ [];
}

abbrev conn : State → ℕ → Conn
conn st front = record {
  state = st;
  next_local_seq = 6;
  next_peer_seq = 0;
  recv_buff = λ i. i;
  recv_buff_front = front;
  recv_buff_back = 2 ^ 32 - 1;
  recv_buff_size = 4096;
  retrys = 0;
  recv_semaphore = 0;
  established_semaphore = 0;
  queue = queued ∷ [];
}

abbrev sock : State → ℕ → Sock
sock st front = record {
  is_closed = false;
  connected = false;
  shut_rd = false;
  shut_wr = false;
  inet = true;
  peer_ip = 1;
  peer_port = 20480;
  local_port = 192;
  conn = conn st front;
  sent = [];
  timers = 0;
}

-- A header with these flags.
abbrev header : ℕ → Header
header flags = record {
  src_port = 20480;
  dst_port = 192;
  seq_num = 0;
  ack_num = 0;
  data_off_flags = flags;
  window_size = 1000;
}

conn-IsBuffer : (st : State) (front : ℕ) → front ≤ 4096 → IsBuffer (conn st front)
unfolding add32
conn-IsBuffer st front h = record {
  size = refl;
  back = omega arith;
  ordered = omega arith;
  inside = h;
}

tcp_ack_recieved_example :
    (acked left : List Pending) × (queued ∷ [] ≡ acked ++ left)
    × All (λ p. p.seq_num < swap_uint32 9) acked
    × IsUnacked (swap_uint32 9) left
    × (tcp_ack_recieved (conn established 3) 9
        ≡ record (conn established 3) { state = state_after acked established; queue = left })
tcp_ack_recieved_example = tcp_ack_recieved_lem (conn established 3) 9

in_order_example :
    (s' : Sock) × (tcp_sock_handle 0 (sock established 3) (header 4096) (7 ∷ 8 ∷ []) ≡ some s')
    × IsReceived (sock established 3) s' (swap_uint32 0) (7 ∷ 8 ∷ [])
in_order_example =
    tcp_sock_handle-IsReceived 0 (sock established 3) (header 4096) (7 ∷ 8 ∷ []) refl
      (conn-IsBuffer established 3 (omega arith)) (omega arith) (omega arith)

overrun_example : tcp_sock_handle 0 (sock established 4095) (header 4096) (7 ∷ 8 ∷ []) ≡ none
unfolding swap_uint32 swap_halves
overrun_example =
    tcp_sock_handle_over 0 (sock established 4095) (header 4096) (7 ∷ 8 ∷ []) refl
      (conn-IsBuffer established 4095 (omega arith)) refl refl (omega arith)

tcp_recv_example :
    (s' : Sock) × (tcp_recv 2 (sock established 3) 2
      ≡ returned (take 2 (unread (conn established 3))) s')
    × IsBuffer s'.conn
    × (unread s'.conn ≡ drop 2 (unread (conn established 3)))
unfolding add32
tcp_recv_example =
    tcp_recv-unread 2 (sock established 3) 2 refl (conn-IsBuffer established 3 (omega arith))
      (omega arith) (omega arith) (omega arith)

connect_example : IsOpening (tcp_connect 17 (λ i. 0) (sock closed 0) 1 20480)
connect_example =
    connect-IsOpening 17 (λ i. 0) (sock closed 0) (tcp_connect 17 (λ i. 0) (sock closed 0) 1 20480)
      1 20480 refl refl refl here

abbrev refusals : List (ℕ × Header)
refusals =
    (1, header 1024)
    ∷ (2, header 1024)
    ∷ (3, header 4096)
    ∷ (4, header 512)
    ∷ (5, header 0)
    ∷ (6, header 1024)
    ∷ []

attempts_example :
    ((attempts refusals (sock syn_sent 0)).conn.state ≡ closed)
    × ((attempts refusals (sock syn_sent 0)).conn.established_semaphore ≡ 1)
attempts_example =
    attempts_lem refusals (sock syn_sent 0) refl refl refl (omega arith)
      (refl, (refl, (refl, (refl, (refl, (refl, tt))))))

fin_example :
    (s' : Sock) × (tcp_sock_handle 0 (sock established 3) (header 256) [] ≡ some s')
    × (s'.conn.state ≡ closed)
    × (tcp_send s' (65 ∷ []) ≡ (2 ^ 32 - 1, s'))
fin_example = tcp_send-tcp_sock_handle 0 (sock established 3) (header 256) (65 ∷ []) refl refl

abbrev hello : Segment
hello = record {
  dst_ip = 16777343;
  seq_num = 5;
  ack_num = 6;
  flags = 4096;
  window_size = 14600;
  urgent = 0;
  src_port_net = 192;
  dst_port_net = 20480;
  payload = 104 ∷ 105 ∷ 33 ∷ [];
}

hello-IsSegment : IsSegment hello
hello-IsSegment = record {
  dst_ip = omega arith;
  src_port = omega arith;
  dst_port = omega arith;
  seq_num = omega arith;
  ack_num = omega arith;
  payload = (omega arith, (omega arith, (omega arith, tt)));
  few = omega arith;
}

tcp_build_example :
    (hdr : SentHeader) × (tcp_build 33554559 hello ≡ some hdr)
    × (sum_to_checksum (received_sum 33554559 16777343 hdr (104 ∷ 105 ∷ 33 ∷ [])) ≡ some 0)
tcp_build_example = sum_to_checksum-tcp_build 33554559 hello (omega arith) hello-IsSegment
