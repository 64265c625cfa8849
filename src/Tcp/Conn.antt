-- ===== src/Tcp/Conn.antt =====
-- A connection of kernel/src/net/ip/tcp.c: its state, the segments it sends, and the
-- acknowledgement of queued ones. A segment is sent when its header is built and given to
-- `packet_send`; what happens while `packet_send` has given up the connection's lock is not
-- modelled. The header that is sent is in `Tcp.Build`.
use k_os.Base.{
  ℕ, suc, ◌+◌, ◌/◌, ◌%◌, ◌^◌, Bool, true, false, ◌&&◌, not, List, [], ◌∷◌, ◌++◌, leb, ◌==◌,
  if◌then◌else◌, length, drop,
}
use k_os.Base.Word.{add32, sub32}
use k_os.Swap.{swap_uint16, swap_uint32}

-- `tcp_state_t`
pub data State : Type 0 where
  retry : State
  syn_sent : State
  syn_recieved : State
  established : State
  fin_waita : State
  fin_waitb : State
  closed : State

-- `TCP_FLAG_ACK`, `TCP_FLAG_RST`, `TCP_FLAG_SYN` and `TCP_FLAG_FIN`, and the test of a flag.
abbrev pub flag_ack : ℕ
flag_ack = 2 ^ 12

abbrev pub flag_rst : ℕ
flag_rst = 2 ^ 10

abbrev pub flag_syn : ℕ
flag_syn = 2 ^ 9

abbrev pub flag_fin : ℕ
flag_fin = 2 ^ 8

abbrev pub has_flag : ℕ → ℕ → Bool
has_flag flags flag = flags / flag % 2 == 1

abbrev pub page_size : ℕ
page_size = 4096

-- `tcp_pending_t`, less its callback; the payload is its bytes.
pub record Pending : Type 0 where
  pub dst_ip : ℕ
  pub seq_num : ℕ
  pub flags : ℕ
  pub window_size : ℕ
  pub urgent : ℕ
  pub src_port_net : ℕ
  pub dst_port_net : ℕ
  pub payload : List ℕ

-- The arguments of `tcp_build` with the packet's payload.
pub record Segment : Type 0 where
  pub dst_ip : ℕ
  pub seq_num : ℕ
  pub ack_num : ℕ
  pub flags : ℕ
  pub window_size : ℕ
  pub urgent : ℕ
  pub src_port_net : ℕ
  pub dst_port_net : ℕ
  pub payload : List ℕ

-- `tcp_header_t` of a received segment.
pub record Header : Type 0 where
  pub src_port : ℕ
  pub dst_port : ℕ
  pub seq_num : ℕ
  pub ack_num : ℕ
  pub data_off_flags : ℕ
  pub window_size : ℕ

-- `tcp_data_conn_t`; a semaphore is its count.
pub record Conn : Type 0 where
  pub state : State
  pub next_local_seq : ℕ
  pub next_peer_seq : ℕ
  pub recv_buff : ℕ → ℕ
  pub recv_buff_front : ℕ
  pub recv_buff_back : ℕ
  pub recv_buff_size : ℕ
  pub retrys : ℕ
  pub recv_semaphore : ℕ
  pub established_semaphore : ℕ
  pub queue : List Pending

-- `sock_t` with the bits of its flags and its `private`; `inet` says that the peer's family is
-- AF_INET. `sent` are the segments, the latest first, and `timers` counts the timers that will call
-- `tcp_resend_syn`.
pub record Sock : Type 0 where
  pub is_closed : Bool
  pub connected : Bool
  pub shut_rd : Bool
  pub shut_wr : Bool
  pub inet : Bool
  pub peer_ip : ℕ
  pub peer_port : ℕ
  pub local_port : ℕ
  pub conn : Conn
  pub sent : List Segment
  pub timers : ℕ

abbrev pub is_syn_sent : State → Bool
is_syn_sent syn_sent = true
is_syn_sent retry = false
is_syn_sent syn_recieved = false
is_syn_sent established = false
is_syn_sent fin_waita = false
is_syn_sent fin_waitb = false
is_syn_sent closed = false

-- `tcp_callback`; `success` says that the packet's result is PRESULT_SUCCESS.
unfoldable pub tcp_callback : Bool → Conn → Conn
tcp_callback success c =
    if is_syn_sent c.state && not success
    then record c { state = closed; established_semaphore = c.established_semaphore + 1 }
    else c

-- `tcp_reset`, with the number that `rand32` returns.
unfoldable pub tcp_reset : ℕ → Conn → Conn
tcp_reset rand c = record c {
  next_local_seq = rand;
  next_peer_seq = 0;
  recv_buff_front = 0;
  recv_buff_back = sub32 0 1;
  recv_buff_size = page_size;
}

-- `tcp_queue_send`
unfoldable pub tcp_queue_send : Sock → Pending → Sock
tcp_queue_send s p =
    let segment : Segment = record {
      dst_ip = p.dst_ip;
      seq_num = p.seq_num;
      ack_num = if has_flag p.flags flag_ack then swap_uint32 s.conn.next_peer_seq else 0;
      flags = p.flags;
      window_size = p.window_size;
      urgent = p.urgent;
      src_port_net = p.src_port_net;
      dst_port_net = p.dst_port_net;
      payload = p.payload;
    } in
    record s { sent = segment ∷ s.sent }

-- The `tcp_pending_t` that `tcp_queue_add` makes.
unfoldable pub new_pending : Sock → ℕ → ℕ → ℕ → List ℕ → Pending
new_pending s flags window_size urgent payload = record {
  dst_ip = s.peer_ip;
  seq_num = swap_uint32 s.conn.next_local_seq;
  flags = flags;
  window_size = window_size;
  urgent = urgent;
  src_port_net = s.local_port;
  dst_port_net = s.peer_port;
  payload = payload;
}

-- `tcp_queue_add`: `list_add_before` the head is the end of the queue.
unfoldable pub tcp_queue_add : Sock → ℕ → ℕ → ℕ → List ℕ → Sock
tcp_queue_add s flags window_size urgent payload =
    let pending = new_pending s flags window_size urgent payload in
    let next =
      add32 s.conn.next_local_seq (length payload + (if has_flag flags flag_syn then 1 else 0)) in
    tcp_queue_send
      (record s {
        conn = record (s.conn) { next_local_seq = next; queue = s.conn.queue ++ (pending ∷ []) };
      })
      pending

-- `_tcp_send_control`
unfoldable pub tcp_send_control : Sock → ℕ → ℕ → Sock
tcp_send_control s flags window_size =
    let segment : Segment = record {
      dst_ip = s.peer_ip;
      seq_num = swap_uint32 s.conn.next_local_seq;
      ack_num = swap_uint32 s.conn.next_peer_seq;
      flags = flags;
      window_size = swap_uint16 window_size;
      urgent = 0;
      src_port_net = s.local_port;
      dst_port_net = s.peer_port;
      payload = [];
    } in
    record s { sent = segment ∷ s.sent }

-- `tcp_send_ack` and `tcp_send_rst`
unfoldable pub tcp_send_ack : Sock → ℕ → Sock
tcp_send_ack s window_size = tcp_send_control s flag_ack window_size

unfoldable pub tcp_send_rst : Sock → ℕ → Sock
tcp_send_rst s window_size = tcp_send_control s (flag_rst + flag_ack) window_size

-- The first loop of `tcp_ack_recieved`: how many segments are acknowledged, and the state.
unfoldable pub count_acked : ℕ → List Pending → State → ℕ × State
count_acked ack [] st = (0, st)
count_acked ack (p ∷ ps) st =
    let st' = if has_flag p.flags flag_fin then fin_waitb else st in
    let rest = count_acked ack ps st' in if leb ack p.seq_num then (0, st) else (suc rest.0, rest.1)

-- `tcp_ack_recieved`
unfoldable pub tcp_ack_recieved : Conn → ℕ → Conn
tcp_ack_recieved c ack_num =
    let acked = count_acked (swap_uint32 ack_num) c.queue c.state in
    record c { state = acked.1; queue = drop acked.0 c.queue }
