-- ===== src/Tcp/Handle.antt =====
-- `tcp_sock_handle` of kernel/src/net/ip/tcp.c: what a received segment does to a connection. The
-- segment's data is the list of its bytes, at most 65535. `none` is a write outside the page of the
-- receive buffer.
use k_os.Base.{
  ℕ, ◌+◌, ◌%◌, Bool, true, ◌||◌, ◌&&◌, not, Option, none, some, List, [], ◌∷◌, ltb, leb, ◌==◌,
  if◌then◌else◌, length,
}
use k_os.Base.Word.{add32, sub32}
use k_os.Base.Memory.{store}
use k_os.Swap.{swap_uint32}
use k_os.Tcp.Conn.{
  State, retry, syn_sent, syn_recieved, established, fin_waita, fin_waitb, closed, Header, Conn,
  Sock, flag_ack, flag_rst, flag_syn, flag_fin, has_flag, page_size, tcp_reset, tcp_send_ack,
  tcp_send_rst, tcp_ack_recieved,
}

-- `TCP_SYN_RETRYS`
abbrev pub syn_retrys : ℕ
syn_retrys = 5

-- The loop that puts the data into the receive buffer.
unfoldable pub recv_store : List ℕ → Conn → Option Conn
recv_store [] c = some c
recv_store (b ∷ bs) c =
    let rest = recv_store bs (record c {
      recv_buff = store c.recv_buff c.recv_buff_front b;
      recv_buff_front = add32 c.recv_buff_front 1;
    }) in
    if c.recv_buff_front == sub32 c.recv_buff_back 1
    then some c
    else if leb page_size c.recv_buff_front
    then none
    else rest

-- An answer with SYN and ACK to the SYN that was sent.
unfoldable pub handle_syn_ack : Sock → Header → List ℕ → Sock
handle_syn_ack s tcp raw =
    let acked : Conn = tcp_ack_recieved s.conn tcp.ack_num in
    let c : Conn = record acked {
      state = established;
      next_peer_seq = add32 (swap_uint32 tcp.seq_num) (length raw + 1);
    } in
    let s' : Sock = tcp_send_ack (record s { conn = c; connected = true }) tcp.window_size in
    record s' {
      conn = record (s'.conn) { established_semaphore = s'.conn.established_semaphore + 1 };
    }

-- `retrys++`, an 8-bit counter, and whether the SYN is to be sent again.
unfoldable pub retry_syn : Sock → Option Sock
retry_syn s =
    let c : Conn = record (s.conn) { retrys = (s.conn.retrys + 1) % 256 } in
    if ltb syn_retrys c.retrys then none else some (record s { conn = c })

-- The case TCP_SYN_SENT, with the number that `rand32` returns.
unfoldable pub handle_syn_sent : ℕ → Sock → Header → List ℕ → Sock
handle_syn_sent rand s tcp raw =
    if has_flag tcp.data_off_flags flag_ack && has_flag tcp.data_off_flags flag_syn
    then handle_syn_ack s tcp raw
    else elim (retry_syn s) [
      | none ↦ record s {
        conn = record (s.conn) {
          state = closed;
          retrys = (s.conn.retrys + 1) % 256;
          established_semaphore = s.conn.established_semaphore + 1;
        };
      }
      | some s₁ ↦
          let s' : Sock = tcp_send_rst s₁ tcp.window_size in
          let c' : Conn = tcp_reset rand s'.conn in
          record s' { conn = record c' { state = retry }; timers = s'.timers + 1 }
    ]

-- The case TCP_SYN_RECIEVED.
unfoldable pub handle_syn_recieved : Sock → Header → Sock
handle_syn_recieved s tcp =
    if s.conn.next_peer_seq == swap_uint32 tcp.seq_num
      && (has_flag tcp.data_off_flags flag_ack
          && not (has_flag tcp.data_off_flags flag_syn)
          && swap_uint32 tcp.ack_num == s.conn.next_local_seq)
    then record s { conn = record (s.conn) { state = established }; connected = true }
    else s

-- The data goes into the buffer, unless the reading direction is shut or the buffer counts as full.
unfoldable pub keep_data : Bool → List ℕ → Conn → Option Conn
keep_data shut raw c =
    if shut || c.recv_buff_front == sub32 c.recv_buff_back 1 then some c else recv_store raw c

-- `semaphore_up(&data->recv_semaphore)`
unfoldable pub up_recv : Sock → Option Conn → Option Sock
up_recv s none = none
up_recv s (some c) = some (record s { conn = record c { recv_semaphore = c.recv_semaphore + 1 } })

-- Data that is the next in order.
unfoldable pub recv_data : Sock → ℕ → List ℕ → Option Sock
recv_data s seq_num raw =
    up_recv s
      (keep_data s.shut_rd raw (record (s.conn) { next_peer_seq = add32 seq_num (length raw) }))

-- The flags FIN and RST behind the data, and the acknowledgement. `sock->flags &
-- SOCK_FLAG_SHUT_RDWR` is true when either direction is shut.
unfoldable pub handle_flags : Sock → Header → ℕ → Sock
handle_flags s tcp len =
    let flags = tcp.data_off_flags in
    let s₁ : Sock = if has_flag flags flag_fin then record s { shut_rd = true } else s in
    let s₂ : Sock =
      if has_flag flags flag_rst || (s₁.shut_rd || s₁.shut_wr)
      then record s₁ { conn = record (s₁.conn) { state = closed } }
      else s₁ in
    if ltb 0 len || (has_flag flags flag_syn || has_flag flags flag_fin)
    then tcp_send_ack s₂ tcp.window_size
    else s₂

-- The acknowledgement in a segment.
abbrev pub after_ack : Sock → Header → Sock
after_ack s tcp =
    if has_flag tcp.data_off_flags flag_ack
    then record s { conn = tcp_ack_recieved s.conn tcp.ack_num }
    else s

-- The cases TCP_FIN_WAITA, TCP_FIN_WAITB and TCP_ESTABLISHED.
unfoldable pub handle_data : Sock → Header → List ℕ → Option Sock
handle_data s tcp raw =
    let seq_num = swap_uint32 tcp.seq_num in
    let s₁ : Sock = after_ack s tcp in
    if ltb 0 (length raw)
    then if ltb seq_num s₁.conn.next_peer_seq
      then some s₁
      else if ltb s₁.conn.next_peer_seq seq_num
      then some (tcp_send_ack s₁ tcp.window_size)
      else elim (recv_data s₁ seq_num raw) [
        | none ↦ none
        | some s₂ ↦ some (handle_flags s₂ tcp (length raw))
      ]
    else some (handle_flags s₁ tcp 0)

-- The `switch` of `tcp_sock_handle`.
unfoldable pub handle_in : State → ℕ → Sock → Header → List ℕ → Option Sock
handle_in syn_sent rand s tcp raw = some (handle_syn_sent rand s tcp raw)
handle_in syn_recieved rand s tcp raw = some (handle_syn_recieved s tcp)
handle_in fin_waita rand s tcp raw = handle_data s tcp raw
handle_in fin_waitb rand s tcp raw = handle_data s tcp raw
handle_in established rand s tcp raw = handle_data s tcp raw
handle_in retry rand s tcp raw = some s
handle_in closed rand s tcp raw = some s

-- `tcp_sock_handle`
unfoldable pub tcp_sock_handle : ℕ → Sock → Header → List ℕ → Option Sock
tcp_sock_handle rand s tcp raw = handle_in s.conn.state rand s tcp raw
