-- ===== src/Tcp/Calls.antt =====
-- The calls of a connection's owner in kernel/src/net/ip/tcp.c, and the timer that sends the SYN
-- again. A call is the code up to the point where it sleeps, or to its end.
use k_os.Base.{
  ℕ, zero, suc, ◌+◌, ◌-◌, ◌%◌, ◌^◌, Bool, true, false, ◌||◌, ◌&&◌, not, List, [], ◌∷◌, ◌==◌,
  if◌then◌else◌, length,
}
use k_os.Base.Word.{add32}
use k_os.Tcp.Conn.{
  State, retry, syn_sent, syn_recieved, established, fin_waita, fin_waitb, closed, Conn, Sock,
  flag_ack, flag_syn, flag_fin, tcp_reset, tcp_queue_add,
}

abbrev pub is_closed_state : State → Bool
is_closed_state closed = true
is_closed_state retry = false
is_closed_state syn_sent = false
is_closed_state syn_recieved = false
is_closed_state established = false
is_closed_state fin_waita = false
is_closed_state fin_waitb = false

-- `tcp_resend_syn`
unfoldable pub tcp_resend_syn : Sock → Sock
tcp_resend_syn s =
    if s.is_closed || is_closed_state s.conn.state
    then s
    else tcp_queue_add (record s { conn = record (s.conn) { state = syn_sent } }) flag_syn 14600 0
        []

-- `tcp_connect` up to the sleep on `established_semaphore`, of a socket that has its port; the new
-- connection has a page of memory as its buffer.
unfoldable pub tcp_connect : ℕ → (ℕ → ℕ) → Sock → ℕ → ℕ → Sock
tcp_connect rand page s ip port =
    let fresh : Conn = record {
      state = syn_sent;
      next_local_seq = 0;
      next_peer_seq = 0;
      recv_buff = page;
      recv_buff_front = 0;
      recv_buff_back = 0;
      recv_buff_size = 0;
      retrys = 0;
      recv_semaphore = 0;
      established_semaphore = 0;
      queue = [];
    } in
    tcp_queue_add
      (record s { inet = true; peer_ip = ip; peer_port = port; conn = tcp_reset rand fresh })
      flag_syn 14600 0 []

-- `tcp_shutdown` of the directions that `how` holds.
unfoldable pub tcp_shutdown : Sock → Bool → Bool → Bool × Sock
tcp_shutdown s rd wr =
    let s₁ : Sock = if rd then record s { shut_rd = true } else s in
    let s₂ : Sock =
      if wr
      then tcp_queue_add
          (record s₁ { shut_wr = true; conn = record (s₁.conn) { state = fin_waita } })
          (flag_fin + flag_ack) 14600 0 []
      else s₁ in
    if s.inet then (true, s₂) else (false, s)

-- `tcp_send`: what it returns, where 2 ^ 32 - 1 is -1.
unfoldable pub tcp_send : Sock → List ℕ → ℕ × Sock
tcp_send s buff =
    if is_closed_state s.conn.state
    then (2 ^ 32 - 1, s)
    else if not s.inet
    then (2 ^ 32 - 1, s)
    else if s.shut_wr
    then (2 ^ 32 - 1, s)
    else (length buff, tcp_queue_add s flag_ack 14600 0 buff)

-- What `tcp_recv` does: it returns with bytes, it fails, or it sleeps on `recv_semaphore` with
-- bytes already there.
pub data Recv : Type 0 where
  returned : List ℕ → Sock → Recv
  failed : Recv
  sleeps : List ℕ → Sock → Recv
  out_of_fuel : Recv

-- A byte in front of the others.
unfoldable pub then_byte : ℕ → Recv → Recv
then_byte b (returned bs s) = returned (b ∷ bs) s
then_byte b failed = failed
then_byte b out_of_fuel = out_of_fuel
then_byte b (sleeps bs s) = sleeps (b ∷ bs) s

-- `data->recv_buff_back + 1 == data->recv_buff_front`
abbrev pub is_empty : Conn → Bool
is_empty c = add32 c.recv_buff_back 1 == c.recv_buff_front

-- The byte that is read next, and the connection behind it.
abbrev pub next_back : Conn → ℕ
next_back c = add32 c.recv_buff_back 1 % c.recv_buff_size

-- A round of the loop of `tcp_recv` that finds the buffer empty: it ends, it sleeps, or, where the
-- semaphore is above 0, it takes one from it and looks again (the second test of the flag then
-- repeats the first).
unfoldable pub recv_empty : Sock → (Sock → Recv) → Recv
recv_empty s again =
    if s.shut_rd
    then returned [] s
    else if s.conn.recv_semaphore == 0
    then sleeps [] s
    else again (record s { conn = record (s.conn) { recv_semaphore = s.conn.recv_semaphore - 1 } })

-- The loop of `tcp_recv` for `n` more bytes; a byte or a unit of the semaphore costs fuel.
unfoldable pub recv_loop : ℕ → Sock → ℕ → Recv
recv_loop zero s n = if n == 0 then returned [] s else out_of_fuel
recv_loop (suc f) s n =
    let again = λ (t : Sock). recv_loop f t n in
    let rest =
      recv_loop f (record s { conn = record (s.conn) { recv_buff_back = next_back s.conn } })
        (n - 1) in
    if n == 0
    then returned [] s
    else if is_empty s.conn
    then recv_empty s again
    else then_byte (s.conn.recv_buff (next_back s.conn)) rest

-- `tcp_recv`
unfoldable pub tcp_recv : ℕ → Sock → ℕ → Recv
tcp_recv fuel s len =
    if not s.inet
    then failed
    else if is_empty s.conn && is_closed_state s.conn.state
    then failed
    else recv_loop fuel s len
