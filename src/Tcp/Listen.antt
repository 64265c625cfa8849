-- ===== src/Tcp/Listen.antt =====
-- Listening sockets of kernel/src/net/ip/tcp.c: the connections that segments open, the segments'
-- way to them, and `tcp_accept`. The connections of a listening socket are a list in the order of
-- their making, and a connection is its place in it; the list of children and the chain of the hash
-- table hold places. Connections with the same address are in the same chain.
pub mod Connected
pub mod Queue
mod Tests
use k_os.Base.{
  ℕ, zero, suc, ◌+◌, ◌-◌, ◌^◌, Bool, true, false, ◌||◌, ◌&&◌, not, Option, none, some, List, [],
  ◌∷◌, ◌++◌, ltb, leb, ◌==◌, if◌then◌else◌, length, get_elem?, set,
}
use k_os.Base.Word.{add32}
use k_os.Swap.{swap_uint32}
use k_os.Tcp.Conn.{
  syn_recieved, Conn, Sock, Header, flag_ack, flag_syn, has_flag, tcp_reset, tcp_queue_add,
}
use k_os.Tcp.Handle.{tcp_sock_handle}

-- `SOMAXCONN`
abbrev pub somaxconn : ℕ
somaxconn = 128

-- `tcp_data_listen_t`, and the port of the socket.
pub record Listener : Type 0 where
  pub local_port : ℕ
  pub backlog : ℕ
  pub accept_semaphore : ℕ
  pub socks : List Sock
  pub children : List ℕ
  pub connections : List ℕ

-- `tcp_listen`
unfoldable pub tcp_listen : ℕ → ℕ → Listener
tcp_listen port backlog = record {
  local_port = port;
  backlog = if not (backlog == 0) && ltb backlog somaxconn then backlog else somaxconn;
  accept_semaphore = 0;
  socks = [];
  children = [];
  connections = [];
}

-- The test of the addresses in `tcp_handle`.
unfoldable pub is_for : ℕ → Header → Sock → Bool
is_for src tcp s = s.peer_ip == src && (s.peer_port == tcp.src_port && s.local_port == tcp.dst_port)

-- The walk along the chain of the hash table.
unfoldable pub find_child : ℕ → Header → List Sock → List ℕ → Option (ℕ × Sock)
find_child src tcp socks [] = none
find_child src tcp socks (i ∷ is) =
    let rest = find_child src tcp socks is in
    elim (get_elem? socks i) [
      | none ↦ none
      | some s ↦ if is_for src tcp s then some (i, s) else rest
    ]

-- The new connection, less its answer; `rand` is what `rand32` returns at last, and `page` is the
-- memory of the receive buffer.
unfoldable pub new_child : ℕ → (ℕ → ℕ) → ℕ → ℕ → Header → ℕ → Sock
new_child rand page port src tcp len =
    let fresh : Conn = record {
      state = syn_recieved;
      next_local_seq = 0;
      next_peer_seq = 0;
      recv_buff = page;
      recv_buff_front = 0;
      recv_buff_back = 0;
      recv_buff_size = 0;
      retrys = 0;
      recv_semaphore = 0;
      established_semaphore = 0;
      queue = [];
    } in
    let made = tcp_reset rand fresh in
    record {
      is_closed = false;
      connected = true;
      shut_rd = false;
      shut_wr = false;
      inet = true;
      peer_ip = src;
      peer_port = tcp.src_port;
      local_port = port;
      conn = record made { next_peer_seq = add32 (swap_uint32 tcp.seq_num) (len + 1) };
      sent = [];
      timers = 0;
    }

-- A SYN of an unknown peer makes a connection while the backlog is not used up.
unfoldable pub open_child : ℕ → (ℕ → ℕ) → Listener → ℕ → Header → ℕ → Listener
open_child rand page l src tcp len =
    let id = length l.socks in
    let child =
      tcp_queue_add (new_child rand page l.local_port src tcp len) (flag_syn + flag_ack) 14600 0
        [] in
    if has_flag tcp.data_off_flags flag_syn
      && (not (has_flag tcp.data_off_flags flag_ack) && not (l.backlog == 0))
    then record l {
      backlog = l.backlog - 1;
      socks = l.socks ++ (child ∷ []);
      children = l.children ++ (id ∷ []);
      connections = id ∷ l.connections;
      accept_semaphore = l.accept_semaphore + 1;
    }
    else l

-- What a segment does to the connection that it is for.
unfoldable pub handle_child : ℕ → Listener → Header → List ℕ → ℕ × Sock → Option Listener
handle_child rand l tcp raw (i, s) = elim (tcp_sock_handle rand s tcp raw) [
  | none ↦ none
  | some s' ↦ some (record l { socks = set l.socks i s' })
]

-- `tcp_handle` for a segment to the port of a listening socket.
unfoldable pub tcp_handle : ℕ → (ℕ → ℕ) → Listener → ℕ → Header → List ℕ → Option Listener
tcp_handle rand page l src tcp raw = elim (find_child src tcp l.socks l.connections) [
  | none ↦ some (open_child rand page l src tcp (length raw))
  | some found ↦ handle_child rand l tcp raw found
]

-- How `tcp_accept` ends: with a connection, asleep on `accept_semaphore`, or with a failed BUG_ON.
pub data Accept : Type 0 where
  accepted : ℕ → Listener → Accept
  sleeps : Listener → Accept
  bug : Accept

-- The first child, which has to be connected.
unfoldable pub accept_child : List ℕ → Listener → Option Accept
accept_child [] l = none
accept_child (i ∷ is) l = some (elim (get_elem? l.socks i) [
  | none ↦ bug
  | some s ↦ if s.connected then accepted i (record l { children = is }) else bug
])

-- The rounds of `tcp_accept` on a socket that is not shut, with `n` units in the semaphore.
unfoldable pub accept_loop : ℕ → Listener → Accept
accept_loop zero l = sleeps (record l { accept_semaphore = 0 })
accept_loop (suc n) l =
    let rest = accept_loop n l in
    elim (accept_child l.children (record l { accept_semaphore = n })) [
      | none ↦ rest
      | some out ↦ out
    ]

-- `tcp_accept` of a socket that is not shut; a wait that a signal ends, with -EINTR, is left out.
unfoldable pub tcp_accept : Listener → Accept
tcp_accept l = accept_loop l.accept_semaphore l
