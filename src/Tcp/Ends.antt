-- ===== src/Tcp/Ends.antt =====
-- The end of a connection of kernel/src/net/ip/tcp.c that its peer brings about.
use k_os.Base.{ℕ, ◌-◌, ◌^◌, ◌≡◌, refl, ap, true, ◌||◌, some, List, [], arith}
use k_os.Tcp.Conn.{
  closed, Sock, Header, flag_rst, flag_fin, has_flag, tcp_send_control, tcp_send_ack,
}
use k_os.Tcp.Handle.{handle_flags, after_ack, handle_data, tcp_sock_handle}
use k_os.Tcp.Calls.{is_closed_state, tcp_send}
use k_os.Tcp.Received.{takes_data, handle_in-handle_data}

-- A segment without data that carries FIN or RST closes an open connection at once: the socket's
-- owner can send no more, though it has not shut its own direction.
pub tcp_send-tcp_sock_handle :
    (rand : ℕ) (s : Sock) (tcp : Header) (buff : List ℕ)
    → takes_data s.conn.state ≡ true
    → has_flag tcp.data_off_flags flag_fin || has_flag tcp.data_off_flags flag_rst ≡ true
    → (s' : Sock) × (tcp_sock_handle rand s tcp [] ≡ some s')
      × (s'.conn.state ≡ closed)
      × (tcp_send s' buff ≡ (2 ^ 32 - 1, s'))
unfolding tcp_sock_handle handle_data handle_flags tcp_send tcp_send_ack tcp_send_control
tcp_send-tcp_sock_handle rand s tcp buff st last =
    let s₁ = after_ack s tcp in
    let s' = handle_flags s₁ tcp 0 in
    let over : s'.conn.state ≡ closed = ground (arith, last) in
    let shut : is_closed_state s'.conn.state ≡ true = ap is_closed_state over in
    (s', handle_in-handle_data s.conn.state rand s tcp [] st, over, simp (tcp_send, shut) refl)
