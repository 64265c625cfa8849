-- ===== src/Tcp/Listen/Tests.antt =====
-- A listening socket of kernel/src/net/ip/tcp.c that gets one SYN.
use k_os.Base.{refl, []}
use k_os.Tcp.Conn.{Header}
use k_os.Tcp.Listen.{Listener, tcp_listen, open_child, tcp_handle, find_child, tcp_accept}
use k_os.Tcp.Listen.Queue.{IsQueue, IsAnswered, segment, Reaches, here, next, tcp_accept-IsQueue}

abbrev syn : Header
syn = record {
  src_port = 20480;
  dst_port = 80;
  seq_num = 0;
  ack_num = 0;
  data_off_flags = 512;
  window_size = 1000;
}

abbrev one_child : Listener
one_child = open_child 17 (λ i. 0) (tcp_listen 80 5) 1 syn 0

one_child-Reaches : Reaches (tcp_listen 80 5) one_child 0
unfolding tcp_handle find_child tcp_listen
one_child-Reaches = next (here refl) (segment 17 (λ i. 0) 1 syn [] refl refl)

tcp_accept_example :
    IsQueue (tcp_listen 80 5).backlog 0 one_child
    × IsAnswered (tcp_listen 80 5).backlog 0 one_child (tcp_accept one_child)
tcp_accept_example = tcp_accept-IsQueue 80 5 0 one_child one_child-Reaches
