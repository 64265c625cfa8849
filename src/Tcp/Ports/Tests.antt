-- ===== src/Tcp/Ports/Tests.antt =====
-- The ports of kernel/src/net/ip/tcp.c from `ephemeral_init` on.
use k_os.Base.{ℕ, ◌+◌, ◌≡◌, refl, none, some, [], ◌∷◌, arith, if◌then◌else◌, ◌==◌}
use k_os.Swap.{swap_uint16}
use k_os.Tcp.Ports.{Ports, put, freelist_end, ephemeral_start, tcp_bind_port, tcp_unbind_port}
use k_os.Tcp.Ports.Free.{IsFree}
use k_os.Tcp.Ports.Bind.{
  IsBound, tcp_bind_port-IsBound, tcp_unbind_port-IsFree, tcp_unbind_port-tcp_bind_port,
}

-- Two free ports, 49152 and 49153, and a third one that is taken.
abbrev two_free : Ports
two_free = record {
  sock = λ i. none;
  next = λ i. if i == 0 then 1 else freelist_end;
  prev = λ i. 0;
  free = 0;
}

two_free-IsFree : IsFree two_free (0 ∷ 1 ∷ [])
two_free-IsFree = record {
  chain = (refl, omega arith, (refl, omega arith, refl));
  distinct = (((λ e. absurd (omega arith)), tt), (tt, tt));
  unused = (refl, (refl, tt));
}

tcp_bind_port_example : IsBound two_free 7 (0 ∷ 1 ∷ []) (tcp_bind_port two_free 7)
tcp_bind_port_example = tcp_bind_port-IsBound two_free 7 (0 ∷ 1 ∷ []) two_free-IsFree

unbind_third :
    (s' : Ports) × (tcp_unbind_port two_free (swap_uint16 (2 + ephemeral_start)) ≡ some s')
    × IsFree s' (2 ∷ 0 ∷ 1 ∷ [])
    × (s'.sock ≡ put two_free.sock (2 + ephemeral_start) none)
unbind_third =
    tcp_unbind_port-IsFree two_free 2 0 (1 ∷ []) two_free-IsFree (omega arith)
      (λ e. absurd (omega arith), (λ e. absurd (omega arith), tt))

bind_unbind_example :
    (s' s'' : Ports) × (port : ℕ) × (tcp_bind_port two_free 7 ≡ some (s', port))
    × (tcp_unbind_port s' port ≡ some s'')
    × IsFree s'' (0 ∷ 1 ∷ [])
    × ((p : ℕ) → s''.sock p ≡ two_free.sock p)
bind_unbind_example = tcp_unbind_port-tcp_bind_port two_free 7 0 1 [] two_free-IsFree
