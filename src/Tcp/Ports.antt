-- ===== src/Tcp/Ports.antt =====
-- The ports of kernel/src/net/ip/tcp.c: the socket of each port, and the list of free ephemeral
-- ports, linked through two arrays by the ports' offsets from the first one. A socket is a number.
-- `none` is an access outside an array.
pub mod Free
pub mod Bind
mod Tests
use k_os.Base.{
  ℕ, zero, suc, ◌+◌, ◌-◌, ◌%◌, ◌^◌, Bool, true, false, ◌||◌, not, Option, none, some, ltb, leb,
  ◌==◌, if◌then◌else◌,
}
use k_os.Base.Word.{add32, sub32}
use k_os.Swap.{swap_uint16}

-- `FREELIST_END`, `PORT_NUM`, `EPHEMERAL_START` and `EPHEMERAL_NUM`
abbrev pub freelist_end : ℕ
freelist_end = 2 ^ 32 - 1

abbrev pub port_num : ℕ
port_num = 65536

abbrev pub ephemeral_start : ℕ
ephemeral_start = 49152

abbrev pub ephemeral_num : ℕ
ephemeral_num = 16384

-- `ports_sock`, `ephemeral_ports_next`, `ephemeral_ports_prev` and `ephemeral_next`
pub record Ports : Type 0 where
  pub sock : ℕ → Option ℕ
  pub next : ℕ → ℕ
  pub prev : ℕ → ℕ
  pub free : ℕ

-- `a[i] = v`
unfoldable pub put {ℓ} : {A : Type ℓ} → (ℕ → A) → ℕ → A → ℕ → A
put a i v j = if j == i then v else a j

-- `tcp_bind_port`: the port, in network order, is 0 when there is none.
unfoldable pub tcp_bind_port : Ports → ℕ → Option (Ports × ℕ)
tcp_bind_port s sock =
    if s.free == freelist_end
    then some (s, swap_uint16 0)
    else if leb ephemeral_num s.free
    then none
    else some (
      record s { sock = put s.sock (s.free + ephemeral_start) (some sock); free = s.next s.free },
      swap_uint16 (s.free + ephemeral_start),
    )

-- `tcp_unbind_port`
unfoldable pub tcp_unbind_port : Ports → ℕ → Option Ports
tcp_unbind_port s port_net =
    let port = swap_uint16 port_net in
    let offset = sub32 port ephemeral_start in
    if leb ephemeral_num s.free || leb ephemeral_num offset
    then none
    else some (record {
      sock = put s.sock port none;
      prev = put s.prev s.free offset;
      next = put s.next offset s.free;
      free = offset;
    })

-- The branch of `tcp_bind` that takes an ephemeral port out of the middle of the list.
unfoldable pub bind_inner : Ports → ℕ → ℕ → ℕ → Option Ports
bind_inner s sock port offset =
    let prev = put s.prev (s.next offset) (s.prev offset) in
    if leb ephemeral_num (s.next offset) || leb ephemeral_num (prev offset)
    then none
    else some (record s {
      sock = put s.sock port (some sock);
      prev = prev;
      next = put s.next (prev offset) (s.next offset);
    })

-- `tcp_bind` to an address of the family AF_INET: whether it is bound, and the ports. `any` says
-- that the address is IP_ANY.
unfoldable pub tcp_bind : Ports → ℕ → Bool → ℕ → Option (Bool × Ports)
tcp_bind s sock any port_net =
    let port = swap_uint16 port_net in
    let offset = sub32 port ephemeral_start % 2 ^ 16 in
    if not any then some (false, s) else elim (s.sock port_net) [
      | some _ ↦ some (false, s)
      | none ↦
          if leb ephemeral_start port
          then (if s.free == offset
              then elim (tcp_bind_port s sock) [ none ↦ none | some (s', _) ↦ some (true, s') ]
              else elim (bind_inner s sock port offset) [ none ↦ none | some s' ↦ some (true, s') ])
          else some (true, record s { sock = put s.sock port (some sock) })
    ]

-- `ephemeral_init`
unfoldable pub ephemeral_init : Ports
ephemeral_init = record {
  sock = λ i. none;
  next = put (λ i. i + 1) (ephemeral_num - 1) freelist_end;
  prev = put (λ i. sub32 i 1) 0 freelist_end;
  free = 0;
}
