-- ===== src/Tcp/Ports/Bind.antt =====
-- `tcp_bind_port` and `tcp_unbind_port` of kernel/src/net/ip/tcp.c on the list of free ports.
use k_os.Base.{
  ℕ, ◌+◌, ◌<◌, ◌≡◌, ◌≢◌, refl, ap, ◌∙◌, Option, none, some, List, [], ◌∷◌, ◌==◌, leb, All, arith,
  eq_or_ne, inl, inr, true, false, Bool-cases,
}
use k_os.Base.Word.{sub32, sub32_exact}
use k_os.Swap.{swap_uint16}
use k_os.Swap.Twice.{swap_uint16-swap_uint16}
use k_os.Tcp.Ports.{
  Ports, put, freelist_end, ephemeral_start, ephemeral_num, tcp_bind_port, tcp_unbind_port,
}
use k_os.Tcp.Ports.Free.{IsFree, put_self, IsChain-put, unused-put}

-- What `tcp_bind_port` returns: the first free port, which then belongs to the socket, or 0.
abbrev pub IsBound : Ports → ℕ → List ℕ → Option (Ports × ℕ) → Type 0
IsBound s k [] out = out ≡ some (s, 0)
IsBound s k (x ∷ xs) out =
    (s' : Ports) × (out ≡ some (s', swap_uint16 (x + ephemeral_start)))
    × IsFree s' xs
    × (s'.sock ≡ put s.sock (x + ephemeral_start) (some k))

bind_head :
    (s : Ports) (k x : ℕ)
    → s.free ≡ x
    → x < ephemeral_num
    → tcp_bind_port s k
      ≡ some (
        record s { sock = put s.sock (x + ephemeral_start) (some k); free = s.next x },
        swap_uint16 (x + ephemeral_start),
      )
unfolding tcp_bind_port
bind_head s k x e low =
    let more : (s.free == freelist_end) ≡ false = ground arith in
    let inside : leb ephemeral_num s.free ≡ false = ground arith in
    rw (tcp_bind_port, more, inside)
      (ap
        (λ i. some (
          record s { sock = put s.sock (i + ephemeral_start) (some k); free = s.next i },
          swap_uint16 (i + ephemeral_start),
        ))
        e)

-- `tcp_bind_port` takes the first port of the list of free ports for the socket and leaves the
-- others free; when there is no free port it returns 0 and changes nothing.
pub tcp_bind_port-IsBound :
    (s : Ports) (k : ℕ) (xs : List ℕ) → IsFree s xs → IsBound s k xs (tcp_bind_port s k)
unfolding tcp_bind_port swap_uint16
tcp_bind_port-IsBound s k [] v =
    let last : (s.free == freelist_end) ≡ true = ground (arith, v.chain) in
    rw (tcp_bind_port, last) refl
tcp_bind_port-IsBound s k (x ∷ xs) v =
    let (e, low, rest) = v.chain in
    let (away, distinct) = v.distinct in
    let (none_here, unused) = v.unused in
    (
      record s { sock = put s.sock (x + ephemeral_start) (some k); free = s.next x },
      bind_head s k x e low,
      record {
        chain = rest;
        distinct = distinct;
        unused = unused-put s.sock x (some k) xs away unused;
      },
      refl,
    )

unbind_offset :
    (s : Ports) (y : ℕ)
    → s.free < ephemeral_num
    → y < ephemeral_num
    → tcp_unbind_port s (swap_uint16 (y + ephemeral_start))
      ≡ some (record {
        sock = put s.sock (y + ephemeral_start) none;
        prev = put s.prev s.free y;
        next = put s.next y s.free;
        free = y;
      })
unfolding tcp_unbind_port
unbind_offset s y more low =
    let back : swap_uint16 (swap_uint16 (y + ephemeral_start)) ≡ y + ephemeral_start =
      swap_uint16-swap_uint16 (y + ephemeral_start) (omega arith) in
    let offset : sub32 (y + ephemeral_start) ephemeral_start ≡ y =
      sub32_exact (y + ephemeral_start) ephemeral_start (omega arith) (omega arith) ∙ omega arith in
    let inside : leb ephemeral_num s.free ≡ false = ground arith in
    let inside' : leb ephemeral_num y ≡ false = ground arith in
    rw (tcp_unbind_port, back, offset, inside, inside') refl

-- `tcp_unbind_port` of a taken ephemeral port, while another one is free, makes it the first free
-- port and takes its socket away.
pub tcp_unbind_port-IsFree :
    (s : Ports) (y x : ℕ) (xs : List ℕ)
    → IsFree s (x ∷ xs)
    → y < ephemeral_num
    → All (λ z. z ≢ y) (x ∷ xs)
    → (s' : Ports) × (tcp_unbind_port s (swap_uint16 (y + ephemeral_start)) ≡ some s')
      × IsFree s' (y ∷ x ∷ xs)
      × (s'.sock ≡ put s.sock (y + ephemeral_start) none)
tcp_unbind_port-IsFree s y x xs v low away =
    let (e, low', rest) = v.chain in
    let more : s.free < ephemeral_num = omega arith in
    (
      record {
        sock = put s.sock (y + ephemeral_start) none;
        prev = put s.prev s.free y;
        next = put s.next y s.free;
        free = y;
      },
      unbind_offset s y more low,
      record {
        chain = (
          refl,
          low,
          rw (put_self s.next y s.free) (IsChain-put s.next y s.free s.free (x ∷ xs) away v.chain),
        );
        distinct = (away, v.distinct);
        unused = (
          put_self s.sock (y + ephemeral_start) none,
          unused-put s.sock y none (x ∷ xs) away v.unused,
        );
      },
      refl,
    )

-- A bound port that is unbound again is free again, and every port's socket is as before; another
-- free port must be left.
pub tcp_unbind_port-tcp_bind_port :
    (s : Ports) (k x y : ℕ) (xs : List ℕ)
    → IsFree s (x ∷ y ∷ xs)
    → (s' s'' : Ports) × (port : ℕ) × (tcp_bind_port s k ≡ some (s', port))
      × (tcp_unbind_port s' port ≡ some s'')
      × IsFree s'' (x ∷ y ∷ xs)
      × ((p : ℕ) → s''.sock p ≡ s.sock p)
unfolding put
tcp_unbind_port-tcp_bind_port s k x y xs v =
    let (s', bound, free', sock') = tcp_bind_port-IsBound s k (x ∷ y ∷ xs) v in
    let (away, distinct) = v.distinct in
    let (e, low, rest) = v.chain in
    let (unused, others) = v.unused in
    let (s'', unbound, free'', sock'') = tcp_unbind_port-IsFree s' x y xs free' low away in
    (
      s',
      s'',
      swap_uint16 (x + ephemeral_start),
      bound,
      unbound,
      free'',
      λ p. ap (λ f. f p) sock'' ∙ elim (eq_or_ne p (x + ephemeral_start)) [
        | inl h ↦ ground (arith, unused, ap s.sock h)
        | inr h ↦ ground (arith, ap (λ f. f p) sock')
      ],
    )

-- Where every ephemeral port is taken, `tcp_unbind_port` writes outside the array
-- `ephemeral_ports_prev`, whichever port is given back.
pub unbind_when_empty : (s : Ports) (port : ℕ) → IsFree s [] → tcp_unbind_port s port ≡ none
unfolding tcp_unbind_port
unbind_when_empty s port v =
    let out : leb ephemeral_num s.free ≡ true = ground (arith, v.chain) in
    rw (tcp_unbind_port, out) refl

-- A port below 49152 that is given back is an access outside `ephemeral_ports_next`.
pub unbind_low :
    (s : Ports) (port : ℕ) → swap_uint16 port < ephemeral_start → tcp_unbind_port s port ≡ none
unfolding tcp_unbind_port sub32
unbind_low s port low =
    let out : leb ephemeral_num (sub32 (swap_uint16 port) ephemeral_start) ≡ true = ground arith in
    elim (Bool-cases (leb ephemeral_num s.free)) [
      | inl e ↦ rw (tcp_unbind_port, e) refl
      | inr e ↦ rw (tcp_unbind_port, e, out) refl
    ]
