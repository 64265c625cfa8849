-- ===== src/Tcp/Listen/Queue.antt =====
-- The queue of new connections of a listening socket of kernel/src/net/ip/tcp.c, under segments and
-- calls of `tcp_accept` in any order.
use k_os.Base.{
  ℕ, zero, suc, ◌+◌, ◌-◌, ◌≤◌, ◌≡◌, ◌⊎◌, refl, ap, ◌∙◌, sym, subst, true, ◌&&◌, not, Option, none,
  some, List, [], ◌∷◌, ◌++◌, ◌==◌, length, length-append, length-set, set, All, arith, Bool-cases,
  Option-cases, inl, inr,
}
use k_os.Tcp.Conn.{Header, flag_ack, flag_syn, has_flag, tcp_queue_add, tcp_queue_send}
use k_os.Tcp.Handle.{tcp_sock_handle}
use k_os.Tcp.Ports.Free.{range}
use k_os.Tcp.Listen.{
  Listener, tcp_listen, find_child, new_child, open_child, handle_child, tcp_handle, Accept,
  accepted, sleeps, accept_child, accept_loop, tcp_accept,
}
use k_os.Tcp.Listen.Connected.{
  All-append, All-set, get_elem?-All, handle_in-connected, find_child-connected,
}

-- The first `a` connections were accepted and the others wait in the order of their making, with a
-- unit in the semaphore for each; `n` bounds the number of connections that are ever made.
pub record IsQueue (n a : ℕ) (l : Listener) : Type 0 where
  pub room : l.backlog + length l.socks ≡ n
  pub waiting : l.accept_semaphore ≡ length l.children
  pub some_accepted : a ≤ length l.socks
  pub order : l.children ≡ range a (length l.socks - a)
  pub ready : All (λ s. s.connected ≡ true) l.socks

range-append : (a k : ℕ) → range a k ++ ((a + k) ∷ []) ≡ range a (suc k)
range-append a zero = ap (◌∷ []) (omega arith)
range-append a (suc k) =
    ap (◌∷◌ a) (ap (λ x. range (suc a) k ++ (x ∷ [])) (omega arith) ∙ range-append (suc a) k)

length-range : (a k : ℕ) → length (range a k) ≡ k
length-range a zero = refl
length-range a (suc k) = ap suc (length-range (suc a) k)

-- A SYN of an unknown peer.
open_child-IsQueue :
    (n a rand : ℕ) (page : ℕ → ℕ) (l : Listener) (src : ℕ) (tcp : Header) (len : ℕ)
    → IsQueue n a l
    → IsQueue n a (open_child rand page l src tcp len)
unfolding open_child new_child tcp_queue_add tcp_queue_send
open_child-IsQueue n a rand page l src tcp len v =
    let child =
      tcp_queue_add (new_child rand page l.local_port src tcp len) (flag_syn + flag_ack) 14600 0
        [] in
    let more = length-append l.socks (child ∷ []) in
    elim (Bool-cases (
      has_flag tcp.data_off_flags flag_syn
      && (not (has_flag tcp.data_off_flags flag_ack) && not (l.backlog == 0)))) [
        | inr unwanted ↦ rw (open_child, unwanted) v
        | inl wanted ↦
            rw (open_child, wanted)
              (record {
                room = ground (arith, v.room, more, wanted);
                waiting = omega (arith, v.waiting, length-append l.children (length l.socks ∷ []));
                some_accepted = omega (arith, v.some_accepted, more);
                order =
                    ap (◌++ (length l.socks ∷ [])) v.order
                    ∙ ap (λ x. range a (length l.socks - a) ++ (x ∷ []))
                        (omega (arith, v.some_accepted))
                    ∙ range-append a (length l.socks - a)
                    ∙ ap (range a) {x = suc (length l.socks - a)}
                        (omega (arith, more, v.some_accepted));
                ready = All-append (λ s. s.connected ≡ true) l.socks child v.ready refl;
              })
      ]

-- A segment to the port.
tcp_handle-IsQueue :
    (n a rand : ℕ) (page : ℕ → ℕ) (l l' : Listener) (src : ℕ) (tcp : Header) (raw : List ℕ)
    → IsQueue n a l
    → tcp_handle rand page l src tcp raw ≡ some l'
    → IsQueue n a l'
unfolding tcp_handle handle_child tcp_sock_handle
tcp_handle-IsQueue n a rand page l l' src tcp raw v e =
    elim (Option-cases (find_child src tcp l.socks l.connections)) [
      | inl new ↦
          let l₁ = open_child rand page l src tcp (length raw) in
          let e' : some l₁ ≡ some l' = sym (rw (tcp_handle, new) refl) ∙ e in
          let same : l₁ ≡ l' = cc in
          subst (IsQueue n a) same (open_child-IsQueue n a rand page l src tcp (length raw) v)
      | inr ((i, s), found) ↦
          let on = find_child-connected src tcp l.socks l.connections i s v.ready found in
          elim (Option-cases (tcp_sock_handle rand s tcp raw)) [
            | inl over ↦
                let e' : ◌≡◌ {A = Option Listener} none (some l') =
                  sym (rw (tcp_handle, found, handle_child, over) refl) ∙ e in
                absurd cc
            | inr (s', went) ↦
                let l₁ : Listener = record l { socks = set l.socks i s' } in
                let e' : some l₁ ≡ some l' =
                  sym (rw (tcp_handle, found, handle_child, went) refl) ∙ e in
                let same : l₁ ≡ l' = cc in
                let count = length-set l.socks i s' in
                let on' = handle_in-connected s.conn.state rand s s' tcp raw refl on went in
                subst (IsQueue n a) same (record {
                  room = omega (arith, v.room, count);
                  waiting = v.waiting;
                  some_accepted = omega (arith, v.some_accepted, count);
                  order = v.order ∙ ap (λ k. range a (k - a)) (sym count);
                  ready = All-set (λ t. t.connected ≡ true) l.socks i s' v.ready on';
                })
          ]
    ]

-- What `tcp_accept` does to the queue.
abbrev pub IsAnswered : ℕ → ℕ → Listener → Accept → Type 0
IsAnswered n a l out =
    ((length l.socks ≡ a) × (out ≡ sleeps l))
    ⊎ ((l' : Listener) × (out ≡ accepted a l') × IsQueue n (suc a) l')

accept_first :
    (n a m k : ℕ) (l : Listener)
    → IsQueue n a l
    → l.accept_semaphore ≡ suc m
    → l.children ≡ a ∷ range (suc a) k
    → a + suc k ≡ length l.socks
    → (l' : Listener) × (accept_loop (suc m) l ≡ accepted a l') × IsQueue n (suc a) l'
unfolding accept_loop accept_child
accept_first n a m k l v units first count =
    let (s, there, on) = get_elem?-All (λ t. t.connected ≡ true) l.socks a v.ready (omega arith) in
    let l' : Listener = record l { accept_semaphore = m; children = range (suc a) k } in
    let took : accept_child (a ∷ range (suc a) k) (record l { accept_semaphore = m })
        ≡ some (accepted a l') =
      rw (accept_child, there, on) refl in
    let out : accept_child l.children (record l { accept_semaphore = m }) ≡ some (accepted a l') =
      ap (λ is. accept_child is (record l { accept_semaphore = m })) first ∙ took in
    (
      l',
      rw (accept_loop, out) refl,
      record {
        room = v.room;
        waiting = omega (arith, v.waiting, units, ap length first);
        some_accepted = omega arith;
        order = ap (range (suc a)) {x = k} (omega arith);
        ready = v.ready;
      },
    )

tcp_accept-IsAnswered :
    (n a k : ℕ) (l : Listener)
    → IsQueue n a l
    → length l.socks - a ≡ k
    → IsAnswered n a l (tcp_accept l)
unfolding tcp_accept accept_loop
tcp_accept-IsAnswered n a zero l v left =
    let idle : l.children ≡ [] = v.order ∙ ap (range a) left in
    let units : l.accept_semaphore ≡ 0 = v.waiting ∙ ap length idle in
    inl (
      omega (arith, v.some_accepted),
      ap (λ m. accept_loop m l) units
          ∙ ap (λ m. sleeps (record l { accept_semaphore = m })) (sym units),
    )
tcp_accept-IsAnswered n a (suc k) l v left =
    let first : l.children ≡ a ∷ range (suc a) k = v.order ∙ ap (range a) left in
    let units : l.accept_semaphore ≡ suc k =
      v.waiting ∙ ap length first ∙ ap suc (length-range (suc a) k) in
    let (l', out, v') = accept_first n a k k l v units first (omega (arith, v.some_accepted)) in
    inr (l', ap (λ m. accept_loop m l) units ∙ out, v')

-- What happens at a listening socket; `a` connections were accepted.
pub data Step (l l' : Listener) (a a' : ℕ) : Type 0 where
  segment :
      (rand : ℕ) (page : ℕ → ℕ) (src : ℕ) (tcp : Header) (raw : List ℕ)
      → tcp_handle rand page l src tcp raw ≡ some l'
      → a' ≡ a
      → Step l l' a a'
  accept : (i : ℕ) → tcp_accept l ≡ accepted i l' → a' ≡ suc a → Step l l' a a'

pub data Reaches (l : Listener) : Listener → ℕ → Type 0 where
  here : {a : ℕ} → a ≡ 0 → Reaches l l a
  next : {l₁ l' : Listener} {a a' : ℕ} → Reaches l l₁ a → Step l₁ l' a a' → Reaches l l' a'

accepted_same :
    (n a i : ℕ) (l l' : Listener) → IsAnswered n a l (accepted i l') → IsQueue n (suc a) l'
accepted_same n a i l l' (inl (all, out)) = absurd cc
accepted_same n a i l l' (inr (l₁, out, v)) =
    let same : l₁ ≡ l' = cc in subst (IsQueue n (suc a)) same v

Step-IsQueue : (n a a' : ℕ) (l l' : Listener) → IsQueue n a l → Step l l' a a' → IsQueue n a' l'
Step-IsQueue n a a' l l' v (segment rand page src tcp raw e eq) =
    subst (λ b. IsQueue n b l') (sym eq) (tcp_handle-IsQueue n a rand page l l' src tcp raw v e)
Step-IsQueue n a a' l l' v (accept i e eq) =
    subst (λ b. IsQueue n b l') (sym eq)
      (accepted_same n a i l l'
        (subst (IsAnswered n a l) e (tcp_accept-IsAnswered n a (length l.socks - a) l v refl)))

tcp_listen-IsQueue :
    (port backlog : ℕ) → IsQueue (tcp_listen port backlog).backlog 0 (tcp_listen port backlog)
unfolding tcp_listen
tcp_listen-IsQueue port backlog = record {
  room = omega arith;
  waiting = refl;
  some_accepted = omega arith;
  order = refl;
  ready = tt;
}

Reaches-IsQueue :
    (n : ℕ) (l : Listener) (a : ℕ) (l' : Listener) → IsQueue n 0 l → Reaches l l' a → IsQueue n a l'
Reaches-IsQueue n l a l' v (here e) = subst (λ b. IsQueue n b l) (sym e) v
Reaches-IsQueue n l a l' v (next {l₁ = l₁} {a = b} r m) =
    Step-IsQueue n b a l₁ l' (Reaches-IsQueue n l b l₁ v r) m

-- On a listening socket, after any segments and calls of `tcp_accept`: `tcp_accept` returns the
-- connections in the order of their SYNs, each once, and sleeps only when every connection is
-- accepted; its BUG_ON holds; and no more connections are ever made than the backlog of `tcp_listen`.
pub tcp_accept-IsQueue :
    (port backlog a : ℕ) (l : Listener)
    → Reaches (tcp_listen port backlog) l a
    → IsQueue (tcp_listen port backlog).backlog a l
      × IsAnswered (tcp_listen port backlog).backlog a l (tcp_accept l)
tcp_accept-IsQueue port backlog a l r =
    let v =
      Reaches-IsQueue (tcp_listen port backlog).backlog (tcp_listen port backlog) a l
        (tcp_listen-IsQueue port backlog) r in
    (v, tcp_accept-IsAnswered (tcp_listen port backlog).backlog a (length l.socks - a) l v refl)
