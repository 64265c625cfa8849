-- ===== src/Tcp/Kept.antt =====
-- What the operations of kernel/src/net/ip/tcp.c on an open connection leave alone: the counts of its
-- opening.
use k_os.Base.{
  ℕ, ◌+◌, ◌≡◌, refl, ap, ◌∙◌, sym, Bool, true, false, ◌||◌, none, some, List, [], ◌∷◌, ltb, leb,
  ◌==◌, length, arith, Bool-cases, inl, inr, Option-cases, subst,
}
use k_os.Base.Word.{add32, sub32}
use k_os.Base.Memory.{store}
use k_os.Swap.{swap_uint32}
use k_os.Tcp.Conn.{
  State, retry, syn_sent, syn_recieved, established, fin_waita, fin_waitb, closed, Pending, Conn,
  Sock, Header, page_size, flag_ack, flag_fin, has_flag, tcp_send_control, tcp_send_ack,
  tcp_ack_recieved, count_acked,
}
use k_os.Tcp.Handle.{
  recv_store, keep_data, up_recv, recv_data, handle_flags, after_ack, handle_data,
}

-- The states behind the opening.
abbrev pub is_late : State → Bool
is_late established = true
is_late fin_waita = true
is_late fin_waitb = true
is_late closed = true
is_late retry = false
is_late syn_sent = false
is_late syn_recieved = false

-- The connection with other values of the counts that an opening changes.
pub record IsKept (s s' : Sock) : Type 0 where
  pub semaphore : s'.conn.established_semaphore ≡ s.conn.established_semaphore
  pub retrys : s'.conn.retrys ≡ s.conn.retrys
  pub timers : s'.timers ≡ s.timers
  pub connected : s'.connected ≡ s.connected
  pub same_flag : s'.is_closed ≡ s.is_closed
  pub late : is_late s'.conn.state ≡ true

-- What is put into the receive buffer changes only the buffer and its end.
recv_store_frame :
    (bs : List ℕ) (c c' : Conn)
    → recv_store bs c ≡ some c'
    → (c'.state ≡ c.state)
      × (c'.retrys ≡ c.retrys)
      × (c'.established_semaphore ≡ c.established_semaphore)
unfolding recv_store
recv_store_frame [] c c' e = (cc, cc, cc)
recv_store_frame (b ∷ bs) c c' e =
    elim (Bool-cases (c.recv_buff_front == sub32 c.recv_buff_back 1)) [
      | inl stop ↦ let e' : some c ≡ some c' = sym (rw (recv_store, stop) refl) ∙ e in (cc, cc, cc)
      | inr go ↦ elim (Bool-cases (leb page_size c.recv_buff_front)) [
        | inl full ↦ let e' : none ≡ some c' = sym (rw (recv_store, go, full) refl) ∙ e in absurd cc
        | inr more ↦
            let c₁ : Conn = record c {
              recv_buff = store c.recv_buff c.recv_buff_front b;
              recv_buff_front = add32 c.recv_buff_front 1;
            } in
            let e' : recv_store bs c₁ ≡ some c' = sym (rw (recv_store, go, more) refl) ∙ e in
            recv_store_frame bs c₁ c' e'
      ]
    ]

keep_data_frame :
    (shut : Bool) (raw : List ℕ) (c c' : Conn)
    → keep_data shut raw c ≡ some c'
    → (c'.state ≡ c.state)
      × (c'.retrys ≡ c.retrys)
      × (c'.established_semaphore ≡ c.established_semaphore)
unfolding keep_data
keep_data_frame shut raw c c' e =
    elim (Bool-cases (shut || c.recv_buff_front == sub32 c.recv_buff_back 1)) [
      | inl left_out ↦
          let e' : some c ≡ some c' = sym (rw (keep_data, left_out) refl) ∙ e in (cc, cc, cc)
      | inr go ↦
          let e' : recv_store raw c ≡ some c' = sym (rw (keep_data, go) refl) ∙ e in
          recv_store_frame raw c c' e'
    ]

recv_data-IsKept :
    (s s' : Sock) (seq : ℕ) (raw : List ℕ)
    → is_late s.conn.state ≡ true
    → recv_data s seq raw ≡ some s'
    → IsKept s s'
unfolding recv_data up_recv
recv_data-IsKept s s' seq raw late e =
    let c : Conn = record (s.conn) { next_peer_seq = add32 seq (length raw) } in
    elim (Option-cases (keep_data s.shut_rd raw c)) [
      | inl out ↦ let e' : none ≡ some s' = sym (ap (up_recv s) out) ∙ e in absurd cc
      | inr (c', kept) ↦
          let (st, tries, count) = keep_data_frame s.shut_rd raw c c' kept in
          let s₁ : Sock = record s {
            conn = record c' { recv_semaphore = c'.recv_semaphore + 1 };
          } in
          let e' : some s₁ ≡ some s' = sym (ap (up_recv s) kept) ∙ e in
          let same : s₁ ≡ s' = cc in
          subst (IsKept s) same (record {
            semaphore = count;
            retrys = tries;
            timers = refl;
            connected = refl;
            same_flag = refl;
            late = ap is_late st ∙ late;
          })
    ]

count_acked-is_late :
    (ack : ℕ) (ps : List Pending) (st : State)
    → is_late st ≡ true
    → is_late (count_acked ack ps st).1 ≡ true
unfolding count_acked
count_acked-is_late ack [] st late = late
count_acked-is_late ack (p ∷ ps) st late = elim (Bool-cases (leb ack p.seq_num)) [
  | inl stop ↦ rw stop late
  | inr go ↦ rw go (elim (Bool-cases (has_flag p.flags flag_fin)) [
    | inl fin ↦ rw fin (count_acked-is_late ack ps fin_waitb refl)
    | inr other ↦ rw other (count_acked-is_late ack ps st late)
  ])
]

tcp_ack_recieved-IsKept :
    (s : Sock) (ack : ℕ)
    → is_late s.conn.state ≡ true
    → IsKept s (record s { conn = tcp_ack_recieved s.conn ack })
unfolding tcp_ack_recieved
tcp_ack_recieved-IsKept s ack late = record {
  semaphore = refl;
  retrys = refl;
  timers = refl;
  connected = refl;
  same_flag = refl;
  late = count_acked-is_late (swap_uint32 ack) s.conn.queue s.conn.state late;
}

tcp_send_ack-IsKept : (s : Sock) (w : ℕ) → is_late s.conn.state ≡ true → IsKept s (tcp_send_ack s w)
unfolding tcp_send_ack tcp_send_control
tcp_send_ack-IsKept s w late = record {
  semaphore = refl;
  retrys = refl;
  timers = refl;
  connected = refl;
  same_flag = refl;
  late = late;
}

handle_flags-IsKept :
    (s : Sock) (tcp : Header) (len : ℕ)
    → is_late s.conn.state ≡ true
    → IsKept s (handle_flags s tcp len)
unfolding handle_flags tcp_send_ack tcp_send_control
handle_flags-IsKept s tcp len late = record {
  semaphore = ground arith;
  retrys = ground arith;
  timers = ground arith;
  connected = ground arith;
  same_flag = ground arith;
  late = ground (arith, late);
}

IsKept-trans : (s s₁ s' : Sock) → IsKept s s₁ → IsKept s₁ s' → IsKept s s'
IsKept-trans s s₁ s' a b = record {
  semaphore = b.semaphore ∙ a.semaphore;
  retrys = b.retrys ∙ a.retrys;
  timers = b.timers ∙ a.timers;
  connected = b.connected ∙ a.connected;
  same_flag = b.same_flag ∙ a.same_flag;
  late = b.late;
}

IsKept-refl : (s : Sock) → is_late s.conn.state ≡ true → IsKept s s
IsKept-refl s late = record {
  semaphore = refl;
  retrys = refl;
  timers = refl;
  connected = refl;
  same_flag = refl;
  late = late;
}

after_ack-IsKept :
    (s : Sock) (tcp : Header) → is_late s.conn.state ≡ true → IsKept s (after_ack s tcp)
after_ack-IsKept s tcp late = elim (Bool-cases (has_flag tcp.data_off_flags flag_ack)) [
  | inl e ↦ rw e (tcp_ack_recieved-IsKept s tcp.ack_num late)
  | inr e ↦ rw e (IsKept-refl s late)
]

some_same : (s s₁ s' : Sock) → IsKept s s₁ → some s₁ ≡ some s' → IsKept s s'
some_same s s₁ s' k e = let same : s₁ ≡ s' = cc in subst (IsKept s) same k

-- A segment for an open connection.
pub handle_data-IsKept :
    (s s' : Sock) (tcp : Header) (raw : List ℕ)
    → is_late s.conn.state ≡ true
    → handle_data s tcp raw ≡ some s'
    → IsKept s s'
unfolding handle_data
handle_data-IsKept s s' tcp raw late e =
    let seq = swap_uint32 tcp.seq_num in
    let s₁ = after_ack s tcp in
    let k = after_ack-IsKept s tcp late in
    let via : (t : Sock) → IsKept s₁ t → some t ≡ some s' → IsKept s s' =
      λ t k' e'. some_same s t s' (IsKept-trans s s₁ t k k') e' in
    elim (Bool-cases (ltb 0 (length raw))) [
      | inr bare ↦
          let e' : some (handle_flags s₁ tcp 0) ≡ some s' = sym (rw (handle_data, bare) refl) ∙ e in
          via (handle_flags s₁ tcp 0) (handle_flags-IsKept s₁ tcp 0 k.late) e'
      | inl filled ↦ elim (Bool-cases (ltb seq s₁.conn.next_peer_seq)) [
        | inl old ↦
            let e' : some s₁ ≡ some s' = sym (rw (handle_data, filled, old) refl) ∙ e in
            via s₁ (IsKept-refl s₁ k.late) e'
        | inr new ↦ elim (Bool-cases (ltb s₁.conn.next_peer_seq seq)) [
          | inl early ↦
              let e' : some (tcp_send_ack s₁ tcp.window_size) ≡ some s' =
                sym (rw (handle_data, filled, new, early) refl) ∙ e in
              via (tcp_send_ack s₁ tcp.window_size) (tcp_send_ack-IsKept s₁ tcp.window_size k.late)
                e'
          | inr at ↦ elim (Option-cases (recv_data s₁ seq raw)) [
            | inl out ↦
                let e' : none ≡ some s' = sym (rw (handle_data, filled, new, at, out) refl) ∙ e in
                absurd cc
            | inr (s₂, got) ↦
                let k' = recv_data-IsKept s₁ s₂ seq raw k.late got in
                let e' : some (handle_flags s₂ tcp (length raw)) ≡ some s' =
                  sym (rw (handle_data, filled, new, at, got) refl) ∙ e in
                via (handle_flags s₂ tcp (length raw))
                  (IsKept-trans s₁ s₂ (handle_flags s₂ tcp (length raw)) k'
                    (handle_flags-IsKept s₂ tcp (length raw) k'.late))
                  e'
          ]
        ]
      ]
    ]
