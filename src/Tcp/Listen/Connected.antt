-- ===== src/Tcp/Listen/Connected.antt =====
-- The flag SOCK_FLAG_CONNECTED of the connections of a listening socket of kernel/src/net/ip/tcp.c,
-- which no segment takes away.
use k_os.Base.{
  ℕ, zero, suc, ◌<◌, ◌≡◌, refl, ap, ◌∙◌, sym, subst, true, Option, none, some, List, [], ◌∷◌, ◌++◌,
  length, get_elem?, set, All, arith, Bool-cases, Option-cases, inl, inr,
}
use k_os.Tcp.Conn.{
  State, retry, syn_sent, syn_recieved, established, fin_waita, fin_waitb, closed, Sock, Header,
  tcp_reset, tcp_send_control, tcp_send_ack, tcp_send_rst, tcp_ack_recieved,
}
use k_os.Tcp.Handle.{handle_syn_ack, retry_syn, handle_syn_sent, handle_syn_recieved, handle_in}
use k_os.Tcp.Kept.{is_late, handle_data-IsKept}
use k_os.Tcp.Listen.{is_for, find_child}

module _ {A : Type 0} (P : A → Type 0) where
  pub All-append : (xs : List A) (y : A) → All P xs → P y → All P (xs ++ (y ∷ []))
  All-append [] y vs v = (v, tt)
  All-append (x ∷ xs) y (w, vs) v = (w, All-append xs y vs v)

  pub All-set : (xs : List A) (i : ℕ) (y : A) → All P xs → P y → All P (set xs i y)
  All-set [] i y vs v = tt
  All-set (x ∷ xs) zero y (w, vs) v = (v, vs)
  All-set (x ∷ xs) (suc i) y (w, vs) v = (w, All-set xs i y vs v)

  pub get_elem?-All :
      (xs : List A) (i : ℕ) → All P xs → i < length xs → (x : A) × (get_elem? xs i ≡ some x) × P x
  get_elem?-All [] i vs h = absurd (omega arith)
  get_elem?-All (x ∷ xs) zero (v, vs) h = (x, refl, v)
  get_elem?-All (x ∷ xs) (suc i) (v, vs) h = get_elem?-All xs i vs (omega arith)

abbrev pub IsConnected : Sock → Type 0
IsConnected s = s.connected ≡ true

pub All-get :
    (xs : List Sock) (i : ℕ) (x : Sock)
    → All (λ t. t.connected ≡ true) xs
    → get_elem? xs i ≡ some x
    → x.connected ≡ true
All-get [] i x vs e = absurd cc
All-get (y ∷ ys) zero x (v, vs) e = let same : y ≡ x = cc in subst IsConnected same v
All-get (y ∷ ys) (suc i) x (v, vs) e = All-get ys i x vs e

syn_sent-connected :
    (rand : ℕ) (s : Sock) (tcp : Header) (raw : List ℕ)
    → s.connected ≡ true
    → (handle_syn_sent rand s tcp raw).connected ≡ true
unfolding handle_syn_sent handle_syn_ack retry_syn tcp_send_ack tcp_send_rst tcp_send_control
    tcp_reset tcp_ack_recieved
syn_sent-connected rand s tcp raw e = ground (arith, e)

syn_recieved-connected :
    (s : Sock) (tcp : Header) → s.connected ≡ true → (handle_syn_recieved s tcp).connected ≡ true
unfolding handle_syn_recieved
syn_recieved-connected s tcp e = ground (arith, e)

pub handle_in-connected :
    (st : State) (rand : ℕ) (s s' : Sock) (tcp : Header) (raw : List ℕ)
    → s.conn.state ≡ st
    → s.connected ≡ true
    → handle_in st rand s tcp raw ≡ some s'
    → s'.connected ≡ true
unfolding handle_in
handle_in-connected syn_sent rand s s' tcp raw e on out =
    let same : handle_syn_sent rand s tcp raw ≡ s' = cc in
    subst IsConnected same (syn_sent-connected rand s tcp raw on)
handle_in-connected syn_recieved rand s s' tcp raw e on out =
    let same : handle_syn_recieved s tcp ≡ s' = cc in
    subst IsConnected same (syn_recieved-connected s tcp on)
handle_in-connected fin_waita rand s s' tcp raw e on out =
    (handle_data-IsKept s s' tcp raw (ap is_late e) out).connected ∙ on
handle_in-connected fin_waitb rand s s' tcp raw e on out =
    (handle_data-IsKept s s' tcp raw (ap is_late e) out).connected ∙ on
handle_in-connected established rand s s' tcp raw e on out =
    (handle_data-IsKept s s' tcp raw (ap is_late e) out).connected ∙ on
handle_in-connected retry rand s s' tcp raw e on out =
    let same : s ≡ s' = cc in subst IsConnected same on
handle_in-connected closed rand s s' tcp raw e on out =
    let same : s ≡ s' = cc in subst IsConnected same on

pub find_child-connected :
    (src : ℕ) (tcp : Header) (socks : List Sock) (is : List ℕ) (i : ℕ) (s : Sock)
    → All (λ t. t.connected ≡ true) socks
    → find_child src tcp socks is ≡ some (i, s)
    → s.connected ≡ true
unfolding find_child
find_child-connected src tcp socks [] i s v e = absurd cc
find_child-connected src tcp socks (j ∷ js) i s v e = elim (Option-cases (get_elem? socks j)) [
  | inl out ↦
      let e' : ◌≡◌ {A = Option (ℕ × Sock)} none (some (i, s)) =
        sym (rw (find_child, out) refl) ∙ e in
      absurd cc
  | inr (t, there) ↦ elim (Bool-cases (is_for src tcp t)) [
    | inl mine ↦
        let e' : ◌≡◌ {A = Option (ℕ × Sock)} (some (j, t)) (some (i, s)) =
          sym (rw (find_child, there, mine) refl) ∙ e in
        let same : t ≡ s = cc in subst IsConnected same (All-get socks j t v there)
    | inr other ↦
        let e' : find_child src tcp socks js ≡ some (i, s) =
          sym (rw (find_child, there, other) refl) ∙ e in
        find_child-connected src tcp socks js i s v e'
  ]
]
