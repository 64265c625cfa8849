-- ===== src/Tcp/Handshake.antt =====
-- The opening of a connection by `tcp_connect` of kernel/src/net/ip/tcp.c, as steps: segments that
-- arrive, packets that fail, the timer, and the calls of the owner, which kernel/src/net/socket.c
-- makes only where the socket is connected.
use k_os.Base.{
  ℕ, ◌+◌, ◌-◌, ◌≤◌, ◌<◌, ◌≡◌, refl, ap, ◌∙◌, sym, subst, Bool, true, false, ◌||◌, ◌&&◌, not, some,
  List, if◌then◌else◌, arith,
}
use k_os.Tcp.Conn.{
  State, retry, syn_sent, syn_recieved, established, fin_waita, fin_waitb, closed, Sock, Header,
  tcp_callback, tcp_reset, tcp_send_control, tcp_send_ack, tcp_send_rst, tcp_ack_recieved,
}
use k_os.Tcp.Handle.{
  handle_syn_ack, retry_syn, syn_retrys, handle_syn_sent, handle_in, tcp_sock_handle,
}
use k_os.Tcp.Calls.{is_closed_state, tcp_resend_syn, tcp_shutdown, tcp_send}
use k_os.Tcp.Kept.{is_late, IsKept, handle_data-IsKept}

-- What can happen to a connection.
pub data Step (s s' : Sock) : Type 0 where
  segment :
      (rand : ℕ) (tcp : Header) (raw : List ℕ)
      → tcp_sock_handle rand s tcp raw ≡ some s'
      → Step s s'
  sent : (success : Bool) → s' ≡ record s { conn = tcp_callback success s.conn } → Step s s'
  timer : 0 < s.timers → s' ≡ tcp_resend_syn (record s { timers = s.timers - 1 }) → Step s s'
  shutdown : (rd wr : Bool) → s.connected ≡ true → s' ≡ (tcp_shutdown s rd wr).1 → Step s s'
  send : (buff : List ℕ) → s.connected ≡ true → s' ≡ (tcp_send s buff).1 → Step s s'

-- What one connection can become.
pub data Reaches (s : Sock) : Sock → Type 0 where
  here : Reaches s s
  step : {s₁ s' : Sock} → Reaches s s₁ → Step s₁ s' → Reaches s s'

abbrev pub is_opening : State → Bool
is_opening syn_sent = true
is_opening retry = true
is_opening syn_recieved = false
is_opening established = false
is_opening fin_waita = false
is_opening fin_waitb = false
is_opening closed = false

abbrev pub is_retry : State → Bool
is_retry retry = true
is_retry syn_sent = false
is_retry syn_recieved = false
is_retry established = false
is_retry fin_waita = false
is_retry fin_waitb = false
is_retry closed = false

abbrev pub count_of : Bool → ℕ
count_of b = if b then 1 else 0

-- Of a socket that is not closed: its owner in `tcp_connect` is woken once, when the opening is over; the timer is set exactly
-- while a SYN waits to be sent again; and no more than six attempts fail.
pub record IsOpeningIn (s : Sock) (st : State) : Type 0 where
  pub in_use : s.is_closed ≡ false
  pub own : is_opening st || is_late st ≡ true
  pub woken : s.conn.established_semaphore ≡ count_of (not (is_opening st))
  pub waiting : s.timers ≡ count_of (is_retry st)
  pub not_yet : s.connected ≡ true → is_late st ≡ true
  pub tries : s.conn.retrys ≤ syn_retrys + count_of (is_closed_state st && not s.connected)

abbrev pub IsOpening : Sock → Type 0
IsOpening s = IsOpeningIn s s.conn.state

handle_syn_sent-IsOpening :
    (rand : ℕ) (s : Sock) (tcp : Header) (raw : List ℕ)
    → IsOpeningIn s syn_sent
    → IsOpening (handle_syn_sent rand s tcp raw)
unfolding handle_syn_sent handle_syn_ack retry_syn tcp_send_ack tcp_send_rst tcp_send_control
    tcp_reset tcp_ack_recieved
handle_syn_sent-IsOpening rand s tcp raw v = record {
  in_use = ground (arith, v.in_use);
  own = ground arith;
  woken = ground (arith, v.woken);
  waiting = ground (arith, v.waiting);
  not_yet = ground (arith, v.not_yet);
  tries = ground (arith, v.tries, v.not_yet);
}

pub late_counts : (st : State) → is_late st ≡ true → (is_opening st ≡ false) × (is_retry st ≡ false)
late_counts established e = (refl, refl)
late_counts fin_waita e = (refl, refl)
late_counts fin_waitb e = (refl, refl)
late_counts closed e = (refl, refl)
late_counts retry e = absurd (ground arith)
late_counts syn_sent e = absurd (ground arith)
late_counts syn_recieved e = absurd (ground arith)

-- A step behind the opening that leaves its counts alone.
IsKept-IsOpening :
    (s s' : Sock) (st : State)
    → is_late st ≡ true
    → is_closed_state st && not s.connected ≡ false
    → IsOpeningIn s st
    → IsKept s s'
    → IsOpening s'
IsKept-IsOpening s s' st late alive v k =
    let (opening, waits) = late_counts st late in
    let (opening', waits') = late_counts s'.conn.state k.late in
    record {
      in_use = k.same_flag ∙ v.in_use;
      own = rw (opening', k.late) refl;
      woken = k.semaphore ∙ v.woken ∙ rw (opening, opening') refl;
      waiting = k.timers ∙ v.waiting ∙ rw (waits, waits') refl;
      not_yet = λ e. k.late;
      tries = ground (arith, v.tries, k.retrys, alive);
    }

pub handle_in-IsOpening :
    (st : State) (rand : ℕ) (s s' : Sock) (tcp : Header) (raw : List ℕ)
    → s.conn.state ≡ st
    → IsOpeningIn s st
    → handle_in st rand s tcp raw ≡ some s'
    → IsOpening s'
unfolding handle_in
handle_in-IsOpening syn_sent rand s s' tcp raw e v out =
    let same : handle_syn_sent rand s tcp raw ≡ s' = cc in
    subst IsOpening same (handle_syn_sent-IsOpening rand s tcp raw v)
handle_in-IsOpening syn_recieved rand s s' tcp raw e v out = absurd (ground (arith, v.own))
handle_in-IsOpening fin_waita rand s s' tcp raw e v out =
    let late = ap is_late e in
    IsKept-IsOpening s s' fin_waita refl refl v (handle_data-IsKept s s' tcp raw late out)
handle_in-IsOpening fin_waitb rand s s' tcp raw e v out =
    let late = ap is_late e in
    IsKept-IsOpening s s' fin_waitb refl refl v (handle_data-IsKept s s' tcp raw late out)
handle_in-IsOpening established rand s s' tcp raw e v out =
    let late = ap is_late e in
    IsKept-IsOpening s s' established refl refl v (handle_data-IsKept s s' tcp raw late out)
handle_in-IsOpening retry rand s s' tcp raw e v out =
    let same : s ≡ s' = cc in subst IsOpening same (subst (IsOpeningIn s) (sym e) v)
handle_in-IsOpening closed rand s s' tcp raw e v out =
    let same : s ≡ s' = cc in subst IsOpening same (subst (IsOpeningIn s) (sym e) v)
