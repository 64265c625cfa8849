-- ===== src/Tcp/Opening.antt =====
-- What holds of every connection that `tcp_connect` of kernel/src/net/ip/tcp.c opens, whatever
-- arrives.
use k_os.Base.{
  ℕ, ◌+◌, ◌-◌, ◌<◌, ◌≡◌, refl, ap, ◌∙◌, sym, subst, Bool, true, false, ◌&&◌, not, List, arith,
  Bool-cases, inl, inr,
}
use k_os.Tcp.Conn.{
  State, retry, syn_sent, syn_recieved, established, fin_waita, fin_waitb, closed, Conn, Sock,
  tcp_callback, is_syn_sent, tcp_reset, tcp_queue_add, tcp_queue_send,
}
use k_os.Tcp.Handle.{tcp_sock_handle}
use k_os.Tcp.Calls.{is_closed_state, tcp_resend_syn, tcp_connect, tcp_shutdown, tcp_send}
use k_os.Tcp.Handshake.{
  Step, segment, sent, timer, shutdown, send, Reaches, here, step, is_retry, IsOpeningIn, IsOpening,
  late_counts, handle_in-IsOpening,
}

tcp_connect-IsOpening :
    (rand : ℕ) (page : ℕ → ℕ) (s : Sock) (ip port : ℕ)
    → s.connected ≡ false
    → s.timers ≡ 0
    → s.is_closed ≡ false
    → IsOpening (tcp_connect rand page s ip port)
unfolding tcp_connect tcp_queue_add tcp_queue_send tcp_reset
tcp_connect-IsOpening rand page s ip port idle still in_use = record {
  in_use = in_use;
  own = refl;
  woken = refl;
  waiting = still;
  not_yet = λ e. ground (arith, idle, e);
  tries = omega arith;
}

is_syn_sent_only : (st : State) → is_syn_sent st ≡ true → st ≡ syn_sent
is_syn_sent_only syn_sent e = refl
is_syn_sent_only retry e = absurd (ground arith)
is_syn_sent_only syn_recieved e = absurd (ground arith)
is_syn_sent_only established e = absurd (ground arith)
is_syn_sent_only fin_waita e = absurd (ground arith)
is_syn_sent_only fin_waitb e = absurd (ground arith)
is_syn_sent_only closed e = absurd (ground arith)

is_retry_only : (st : State) → is_retry st ≡ true → st ≡ retry
is_retry_only retry e = refl
is_retry_only syn_sent e = absurd (ground arith)
is_retry_only syn_recieved e = absurd (ground arith)
is_retry_only established e = absurd (ground arith)
is_retry_only fin_waita e = absurd (ground arith)
is_retry_only fin_waitb e = absurd (ground arith)
is_retry_only closed e = absurd (ground arith)

sent-IsOpening :
    (s : Sock) (st : State) (success : Bool)
    → s.conn.state ≡ st
    → IsOpeningIn s st
    → IsOpening (record s { conn = tcp_callback success s.conn })
unfolding tcp_callback
sent-IsOpening s st success e v = elim (Bool-cases (is_syn_sent s.conn.state && not success)) [
  | inr other ↦
      let same : tcp_callback success s.conn ≡ s.conn = rw other refl in
      subst (λ c. IsOpening (record s { conn = c })) (sym same) (subst (IsOpeningIn s) (sym e) v)
  | inl failed ↦
      let at : st ≡ syn_sent = sym e ∙ is_syn_sent_only s.conn.state (ground arith) in
      let w = subst (IsOpeningIn s) at v in
      let c : Conn = record (s.conn) {
        state = closed;
        established_semaphore = s.conn.established_semaphore + 1;
      } in
      let same : tcp_callback success s.conn ≡ c = rw failed refl in
      subst (λ c. IsOpening (record s { conn = c })) (sym same)
        (record {
          in_use = w.in_use;
          own = refl;
          woken = omega (arith, w.woken);
          waiting = w.waiting;
          not_yet = λ e. refl;
          tries = ground (arith, w.tries);
        })
]

timer-IsOpening :
    (s : Sock) (st : State)
    → s.conn.state ≡ st
    → IsOpeningIn s st
    → 0 < s.timers
    → IsOpening (tcp_resend_syn (record s { timers = s.timers - 1 }))
unfolding tcp_resend_syn tcp_queue_add tcp_queue_send
timer-IsOpening s st e v set =
    let at : st ≡ retry = is_retry_only st (ground (arith, v.waiting)) in
    let w = subst (IsOpeningIn s) at v in
    let waits : is_closed_state s.conn.state ≡ false = ap is_closed_state (e ∙ at) in
    record {
      in_use = ground (arith, w.in_use);
      own = ground (arith, waits, w.in_use);
      woken = ground (arith, waits, w.in_use, w.woken);
      waiting = ground (arith, waits, w.in_use, w.waiting);
      not_yet = ground (arith, waits, w.in_use, w.not_yet);
      tries = ground (arith, waits, w.in_use, w.tries);
    }

shutdown-IsOpening :
    (s : Sock) (rd wr : Bool)
    → IsOpening s
    → s.connected ≡ true
    → IsOpening (tcp_shutdown s rd wr).1
unfolding tcp_shutdown tcp_queue_add tcp_queue_send
shutdown-IsOpening s rd wr v on =
    let late = v.not_yet on in
    let (opening, waits) = late_counts s.conn.state late in
    record {
      in_use = ground (arith, v.in_use);
      own = ground (arith, late);
      woken = ground (arith, v.woken, opening);
      waiting = ground (arith, v.waiting, waits);
      not_yet = ground (arith, late);
      tries = ground (arith, v.tries, on);
    }

send-IsOpening : (s : Sock) (buff : List ℕ) → IsOpening s → IsOpening (tcp_send s buff).1
unfolding tcp_send tcp_queue_add tcp_queue_send
send-IsOpening s buff v = record {
  in_use = ground (arith, v.in_use);
  own = ground (arith, v.own);
  woken = ground (arith, v.woken);
  waiting = ground (arith, v.waiting);
  not_yet = ground (arith, v.not_yet);
  tries = ground (arith, v.tries);
}

Step-IsOpening : (s s' : Sock) → IsOpening s → Step s s' → IsOpening s'
unfolding tcp_sock_handle
Step-IsOpening s s' v (segment rand tcp raw e) =
    handle_in-IsOpening s.conn.state rand s s' tcp raw refl v e
Step-IsOpening s s' v (sent success e) =
    subst IsOpening (sym e) (sent-IsOpening s s.conn.state success refl v)
Step-IsOpening s s' v (timer set e) =
    subst IsOpening (sym e) (timer-IsOpening s s.conn.state refl v set)
Step-IsOpening s s' v (shutdown rd wr on e) =
    subst IsOpening (sym e) (shutdown-IsOpening s rd wr v on)
Step-IsOpening s s' v (send buff on e) = subst IsOpening (sym e) (send-IsOpening s buff v)

Reaches-IsOpening : (s s' : Sock) → IsOpening s → Reaches s s' → IsOpening s'
Reaches-IsOpening s s' v here = v
Reaches-IsOpening s s' v (step {s₁} r m) = Step-IsOpening s₁ s' (Reaches-IsOpening s s₁ v r) m

-- Whatever happens to a connection that `tcp_connect` has opened on a socket that was not connected,
-- is not closed and had no timer: its owner is woken once, when the opening is over; the timer is set
-- exactly while a SYN waits to be sent again; the socket is connected only behind the opening; at most
-- five attempts have failed, or six and it is closed.
pub connect-IsOpening :
    (rand : ℕ) (page : ℕ → ℕ) (s s' : Sock) (ip port : ℕ)
    → s.connected ≡ false
    → s.timers ≡ 0
    → s.is_closed ≡ false
    → Reaches (tcp_connect rand page s ip port) s'
    → IsOpening s'
connect-IsOpening rand page s s' ip port idle still in_use r =
    Reaches-IsOpening (tcp_connect rand page s ip port) s'
      (tcp_connect-IsOpening rand page s ip port idle still in_use) r
