-- ===== src/Tcp/Refused.antt =====
-- How an opening of kernel/src/net/ip/tcp.c that is refused ends.
use k_os.Base.{
  ℕ, ◌+◌, ◌-◌, ◌%◌, ◌≤◌, ◌<◌, ◌≡◌, ap, ◌∙◌, true, false, ◌&&◌, List, [], ◌∷◌, ltb, length, All,
  arith, Bool-cases, inl, inr,
}
use k_os.Tcp.Conn.{
  syn_sent, closed, Sock, Header, flag_ack, flag_syn, has_flag, tcp_reset, tcp_send_control,
  tcp_send_rst, tcp_queue_add, tcp_queue_send,
}
use k_os.Tcp.Handle.{retry_syn, syn_retrys, handle_syn_sent}
use k_os.Tcp.Calls.{tcp_resend_syn}

-- The timer fires.
abbrev pub fire : Sock → Sock
fire s = tcp_resend_syn (record s { timers = s.timers - 1 })

-- Segments that arrive one by one at an opening connection, each followed by the timer that it sets.
abbrev pub attempts : List (ℕ × Header) → Sock → Sock
attempts [] s = s
attempts ((rand, tcp) ∷ rest) s = attempts rest (fire (handle_syn_sent rand s tcp []))

-- A segment that does not answer the SYN.
abbrev pub IsRefusal : ℕ × Header → Type 0
IsRefusal (rand, tcp) =
    has_flag tcp.data_off_flags flag_ack && has_flag tcp.data_off_flags flag_syn ≡ false

attempt_last :
    (rand : ℕ) (tcp : Header) (s : Sock)
    → IsRefusal (rand, tcp)
    → s.conn.retrys ≡ syn_retrys
    → ((fire (handle_syn_sent rand s tcp [])).conn.state ≡ closed)
      × ((fire (handle_syn_sent rand s tcp [])).conn.established_semaphore
          ≡ s.conn.established_semaphore + 1)
unfolding handle_syn_sent retry_syn tcp_resend_syn
attempt_last rand tcp s refused last =
    let over : ltb syn_retrys ((s.conn.retrys + 1) % 256) ≡ true = ground arith in
    simp (handle_syn_sent, refused, over)
      (elim (Bool-cases s.is_closed) [
        | inl e ↦ (ground (arith, e), ground (arith, e))
        | inr e ↦ (ground (arith, e), ground (arith, e))
      ])

attempt_more :
    (rand : ℕ) (tcp : Header) (s : Sock)
    → IsRefusal (rand, tcp)
    → s.is_closed ≡ false
    → s.conn.retrys < syn_retrys
    → ((fire (handle_syn_sent rand s tcp [])).conn.state ≡ syn_sent)
      × ((fire (handle_syn_sent rand s tcp [])).is_closed ≡ false)
      × ((fire (handle_syn_sent rand s tcp [])).conn.retrys ≡ s.conn.retrys + 1)
      × ((fire (handle_syn_sent rand s tcp [])).conn.established_semaphore
          ≡ s.conn.established_semaphore)
unfolding handle_syn_sent retry_syn tcp_resend_syn tcp_send_rst tcp_send_control tcp_reset
    tcp_queue_add tcp_queue_send
attempt_more rand tcp s refused alive more =
    (ground arith, ground arith, ground arith, ground arith)

-- An opening whose SYN is refused six times in all, counted by `retrys`, ends: the connection is
-- closed and its owner is woken, whatever the six segments are, as long as none has both ACK and SYN.
pub attempts_lem :
    (hs : List (ℕ × Header)) (s : Sock)
    → s.conn.state ≡ syn_sent
    → s.is_closed ≡ false
    → s.conn.retrys + length hs ≡ syn_retrys + 1
    → s.conn.retrys ≤ syn_retrys
    → All IsRefusal hs
    → ((attempts hs s).conn.state ≡ closed)
      × ((attempts hs s).conn.established_semaphore ≡ s.conn.established_semaphore + 1)
attempts_lem [] s st alive count few refused = absurd (omega arith)
attempts_lem ((rand, tcp) ∷ []) s st alive count few (refused, rest) =
    attempt_last rand tcp s refused (omega arith)
attempts_lem ((rand, tcp) ∷ h ∷ hs) s st alive count few (refused, rest) =
    let (st', alive', tries, sem) = attempt_more rand tcp s refused alive (omega arith) in
    let (over, woken) =
      attempts_lem (h ∷ hs) (fire (handle_syn_sent rand s tcp [])) st' alive' (omega (arith, tries))
        (omega (arith, tries)) rest in
    (over, woken ∙ ap (λ n. n + 1) sem)
