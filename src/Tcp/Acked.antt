-- ===== src/Tcp/Acked.antt =====
-- `tcp_ack_recieved` of kernel/src/net/ip/tcp.c on the queue of sent segments.
use k_os.Base.{
  ℕ, ◌≤◌, ◌<◌, ◌≡◌, refl, ap, List, [], ◌∷◌, ◌++◌, leb, if◌then◌else◌, drop, All, arith, Bool-cases,
  inl, inr, leb→le,
}
use k_os.Swap.{swap_uint32}
use k_os.Tcp.Conn.{
  State, fin_waitb, Pending, Conn, flag_fin, has_flag, count_acked, tcp_ack_recieved,
}

-- The state when `ps` are acknowledged: a FIN among them makes it TCP_FIN_WAITB.
abbrev pub state_after : List Pending → State → State
state_after [] st = st
state_after (p ∷ ps) st = state_after ps (if has_flag p.flags flag_fin then fin_waitb else st)

-- No segment, or one whose number as it is stored is not below the acknowledged one.
abbrev pub IsUnacked : ℕ → List Pending → Type 0
IsUnacked ack [] = Unit
IsUnacked ack (p ∷ ps) = ack ≤ p.seq_num

pub record IsSplit (ack : ℕ) (queue : List Pending) (st : State) (out : ℕ × State) : Type 0 where
  pub acked : List Pending
  pub left : List Pending
  pub whole : queue ≡ acked ++ left
  pub count : drop out.0 queue ≡ left
  pub below : All (λ p. p.seq_num < ack) acked
  pub first : IsUnacked ack left
  pub state : out.1 ≡ state_after acked st

count_acked-IsSplit :
    (ack : ℕ) (queue : List Pending) (st : State) → IsSplit ack queue st (count_acked ack queue st)
unfolding count_acked
count_acked-IsSplit ack [] st = record {
  acked = [];
  left = [];
  whole = refl;
  count = refl;
  below = tt;
  first = tt;
  state = refl;
}
count_acked-IsSplit ack (p ∷ ps) st = elim (Bool-cases (leb ack p.seq_num)) [
  | inl stop ↦ rw stop (record {
    acked = [];
    left = p ∷ ps;
    whole = refl;
    count = refl;
    below = tt;
    first = leb→le ack p.seq_num stop;
    state = refl;
  })
  | inr go ↦
      let rest = count_acked-IsSplit ack ps (if has_flag p.flags flag_fin then fin_waitb else st) in
      rw go (record {
        acked = p ∷ rest.acked;
        left = rest.left;
        whole = ap (◌∷◌ p) rest.whole;
        count = rest.count;
        below = (ground arith, rest.below);
        first = rest.first;
        state = rest.state;
      })
]

-- `tcp_ack_recieved` takes off the queue the longest run of segments from its front whose stored
-- numbers are below the acknowledged one; when one of them is a FIN the state is TCP_FIN_WAITB, and
-- otherwise as before.
pub tcp_ack_recieved_lem :
    (c : Conn) (ack_num : ℕ)
    → (acked left : List Pending) × (c.queue ≡ acked ++ left)
      × All (λ p. p.seq_num < swap_uint32 ack_num) acked
      × IsUnacked (swap_uint32 ack_num) left
      × (tcp_ack_recieved c ack_num ≡ record c { state = state_after acked c.state; queue = left })
unfolding tcp_ack_recieved
tcp_ack_recieved_lem c ack_num =
    let split = count_acked-IsSplit (swap_uint32 ack_num) c.queue c.state in
    (
      split.acked,
      split.left,
      split.whole,
      split.below,
      split.first,
      rw (split.count, split.state) refl,
    )
