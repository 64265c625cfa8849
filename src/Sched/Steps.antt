-- ===== src/Sched/Steps.antt =====
-- Runs of kernel/src/sched/sched.c: the critical sections of all processors in any order.
use k_os.Base.{
  ℕ, ◌<◌, ◌≡◌, ◌≢◌, ◌⊎◌, refl, ◌∙◌, sym, subst, true, false, Option, none, some, List, [], ◌∷◌, All,
  Bool-cases, inl, inr, arith,
}
use mathlib.Core.Option.{some-injective, none-ne-some}
use k_os.Sched.{
  ThreadState, building, awake, sleeping, exited, idle, Thread, Sched, mem, do_wake, thread_poke,
  thread_schedule, thread_mark_die, thread_sleep_prepare, suspend_pending, mark_exited,
  do_sched_switch, sched_interrupt_notify,
}
use k_os.Sched.Invariant.{is_runnable, IsSched}
use k_os.Sched.Wakes.{IsWakeable, woken, do_wake-IsWoken, thread_poke-IsSched}
use k_os.Sched.Sleeps.{
  thread_schedule-IsSched, thread_sleep_prepare-IsSched, suspend_pending-IsSched,
  thread_mark_die-IsSched, mark_exited-IsSched,
}
use k_os.Sched.Notify.{sched_interrupt_notify-IsSched}
use k_os.Sched.Fails.{
  thread_sleep_prepare-awake, thread_schedule-queued_threads, thread_schedule-threads,
  suspend_pending-poll_threads, suspend_pending-awake,
}
use k_os.Sched.Switch.{do_sched_switch-IsSched}

-- A critical section on one of `n` processors that has a result. An idle thread is neither scheduled
-- nor ended.
pub data Step (n : ℕ) : Sched → Sched → Type 0 where
  wakes : {s s' : Sched} → (t : ℕ) → do_wake s t ≡ some s' → Step n s s'
  pokes : {s s' : Sched} → (t : ℕ) → thread_poke s t ≡ some s' → Step n s s'
  schedules :
      {s s' : Sched}
      → (t : ℕ) → (s.thread t).state ≢ idle
      → thread_schedule s t ≡ some s'
      → Step n s s'
  marks : {s : Sched} → (t : ℕ) → Step n s (thread_mark_die s t)
  sleeps : {s s' : Sched} → (c : ℕ) → c < n → thread_sleep_prepare s c ≡ some s' → Step n s s'
  suspends : {s s' : Sched} → (c : ℕ) → c < n → suspend_pending s c ≡ some s' → Step n s s'
  ends :
      {s : Sched}
      → (c : ℕ) → c < n
      → (s.thread (s.current c)).state ≢ idle
      → Step n s (mark_exited s c)
  switches : {s s' : Sched} → (c now : ℕ) → c < n → do_sched_switch s c now ≡ some s' → Step n s s'
  notifies : {s s' : Sched} → sched_interrupt_notify s ≡ some s' → Step n s s'

-- Steps in a row.
pub data Run (n : ℕ) : Sched → Sched → Type 0 where
  stays : {s : Sched} → Run n s s
  goes : {s s' s'' : Sched} → Step n s s' → Run n s' s'' → Run n s s''

-- A thread that runs nowhere and is neither awake nor asleep.
pub record IsOut (th : Thread) : Type 0 where
  pub off : th.active ≡ false
  pub up : th.state ≢ awake
  pub slept : th.state ≢ sleeping

-- Whether a step wakes such a thread, alone or among the threads of `poll_threads`.
unfoldable pub WakesOut : (n : ℕ) (s s' : Sched) → Step n s s' → Type 0
WakesOut n s s' (wakes t e) = IsOut (s.thread t)
WakesOut n s s' (notifies e) = (t : ℕ) × (mem t s.poll_threads ≡ true) × IsOut (s.thread t)
WakesOut n s s' (pokes t e) = ⊥
WakesOut n s s' (schedules t i e) = ⊥
WakesOut n s s' (marks t) = ⊥
WakesOut n s s' (sleeps c l e) = ⊥
WakesOut n s s' (suspends c l e) = ⊥
WakesOut n s s' (ends c l i) = ⊥
WakesOut n s s' (switches c now l e) = ⊥

-- Whether a run has such a step, with the invariant before it.
unfoldable pub MeetsOut : (n : ℕ) (s s' : Sched) → Run n s s' → Type 0
MeetsOut n s s' stays = ⊥
MeetsOut n s s' (goes {s' = s₁} step rest) =
    (IsSched n s × WakesOut n s s₁ step) ⊎ MeetsOut n s₁ s' rest

-- The one result of an operation.
result : (P : Sched → Type 0) (r : Option Sched) (a b : Sched) → r ≡ some a → r ≡ some b → P a → P b
result P r a b e e' v = subst P (some-injective a b (sym e ∙ e')) v

IsWakeable-cases : (th : Thread) → IsWakeable th ⊎ IsOut th
IsWakeable-cases th = go th.state refl
  where
    other : th.state ≢ awake → th.state ≢ sleeping → IsWakeable th ⊎ IsOut th
    other a b = elim (Bool-cases th.active) [
      | inl on ↦ inl (inr (inr on))
      | inr off ↦ inr (record { off = off; up = a; slept = b })
    ]

    go : (st : ThreadState) → th.state ≡ st → IsWakeable th ⊎ IsOut th
    go awake e = inl (inl e)
    go sleeping e = inl (inr (inl e))
    go building e = other (λ b. ground (arith, e, b)) (λ b. ground (arith, e, b))
    go exited e = other (λ b. ground (arith, e, b)) (λ b. ground (arith, e, b))
    go idle e = other (λ b. ground (arith, e, b)) (λ b. ground (arith, e, b))

-- All threads of a list may be woken, or one is out.
every-IsWakeable :
    (thread : ℕ → Thread) (ts : List ℕ)
    → All (λ (t : ℕ). IsWakeable (thread t)) ts ⊎ ((t : ℕ) × (mem t ts ≡ true) × IsOut (thread t))
unfolding mem
every-IsWakeable thread [] = inl tt
every-IsWakeable thread (t ∷ ts) = elim (IsWakeable-cases (thread t)) [
  | inr out ↦ inr (t, ground arith, out)
  | inl w ↦ elim (every-IsWakeable thread ts) [
    | inl ws ↦ inl (w, ws)
    | inr (u, m, out) ↦ inr (u, ground (arith, m), out)
  ]
]

-- What has no result is no step.
no_result : {A : Type 0} (r : Option Sched) (b : Sched) → r ≡ none → r ≡ some b → A
no_result r b f e = absurd (none-ne-some b (sym f ∙ e))

thread_schedule-step :
    (n : ℕ) (s s' : Sched) (t : ℕ)
    → IsSched n s
    → (s.thread t).state ≢ idle
    → thread_schedule s t ≡ some s'
    → IsSched n s'
thread_schedule-step n s s' t v i e = elim (Bool-cases (mem t s.threads)) [
  | inl m ↦ no_result (thread_schedule s t) s' (thread_schedule-threads s t m) e
  | inr fresh ↦ elim (Bool-cases (is_runnable (s.thread t))) [
    | inl run ↦
        no_result (thread_schedule s t) s' (thread_schedule-queued_threads n s t v run fresh) e
    | inr run ↦
        let (x, f, k) = thread_schedule-IsSched n s t v i run fresh in
        result (IsSched n) (thread_schedule s t) x s' f e k
  ]
]

suspend_pending-step :
    (n : ℕ) (s s' : Sched) (c : ℕ)
    → IsSched n s
    → c < n
    → suspend_pending s c ≡ some s'
    → IsSched n s'
suspend_pending-step n s s' c v l e = elim (Bool-cases (mem (s.current c) s.poll_threads)) [
  | inl m ↦ no_result (suspend_pending s c) s' (suspend_pending-poll_threads s c m) e
  | inr fresh ↦
      let a = suspend_pending-awake n s s' c v l fresh e in
      let (x, f, k) = suspend_pending-IsSched n s c v l a fresh in
      result (IsSched n) (suspend_pending s c) x s' f e k
]

step-IsSched :
    (n : ℕ) (s s' : Sched) (step : Step n s s') → IsSched n s → IsSched n s' ⊎ WakesOut n s s' step
unfolding WakesOut
step-IsSched n s s' (wakes t e) v = elim (IsWakeable-cases (s.thread t)) [
  | inr out ↦ inr out
  | inl w ↦
      let (th, q, f, k) = do_wake-IsWoken n s t v w in
      inl (result (IsSched n) (do_wake s t) (woken s th q) s' f e k.plan)
]
step-IsSched n s s' (pokes t e) v =
    let (x, f, k) = thread_poke-IsSched n s t v in
    inl (result (IsSched n) (thread_poke s t) x s' f e k)
step-IsSched n s s' (schedules t i e) v = inl (thread_schedule-step n s s' t v i e)
step-IsSched n s s' (marks t) v = inl (thread_mark_die-IsSched n s t v)
step-IsSched n s s' (sleeps c l e) v =
    let (x, f, k) =
      thread_sleep_prepare-IsSched n s c v l (thread_sleep_prepare-awake n s s' c v l e) in
    inl (result (IsSched n) (thread_sleep_prepare s c) x s' f e k)
step-IsSched n s s' (suspends c l e) v = inl (suspend_pending-step n s s' c v l e)
step-IsSched n s s' (ends c l i) v = inl (mark_exited-IsSched n s c v l i)
step-IsSched n s s' (switches c now l e) v =
    let (x, f, k, r) = do_sched_switch-IsSched n s c now v l in
    inl (result (IsSched n) (do_sched_switch s c now) x s' f e k)
step-IsSched n s s' (notifies e) v = elim (every-IsWakeable s.thread s.poll_threads) [
  | inl w ↦ inl (sched_interrupt_notify-IsSched n s s' v w e)
  | inr (t, m, out) ↦ inr (t, m, out)
]

-- However the critical sections of `n` processors follow each other, from a state with the invariant,
-- as long as each has a result (no BUG_ON fails, nothing panics, and `list_add` gets no entry that is
-- in the list already) and an idle thread is neither scheduled nor ended: either the invariant holds at
-- the end, so that each thread that is awake runs on one processor or is in the queue, once; or one of
-- them wakes, alone or in `sched_interrupt_notify`, a thread that runs nowhere and is neither awake
-- nor asleep, such as one that has ended, and the invariant held before it.
pub Run-IsSched :
    (n : ℕ) (s s' : Sched) (run : Run n s s') → IsSched n s → IsSched n s' ⊎ MeetsOut n s s' run
unfolding MeetsOut
Run-IsSched n s s' stays v = inl v
Run-IsSched n s s' (goes {s' = s₁} step rest) v = elim (step-IsSched n s s₁ step v) [
  | inr out ↦ inr (inl (v, out))
  | inl v₁ ↦ elim (Run-IsSched n s₁ s' rest v₁) [ inl w ↦ inl w | inr met ↦ inr (inr met) ]
]
