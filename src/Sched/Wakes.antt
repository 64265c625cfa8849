-- ===== src/Sched/Wakes.antt =====
-- The operations of kernel/src/sched/sched.c that wake a thread.
use k_os.Base.{
  ℕ, ◌≡◌, ◌≢◌, ◌⊎◌, refl, ◌∙◌, sym, ap, Bool, true, false, some, List, ◌∷◌, Bool-cases, inl, inr,
  arith,
}
use k_os.Sched.{
  ThreadState, building, awake, sleeping, exited, idle, Thread, Sched, set_at, put_thread, mem,
  list_add_entry, enqueue, enqueue_inactive, do_wake_in, do_wake, thread_poke, is_awake,
}
use k_os.Sched.Queue.{set_at_same, set_at_cases}
use k_os.Sched.Invariant.{is_runnable, IsPlan, IsSched, same-IsPlan, join-IsPlan}

pub enqueue_fresh :
    (s : Sched) (t : ℕ)
    → mem t s.queued_threads ≡ false
    → enqueue s t ≡ some (record s { queued_threads = t ∷ s.queued_threads })
unfolding enqueue list_add_entry
enqueue_fresh s t e = simp (enqueue, list_add_entry, e) refl

enqueue_inactive_off :
    (active : Bool) (s : Sched) (t : ℕ)
    → active ≡ false
    → mem t s.queued_threads ≡ false
    → enqueue_inactive active s t ≡ some (record s { queued_threads = t ∷ s.queued_threads })
unfolding enqueue_inactive
enqueue_inactive_off active s t e fresh = rw e (enqueue_fresh s t fresh)

enqueue_inactive_on :
    (active : Bool) (s : Sched) (t : ℕ) → active ≡ true → enqueue_inactive active s t ≡ some s
unfolding enqueue_inactive
enqueue_inactive_on active s t e = rw e refl

-- A thread that may be woken: it is awake or asleep, or it runs on a processor.
abbrev pub IsWakeable : Thread → Type 0
IsWakeable th = (th.state ≡ awake) ⊎ ((th.state ≡ sleeping) ⊎ (th.active ≡ true))

-- What `do_wake` changes: the threads and the queue.
abbrev pub woken : Sched → (ℕ → Thread) → List ℕ → Sched
woken s thread queue = record s { thread = thread; queued_threads = queue }

-- The state behind the wake of a thread `t`: it is not asleep, and no other thread is put to sleep or
-- cannot be woken any more.
pub record IsWoken (n : ℕ) (s : Sched) (t : ℕ) (thread : ℕ → Thread) (queue : List ℕ) : Type 0 where
  pub plan : IsPlan n thread queue s.current s.idle_task
  pub up : (thread t).state ≢ sleeping
  pub others : (u : ℕ) → (s.thread u).state ≢ sleeping → (thread u).state ≢ sleeping
  pub wakeable : (u : ℕ) → IsWakeable (s.thread u) → IsWakeable (thread u)

-- A sleeping thread is awake, and in the queue unless it still runs.
pub wake_sleeping :
    (n : ℕ) (s : Sched) (t : ℕ)
    → IsSched n s
    → (s.thread t).state ≡ sleeping
    → (thread : ℕ → Thread) × (queue : List ℕ) × (do_wake s t ≡ some (woken s thread queue))
      × IsWoken n s t thread queue
unfolding do_wake do_wake_in is_awake
wake_sleeping n s t v e =
    let th : Thread = record (s.thread t) { state = awake } in
    let f : ℕ → Thread = set_at s.thread t th in
    let run : is_runnable (s.thread t) ≡ false = rw e refl in
    let fresh : mem t s.queued_threads ≡ false = v.queued t ∙ run in
    let step : do_wake s t ≡ enqueue_inactive (s.thread t).active (put_thread s t th) t =
      simp (do_wake, e, do_wake_in) refl in
    let with_plan : (queue : List ℕ)
        → IsPlan n f queue s.current s.idle_task
        → IsWoken n s t f queue =
      λ queue plan. record {
        plan = plan;
        up = λ b. absurd (
            ground
              (arith, sym (ap (λ (x : Thread). x.state) (set_at_same s.thread t th t refl)) ∙ b));
        others = λ u.
            set_at_cases (λ (x : Thread). (s.thread u).state ≢ sleeping → x.state ≢ sleeping)
              s.thread t th u (λ same h. λ b. absurd (ground (arith, b))) (λ other h. h);
        wakeable = λ u.
            set_at_cases (λ (x : Thread). IsWakeable (s.thread u) → IsWakeable x) s.thread t th u
              (λ same h. inl refl) (λ other h. h);
      } in
    elim (Bool-cases (s.thread t).active) [
      | inl on ↦ (
        f,
        s.queued_threads,
        step ∙ enqueue_inactive_on (s.thread t).active (put_thread s t th) t on,
        with_plan s.queued_threads (
            same-IsPlan n s.thread s.queued_threads s.current s.idle_task v t th refl
              (λ b. absurd (ground (arith, b))) (λ i. absurd (ground (arith, e, i)))
              (rw (e, on) refl)),
      )
      | inr off ↦ (
        f,
        t ∷ s.queued_threads,
        step ∙ enqueue_inactive_off (s.thread t).active (put_thread s t th) t off fresh,
        with_plan (t ∷ s.queued_threads) (
            join-IsPlan n s.thread s.queued_threads s.current s.idle_task v t th refl refl
              (λ i. ground (arith, e, i)) run off),
      )
    ]

-- Nothing is to be done for a thread that is not asleep.
awake-IsWoken :
    (n : ℕ) (s : Sched) (t : ℕ)
    → IsSched n s
    → (s.thread t).state ≢ sleeping
    → IsWoken n s t s.thread s.queued_threads
awake-IsWoken n s t v e = record { plan = v; up = e; others = λ u h. h; wakeable = λ u h. h }

wake_awake :
    (n : ℕ) (s : Sched) (t : ℕ)
    → IsSched n s
    → (s.thread t).state ≡ awake
    → (thread : ℕ → Thread) × (queue : List ℕ) × (do_wake s t ≡ some (woken s thread queue))
      × IsWoken n s t thread queue
unfolding do_wake do_wake_in
wake_awake n s t v e = (
  s.thread,
  s.queued_threads,
  simp (do_wake, e, do_wake_in) refl,
  awake-IsWoken n s t v (λ b. ground (arith, e, b)),
)

-- `do_wake` of a thread that may be woken.
pub do_wake-IsWoken :
    (n : ℕ) (s : Sched) (t : ℕ)
    → IsSched n s
    → IsWakeable (s.thread t)
    → (thread : ℕ → Thread) × (queue : List ℕ) × (do_wake s t ≡ some (woken s thread queue))
      × IsWoken n s t thread queue
unfolding do_wake do_wake_in
do_wake-IsWoken n s t v (inl e) = wake_awake n s t v e
do_wake-IsWoken n s t v (inr (inl e)) = wake_sleeping n s t v e
do_wake-IsWoken n s t v (inr (inr on)) = go (s.thread t).state refl
  where
    -- Where the state is neither of the two, a thread that runs stays as it is.
    stays :
        do_wake s t ≡ enqueue_inactive (s.thread t).active s t
        → (s.thread t).state ≢ sleeping
        → (thread : ℕ → Thread) × (queue : List ℕ) × (do_wake s t ≡ some (woken s thread queue))
          × IsWoken n s t thread queue
    stays step up = (
      s.thread,
      s.queued_threads,
      step ∙ enqueue_inactive_on (s.thread t).active s t on,
      awake-IsWoken n s t v up,
    )

    go :
        (st : ThreadState)
        → (s.thread t).state ≡ st
        → (thread : ℕ → Thread) × (queue : List ℕ) × (do_wake s t ≡ some (woken s thread queue))
          × IsWoken n s t thread queue
    go awake e = wake_awake n s t v e
    go sleeping e = wake_sleeping n s t v e
    go building e = stays (simp (do_wake, e, do_wake_in) refl) (λ b. ground (arith, e, b))
    go exited e = stays (simp (do_wake, e, do_wake_in) refl) (λ b. ground (arith, e, b))
    go idle e = stays (simp (do_wake, e, do_wake_in) refl) (λ b. ground (arith, e, b))

pub thread_poke-IsSched :
    (n : ℕ) (s : Sched) (t : ℕ)
    → IsSched n s
    → (s' : Sched) × (thread_poke s t ≡ some s') × IsSched n s'
unfolding thread_poke
thread_poke-IsSched n s t v = go (s.thread t).state refl
  where
    go :
        (st : ThreadState)
        → (s.thread t).state ≡ st
        → (s' : Sched) × (thread_poke s t ≡ some s') × IsSched n s'
    go sleeping e =
        let (th, q, f, w) = wake_sleeping n s t v e in
        (woken s th q, simp (thread_poke, e) f, w.plan)
    go building e = (s, simp (thread_poke, e) refl, v)
    go awake e = (s, simp (thread_poke, e) refl, v)
    go exited e = (s, simp (thread_poke, e) refl, v)
    go idle e = (s, simp (thread_poke, e) refl, v)
