-- ===== src/Sched/Fails.antt =====
-- Where the operations of kernel/src/sched/sched.c fail on a BUG_ON or on a broken list.
use k_os.Base.{ℕ, ◌<◌, ◌≡◌, refl, ◌∙◌, sym, ap, true, false, Bool, ◌∷◌, none, some, arith}
use k_os.Base.Word.{add32}
use mathlib.Core.Option.{none-ne-some}
use k_os.Sched.{
  ThreadState, building, awake, sleeping, exited, idle, Thread, Sched, set_at, put_thread, mem,
  list_add_entry, enqueue, enqueue_inactive, do_wake_in, do_wake, thread_sleep_prepare,
  thread_schedule, suspend_pending,
}
use k_os.Sched.Queue.{set_at_same}
use k_os.Sched.Invariant.{is_runnable, IsSched}

-- A thread that sleeps was awake.
pub thread_sleep_prepare-awake :
    (n : ℕ) (s s' : Sched) (c : ℕ)
    → IsSched n s
    → c < n
    → thread_sleep_prepare s c ≡ some s'
    → (s.thread (s.current c)).state ≡ awake
unfolding thread_sleep_prepare
thread_sleep_prepare-awake n s s' c v l e = go (s.thread (s.current c)).state refl
  where
    on : (s.thread (s.current c)).active ≡ true
    on = v.seated c l

    fails : thread_sleep_prepare s c ≡ none → (s.thread (s.current c)).state ≡ awake
    fails f = absurd (none-ne-some s' (sym f ∙ e))

    go :
        (st : ThreadState)
        → (s.thread (s.current c)).state ≡ st
        → (s.thread (s.current c)).state ≡ awake
    go awake f = f
    go building f = fails (simp (thread_sleep_prepare, on, f) refl)
    go sleeping f = fails (simp (thread_sleep_prepare, on, f) refl)
    go exited f = fails (simp (thread_sleep_prepare, on, f) refl)
    go idle f = fails (simp (thread_sleep_prepare, on, f) refl)

enqueue_inactive_queued :
    (active : Bool) (s : Sched) (t : ℕ)
    → active ≡ false
    → mem t s.queued_threads ≡ true
    → enqueue_inactive active s t ≡ none
unfolding enqueue_inactive enqueue list_add_entry
enqueue_inactive_queued active s t e m = rw e (simp (enqueue, list_add_entry, m) refl)

-- A sleeping thread that does not run is in the queue: its wake breaks the queue.
do_wake_queued :
    (s : Sched) (t : ℕ)
    → (s.thread t).state ≡ sleeping
    → (s.thread t).active ≡ false
    → mem t s.queued_threads ≡ true
    → do_wake s t ≡ none
unfolding do_wake do_wake_in
do_wake_queued s t e off m =
    let th : Thread = record (s.thread t) { state = awake } in
    let step : do_wake s t ≡ enqueue_inactive (s.thread t).active (put_thread s t th) t =
      simp (do_wake, e, do_wake_in) refl in
    step ∙ enqueue_inactive_queued (s.thread t).active (put_thread s t th) t off m

-- A thread that is in the queue is not scheduled.
pub thread_schedule-queued_threads :
    (n : ℕ) (s : Sched) (t : ℕ)
    → IsSched n s
    → is_runnable (s.thread t) ≡ true
    → mem t s.threads ≡ false
    → thread_schedule s t ≡ none
unfolding thread_schedule list_add_entry
thread_schedule-queued_threads n s t v run fresh =
    let th : Thread = record (s.thread t) { state = sleeping } in
    let s₁ : Sched =
      put_thread (record s { threads = t ∷ s.threads; thread_count = add32 s.thread_count 1 }) t
        th in
    let same : set_at s.thread t th t ≡ th = set_at_same s.thread t th t refl in
    let off : (s.thread t).active ≡ false = ground (arith, run) in
    simp (thread_schedule, list_add_entry, fresh)
      (do_wake_queued s₁ t (ap (λ (x : Thread). x.state) same)
        (ap (λ (x : Thread). x.active) same ∙ off) (v.queued t ∙ run))

-- What is in the list of threads is not scheduled, and what is in `poll_threads` not suspended.
pub thread_schedule-threads :
    (s : Sched) (t : ℕ) → mem t s.threads ≡ true → thread_schedule s t ≡ none
unfolding thread_schedule list_add_entry
thread_schedule-threads s t m = simp (thread_schedule, list_add_entry, m) refl

pub suspend_pending-poll_threads :
    (s : Sched) (c : ℕ) → mem (s.current c) s.poll_threads ≡ true → suspend_pending s c ≡ none
unfolding suspend_pending list_add_entry
suspend_pending-poll_threads s c m = simp (suspend_pending, list_add_entry, m) refl

-- A thread that suspends itself was awake.
pub suspend_pending-awake :
    (n : ℕ) (s s' : Sched) (c : ℕ)
    → IsSched n s
    → c < n
    → mem (s.current c) s.poll_threads ≡ false
    → suspend_pending s c ≡ some s'
    → (s.thread (s.current c)).state ≡ awake
unfolding suspend_pending list_add_entry
suspend_pending-awake n s s' c v l fresh e =
    let s₁ : Sched = record s {
      poll_threads = s.current c ∷ s.poll_threads;
      suspended_threads = add32 s.suspended_threads 1;
    } in
    thread_sleep_prepare-awake n s₁ s' c v l
      (sym (simp (suspend_pending, list_add_entry, fresh) refl) ∙ e)
