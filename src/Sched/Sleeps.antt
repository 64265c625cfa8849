-- ===== src/Sched/Sleeps.antt =====
-- The operations of kernel/src/sched/sched.c that start a thread, put it to sleep or end it.
use k_os.Base.{ℕ, ◌<◌, ◌≡◌, ◌≢◌, refl, sym, ap, true, false, some, ◌∷◌, arith}
use k_os.Base.Word.{add32}
use k_os.Sched.{
  awake, sleeping, exited, idle, Thread, Sched, put_thread, mem, list_add_entry,
  thread_sleep_prepare, thread_schedule, thread_mark_die, mark_exited, is_awake, suspend_pending,
}
use k_os.Sched.Queue.{set_at_same}
use k_os.Sched.Invariant.{is_runnable, IsSched, same-IsPlan}
use k_os.Sched.Wakes.{woken, wake_sleeping}

-- A thread that is not in the list and not in the queue, and not an idle one, can run.
pub thread_schedule-IsSched :
    (n : ℕ) (s : Sched) (t : ℕ)
    → IsSched n s
    → (s.thread t).state ≢ idle
    → is_runnable (s.thread t) ≡ false
    → mem t s.threads ≡ false
    → (s' : Sched) × (thread_schedule s t ≡ some s') × IsSched n s'
unfolding thread_schedule list_add_entry is_awake
thread_schedule-IsSched n s t v e run fresh =
    let th : Thread = record (s.thread t) { state = sleeping } in
    let s₁ : Sched =
      put_thread (record s { threads = t ∷ s.threads; thread_count = add32 s.thread_count 1 }) t
        th in
    let v₁ : IsSched n s₁ =
      same-IsPlan n s.thread s.queued_threads s.current s.idle_task v t th refl
        (λ b. absurd (ground (arith, b))) (λ i. absurd (e i)) (sym run) in
    let (th', q, f, w) =
      wake_sleeping n s₁ t v₁ (ap (λ (x : Thread). x.state) (set_at_same s.thread t th t refl)) in
    (woken s₁ th' q, simp (thread_schedule, list_add_entry, fresh) f, w.plan)

-- `thread_sleep_prepare` on a processor that runs an awake thread.
pub thread_sleep_prepare-IsSched :
    (n : ℕ) (s : Sched) (c : ℕ)
    → IsSched n s
    → c < n
    → (s.thread (s.current c)).state ≡ awake
    → (s' : Sched) × (thread_sleep_prepare s c ≡ some s') × IsSched n s'
unfolding thread_sleep_prepare is_awake
thread_sleep_prepare-IsSched n s c v l e =
    let th : Thread = record (s.thread (s.current c)) { state = sleeping } in
    let on : (s.thread (s.current c)).active ≡ true = v.seated c l in
    (
      put_thread s (s.current c) th,
      simp (thread_sleep_prepare, on, e) refl,
      same-IsPlan n s.thread s.queued_threads s.current s.idle_task v (s.current c) th refl
          (λ b. absurd (ground (arith, b))) (λ i. absurd (ground (arith, e, i))) (rw (e, on) refl),
    )

-- `suspend_pending` of a thread that is not in the list yet.
pub suspend_pending-IsSched :
    (n : ℕ) (s : Sched) (c : ℕ)
    → IsSched n s
    → c < n
    → (s.thread (s.current c)).state ≡ awake
    → mem (s.current c) s.poll_threads ≡ false
    → (s' : Sched) × (suspend_pending s c ≡ some s') × IsSched n s'
unfolding suspend_pending list_add_entry
suspend_pending-IsSched n s c v l e fresh =
    let s₁ : Sched = record s {
      poll_threads = s.current c ∷ s.poll_threads;
      suspended_threads = add32 s.suspended_threads 1;
    } in
    let (s', f, v') = thread_sleep_prepare-IsSched n s₁ c v l e in
    (s', simp (suspend_pending, list_add_entry, fresh) f, v')

pub thread_mark_die-IsSched :
    (n : ℕ) (s : Sched) (t : ℕ) → IsSched n s → IsSched n (thread_mark_die s t)
unfolding thread_mark_die
thread_mark_die-IsSched n s t v =
    same-IsPlan n s.thread s.queued_threads s.current s.idle_task v t
      (record (s.thread t) { should_die = true }) refl (λ b. b) (λ i. i) refl

-- The end of a thread on its processor.
pub mark_exited-IsSched :
    (n : ℕ) (s : Sched) (c : ℕ)
    → IsSched n s
    → c < n
    → (s.thread (s.current c)).state ≢ idle
    → IsSched n (mark_exited s c)
unfolding mark_exited is_awake
mark_exited-IsSched n s c v l e =
    let on : (s.thread (s.current c)).active ≡ true = v.seated c l in
    same-IsPlan n s.thread s.queued_threads s.current s.idle_task v (s.current c)
      (record (s.thread (s.current c)) { state = exited }) refl (λ b. absurd (ground (arith, b)))
      (λ i. absurd (e i)) (rw on (ground arith))
