-- ===== src/Sched/Exited.antt =====
-- A thread of kernel/src/sched/sched.c that is woken when it has ended and no processor runs it.
use k_os.Base.{ℕ, ◌≡◌, refl, ◌∙◌, true, false, none, some, ◌∷◌}
use k_os.Base.Word.{sub32}
use k_os.Sched.{
  sleeping, exited, Sched, mem, enqueue_inactive, do_wake_in, do_wake, is_awake, deactivate_in,
  deactivate_thread, next_of, lock_next_current, do_sched_switch,
}
use k_os.Sched.Invariant.{IsSched}
use k_os.Sched.Wakes.{enqueue_fresh}
use k_os.Sched.Next.{lock_next_current_up}

-- With the invariant of `n` processors and `tasking_up` set: a thread that has ended and runs nowhere goes into the queue
-- when it is woken, and the next switch of a processor whose thread sleeps panics.
pub do_wake_exited-panics :
    (n : ℕ) (s : Sched) (t c now : ℕ)
    → IsSched n s
    → (s.thread t).state ≡ exited
    → (s.thread t).active ≡ false
    → s.tasking_up ≡ true
    → (s.thread (s.current c)).state ≡ sleeping
    → (s' : Sched) × (do_wake s t ≡ some s') × (do_sched_switch s' c now ≡ none)
unfolding do_wake do_wake_in enqueue_inactive is_awake do_sched_switch deactivate_thread
    deactivate_in next_of
do_wake_exited-panics n s t c now v e off up slept =
    let fresh : mem t s.queued_threads ≡ false = v.queued t ∙ rw e refl in
    let s₁ : Sched = record s { queued_threads = t ∷ s.queued_threads } in
    let s₂ : Sched = record s₁ { tasks_going = sub32 s.tasks_going 1 } in
    let left : deactivate_thread s₁ (s.current c) ≡ some s₂ =
      simp (deactivate_thread, slept, deactivate_in) refl in
    let next : lock_next_current s₂ c ≡ none =
      lock_next_current_up s₂ c up ∙ simp (next_of, e) refl in
    (
      s₁,
      simp (do_wake, e, do_wake_in, enqueue_inactive, off) (enqueue_fresh s t fresh),
      simp (do_sched_switch, left, next) refl,
    )
