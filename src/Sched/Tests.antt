-- ===== src/Sched/Tests.antt =====
-- The scheduler of kernel/src/sched/sched.c on a small state.
use k_os.Base.{
  eq_or_ne, ℕ, ◌≡◌, ◌≢◌, ◌⊎◌, refl, true, false, Option, none, some, [], ◌∷◌, ◌==◌, if◌then◌else◌,
  All, inl, inr, arith,
}
use k_os.Base.Word.{add32, sub32}
use k_os.Semaphore.{unlist}
use k_os.Sched.{
  ThreadState, building, awake, sleeping, exited, idle, Thread, Sched, mem, do_wake,
  do_sched_switch, sched_interrupt_notify, can_run, is_awake, suspend_pending, thread_poke, set_at,
  list_add_entry, thread_sleep_prepare, do_wake_in, enqueue_inactive, enqueue, mark_exited,
  thread_mark_die, deactivate_thread, deactivate_in, lock_next_current, next_of,
  finish_sched_switch, notify_loop,
}
use k_os.Sched.Invariant.{IsSched}
use k_os.Sched.Notify.{IsUp, sched_interrupt_notify-IsUp}
use k_os.Sched.Switch.{do_sched_switch-IsSched, do_sched_switch-current}
use k_os.Sched.Steps.{
  suspends, switches, notifies, marks, ends, Run, stays, goes, WakesOut, MeetsOut, Run-IsSched,
}
use k_os.Sched.Exited.{do_wake_exited-panics}

-- An idle thread 0, one that runs, in a state, one that waits, one that sleeps, and one that has ended.
abbrev small_thread : ThreadState → ℕ → Thread
small_thread st t =
    if t == 0
    then record { state = idle; active = false; should_die = false }
    else if t == 1
    then record { state = st; active = true; should_die = false }
    else if t == 2
    then record { state = awake; active = false; should_die = false }
    else if t == 3
    then record { state = sleeping; active = false; should_die = false }
    else if t == 4
    then record { state = exited; active = false; should_die = true }
    else record { state = building; active = false; should_die = false }

abbrev small : ThreadState → Sched
small st = record {
  thread = small_thread st;
  threads = 1 ∷ 2 ∷ 3 ∷ [];
  thread_count = 4;
  queued_threads = 2 ∷ [];
  poll_threads = 3 ∷ [];
  suspended_threads = 1;
  tasks_going = 1;
  tasking_up = true;
  current = λ c. 1;
  idle_task = λ c. 0;
  switch_time = λ c. 0;
}

small-IsSched : (st : ThreadState) → st ≢ building → st ≢ idle → IsSched 1 (small st)
unfolding mem is_awake
small-IsSched st nb ni = record {
  distinct = (refl, tt);
  queued = λ t. ground arith;
  seated = λ c l. refl;
  started = λ c l. nb;
  apart = λ c d l l' e. omega arith;
  only = λ t e. (0, omega arith, ground arith);
  resting = λ c l. refl;
  own = λ c d l l' e. omega arith;
  home = λ c d l l' e. omega arith;
}

awake-IsSched : IsSched 1 (small awake)
awake-IsSched = small-IsSched awake (ground arith) (ground arith)

asleep-IsSched : IsSched 1 (small sleeping)
asleep-IsSched = small-IsSched sleeping (ground arith) (ground arith)

do_sched_switch-IsSched_example :
    (s' : Sched) × (do_sched_switch (small sleeping) 0 500 ≡ some s')
    × IsSched 1 s'
    × (can_run (s'.thread (s'.current 0)).state ≡ true)
do_sched_switch-IsSched_example =
    do_sched_switch-IsSched 1 (small sleeping) 0 500 asleep-IsSched (omega arith)

do_sched_switch-current_example :
    (s' : Sched) × (do_sched_switch (small awake) 0 500 ≡ some s')
    × (s'.current 0 ≡ 1)
    × (s'.queued_threads ≡ 2 ∷ [])
    × ((t : ℕ) → s'.thread t ≡ small_thread awake t)
do_sched_switch-current_example =
    do_sched_switch-current 1 (small awake) 0 500 awake-IsSched (omega arith) refl refl

sched_interrupt_notify-IsUp_example :
    (s' : Sched) × (sched_interrupt_notify (small awake) ≡ some s')
    × IsSched 1 s'
    × All (IsUp s'.thread) (3 ∷ [])
    × (s'.poll_threads ≡ [])
    × (s'.suspended_threads ≡ 0)
sched_interrupt_notify-IsUp_example =
    sched_interrupt_notify-IsUp 1 (small awake) awake-IsSched (inr (inl refl), tt) refl
      (omega arith)

abbrev state_of : Option Sched → Sched
state_of none = small awake
state_of (some s) = s

-- The thread 1 suspends itself, the processor switches to the thread 2, the threads 1 and 3 are
-- notified, the thread 2 is to die and ends, and the processor switches again.
abbrev suspended : Sched
suspended = state_of (suspend_pending (small awake) 0)

abbrev switched : Sched
switched = state_of (do_sched_switch suspended 0 500)

abbrev notified_all : Sched
notified_all = state_of (sched_interrupt_notify switched)

abbrev ended : Sched
ended = mark_exited (thread_mark_die notified_all 2) 0

abbrev last_state : Sched
last_state = state_of (do_sched_switch ended 0 900)

small_Run : Run 1 (small awake) last_state
unfolding suspend_pending list_add_entry mem thread_sleep_prepare set_at do_sched_switch
    deactivate_thread deactivate_in lock_next_current next_of finish_sched_switch can_run
    sched_interrupt_notify notify_loop do_wake do_wake_in enqueue_inactive enqueue mark_exited
    thread_mark_die unlist add32 sub32
small_Run = goes (suspends 0 (omega arith) refl) (
    goes (switches 0 500 (omega arith) refl) (
      goes (notifies refl) (
        goes (marks 2) (
          goes (ends 0 (omega arith) (ground arith))
            (goes (switches 0 900 (omega arith) refl) stays)))))

-- This run wakes no thread but such that may be woken.
small_Run-MeetsOut : MeetsOut 1 (small awake) last_state small_Run → ⊥
unfolding MeetsOut WakesOut small_Run mem set_at suspend_pending list_add_entry thread_sleep_prepare
    do_sched_switch deactivate_thread deactivate_in lock_next_current next_of finish_sched_switch
    can_run sched_interrupt_notify notify_loop do_wake do_wake_in enqueue_inactive enqueue
    mark_exited thread_mark_die unlist add32 sub32
small_Run-MeetsOut (inl (v, o)) = o
small_Run-MeetsOut (inr (inl (v, o))) = o
small_Run-MeetsOut (inr (inr (inl (v, (t, m, o))))) = elim (eq_or_ne t 1) [
  | inl first ↦ o.slept (rw first refl)
  | inr other ↦ elim (eq_or_ne t 3) [
    | inl second ↦ o.slept (rw second refl)
    | inr none_left ↦ absurd (ground (arith, m))
  ]
]
small_Run-MeetsOut (inr (inr (inr (inl (v, o))))) = o
small_Run-MeetsOut (inr (inr (inr (inr (inl (v, o)))))) = o
small_Run-MeetsOut (inr (inr (inr (inr (inr (inl (v, o))))))) = o
small_Run-MeetsOut (inr (inr (inr (inr (inr (inr o)))))) = o

Run-IsSched_example : IsSched 1 last_state ⊎ MeetsOut 1 (small awake) last_state small_Run
Run-IsSched_example = Run-IsSched 1 (small awake) last_state small_Run awake-IsSched

do_wake_exited-panics_example :
    (s' : Sched) × (do_wake (small sleeping) 4 ≡ some s') × (do_sched_switch s' 0 500 ≡ none)
do_wake_exited-panics_example =
    do_wake_exited-panics 1 (small sleeping) 4 0 500 asleep-IsSched refl refl refl refl

-- What comes of a thread that suspends itself, is poked, and suspends itself once more.
twice : Option Sched
twice = elim (suspend_pending (small awake) 0) [
  | none ↦ none
  | some s ↦ elim (thread_poke s 1) [ none ↦ none | some s' ↦ suspend_pending s' 0 ]
]

-- Its entry is added to the list a second time.
suspended_twice : twice ≡ none
unfolding twice suspend_pending thread_poke list_add_entry mem thread_sleep_prepare set_at do_wake
    do_wake_in enqueue_inactive
suspended_twice = refl
