-- ===== src/Sched.antt =====
-- kernel/src/sched/sched.c: threads, the queue of those that can run, and the switch from one to the
-- next on each processor. A thread and a processor are numbers. Each operation is the code under its
-- locks; `none` is a failed BUG_ON, a panic, or a `list_add` of an entry that is in the list already,
-- which breaks the list. What an exited thread gives back of its contexts and its node is not part of
-- this state.
pub mod Queue
pub mod Invariant
pub mod Wakes
pub mod Sleeps
pub mod Gap
pub mod Next
pub mod Switch
pub mod Notify
pub mod Fails
pub mod Steps
pub mod Exited
mod Tests
use k_os.Base.{
  ℕ, zero, suc, ◌+◌, ◌-◌, ◌^◌, ◌%◌, Bool, true, false, ◌||◌, ◌&&◌, not, Option, none, some, List,
  [], ◌∷◌, leb, ◌==◌, if◌then◌else◌,
}
use k_os.Base.Word.{add32, sub32}
use k_os.Semaphore.{unlist}

-- THREAD_BUILDING and the other states.
pub data ThreadState : Type 0 where
  building : ThreadState
  awake : ThreadState
  sleeping : ThreadState
  exited : ThreadState
  idle : ThreadState

-- What the scheduler reads of `thread_t`.
pub record Thread : Type 0 where
  pub state : ThreadState
  pub active : Bool
  pub should_die : Bool

-- The variables of the scheduler, its lists from their heads on; `current`, `idle_task` and
-- `switch_time` are one for each processor.
pub record Sched : Type 0 where
  pub thread : ℕ → Thread
  pub threads : List ℕ
  pub thread_count : ℕ
  pub queued_threads : List ℕ
  pub poll_threads : List ℕ
  pub suspended_threads : ℕ
  pub tasks_going : ℕ
  pub tasking_up : Bool
  pub current : ℕ → ℕ
  pub idle_task : ℕ → ℕ
  pub switch_time : ℕ → ℕ

-- `QUANTUM`
abbrev pub quantum : ℕ
quantum = 100

-- A function with another value at one place.
unfoldable pub set_at {ℓ} : {A : Type ℓ} → (ℕ → A) → ℕ → A → ℕ → A
set_at f i x j = if j == i then x else f j

-- A thread, written back.
abbrev pub put_thread : Sched → ℕ → Thread → Sched
put_thread s t th = record s { thread = set_at s.thread t th }

-- Whether an entry is in a list.
unfoldable pub mem : ℕ → List ℕ → Bool
mem t [] = false
mem t (u ∷ us) = t == u || mem t us

-- `list_add` of an entry that is in no list yet.
unfoldable pub list_add_entry : ℕ → List ℕ → Option (List ℕ)
list_add_entry t us = if mem t us then none else some (t ∷ us)

-- `list_add(&t->queue_list, &queued_threads)`
unfoldable pub enqueue : Sched → ℕ → Option Sched
enqueue s t = elim (list_add_entry t s.queued_threads) [
  | none ↦ none
  | some us ↦ some (record s { queued_threads = us })
]

-- `thread_sleep_prepare` on a processor
unfoldable pub thread_sleep_prepare : Sched → ℕ → Option Sched
thread_sleep_prepare s c =
    let me = s.thread (s.current c) in
    if not me.active then none else elim me.state [
      | awake ↦ some (put_thread s (s.current c) (record me { state = sleeping }))
      | _ ↦ none
    ]

-- `if(!t->active)`, the thread goes into the queue.
unfoldable pub enqueue_inactive : Bool → Sched → ℕ → Option Sched
enqueue_inactive active s t = if not active then enqueue s t else some s

-- `do_wake` of a thread in a state.
unfoldable pub do_wake_in : ThreadState → Sched → ℕ → Option Sched
do_wake_in awake s t = some s
do_wake_in sleeping s t =
    enqueue_inactive (s.thread t).active (put_thread s t (record (s.thread t) { state = awake })) t
do_wake_in building s t = enqueue_inactive (s.thread t).active s t
do_wake_in exited s t = enqueue_inactive (s.thread t).active s t
do_wake_in idle s t = enqueue_inactive (s.thread t).active s t

-- `do_wake`, which is `thread_wake` under the lock.
unfoldable pub do_wake : Sched → ℕ → Option Sched
do_wake s t = do_wake_in (s.thread t).state s t

-- `thread_poke`
unfoldable pub thread_poke : Sched → ℕ → Option Sched
thread_poke s t = elim (s.thread t).state [ sleeping ↦ do_wake s t | _ ↦ some s ]

-- `thread_schedule`
unfoldable pub thread_schedule : Sched → ℕ → Option Sched
thread_schedule s t = elim (list_add_entry t s.threads) [
  | none ↦ none
  | some ts ↦
      do_wake
        (put_thread (record s { threads = ts; thread_count = add32 s.thread_count 1 }) t
          (record (s.thread t) { state = sleeping }))
        t
]

-- `thread_mark_die`
unfoldable pub thread_mark_die : Sched → ℕ → Sched
thread_mark_die s t = put_thread s t (record (s.thread t) { should_die = true })

-- `deactivate_thread` of a thread in a state.
unfoldable pub deactivate_in : ThreadState → Sched → ℕ → Option Sched
deactivate_in idle s t = some s
deactivate_in awake s t =
    if not (s.thread t).active
    then none
    else enqueue (record s { tasks_going = sub32 s.tasks_going 1 }) t
deactivate_in sleeping s t = some (record s { tasks_going = sub32 s.tasks_going 1 })
deactivate_in exited s t = some (record s { threads = unlist t s.threads })
deactivate_in building s t = none

-- `deactivate_thread`
unfoldable pub deactivate_thread : Sched → ℕ → Option Sched
deactivate_thread s t = deactivate_in (s.thread t).state s t

-- What `lock_next_current` makes of the queue.
unfoldable pub next_of : List ℕ → Sched → ℕ → Option (ℕ × Sched)
next_of [] s c = some (s.idle_task c, s)
next_of (t ∷ us) s c = elim (s.thread t).state [
  | awake ↦ some (t, record s { queued_threads = us; tasks_going = add32 s.tasks_going 1 })
  | _ ↦ none
]

-- `lock_next_current` on a processor
unfoldable pub lock_next_current : Sched → ℕ → Option (ℕ × Sched)
lock_next_current s c =
    if s.tasking_up then next_of s.queued_threads s c else some (s.idle_task c, s)

-- Whether a thread in this state may be switched to.
unfoldable pub can_run : ThreadState → Bool
can_run awake = true
can_run idle = true
can_run _ = false

-- `finish_sched_switch` from a thread to the next at a time.
unfoldable pub finish_sched_switch : Sched → ℕ → ℕ → ℕ → ℕ → Option Sched
finish_sched_switch s c now old next =
    if not (old == next) && (s.thread next).active
    then none
    else if not (can_run (s.thread next).state)
    then none
    else let left = put_thread s old (record (s.thread old) { active = false }) in
      let there = put_thread left next (record (left.thread next) { active = true }) in
      some (record there {
        current = set_at s.current c next;
        switch_time = set_at s.switch_time c ((now + quantum) % 2 ^ 64);
      })

-- `do_sched_switch`
unfoldable pub do_sched_switch : Sched → ℕ → ℕ → Option Sched
do_sched_switch s c now = elim (deactivate_thread s (s.current c)) [
  | none ↦ none
  | some s₁ ↦ elim (lock_next_current s₁ c) [
    | none ↦ none
    | some (next, s₂) ↦ finish_sched_switch s₂ c now (s.current c) next
  ]
]

-- `thread_die` up to the switch.
unfoldable pub mark_exited : Sched → ℕ → Sched
mark_exited s c = put_thread s (s.current c) (record (s.thread (s.current c)) { state = exited })

-- `thread_die`
unfoldable pub thread_die : Sched → ℕ → ℕ → Option Sched
thread_die s c now = do_sched_switch (mark_exited s c) c now

-- Whether a thread in this state goes on without a switch.
unfoldable pub is_awake : ThreadState → Bool
is_awake awake = true
is_awake _ = false

-- `sched_try_resched` on a processor, on the way back to a user's code or not.
unfoldable pub sched_try_resched : Sched → ℕ → ℕ → Bool → Option Sched
sched_try_resched s c now is_user =
    let me = s.thread (s.current c) in
    if not s.tasking_up
    then some s
    else if me.should_die && is_user
    then thread_die s c now
    else if leb (s.switch_time c) now || not (is_awake me.state)
    then do_sched_switch s c now
    else some s

-- What `sched_suspend_pending_interrupt` does under the lock.
unfoldable pub suspend_pending : Sched → ℕ → Option Sched
suspend_pending s c = elim (list_add_entry (s.current c) s.poll_threads) [
  | none ↦ none
  | some ts ↦
      thread_sleep_prepare
        (record s { poll_threads = ts; suspended_threads = add32 s.suspended_threads 1 }) c
]

-- `sched_suspend_pending_interrupt` without a step of another processor before the switch.
unfoldable pub sched_suspend_pending_interrupt : Sched → ℕ → ℕ → Option Sched
sched_suspend_pending_interrupt s c now = elim (suspend_pending s c) [
  | none ↦ none
  | some s' ↦ do_sched_switch s' c now
]

-- The loop of `sched_interrupt_notify`.
unfoldable pub notify_loop : List ℕ → Sched → Option Sched
notify_loop [] s = some s
notify_loop (t ∷ ts) s =
    elim (do_wake (record s { suspended_threads = sub32 s.suspended_threads 1 }) t) [
      | none ↦ none
      | some s' ↦ notify_loop ts s'
    ]

-- `sched_interrupt_notify`
unfoldable pub sched_interrupt_notify : Sched → Option Sched
sched_interrupt_notify s = elim (notify_loop s.poll_threads s) [
  | none ↦ none
  | some s' ↦
      if not (s'.suspended_threads == 0) then none else some (record s' { poll_threads = [] })
]
