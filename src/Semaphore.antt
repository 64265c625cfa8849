-- ===== src/Semaphore.antt =====
-- kernel/src/sync/semaphore.c, kernel/inc/sync/semaphore.h and kernel/inc/sync/semaphore-post.h: the
-- semaphore. Each operation is a piece of code that runs under the semaphore's lock: a thread that
-- sleeps goes on with `down_resumed`. A failed BUG_ON is `none`; a thread is a number.
pub mod Pieces
pub mod Steps
pub mod Wakes
mod Tests
use k_os.Base.{
  ℕ, ◌+◌, ◌-◌, Bool, true, false, not, Option, none, some, List, [], ◌∷◌, ◌==◌, if◌then◌else◌,
}
use k_os.Base.Word.{add32, sub32}

-- `semaphore_t`, its waiters as the list from its head on, and the flag THREAD_FLAG_INSEM of each
-- thread.
pub record Semaphore : Type 0 where
  pub count : ℕ
  pub waiters : List ℕ
  pub in_sem : ℕ → Bool

-- `semaphore_init`
unfoldable pub semaphore_init : ℕ → (ℕ → Bool) → Semaphore
semaphore_init count in_sem = record { count = count; waiters = []; in_sem = in_sem }

-- The flag of a thread, set.
unfoldable pub set_in_sem : (ℕ → Bool) → ℕ → Bool → ℕ → Bool
set_in_sem f t b u = if u == t then b else f u

-- `list_rm` of a thread's entry.
unfoldable pub unlist : ℕ → List ℕ → List ℕ
unlist t [] = []
unlist t (u ∷ us) = let rest = unlist t us in if u == t then us else u ∷ rest

-- `_semaphore_waitlist_add`
unfoldable pub waitlist_add : Semaphore → ℕ → Option Semaphore
waitlist_add s t =
    if s.in_sem t
    then none
    else some (record s { waiters = t ∷ s.waiters; in_sem = set_in_sem s.in_sem t true })

-- `_semaphore_waitlist_rm`
unfoldable pub waitlist_rm : Semaphore → ℕ → Option Semaphore
waitlist_rm s t =
    if not (s.in_sem t)
    then none
    else some (record s { waiters = unlist t s.waiters; in_sem = set_in_sem s.in_sem t false })

-- What a thread is after a piece of `try_semaphore_down_while_condition`.
pub data Outcome : Type 0 where
  obtained : Semaphore → Outcome
  gave_up : Semaphore → Outcome
  sleeping : Semaphore → Outcome
  bug : Outcome

-- `_semaphore_down_end_obtained`
unfoldable pub down_end_obtained : Semaphore → Outcome
down_end_obtained s = if s.count == 0 then bug else obtained (record s { count = s.count - 1 })

-- `_semaphore_down_end_gaveup`
unfoldable pub down_end_gaveup : Semaphore → ℕ → Outcome
down_end_gaveup s t = elim (waitlist_rm s t) [ none ↦ bug | some s' ↦ gave_up s' ]

-- A round of the loop: the condition, and `_semaphore_down_yield` up to the switch.
unfoldable pub down_round : Semaphore → ℕ → Bool → Outcome
down_round s t cond =
    if not cond then down_end_gaveup s t else if not (s.in_sem t) then bug else sleeping s

-- `_semaphore_down_begin` and what follows it at once.
unfoldable pub down_begin : Semaphore → ℕ → Bool → Outcome
down_begin s t cond =
    if s.count == 0
    then elim (waitlist_add s t) [ none ↦ bug | some s' ↦ down_round s' t cond ]
    else down_end_obtained s

-- The code behind the switch: the loop goes on while the flag of the thread is set.
unfoldable pub down_resumed : Semaphore → ℕ → Bool → Outcome
down_resumed s t cond = if s.in_sem t then down_round s t cond else down_end_obtained s

-- The first waiter is taken off the list, to be woken.
unfoldable pub wake_first : List ℕ → Semaphore → Option (Option ℕ × Semaphore)
wake_first [] s = some (none, s)
wake_first (t ∷ ts) s = elim (waitlist_rm s t) [ none ↦ none | some s' ↦ some (some t, s') ]

-- `semaphore_up`: the thread that it wakes, and the semaphore.
unfoldable pub semaphore_up : Semaphore → Option (Option ℕ × Semaphore)
semaphore_up s = wake_first s.waiters (record s { count = add32 s.count 1 })
