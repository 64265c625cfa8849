-- ===== src/Timer.antt =====
-- kernel/src/time/timer.c: the queue of timers. Each holds the milliseconds from the one before it
-- in the queue; its callback with the data is a number. The guards of the source keep every
-- difference from going below 0.
pub mod Create
pub mod Tick
mod Tests
use k_os.Base.{ℕ, zero, suc, ◌+◌, ◌-◌, Bool, ◌||◌, List, [], ◌∷◌, ltb, ◌==◌, if◌then◌else◌}
use k_os.Base.Word.{sub32, c_min}

-- `timer_t`
pub record Timer : Type 0 where
  pub delta : ℕ
  pub callback : ℕ

-- Where the walk of `timer_create` ends: with the new timer in the list, or behind the last entry,
-- with what is left of the new timer's time.
pub data Walk : Type 0 where
  placed : List Timer → Walk
  ended : Timer → Walk

-- An entry in front of the walked part.
unfoldable pub walk_past : Timer → Walk → Walk
walk_past t (placed ts) = placed (t ∷ ts)
walk_past t (ended new) = ended new

-- The loop of `timer_create`.
unfoldable pub walk : Timer → List Timer → Walk
unfolding walk_past
walk new [] = ended new
walk new (t ∷ ts) =
    let past = walk_past t (walk (record new { delta = new.delta - t.delta }) ts) in
    if new.delta == 0 || ltb new.delta t.delta
    then placed (new ∷ record t { delta = t.delta - new.delta } ∷ ts)
    else past

-- `list_add_before(&new->list, active_timers.prev)`: in front of the last entry; on an empty list
-- `prev` is the head itself.
unfoldable pub add_before_last : Timer → List Timer → List Timer
add_before_last new [] = new ∷ []
add_before_last new (t ∷ []) = new ∷ t ∷ []
add_before_last new (t ∷ u ∷ ts) = t ∷ add_before_last new (u ∷ ts)

-- `timer_create` on the queue `active_timers`.
unfoldable pub timer_create : ℕ → ℕ → List Timer → List Timer
unfolding walk add_before_last
timer_create millis callback active =
    let new : Timer = record { delta = millis; callback = callback } in
    elim active [
      | [] ↦ new ∷ []
      | t ∷ ts ↦ elim (walk new (t ∷ ts)) [
        | placed us ↦ us
        | ended new' ↦ add_before_last new' (t ∷ ts)
      ]
    ]

-- `decrement_timer`: the timer, and what is left of `ms`.
unfoldable pub decrement_timer : Timer → ℕ → Timer × ℕ
decrement_timer t ms =
    let diff = c_min t.delta ms in (record t { delta = t.delta - diff }, ms - diff)

-- The first loop of `time_tick`: the callbacks that it calls, in order, and the queue after it. That it
-- gives the timers back to their cache, which the second loop reads them from, is left out.
unfoldable pub fire : ℕ → List Timer → List ℕ × List Timer
fire left [] = ([], [])
fire left (t ∷ ts) =
    let (t', left') = decrement_timer t left in
    let (fired, rest) = fire left' ts in
    if t'.delta == 0 then (t'.callback ∷ fired, t' ∷ rest) else ([], t' ∷ ts)

-- The second loop of `time_tick`.
unfoldable pub remove_fired : List Timer → List Timer
remove_fired [] = []
remove_fired (t ∷ ts) = if t.delta == 0 then remove_fired ts else t ∷ ts

pub record Timers : Type 0 where
  pub active : List Timer
  pub last_now : ℕ

-- `time_tick` at the time `now`: the callbacks called and the new state.
unfoldable pub time_tick : ℕ → Timers → List ℕ × Timers
time_tick now s =
    let (fired, rest) = fire (sub32 now s.last_now) s.active in
    (fired, record { active = remove_fired rest; last_now = now })
