-- ===== src/Timer/Tests.antt =====
-- Runs of kernel/src/time/timer.c on a queue of three timers.
use k_os.Base.{ℕ, ◌≡◌, refl, List, [], ◌∷◌, ◌++◌, arith}
use k_os.Timer.{Timer, Timers, timer_create, time_tick, walk, walk_past, add_before_last}
use k_os.Timer.Create.{deadlines, IsInserted, timer_create-IsInserted, timer_create-behind}
use k_os.Timer.Tick.{IsTicked, time_tick-IsTicked}

abbrev timer : ℕ → ℕ → Timer
timer delta callback = record { delta = delta; callback = callback }

-- Due at 10, 15 and 35.
abbrev three : List Timer
three = timer 10 1 ∷ timer 5 2 ∷ timer 20 3 ∷ []

abbrev two : List Timer
two = timer 10 1 ∷ timer 5 2 ∷ []

abbrev state : Timers
state = record { active = three; last_now = 100 }

-- At 12, between the first two.
between : timer_create 12 9 three ≡ timer 10 1 ∷ timer 2 9 ∷ timer 3 2 ∷ timer 20 3 ∷ []
unfolding timer_create walk walk_past
between = refl

-- At 50, behind all: it goes in front of the last one, and fires at 30.
behind_all : timer_create 50 9 three ≡ timer 10 1 ∷ timer 5 2 ∷ timer 15 9 ∷ timer 20 3 ∷ []
unfolding timer_create walk walk_past add_before_last
behind_all = refl

timer_create-IsInserted_example :
    IsInserted (deadlines 0 three) (12, 9) (deadlines 0 (timer_create 12 9 three))
timer_create-IsInserted_example = timer_create-IsInserted 0 12 9 three (omega arith)

timer_create-behind_example :
    deadlines 0 (timer_create 50 9 (two ++ (timer 20 3 ∷ [])))
    ≡ deadlines 0 two ++ ((30, 9) ∷ (50, 3) ∷ [])
timer_create-behind_example =
    timer_create-behind 0 50 9 two (timer 20 3) (omega arith) (omega arith)

time_tick-IsTicked_example :
    IsTicked 120
      (deadlines 100 three)
      (time_tick 120 state).0
      (deadlines (time_tick 120 state).1.last_now (time_tick 120 state).1.active)
time_tick-IsTicked_example = time_tick-IsTicked 120 state (omega arith) (omega arith)
