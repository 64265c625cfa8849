-- ===== src/Timer/Tick.antt =====
-- `time_tick` of kernel/src/time/timer.c against the times at which the timers are due.
use k_os.Base.{
  ℕ, ◌+◌, ◌-◌, ◌≤◌, ◌<◌, ◌^◌, ◌≡◌, refl, ap, subst, false, List, [], ◌∷◌, ◌++◌, map, All, inl, inr,
  ◌==◌, arith, le_or_lt,
}
use k_os.Base.Word.{sub32_exact, c_min-min}
use k_os.Timer.{Timer, Timers, decrement_timer, fire, remove_fired, time_tick}
use k_os.Timer.Create.{deadlines}

-- Of the timers that were due in the order of `old`, those due by `time` have fired, in order, and
-- the others are left with their deadlines.
pub record IsTicked (time : ℕ) (old : List (ℕ × ℕ)) (fired : List ℕ) (left : List (ℕ × ℕ))
    : Type 0 where
  pub due : List (ℕ × ℕ)
  pub split : old ≡ due ++ left
  pub due_by : All (λ d. d.0 ≤ time) due
  pub later : All (λ d. time < d.0) left
  pub called : fired ≡ map (λ (d : ℕ × ℕ). d.1) due

deadlines_later :
    (time now : ℕ) (ts : List Timer) → time < now → All (λ d. time < d.0) (deadlines now ts)
deadlines_later time now [] h = tt
deadlines_later time now (t ∷ ts) h =
    (omega arith, deadlines_later time (now + t.delta) ts (omega arith))

decrement_timer-due :
    (t : Timer) (left : ℕ)
    → t.delta ≤ left
    → decrement_timer t left ≡ (record t { delta = 0 }, left - t.delta)
unfolding decrement_timer
decrement_timer-due t left h = rw c_min-min (ground arith)

decrement_timer-later :
    (t : Timer) (left : ℕ)
    → left < t.delta
    → decrement_timer t left ≡ (record t { delta = t.delta - left }, 0)
unfolding decrement_timer
decrement_timer-later t left h = rw c_min-min (ground arith)

fire-due :
    (t : Timer) (ts : List Timer) (left : ℕ)
    → t.delta ≤ left
    → fire left (t ∷ ts) ≡ (
      t.callback ∷ (fire (left - t.delta) ts).0,
      record t { delta = 0 } ∷ (fire (left - t.delta) ts).1,
    )
unfolding fire
fire-due t ts left h = rw (decrement_timer-due t left h)

fire-later :
    (t : Timer) (ts : List Timer) (left : ℕ)
    → left < t.delta
    → fire left (t ∷ ts) ≡ ([], record t { delta = t.delta - left } ∷ ts)
unfolding fire
fire-later t ts left h = rw (decrement_timer-later t left h) (ground arith)

fire-IsTicked :
    (now left : ℕ) (ts : List Timer)
    → IsTicked
        (now + left)
        (deadlines now ts)
        (fire left ts).0
        (deadlines (now + left) (remove_fired (fire left ts).1))
unfolding remove_fired
fire-IsTicked now left [] =
    unfold fire in record { due = []; split = refl; due_by = tt; later = tt; called = refl }
fire-IsTicked now left (t ∷ ts) = elim (le_or_lt t.delta left) [
  | inl h ↦
      let rest : ℕ = left - t.delta in
      let e : now + t.delta + rest ≡ now + left = omega arith in
      let ih = rw e at (fire-IsTicked (now + t.delta) rest ts) in
      rw (fire-due t ts left h) (record {
        due = (now + t.delta, t.callback) ∷ ih.due;
        split = ap (◌∷◌ (now + t.delta, t.callback)) ih.split;
        due_by = (omega arith, ih.due_by);
        later = ih.later;
        called = ap (◌∷◌ t.callback) ih.called;
      })
  | inr h ↦
      let e : (t.delta - left == 0) ≡ false = ground arith in
      let e' : now + left + (t.delta - left) ≡ now + t.delta = omega arith in
      rw (fire-later t ts left h, e, e')
        (record {
          due = [];
          split = refl;
          due_by = tt;
          later = (omega arith, deadlines_later (now + left) (now + t.delta) ts (omega arith));
          called = refl;
        })
]

-- A tick at a time that is not before the last tick and is below 2 ^ 32 calls the callbacks of all
-- timers that are due by now, in the order of their deadlines, and of no other; those leave the
-- queue, and the deadlines of all others stay as they are.
pub time_tick-IsTicked :
    (now : ℕ) (s : Timers)
    → s.last_now ≤ now
    → now < 2 ^ 32
    → IsTicked now
        (deadlines s.last_now s.active)
        (time_tick now s).0
        (deadlines (time_tick now s).1.last_now (time_tick now s).1.active)
unfolding time_tick
time_tick-IsTicked now s h small =
    let e : s.last_now + (now - s.last_now) ≡ now = omega arith in
    rw (sub32_exact now s.last_now h small) (
      subst
        (λ (n : ℕ).
          IsTicked n (deadlines s.last_now s.active) (fire (now - s.last_now) s.active).0
            (deadlines n (remove_fired (fire (now - s.last_now) s.active).1)))
        e (fire-IsTicked s.last_now (now - s.last_now) s.active))
