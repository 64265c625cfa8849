-- ===== src/Timer/Create.antt =====
-- `timer_create` of kernel/src/time/timer.c against the times at which the timers are due.
use k_os.Base.{
  ℕ, ◌+◌, ◌-◌, ◌≤◌, ◌<◌, ◌≡◌, refl, ◌∙◌, ap, ap₂, ◌||◌, inl, inr, List, [], ◌∷◌, ◌++◌, ltb, ◌==◌,
  Bool-cases, arith,
}
use k_os.Timer.{Timer, Walk, placed, ended, walk, walk_past, add_before_last, timer_create}

-- When each timer is due, and its callback, if the queue starts at the time `now`.
abbrev pub deadlines : ℕ → List Timer → List (ℕ × ℕ)
deadlines now [] = []
deadlines now (t ∷ ts) = (now + t.delta, t.callback) ∷ deadlines (now + t.delta) ts

-- When the last timer is due.
abbrev pub horizon : ℕ → List Timer → ℕ
horizon now [] = now
horizon now (t ∷ ts) = horizon (now + t.delta) ts

-- `new` is put somewhere into `old`, and nothing else changes.
pub record IsInserted (old : List (ℕ × ℕ)) (new : ℕ × ℕ) (out : List (ℕ × ℕ)) : Type 0 where
  pub before : List (ℕ × ℕ)
  pub behind : List (ℕ × ℕ)
  pub was : old ≡ before ++ behind
  pub is_now : out ≡ before ++ (new ∷ behind)

-- What the walk leaves: the new timer's deadline among the others', or the time left behind all.
abbrev Walked : ℕ → Timer → List Timer → Walk → Type 0
Walked now new ts (placed us) =
    IsInserted (deadlines now ts) (now + new.delta, new.callback) (deadlines now us)
Walked now new ts (ended new') =
    (now + new.delta ≡ horizon now ts + new'.delta) × (new'.callback ≡ new.callback)

Walked-walk_past :
    (now : ℕ) (new rest t : Timer) (ts : List Timer) (w : Walk)
    → now + new.delta ≡ now + t.delta + rest.delta
    → rest.callback ≡ new.callback
    → Walked (now + t.delta) rest ts w
    → Walked now new (t ∷ ts) (walk_past t w)
unfolding walk_past
Walked-walk_past now new rest t ts (placed us) e e' i = record {
  before = (now + t.delta, t.callback) ∷ i.before;
  behind = i.behind;
  was = ap (◌∷◌ (now + t.delta, t.callback)) i.was;
  is_now =
      ap (◌∷◌ (now + t.delta, t.callback))
        (i.is_now ∙ ap₂ (λ (d c : ℕ). i.before ++ ((d, c) ∷ i.behind)) (omega arith) e');
}
Walked-walk_past now new rest t ts (ended new') e e' i = (omega arith, i.1 ∙ e')

walk-Walked : (now : ℕ) (new : Timer) (ts : List Timer) → Walked now new ts (walk new ts)
unfolding walk
walk-Walked now new [] = (refl, refl)
walk-Walked now new (t ∷ ts) = elim (Bool-cases (new.delta == 0 || ltb new.delta t.delta)) [
  | inl here ↦ rw here (record {
    before = [];
    behind = deadlines now (t ∷ ts);
    was = refl;
    is_now =
        ap (λ (d : ℕ). (now + new.delta, new.callback) ∷ (d, t.callback) ∷ deadlines d ts)
          (ground arith);
  })
  | inr past ↦ rw past (
      Walked-walk_past now new (record new { delta = new.delta - t.delta }) t ts
        (walk (record new { delta = new.delta - t.delta }) ts) (ground arith) refl
        (walk-Walked (now + t.delta) (record new { delta = new.delta - t.delta }) ts))
]

-- A timer that is due before the last one in the queue finds its place in the walk.
Walked-placed :
    (now : ℕ) (new : Timer) (ts : List Timer) (w : Walk)
    → now + new.delta < horizon now ts
    → Walked now new ts w
    → (us : List Timer) × (w ≡ placed us)
      × IsInserted (deadlines now ts) (now + new.delta, new.callback) (deadlines now us)
Walked-placed now new ts (placed us) h i = (us, refl, i)
Walked-placed now new ts (ended new') h i = absurd (omega arith)

-- `timer_create` with a time before the last deadline of the queue inserts the new timer: it is due
-- after `millis` milliseconds, and every other timer when it was due before.
pub timer_create-IsInserted :
    (now millis callback : ℕ) (ts : List Timer)
    → now + millis < horizon now ts
    → IsInserted
        (deadlines now ts)
        (now + millis, callback)
        (deadlines now (timer_create millis callback ts))
unfolding timer_create
timer_create-IsInserted now millis callback [] h = absurd (omega arith)
timer_create-IsInserted now millis callback (t ∷ ts) h =
    let new : Timer = record { delta = millis; callback = callback } in
    let (us, e, i) =
      Walked-placed now new (t ∷ ts) (walk new (t ∷ ts)) h (walk-Walked now new (t ∷ ts)) in
    rw (timer_create, e) i

-- The first timer of an empty queue is due after `millis` milliseconds.
pub timer_create-nil :
    (now millis callback : ℕ)
    → deadlines now (timer_create millis callback []) ≡ (now + millis, callback) ∷ []
unfolding timer_create
timer_create-nil now millis callback = refl

horizon-append :
    (now : ℕ) (ts us : List Timer) → horizon now (ts ++ us) ≡ horizon (horizon now ts) us
horizon-append now [] us = refl
horizon-append now (t ∷ ts) us = horizon-append (now + t.delta) ts us

deadlines-append :
    (now : ℕ) (ts us : List Timer)
    → deadlines now (ts ++ us) ≡ deadlines now ts ++ deadlines (horizon now ts) us
deadlines-append now [] us = refl
deadlines-append now (t ∷ ts) us =
    ap (◌∷◌ (now + t.delta, t.callback)) (deadlines-append (now + t.delta) ts us)

horizon-le : (now : ℕ) (ts : List Timer) → now ≤ horizon now ts
horizon-le now [] = omega arith
horizon-le now (t ∷ ts) = omega (arith, horizon-le (now + t.delta) ts)

add_before_last-append :
    (new last : Timer) (ts : List Timer)
    → add_before_last new (ts ++ (last ∷ [])) ≡ ts ++ (new ∷ last ∷ [])
unfolding add_before_last
add_before_last-append new last [] = refl
add_before_last-append new last (t ∷ []) = refl
add_before_last-append new last (t ∷ u ∷ ts) = ap (◌∷◌ t) (add_before_last-append new last (u ∷ ts))

-- A timer that is due at or behind the last one, which has time of its own, walks off the end.
walk-ended :
    (now : ℕ) (new : Timer) (ts : List Timer) (last : Timer)
    → horizon now (ts ++ (last ∷ [])) ≤ now + new.delta
    → 0 < last.delta
    → walk new (ts ++ (last ∷ []))
      ≡ ended (record new { delta = now + new.delta - horizon now (ts ++ (last ∷ [])) })
unfolding walk walk_past
walk-ended now new [] last h pos = ground arith
walk-ended now new (t ∷ ts) last h pos =
    let ih =
      walk-ended (now + t.delta) (record new { delta = new.delta - t.delta }) ts last
        (omega (arith, low)) pos in
    ground (arith, low, ih)
  where
    low : now + t.delta + last.delta ≤ horizon (now + t.delta) (ts ++ (last ∷ []))
    low =
        omega (arith, horizon-append (now + t.delta) ts (last ∷ []), horizon-le (now + t.delta) ts)

timer_create-ended :
    (millis callback : ℕ) (ts : List Timer) (new last : Timer)
    → walk (record { delta = millis; callback = callback }) (ts ++ (last ∷ [])) ≡ ended new
    → timer_create millis callback (ts ++ (last ∷ [])) ≡ ts ++ (new ∷ last ∷ [])
unfolding timer_create
timer_create-ended millis callback [] new last e =
    rw (timer_create, e) (add_before_last-append new last [])
timer_create-ended millis callback (t ∷ ts) new last e =
    rw (timer_create, e) (add_before_last-append new last (t ∷ ts))

-- `timer_create` with a time at or behind the last deadline goes wrong whenever the last timer has
-- time of its own: the new timer is put in front of the last one. So it is due early, by the last
-- timer's `delta`, and the last timer is due when the new one should be.
pub timer_create-behind :
    (now millis callback : ℕ) (ts : List Timer) (last : Timer)
    → horizon now (ts ++ (last ∷ [])) ≤ now + millis
    → 0 < last.delta
    → deadlines now (timer_create millis callback (ts ++ (last ∷ [])))
      ≡ deadlines now ts
        ++ ((now + millis - last.delta, callback) ∷ (now + millis, last.callback) ∷ [])
timer_create-behind now millis callback ts last h pos =
    let new : Timer = record { delta = millis; callback = callback } in
    ap (deadlines now)
      (timer_create-ended millis callback ts _ last (walk-ended now new ts last h pos))
    ∙ deadlines-append now ts _
    ∙ ap₂ (λ (d d' : ℕ). deadlines now ts ++ ((d, callback) ∷ (d', last.callback) ∷ []))
        (omega (arith, horizon-append now ts (last ∷ [])))
        (omega (arith, horizon-append now ts (last ∷ [])))
