-- ===== src/Sched/Notify.antt =====
-- `sched_interrupt_notify` of kernel/src/sched/sched.c.
use k_os.Base.{
  ℕ, ◌<◌, ◌^◌, ◌≡◌, ◌≢◌, refl, ◌∙◌, sym, subst, ap, not, ◌==◌, Option-cases, Bool-cases, inl, inr,
  some, List, [], ◌∷◌, All, length, arith,
}
use k_os.Base.Word.{sub32}
use mathlib.Core.Option.{some-injective, none-ne-some}
use k_os.Sched.{sleeping, Thread, Sched, notify_loop, sched_interrupt_notify}
use k_os.Sched.Invariant.{IsPlan, IsSched}
use k_os.Sched.Wakes.{IsWakeable, woken, do_wake-IsWoken}

-- Whether a thread is up.
abbrev pub IsUp : (ℕ → Thread) → ℕ → Type 0
IsUp thread t = (thread t).state ≢ sleeping

pub weaken_every : {P Q : ℕ → Type 0} → ((t : ℕ) → P t → Q t) → (ts : List ℕ) → All P ts → All Q ts
weaken_every f [] v = tt
weaken_every f (t ∷ ts) (v, vs) = (f t v, weaken_every f ts vs)

-- What the loop changes.
abbrev pub notified : Sched → ℕ → (ℕ → Thread) → List ℕ → Sched
notified s count thread queue = record s {
  suspended_threads = count;
  thread = thread;
  queued_threads = queue;
}

notify_loop-IsUp :
    (n : ℕ) (ts : List ℕ) (s : Sched)
    → IsSched n s
    → All (λ (t : ℕ). IsWakeable (s.thread t)) ts
    → s.suspended_threads ≡ length ts
    → length ts < 2 ^ 32
    → (thread : ℕ → Thread) × (queue : List ℕ) × (notify_loop ts s
        ≡ some (notified s 0 thread queue))
      × IsPlan n thread queue s.current s.idle_task
      × All (IsUp thread) ts
      × ((u : ℕ) → IsUp s.thread u → IsUp thread u)
unfolding notify_loop sub32
notify_loop-IsUp n [] s v w e h = (
  s.thread,
  s.queued_threads,
  ap (λ (k : ℕ). some (record s { suspended_threads = k })) e,
  v,
  tt,
  (λ u g. g),
)
notify_loop-IsUp n (t ∷ ts) s v (w, ws) e h =
    let less : sub32 s.suspended_threads 1 ≡ length ts = omega arith in
    let s₁ : Sched = record s { suspended_threads = length ts } in
    let (th, q, f, k) = do_wake-IsWoken n s₁ t v w in
    let step : notify_loop (t ∷ ts) s ≡ notify_loop ts (woken s₁ th q) =
      simp (notify_loop, less, f) refl in
    let (th', q', f', v', up, kept) =
      notify_loop-IsUp n ts (woken s₁ th q) k.plan (weaken_every k.wakeable ts ws) refl
        (omega arith) in
    (th', q', step ∙ f', v', (kept t k.up, up), (λ u g. kept u (k.others u g)))

-- With the invariant of `n` processors, a count that is right, and fewer than 2 ^ 32 threads in the
-- list, all of which may be woken: `sched_interrupt_notify` does not panic and keeps the invariant, no thread of the list is
-- asleep any more, and the list is empty.
pub sched_interrupt_notify-IsUp :
    (n : ℕ) (s : Sched)
    → IsSched n s
    → All (λ (t : ℕ). IsWakeable (s.thread t)) s.poll_threads
    → s.suspended_threads ≡ length s.poll_threads
    → length s.poll_threads < 2 ^ 32
    → (s' : Sched) × (sched_interrupt_notify s ≡ some s')
      × IsSched n s'
      × All (IsUp s'.thread) s.poll_threads
      × (s'.poll_threads ≡ [])
      × (s'.suspended_threads ≡ 0)
unfolding sched_interrupt_notify
sched_interrupt_notify-IsUp n s v w e h =
    let (th, q, f, v', up, kept) = notify_loop-IsUp n s.poll_threads s v w e h in
    (
      record (notified s 0 th q) { poll_threads = [] },
      simp (sched_interrupt_notify, f) refl,
      v',
      up,
      refl,
      refl,
    )

-- The loop over threads that may all be woken keeps the invariant, whatever the count is.
pub notify_loop-IsSched :
    (n : ℕ) (ts : List ℕ) (s s' : Sched)
    → IsSched n s
    → All (λ (t : ℕ). IsWakeable (s.thread t)) ts
    → notify_loop ts s ≡ some s'
    → IsSched n s'
unfolding notify_loop
notify_loop-IsSched n [] s s' v w e = subst (IsSched n) (some-injective s s' e) v
notify_loop-IsSched n (t ∷ ts) s s' v (w, ws) e =
    let s₁ : Sched = record s { suspended_threads = sub32 s.suspended_threads 1 } in
    let (th, q, f, k) = do_wake-IsWoken n s₁ t v w in
    let step : notify_loop (t ∷ ts) s ≡ notify_loop ts (woken s₁ th q) =
      simp (notify_loop, f) refl in
    notify_loop-IsSched n ts (woken s₁ th q) s' k.plan (weaken_every k.wakeable ts ws)
      (sym step ∙ e)

pub sched_interrupt_notify-IsSched :
    (n : ℕ) (s s' : Sched)
    → IsSched n s
    → All (λ (t : ℕ). IsWakeable (s.thread t)) s.poll_threads
    → sched_interrupt_notify s ≡ some s'
    → IsSched n s'
unfolding sched_interrupt_notify
sched_interrupt_notify-IsSched n s s' v w e = elim (Option-cases (notify_loop s.poll_threads s)) [
  | inl f ↦ absurd (none-ne-some s' (sym (simp (sched_interrupt_notify, f) refl) ∙ e))
  | inr (s₁, f) ↦ elim (Bool-cases (not (s₁.suspended_threads == 0))) [
    | inl left ↦ absurd (none-ne-some s' (sym (simp (sched_interrupt_notify, f, left) refl) ∙ e))
    | inr none_left ↦
        let s₂ : Sched = record s₁ { poll_threads = [] } in
        let last : sched_interrupt_notify s ≡ some s₂ =
          simp (sched_interrupt_notify, f, none_left) refl in
        subst (IsSched n) (some-injective s₂ s' (sym last ∙ e))
          (notify_loop-IsSched n s.poll_threads s s₁ v w f)
  ]
]
