-- ===== src/Sched/Next.antt =====
-- What comes to a processor of kernel/src/sched/sched.c that has given its thread up.
use k_os.Base.{
  ℕ, ◌<◌, ◌≡◌, refl, ◌∙◌, sym, subst, ap, Bool, true, false, some, List, [], ◌∷◌, if◌then◌else◌,
  Bool-cases, inl, inr, arith,
}
use k_os.Base.Word.{add32}
use k_os.Sched.{
  ThreadState, building, awake, sleeping, exited, idle, Thread, Sched, set_at, mem, is_awake,
  next_of, lock_next_current, can_run,
}
use k_os.Sched.Queue.{IsDistinct, set_at_cases, mem_head, mem_tail}
use k_os.Sched.Invariant.{is_runnable}
use k_os.Sched.Gap.{IsGap, off, on, put_off-state}

-- A thread that the processor may take up, and the queue without it.
pub record IsNext (n c : ℕ) (thread : ℕ → Thread) (idle_task : ℕ → ℕ) (t : ℕ) (queue : List ℕ)
    : Type 0 where
  pub ready : can_run (thread t).state ≡ true
  pub free : (thread t).active ≡ false
  pub mine : (d : ℕ) → d < n → t ≡ idle_task d → c ≡ d
  pub distinct : IsDistinct queue
  pub queued : (u : ℕ) → mem u queue ≡ is_runnable (set_at thread t (on (thread t)) u)

module _ (n c : ℕ) (thread : ℕ → Thread) (queue : List ℕ) (current idle_task : ℕ → ℕ) where
  -- The idle thread.
  idle_task-IsNext :
      IsGap n c thread queue current idle_task
      → c < n
      → IsNext n c thread idle_task (idle_task c) queue
  unfolding can_run is_awake
  idle_task-IsNext g l = record {
    ready = rw (g.resting c l) refl;
    free = elim (Bool-cases (thread (idle_task c)).active) [
      | inl on ↦
          let (d, k, ne, same) = g.only (idle_task c) on in absurd (ne (g.home c d l k ne same))
      | inr e ↦ e
    ];
    mine = λ d k same. g.own c d l k same;
    distinct = g.distinct;
    queued = λ u.
        set_at_cases (λ (x : Thread). mem u queue ≡ is_runnable x) thread (idle_task c)
          (on (thread (idle_task c))) u
          (λ same.
            g.queued u ∙ ap (λ (k : ℕ). is_runnable (thread k)) same ∙ rw (g.resting c l) refl)
          (λ other. g.queued u);
  }

-- The head of the queue.
head-IsNext :
    (n c : ℕ) (thread : ℕ → Thread) (t : ℕ) (ts : List ℕ) (current idle_task : ℕ → ℕ)
    → IsGap n c thread (t ∷ ts) current idle_task
    → IsNext n c thread idle_task t ts × ((thread t).state ≡ awake)
unfolding can_run is_awake
head-IsNext n c thread t ts current idle_task g =
    let run : is_runnable (thread t) ≡ true = sym (g.queued t) ∙ mem_head t t ts refl in
    let awk : (thread t).state ≡ awake = awake_of (thread t).state (ground (arith, run)) in
    (
      record {
        ready = rw awk refl;
        free = ground (arith, run);
        mine = λ d k same.
            absurd (ground (arith, awk, ap (λ (u : ℕ). (thread u).state) same ∙ g.resting d k));
        distinct = g.distinct.1;
        queued = λ u.
            set_at_cases (λ (x : Thread). mem u ts ≡ is_runnable x) thread t (on (thread t)) u
              (λ same. ap (λ (k : ℕ). mem k ts) same ∙ g.distinct.0 ∙ rw awk refl)
              (λ other. sym (mem_tail u t ts other) ∙ g.queued u);
      },
      awk,
    )
  where
    awake_of : (st : ThreadState) → is_awake st ≡ true → st ≡ awake
    awake_of awake e = refl
    awake_of building e = absurd (ground (arith, e))
    awake_of sleeping e = absurd (ground (arith, e))
    awake_of exited e = absurd (ground (arith, e))
    awake_of idle e = absurd (ground (arith, e))

-- The two cases of `lock_next_current`.
lock_next_current_down :
    (s : Sched) (c : ℕ) → s.tasking_up ≡ false → lock_next_current s c ≡ some (s.idle_task c, s)
unfolding lock_next_current
lock_next_current_down s c e =
    ap (λ (b : Bool). if b then next_of s.queued_threads s c else some (s.idle_task c, s)) e

pub lock_next_current_up :
    (s : Sched) (c : ℕ) → s.tasking_up ≡ true → lock_next_current s c ≡ next_of s.queued_threads s c
unfolding lock_next_current
lock_next_current_up s c e =
    ap (λ (b : Bool). if b then next_of s.queued_threads s c else some (s.idle_task c, s)) e

-- `lock_next_current`, where the processor `c` of the state has given the thread `old` up but still
-- counts as its own.
pub lock_next_current-IsNext :
    (n c old : ℕ) (s : Sched)
    → IsGap n c (set_at s.thread old (off (s.thread old))) s.queued_threads s.current s.idle_task
    → c < n
    → (t : ℕ) × (queue : List ℕ) × (going : ℕ) × (lock_next_current s c
        ≡ some (t, record s { queued_threads = queue; tasks_going = going }))
      × IsNext n c (set_at s.thread old (off (s.thread old))) s.idle_task t queue
unfolding lock_next_current next_of
lock_next_current-IsNext n c old s g l = elim (Bool-cases s.tasking_up) [
  | inl up ↦ go s.queued_threads refl up
  | inr down ↦ (
    s.idle_task c,
    s.queued_threads,
    s.tasks_going,
    lock_next_current_down s c down,
    idle_task-IsNext n c (set_at s.thread old (off (s.thread old))) s.queued_threads s.current
        s.idle_task g l,
  )
]
  where
    rest : ℕ → Thread
    rest = set_at s.thread old (off (s.thread old))

    go :
        (us : List ℕ)
        → s.queued_threads ≡ us
        → s.tasking_up ≡ true
        → (t : ℕ) × (queue : List ℕ) × (going : ℕ) × (lock_next_current s c
            ≡ some (t, record s { queued_threads = queue; tasks_going = going }))
          × IsNext n c (set_at s.thread old (off (s.thread old))) s.idle_task t queue
    go [] e up = (
      s.idle_task c,
      s.queued_threads,
      s.tasks_going,
      lock_next_current_up s c up ∙ ap (λ (q : List ℕ). next_of q s c) e,
      idle_task-IsNext n c rest s.queued_threads s.current s.idle_task g l,
    )
    go (t ∷ us) e up =
        let (next, awk) =
          head-IsNext n c (set_at s.thread old (off (s.thread old))) t us s.current s.idle_task (
            subst
              (λ (q : List ℕ).
                IsGap n c (set_at s.thread old (off (s.thread old))) q s.current s.idle_task)
              e g) in
        let there : (s.thread t).state ≡ awake = sym (put_off-state s.thread old t) ∙ awk in
        (t, us, add32 s.tasks_going 1, simp (lock_next_current, up, e, next_of, there) refl, next)
