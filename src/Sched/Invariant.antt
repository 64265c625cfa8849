-- ===== src/Sched/Invariant.antt =====
-- What holds between two critical sections of kernel/src/sched/sched.c, and that waking a thread
-- keeps it.
use k_os.Base.{
  ℕ, ◌<◌, ◌≡◌, ◌≢◌, refl, ◌∙◌, sym, subst, ap, Bool, true, false, ◌&&◌, not, List, ◌∷◌, arith,
}
use k_os.Sched.{building, awake, idle, Thread, Sched, set_at, mem, is_awake}
use k_os.Sched.Queue.{IsDistinct, set_at_cases, mem_head, mem_tail}

-- A thread that can run and does not.
abbrev pub is_runnable : Thread → Bool
is_runnable th = is_awake th.state && not th.active

-- With `n` processors: the queue holds the threads that can run and do not, each once; the processors
-- run different threads, which are the active ones; each has an idle thread of its own, which runs
-- nowhere else.
pub record IsPlan (n : ℕ) (thread : ℕ → Thread) (queue : List ℕ) (current idle_task : ℕ → ℕ)
    : Type 0 where
  pub distinct : IsDistinct queue
  pub queued : (t : ℕ) → mem t queue ≡ is_runnable (thread t)
  pub seated : (c : ℕ) → c < n → (thread (current c)).active ≡ true
  pub started : (c : ℕ) → c < n → (thread (current c)).state ≢ building
  pub apart : (c d : ℕ) → c < n → d < n → current c ≡ current d → c ≡ d
  pub only : (t : ℕ) → (thread t).active ≡ true → (c : ℕ) × (c < n) × (current c ≡ t)
  pub resting : (c : ℕ) → c < n → (thread (idle_task c)).state ≡ idle
  pub own : (c d : ℕ) → c < n → d < n → idle_task c ≡ idle_task d → c ≡ d
  pub home : (c d : ℕ) → c < n → d < n → current d ≡ idle_task c → d ≡ c

abbrev pub IsSched : ℕ → Sched → Type 0
IsSched n s = IsPlan n s.thread s.queued_threads s.current s.idle_task

-- A thread changes, but not whether it is active; it neither stops to be an idle one nor goes back to
-- before its start.
pub change-IsPlan :
    (n : ℕ) (thread : ℕ → Thread) (queue : List ℕ) (current idle_task : ℕ → ℕ)
    → IsPlan n thread queue current idle_task
    → (t : ℕ) (th : Thread) (queue' : List ℕ) → th.active ≡ (thread t).active
    → (th.state ≡ building → (thread t).state ≡ building)
    → ((thread t).state ≡ idle → th.state ≡ idle)
    → IsDistinct queue'
    → ((u : ℕ) → mem u queue' ≡ is_runnable (set_at thread t th u))
    → IsPlan n (set_at thread t th) queue' current idle_task
change-IsPlan n thread queue current idle_task v t th queue' act begun rest dist que = record {
  distinct = dist;
  queued = que;
  seated = λ c l.
      set_at_cases (λ (x : Thread). x.active ≡ true) thread t th (current c)
        (λ e. act ∙ subst (λ (u : ℕ). (thread u).active ≡ true) e (v.seated c l))
        (λ e. v.seated c l);
  started = λ c l.
      set_at_cases (λ (x : Thread). x.state ≢ building) thread t th (current c)
        (λ e. λ b. v.started c l (ap (λ (u : ℕ). (thread u).state) e ∙ begun b))
        (λ e. v.started c l);
  apart = v.apart;
  only = λ u.
      set_at_cases (λ (x : Thread). x.active ≡ true → (c : ℕ) × (c < n) × (current c ≡ u)) thread t
        th u (λ e a. v.only u (ap (λ (u : ℕ). (thread u).active) e ∙ sym act ∙ a))
        (λ e a. v.only u a);
  resting = λ c l.
      set_at_cases (λ (x : Thread). x.state ≡ idle) thread t th (idle_task c)
        (λ e. rest (subst (λ (u : ℕ). (thread u).state ≡ idle) e (v.resting c l)))
        (λ e. v.resting c l);
  own = v.own;
  home = v.home;
}

-- The same where the thread can run neither before nor behind the change, or in both cases.
pub same-IsPlan :
    (n : ℕ) (thread : ℕ → Thread) (queue : List ℕ) (current idle_task : ℕ → ℕ)
    → IsPlan n thread queue current idle_task
    → (t : ℕ) (th : Thread) → th.active ≡ (thread t).active
    → (th.state ≡ building → (thread t).state ≡ building)
    → ((thread t).state ≡ idle → th.state ≡ idle)
    → is_runnable th ≡ is_runnable (thread t)
    → IsPlan n (set_at thread t th) queue current idle_task
same-IsPlan n thread queue current idle_task v t th act begun rest run =
    change-IsPlan n thread queue current idle_task v t th queue act begun rest v.distinct (λ u.
      set_at_cases (λ (x : Thread). mem u queue ≡ is_runnable x) thread t th u
        (λ e. v.queued u ∙ ap (λ (u : ℕ). is_runnable (thread u)) e ∙ sym run) (λ e. v.queued u))

-- The same where the thread could not run, but can behind the change, and goes into the queue.
pub join-IsPlan :
    (n : ℕ) (thread : ℕ → Thread) (queue : List ℕ) (current idle_task : ℕ → ℕ)
    → IsPlan n thread queue current idle_task
    → (t : ℕ) (th : Thread) → th.active ≡ (thread t).active
    → th.state ≡ awake
    → (thread t).state ≢ idle
    → is_runnable (thread t) ≡ false
    → th.active ≡ false
    → IsPlan n (set_at thread t th) (t ∷ queue) current idle_task
unfolding is_awake
join-IsPlan n thread queue current idle_task v t th act awk rest run off =
    change-IsPlan n thread queue current idle_task v t th (t ∷ queue) act
      (λ b. absurd (ground (arith, awk, b))) (λ i. absurd (rest i)) (v.queued t ∙ run, v.distinct)
      (λ u.
        set_at_cases (λ (x : Thread). mem u (t ∷ queue) ≡ is_runnable x) thread t th u
          (λ e. mem_head u t queue e ∙ rw (awk, off) refl) (λ e. mem_tail u t queue e ∙ v.queued u))
