-- ===== src/Sched/Gap.antt =====
-- The two halves of a switch of kernel/src/sched/sched.c: a processor without a thread between them.
use k_os.Base.{ℕ, ◌<◌, ◌≡◌, ◌≢◌, refl, ◌∙◌, sym, ap, true, false, List, arith}
use k_os.Sched.{building, idle, Thread, set_at, mem}
use k_os.Sched.Queue.{IsDistinct, set_at_same, set_at_other, set_at_cases}
use k_os.Sched.Invariant.{is_runnable, IsPlan}

-- The processor `c` has given its thread up.
pub record IsGap (n c : ℕ) (thread : ℕ → Thread) (queue : List ℕ) (current idle_task : ℕ → ℕ)
    : Type 0 where
  pub distinct : IsDistinct queue
  pub queued : (t : ℕ) → mem t queue ≡ is_runnable (thread t)
  pub seated : (d : ℕ) → d < n → d ≢ c → (thread (current d)).active ≡ true
  pub started : (d : ℕ) → d < n → d ≢ c → (thread (current d)).state ≢ building
  pub apart : (d e : ℕ) → d < n → e < n → d ≢ c → e ≢ c → current d ≡ current e → d ≡ e
  pub only : (t : ℕ) → (thread t).active ≡ true → (d : ℕ) × (d < n) × (d ≢ c) × (current d ≡ t)
  pub resting : (d : ℕ) → d < n → (thread (idle_task d)).state ≡ idle
  pub own : (d e : ℕ) → d < n → e < n → idle_task d ≡ idle_task e → d ≡ e
  pub home : (d e : ℕ) → d < n → e < n → e ≢ c → current e ≡ idle_task d → e ≡ d

-- A thread that does not run.
abbrev pub off : Thread → Thread
off th = record th { active = false }

abbrev pub on : Thread → Thread
on th = record th { active = true }

pub put_off-state :
    (thread : ℕ → Thread) (t u : ℕ) → (set_at thread t (off (thread t)) u).state ≡ (thread u).state
put_off-state thread t u =
    set_at_cases (λ (x : Thread). x.state ≡ (thread u).state) thread t (off (thread t)) u
      (λ e. ap (λ (k : ℕ). (thread k).state) (sym e)) (λ e. refl)

put_on-state :
    (thread : ℕ → Thread) (t u : ℕ) → (set_at thread t (on (thread t)) u).state ≡ (thread u).state
put_on-state thread t u =
    set_at_cases (λ (x : Thread). x.state ≡ (thread u).state) thread t (on (thread t)) u
      (λ e. ap (λ (k : ℕ). (thread k).state) (sym e)) (λ e. refl)

-- The thread of a processor is taken off it; one that can run is in the queue.
pub leave-IsGap :
    (n c : ℕ) (thread : ℕ → Thread) (queue : List ℕ) (current idle_task : ℕ → ℕ)
    → IsPlan n thread queue current idle_task
    → c < n
    → (queue' : List ℕ) → IsDistinct queue'
    → ((u : ℕ)
        → mem u queue' ≡ is_runnable (set_at thread (current c) (off (thread (current c))) u))
    → IsGap n c (set_at thread (current c) (off (thread (current c)))) queue' current idle_task
leave-IsGap n c thread queue current idle_task v l queue' dist que = record {
  distinct = dist;
  queued = que;
  seated = λ d k ne.
      set_at_cases (λ (x : Thread). x.active ≡ true) thread (current c) (off (thread (current c)))
        (current d) (λ e. absurd (ne (v.apart d c k l e))) (λ e. v.seated d k);
  started = λ d k ne b. v.started d k (sym (put_off-state thread (current c) (current d)) ∙ b);
  apart = λ d e k k' ne ne' same. v.apart d e k k' same;
  only = λ t.
      set_at_cases (λ (x : Thread). x.active ≡ true → (d : ℕ) × (d < n) × (d ≢ c) × (current d ≡ t))
        thread (current c) (off (thread (current c))) t (λ e a. absurd (ground (arith, a)))
        (λ e a. let (d, k, same) = v.only t a in (d, k, (λ f. e (sym same ∙ ap current f)), same));
  resting = λ d k. put_off-state thread (current c) (idle_task d) ∙ v.resting d k;
  own = v.own;
  home = λ d e k k' ne same. v.home d e k k' same;
}

-- A thread that does not run comes to the processor.
pub enter-IsPlan :
    (n c : ℕ) (thread : ℕ → Thread) (queue : List ℕ) (current idle_task : ℕ → ℕ)
    → IsGap n c thread queue current idle_task
    → c < n
    → (t : ℕ) (queue' : List ℕ) → (thread t).active ≡ false
    → (thread t).state ≢ building
    → ((d : ℕ) → d < n → t ≡ idle_task d → c ≡ d)
    → IsDistinct queue'
    → ((u : ℕ) → mem u queue' ≡ is_runnable (set_at thread t (on (thread t)) u))
    → IsPlan n (set_at thread t (on (thread t))) queue' (set_at current c t) idle_task
enter-IsPlan n c thread queue current idle_task v l t queue' act begun mine dist que =
    let there : Thread = on (thread t) in
    let free : (d : ℕ) → d < n → d ≢ c → current d ≢ t = λ d k ne same.
      absurd
        (ground (arith, act, ap (λ (u : ℕ). (thread u).active) (sym same) ∙ v.seated d k ne)) in
    record {
      distinct = dist;
      queued = que;
      seated = λ d k.
          set_at_cases (λ (x : ℕ). (set_at thread t there x).active ≡ true) current c t d
            (λ e. ap (λ (x : Thread). x.active) (set_at_same thread t there t refl))
            (λ e.
              ap (λ (x : Thread). x.active) (set_at_other thread t there (current d) (free d k e))
              ∙ v.seated d k e);
      started = λ d k b.
          set_at_cases (λ (x : ℕ). (thread x).state ≢ building) current c t d (λ e. begun)
            (λ e. v.started d k e) (sym (put_on-state thread t (set_at current c t d)) ∙ b);
      apart = λ d e k k'.
          set_at_cases (λ (x : ℕ). x ≡ set_at current c t e → d ≡ e) current c t d
            (λ f.
              set_at_cases (λ (y : ℕ). t ≡ y → d ≡ e) current c t e (λ f' same. f ∙ sym f')
                (λ f' same. absurd (free e k' f' (sym same))))
            (λ f.
              set_at_cases (λ (y : ℕ). current d ≡ y → d ≡ e) current c t e
                (λ f' same. absurd (free d k f same)) (λ f' same. v.apart d e k k' f f' same));
      only = λ u.
          set_at_cases
            (λ (x : Thread). x.active ≡ true → (d : ℕ) × (d < n) × (set_at current c t d ≡ u))
            thread t there u (λ e a. (c, l, set_at_same current c t c refl ∙ sym e))
            (λ e a.
              let (d, k, ne, same) = v.only u a in (d, k, set_at_other current c t d ne ∙ same));
      resting = λ d k. put_on-state thread t (idle_task d) ∙ v.resting d k;
      own = v.own;
      home = λ d e k k'.
          set_at_cases (λ (x : ℕ). x ≡ idle_task d → e ≡ d) current c t e
            (λ f same. f ∙ mine d k same) (λ f same. v.home d e k k' f same);
    }
