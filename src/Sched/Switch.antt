-- ===== src/Sched/Switch.antt =====
-- `do_sched_switch` of kernel/src/sched/sched.c: what it switches to, and that it neither fails nor loses
-- a thread.
use k_os.Base.{
  ℕ, ◌+◌, ◌<◌, ◌≡◌, ◌≢◌, ◌%◌, ◌^◌, refl, ◌∙◌, sym, ap, Bool, true, false, ◌&&◌, not, some, List,
  ◌∷◌, ◌==◌, arith,
}
use k_os.Base.Word.{add32, sub32}
use k_os.Semaphore.{unlist}
use k_os.Sched.{
  ThreadState, building, awake, sleeping, exited, idle, Thread, Sched, set_at, mem, is_awake,
  deactivate_in, deactivate_thread, next_of, lock_next_current, can_run, finish_sched_switch,
  do_sched_switch, quantum,
}
use k_os.Sched.Queue.{set_at_same, set_at_other, set_at_cases, mem_head, mem_tail}
use k_os.Sched.Invariant.{is_runnable, IsSched}
use k_os.Sched.Gap.{IsGap, off, on, put_off-state, leave-IsGap, enter-IsPlan}
use k_os.Sched.Next.{lock_next_current-IsNext, lock_next_current_up}
use k_os.Sched.Wakes.{enqueue_fresh}

-- What `deactivate_thread` changes.
abbrev left_state : Sched → List ℕ → ℕ → List ℕ → Sched
left_state s queue going threads = record s {
  queued_threads = queue;
  tasks_going = going;
  threads = threads;
}

module _ (n c : ℕ) (s : Sched) (v : IsSched n s) (l : c < n) where
  -- The threads without the one that the processor leaves.
  abbrev rest_of : ℕ → Thread
  rest_of = set_at s.thread (s.current c) (off (s.thread (s.current c)))

  -- A queue without the thread, where the thread cannot run.
  leave_off :
      is_awake (s.thread (s.current c)).state ≡ false
      → IsGap n c rest_of s.queued_threads s.current s.idle_task
  leave_off e =
      leave-IsGap n c s.thread s.queued_threads s.current s.idle_task v l s.queued_threads
        v.distinct
        (λ u.
          set_at_cases (λ (x : Thread). mem u s.queued_threads ≡ is_runnable x) s.thread
            (s.current c) (off (s.thread (s.current c))) u
            (λ same. v.queued u ∙ ap (λ (k : ℕ). is_runnable (s.thread k)) same ∙ rw e refl)
            (λ other. v.queued u))

  -- The thread at the head of the queue, where it can run.
  leave_awake :
      is_awake (s.thread (s.current c)).state ≡ true
      → IsGap n c rest_of (s.current c ∷ s.queued_threads) s.current s.idle_task
  leave_awake e =
      leave-IsGap n c s.thread s.queued_threads s.current s.idle_task v l
        (s.current c ∷ s.queued_threads) (fresh, v.distinct)
        (λ u.
          set_at_cases (λ (x : Thread). mem u (s.current c ∷ s.queued_threads) ≡ is_runnable x)
            s.thread (s.current c) (off (s.thread (s.current c))) u
            (λ same. mem_head u (s.current c) s.queued_threads same ∙ rw e refl)
            (λ other. mem_tail u (s.current c) s.queued_threads other ∙ v.queued u))
    where
      fresh : mem (s.current c) s.queued_threads ≡ false
      fresh = v.queued (s.current c) ∙ rw (e, v.seated c l) refl

  abbrev IsLeft : Type 0
  IsLeft =
      (queue : List ℕ) × (going : ℕ) × (threads : List ℕ) × (deactivate_thread s (s.current c)
        ≡ some (left_state s queue going threads))
      × IsGap n c rest_of queue s.current s.idle_task

  leave : IsLeft
  unfolding deactivate_thread deactivate_in is_awake
  leave = go (s.thread (s.current c)).state refl
    where
      go : (st : ThreadState) → (s.thread (s.current c)).state ≡ st → IsLeft
      go building e = absurd (v.started c l e)
      go awake e =
          let run : mem (s.current c) s.queued_threads ≡ false =
            v.queued (s.current c) ∙ rw (e, v.seated c l) refl in
          let g = sub32 s.tasks_going 1 in
          (
            s.current c ∷ s.queued_threads,
            g,
            s.threads,
            simp (deactivate_thread, e, deactivate_in, v.seated c l)
                (enqueue_fresh (record s { tasks_going = g }) (s.current c) run),
            leave_awake (rw e refl),
          )
      go sleeping e = (
        s.queued_threads,
        sub32 s.tasks_going 1,
        s.threads,
        simp (deactivate_thread, e, deactivate_in) refl,
        leave_off (rw e refl),
      )
      go exited e = (
        s.queued_threads,
        s.tasks_going,
        unlist (s.current c) s.threads,
        simp (deactivate_thread, e, deactivate_in) refl,
        leave_off (rw e refl),
      )
      go idle e = (
        s.queued_threads,
        s.tasks_going,
        s.threads,
        simp (deactivate_thread, e, deactivate_in) refl,
        leave_off (rw e refl),
      )

-- The processor takes its next thread.
abbrev pub taken : Sched → ℕ → ℕ → ℕ → Sched
taken s c now t =
    let left = set_at s.thread (s.current c) (off (s.thread (s.current c))) in
    record s {
      thread = set_at left t (on (left t));
      current = set_at s.current c t;
      switch_time = set_at s.switch_time c ((now + quantum) % 2 ^ 64);
    }

finish_lem :
    (s : Sched) (c now t : ℕ)
    → can_run (s.thread t).state ≡ true
    → (set_at s.thread (s.current c) (off (s.thread (s.current c))) t).active ≡ false
    → finish_sched_switch s c now (s.current c) t ≡ some (taken s c now t)
unfolding finish_sched_switch
finish_lem s c now t run free =
    let clear : not (s.current c == t) && (s.thread t).active ≡ false =
      set_at_cases
        (λ (x : Thread). x.active ≡ false → not (s.current c == t) && (s.thread t).active ≡ false)
        s.thread (s.current c) (off (s.thread (s.current c))) t
        (λ e f. let same : (s.current c == t) ≡ true = ground arith in rw same refl)
        (λ e f. rw f (ground arith)) free in
    rw (clear, run) refl

-- A switch on one of `n` processors at a time: with the invariant no check in it fails, the invariant holds
-- again, and the processor runs a thread that is awake or its idle one.
pub do_sched_switch-IsSched :
    (n : ℕ) (s : Sched) (c now : ℕ)
    → IsSched n s
    → c < n
    → (s' : Sched) × (do_sched_switch s c now ≡ some s')
      × IsSched n s'
      × (can_run (s'.thread (s'.current c)).state ≡ true)
unfolding do_sched_switch can_run
do_sched_switch-IsSched n s c now v l =
    let (queue, going, threads, e, g) = leave n c s v l in
    let s₁ : Sched = left_state s queue going threads in
    let (t, queue', going', e', next) = lock_next_current-IsNext n c (s.current c) s₁ g l in
    let s₂ : Sched = record s₁ { queued_threads = queue'; tasks_going = going' } in
    let run : can_run (s.thread t).state ≡ true =
      ap can_run (sym (put_off-state s.thread (s.current c) t)) ∙ next.ready in
    let left : ℕ → Thread = rest_of n c s v l in
    let begun : (left t).state ≢ building =
      λ b. absurd (ground (arith, sym (ap can_run b) ∙ next.ready)) in
    (
      taken s₂ c now t,
      simp (do_sched_switch, e, e') (finish_lem s₂ c now t run next.free),
      enter-IsPlan n c (rest_of n c s v l) queue s.current s.idle_task g l t queue' next.free begun
          next.mine next.distinct next.queued,
      ap (λ (k : ℕ). can_run (set_at left t (on (left t)) k).state)
            (set_at_same s.current c t c refl)
          ∙ ap (λ (x : Thread). can_run x.state) (set_at_same left t (on (left t)) t refl)
          ∙ next.ready,
    )

-- A processor whose thread is awake, once `tasking_up` is set: the switch comes back to that thread, whatever else is in the
-- queue, and leaves the queue and every thread as they were. There are `n` processors and the
-- invariant holds.
pub do_sched_switch-current :
    (n : ℕ) (s : Sched) (c now : ℕ)
    → IsSched n s
    → c < n
    → s.tasking_up ≡ true
    → (s.thread (s.current c)).state ≡ awake
    → (s' : Sched) × (do_sched_switch s c now ≡ some s')
      × (s'.current c ≡ s.current c)
      × (s'.queued_threads ≡ s.queued_threads)
      × ((t : ℕ) → s'.thread t ≡ s.thread t)
unfolding do_sched_switch deactivate_thread deactivate_in next_of can_run
do_sched_switch-current n s c now v l up e =
    let me = s.current c in
    let rest : ℕ → Thread = set_at s.thread me (off (s.thread me)) in
    let on_ : (s.thread me).active ≡ true = v.seated c l in
    let fresh : mem me s.queued_threads ≡ false = v.queued me ∙ rw on_ (ground arith) in
    let s₁ : Sched = record s {
      queued_threads = me ∷ s.queued_threads;
      tasks_going = sub32 s.tasks_going 1;
    } in
    let s₂ : Sched = record s { tasks_going = add32 (sub32 s.tasks_going 1) 1 } in
    let left : deactivate_thread s me ≡ some s₁ =
      simp (deactivate_thread, e, deactivate_in, on_)
        (enqueue_fresh (record s { tasks_going = sub32 s.tasks_going 1 }) me fresh) in
    let next : lock_next_current s₁ c ≡ some (me, s₂) =
      lock_next_current_up s₁ c up ∙ simp (next_of, e) refl in
    (
      taken s₂ c now me,
      simp (do_sched_switch, left, next)
          (finish_lem s₂ c now me (rw e refl)
            (ap (λ (x : Thread). x.active) (set_at_same s.thread me (off (s.thread me)) me refl))),
      set_at_same s.current c me c refl,
      refl,
      λ t.
          set_at_cases (λ (x : Thread). x ≡ s.thread t) rest me (on (rest me)) t
            (λ same.
              ap on (set_at_same s.thread me (off (s.thread me)) me refl)
              ∙ ap (λ (b : Bool). record (s.thread me) { active = b }) (sym on_)
              ∙ ap s.thread (sym same))
            (λ other. set_at_other s.thread me (off (s.thread me)) t other),
    )
