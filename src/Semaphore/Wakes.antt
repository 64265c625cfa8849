-- ===== src/Semaphore/Wakes.antt =====
-- What holds of a semaphore of kernel/src/sync/semaphore.c whatever its threads do, and how a woken
-- thread can fail.
use k_os.Base.{ℕ, ◌≡◌, refl, true, false, some, [], arith, inr}
use k_os.Base.Word.{add32}
use k_os.Semaphore.{
  Semaphore, semaphore_init, set_in_sem, unlist, waitlist_add, waitlist_rm, obtained, sleeping, bug,
  down_end_obtained, down_round, down_begin, down_resumed, wake_first, semaphore_up,
}
use k_os.Semaphore.Steps.{World, Reaches, here, next, IsSound, Step-IsSound}
use k_os.Semaphore.Pieces.{one_less, added, removed, one_more}

-- A new semaphore.
abbrev pub start : ℕ → World
start n = record { sem = semaphore_init n (λ t. false); woken = []; held = 0; given = 0 }

start-IsSound : (n : ℕ) → IsSound n (start n)
unfolding semaphore_init
start-IsSound n = record { flags = λ t. refl; distinct = tt; awake = inr refl; balance = refl }

-- Whatever threads do with a semaphore that starts with the count `n`, where `semaphore_up` does not
-- run the count over 32 bits: the waiters are the threads
-- whose flag is set, each once; while a thread waits the count is not above the number of woken
-- threads that did not run yet; and the count and the units obtained are `n` and the units given.
pub Reaches-IsSound : (n : ℕ) (w : World) → Reaches (start n) w → IsSound n w
Reaches-IsSound n w here = start-IsSound n
Reaches-IsSound n w (next {w₁} r m) = Step-IsSound n w₁ w (Reaches-IsSound n w₁ r) m

-- The order in which a woken thread fails: `a` sleeps on a semaphore at 0 on which nobody waits, it is
-- given and `a` is woken, and `b` takes it before `a` runs; the BUG_ON of `a` then fails.
pub overtaken_lem :
    (s : Semaphore) (a b : ℕ)
    → s.count ≡ 0
    → s.waiters ≡ []
    → s.in_sem a ≡ false
    → (s₁ s₂ s₃ : Semaphore) × (down_begin s a true ≡ sleeping s₁)
      × (semaphore_up s₁ ≡ some (some a, s₂))
      × (down_begin s₂ b true ≡ obtained s₃)
      × (down_resumed s₃ a true ≡ bug)
unfolding down_begin down_resumed semaphore_up wake_first waitlist_add waitlist_rm down_round
    down_end_obtained set_in_sem unlist add32
overtaken_lem s a b empty idle off =
    let s₁ = added s a in
    let s₂ = removed (one_more s₁) a in
    let s₃ = one_less s₂ in
    (
      s₁,
      s₂,
      s₃,
      ground (arith, empty, off),
      ground (arith, empty, off),
      ground (arith, empty, off),
      ground (arith, empty, off),
    )
