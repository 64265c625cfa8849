-- ===== src/Semaphore/Tests.antt =====
-- Two threads and a semaphore of kernel/src/sync/semaphore.c.
use k_os.Base.{◌≡◌, refl, true, false, some, []}
use k_os.Semaphore.{
  Semaphore, semaphore_init, obtained, sleeping, bug, down_begin, down_end_obtained, down_resumed,
  semaphore_up,
}
use k_os.Semaphore.Pieces.{one_less}
use k_os.Semaphore.Steps.{World, taken, Reaches, here, next, IsSound}
use k_os.Semaphore.Wakes.{start, Reaches-IsSound, overtaken_lem}

abbrev one_taken : World
one_taken = record {
  sem = one_less (semaphore_init 2 (λ t. false));
  woken = [];
  held = 1;
  given = 0;
}

one_taken-Reaches : Reaches (start 2) one_taken
unfolding down_begin down_end_obtained semaphore_init
one_taken-Reaches = next here (taken 7 true (one_less (semaphore_init 2 (λ t. false))) refl refl)

init_example : IsSound 2 one_taken
init_example = Reaches-IsSound 2 one_taken one_taken-Reaches

overtaken_example :
    (s₁ s₂ s₃ : Semaphore) × (down_begin (semaphore_init 0 (λ t. false)) 1 true ≡ sleeping s₁)
    × (semaphore_up s₁ ≡ some (some 1, s₂))
    × (down_begin s₂ 2 true ≡ obtained s₃)
    × (down_resumed s₃ 1 true ≡ bug)
unfolding semaphore_init
overtaken_example = overtaken_lem (semaphore_init 0 (λ t. false)) 1 2 refl refl refl
