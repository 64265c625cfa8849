-- ===== src/Semaphore/Pieces.antt =====
-- What the pieces of kernel/src/sync/semaphore.c do, by how they end.
use k_os.Base.{
  ℕ, ◌-◌, ◌<◌, ◌≡◌, refl, ap, ◌∙◌, sym, Bool, true, false, none, some, List, [], ◌∷◌, arith,
}
use k_os.Base.Word.{add32}
use k_os.Semaphore.{
  Semaphore, set_in_sem, unlist, waitlist_add, waitlist_rm, obtained, gave_up, sleeping,
  down_end_obtained, down_end_gaveup, down_round, down_begin, down_resumed, wake_first,
  semaphore_up,
}

abbrev pub one_less : Semaphore → Semaphore
one_less s = record s { count = s.count - 1 }

abbrev pub added : Semaphore → ℕ → Semaphore
added s t = record s { waiters = t ∷ s.waiters; in_sem = set_in_sem s.in_sem t true }

abbrev pub removed : Semaphore → ℕ → Semaphore
removed s t = record s { waiters = unlist t s.waiters; in_sem = set_in_sem s.in_sem t false }

pub down_end_obtained_lem :
    (s s' : Semaphore) → down_end_obtained s ≡ obtained s' → (0 < s.count) × (one_less s ≡ s')
unfolding down_end_obtained
down_end_obtained_lem s s' e = (ground (arith, e), ground (arith, e))

pub down_begin-obtained :
    (s s' : Semaphore) (t : ℕ) (cond : Bool)
    → down_begin s t cond ≡ obtained s'
    → (0 < s.count) × (one_less s ≡ s')
unfolding down_begin down_end_obtained waitlist_add down_round down_end_gaveup waitlist_rm
down_begin-obtained s s' t cond e = (ground (arith, e), ground (arith, e))

pub down_begin-sleeping :
    (s s' : Semaphore) (t : ℕ) (cond : Bool)
    → down_begin s t cond ≡ sleeping s'
    → (s.count ≡ 0) × (s.in_sem t ≡ false) × (added s t ≡ s')
unfolding down_begin down_end_obtained waitlist_add down_round down_end_gaveup waitlist_rm
down_begin-sleeping s s' t cond e = (ground (arith, e), ground (arith, e), ground (arith, e))

pub down_begin-gave_up :
    (s s' : Semaphore) (t : ℕ) (cond : Bool)
    → down_begin s t cond ≡ gave_up s'
    → (s.count ≡ 0) × (s.in_sem t ≡ false) × (removed (added s t) t ≡ s')
unfolding down_begin down_end_obtained waitlist_add down_round down_end_gaveup waitlist_rm
down_begin-gave_up s s' t cond e = (ground (arith, e), ground (arith, e), ground (arith, e))

pub down_resumed-obtained :
    (s s' : Semaphore) (t : ℕ) (cond : Bool)
    → down_resumed s t cond ≡ obtained s'
    → (0 < s.count) × (one_less s ≡ s')
unfolding down_resumed down_end_obtained down_round down_end_gaveup waitlist_rm
down_resumed-obtained s s' t cond e = (ground (arith, e), ground (arith, e))

pub down_resumed-sleeping :
    (s s' : Semaphore) (t : ℕ) → down_resumed s t true ≡ sleeping s' → s ≡ s'
unfolding down_resumed down_end_obtained down_round down_end_gaveup waitlist_rm
down_resumed-sleeping s s' t e = ground (arith, e)

pub down_resumed-gave_up :
    (s s' : Semaphore) (t : ℕ) → down_resumed s t false ≡ gave_up s' → removed s t ≡ s'
unfolding down_resumed down_end_obtained down_round down_end_gaveup waitlist_rm
down_resumed-gave_up s s' t e = ground (arith, e)

abbrev pub one_more : Semaphore → Semaphore
one_more s = record s { count = add32 s.count 1 }

wake_first-none :
    (ts : List ℕ) (s s' : Semaphore) → wake_first ts s ≡ some (none, s') → (ts ≡ []) × (s ≡ s')
unfolding wake_first waitlist_rm
wake_first-none [] s s' e = (refl, cc)
wake_first-none (t ∷ ts) s s' e = absurd (ground (arith, e))

wake_first-some :
    (ts : List ℕ) (s s' : Semaphore) (t : ℕ)
    → wake_first ts s ≡ some (some t, s')
    → (us : List ℕ) × (ts ≡ t ∷ us) × (removed s t ≡ s')
unfolding wake_first waitlist_rm
wake_first-some [] s s' t e = absurd (ground (arith, e))
wake_first-some (u ∷ us) s s' t e =
    let same : u ≡ t = ground (arith, e) in
    (us, ap (◌∷ us) same, ap (removed s) (sym same) ∙ ground (arith, e))

pub semaphore_up-none :
    (s s' : Semaphore) → semaphore_up s ≡ some (none, s') → (s.waiters ≡ []) × (one_more s ≡ s')
unfolding semaphore_up
semaphore_up-none s s' e = wake_first-none s.waiters (one_more s) s' e

pub semaphore_up-some :
    (s s' : Semaphore) (t : ℕ)
    → semaphore_up s ≡ some (some t, s')
    → (us : List ℕ) × (s.waiters ≡ t ∷ us) × (removed (one_more s) t ≡ s')
unfolding semaphore_up
semaphore_up-some s s' t e = wake_first-some s.waiters (one_more s) s' t e
