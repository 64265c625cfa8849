-- ===== src/Semaphore/Steps.antt =====
-- Threads that take and give a semaphore of kernel/src/sync/semaphore.c, in any order.
use k_os.Base.{
  ℕ, suc, ◌+◌, ◌^◌, ◌≤◌, ◌<◌, ◌≡◌, refl, ap, ◌∙◌, sym, subst, Bool, true, false, none, some, List,
  [], ◌∷◌, ◌==◌, if◌then◌else◌, length, arith, Bool-cases, inl, inr, eq_or_ne, ◌⊎◌,
}
use k_os.Base.Word.{add32_exact}
use k_os.Semaphore.{
  Semaphore, set_in_sem, unlist, obtained, gave_up, sleeping, down_begin, down_resumed,
  semaphore_up,
}
use k_os.Semaphore.Pieces.{
  added, removed, one_more, down_begin-obtained, down_begin-sleeping, down_begin-gave_up,
  down_resumed-obtained, down_resumed-sleeping, down_resumed-gave_up, semaphore_up-none,
  semaphore_up-some,
}

-- A semaphore with the threads that sleep on it: those that wait, and those that were woken and did
-- not run yet; `held` counts the threads that have obtained it.
pub record World : Type 0 where
  pub sem : Semaphore
  pub woken : List ℕ
  pub held : ℕ
  pub given : ℕ

abbrev pub is_in : ℕ → List ℕ → Bool
is_in t [] = false
is_in t (u ∷ us) = if t == u then true else is_in t us

-- What a thread or a giver does to it. A thread that gives the semaphore need not hold it;
-- the count has room for what it gives.
pub data Step (w w' : World) : Type 0 where
  taken :
      (t : ℕ) (cond : Bool) (s : Semaphore)
      → down_begin w.sem t cond ≡ obtained s
      → w' ≡ record w { sem = s; held = w.held + 1 }
      → Step w w'
  slept :
      (t : ℕ) (cond : Bool) (s : Semaphore)
      → down_begin w.sem t cond ≡ sleeping s
      → w' ≡ record w { sem = s }
      → Step w w'
  left :
      (t : ℕ) (cond : Bool) (s : Semaphore)
      → down_begin w.sem t cond ≡ gave_up s
      → w' ≡ record w { sem = s }
      → Step w w'
  ran :
      (t : ℕ) (cond : Bool) (s : Semaphore)
      → is_in t w.woken ≡ true
      → w.sem.in_sem t ≡ false
      → down_resumed w.sem t cond ≡ obtained s
      → w' ≡ record w { sem = s; held = w.held + 1; woken = unlist t w.woken }
      → Step w w'
  stayed :
      (t : ℕ) (s : Semaphore)
      → w.sem.in_sem t ≡ true
      → down_resumed w.sem t true ≡ sleeping s
      → w' ≡ record w { sem = s }
      → Step w w'
  quit :
      (t : ℕ) (s : Semaphore)
      → w.sem.in_sem t ≡ true
      → down_resumed w.sem t false ≡ gave_up s
      → w' ≡ record w { sem = s }
      → Step w w'
  gave :
      (s : Semaphore)
      → w.sem.count + 1 < 2 ^ 32
      → semaphore_up w.sem ≡ some (none, s)
      → w' ≡ record w { sem = s; given = w.given + 1 }
      → Step w w'
  woke :
      (t : ℕ) (s : Semaphore)
      → w.sem.count + 1 < 2 ^ 32
      → semaphore_up w.sem ≡ some (some t, s)
      → w' ≡ record w { sem = s; given = w.given + 1; woken = t ∷ w.woken }
      → Step w w'

pub data Reaches (w : World) : World → Type 0 where
  here : Reaches w w
  next : {w₁ w' : World} → Reaches w w₁ → Step w₁ w' → Reaches w w'

-- No thread twice.
abbrev pub IsDistinct : List ℕ → Type 0
IsDistinct [] = Unit
IsDistinct (t ∷ ts) = (is_in t ts ≡ false) × IsDistinct ts

length-unlist : (t : ℕ) (ts : List ℕ) → is_in t ts ≡ true → suc (length (unlist t ts)) ≡ length ts
unfolding unlist
length-unlist t [] e = absurd (ground arith)
length-unlist t (u ∷ us) e = elim (eq_or_ne u t) [
  | inl same ↦ ground (arith, same)
  | inr other ↦ ground (arith, other, length-unlist t us (ground (arith, e, other)))
]

unlist-is_in :
    (t u : ℕ) (ts : List ℕ)
    → IsDistinct ts
    → is_in u (unlist t ts) ≡ (if u == t then false else is_in u ts)
unfolding unlist
unlist-is_in t u [] d = ground arith
unlist-is_in t u (v ∷ ts) (fresh, d) = elim (eq_or_ne v t) [
  | inl same ↦ ground (arith, same, fresh, ap (λ x. is_in x ts) same)
  | inr other ↦ ground (arith, other, unlist-is_in t u ts d)
]

unlist-IsDistinct : (t : ℕ) (ts : List ℕ) → IsDistinct ts → IsDistinct (unlist t ts)
unfolding unlist
unlist-IsDistinct t [] d = tt
unlist-IsDistinct t (v ∷ ts) (fresh, d) = elim (Bool-cases (v == t)) [
  | inl same ↦ rw same d
  | inr other ↦ rw other (unlist-is_in t v ts d ∙ ground (arith, fresh), unlist-IsDistinct t ts d)
]

-- The waiters are the threads whose flag is set, each once; while a thread waits, each unit of the
-- count has a woken thread that will come for it; no unit is lost.
pub record IsSound (n : ℕ) (w : World) : Type 0 where
  pub flags : (t : ℕ) → w.sem.in_sem t ≡ is_in t w.sem.waiters
  pub distinct : IsDistinct w.sem.waiters
  pub awake : (w.sem.count ≤ length w.woken) ⊎ (w.sem.waiters ≡ [])
  pub balance : w.sem.count + w.held ≡ n + w.given

unlist-nil : (t : ℕ) → unlist t [] ≡ []
unfolding unlist
unlist-nil t = refl

removed-flags :
    (s : Semaphore) (t : ℕ)
    → ((u : ℕ) → s.in_sem u ≡ is_in u s.waiters)
    → IsDistinct s.waiters
    → (u : ℕ) → (removed s t).in_sem u ≡ is_in u (removed s t).waiters
unfolding set_in_sem
removed-flags s t flags d u = sym (unlist-is_in t u s.waiters d ∙ ground (arith, flags u))

added-flags :
    (s : Semaphore) (t : ℕ)
    → ((u : ℕ) → s.in_sem u ≡ is_in u s.waiters)
    → (u : ℕ) → (added s t).in_sem u ≡ is_in u (added s t).waiters
unfolding set_in_sem
added-flags s t flags u = ground (arith, flags u)

-- Every step keeps what `IsSound` says.
pub Step-IsSound : (n : ℕ) (w w' : World) → IsSound n w → Step w w' → IsSound n w'
Step-IsSound n w w' v (taken t cond s e eq) =
    let (some_left, same) = down_begin-obtained w.sem s t cond e in
    subst (IsSound n) (ap (λ s. record w { sem = s; held = w.held + 1 }) same ∙ sym eq) (record {
      flags = v.flags;
      distinct = v.distinct;
      awake = elim v.awake [ inl h ↦ inl (omega arith) | inr h ↦ inr h ];
      balance = omega (arith, v.balance);
    })
Step-IsSound n w w' v (ran t cond s was clear e eq) =
    let (some_left, same) = down_resumed-obtained w.sem s t cond e in
    let one = length-unlist t w.woken was in
    subst (IsSound n)
      (ap (λ s. record w { sem = s; held = w.held + 1; woken = unlist t w.woken }) same ∙ sym eq)
      (record {
        flags = v.flags;
        distinct = v.distinct;
        awake = elim v.awake [ inl h ↦ inl (omega (arith, one)) | inr h ↦ inr h ];
        balance = omega (arith, v.balance);
      })
Step-IsSound n w w' v (slept t cond s e eq) =
    let (zero_left, off, same) = down_begin-sleeping w.sem s t cond e in
    subst (IsSound n) (ap (λ s. record w { sem = s }) same ∙ sym eq) (record {
      flags = added-flags w.sem t v.flags;
      distinct = (sym (v.flags t) ∙ off, v.distinct);
      awake = inl (omega (arith, zero_left));
      balance = v.balance;
    })
Step-IsSound n w w' v (left t cond s e eq) =
    let (zero_left, off, same) = down_begin-gave_up w.sem s t cond e in
    let d : IsDistinct (added w.sem t).waiters = (sym (v.flags t) ∙ off, v.distinct) in
    subst (IsSound n) (ap (λ s. record w { sem = s }) same ∙ sym eq) (record {
      flags = removed-flags (added w.sem t) t (added-flags w.sem t v.flags) d;
      distinct = unlist-IsDistinct t (added w.sem t).waiters d;
      awake = inl (omega (arith, zero_left));
      balance = v.balance;
    })
Step-IsSound n w w' v (stayed t s on e eq) =
    let same = down_resumed-sleeping w.sem s t e in
    subst (IsSound n) (ap (λ s. record w { sem = s }) same ∙ sym eq)
      (record { flags = v.flags; distinct = v.distinct; awake = v.awake; balance = v.balance })
Step-IsSound n w w' v (quit t s on e eq) =
    let same = down_resumed-gave_up w.sem s t e in
    subst (IsSound n) (ap (λ s. record w { sem = s }) same ∙ sym eq) (record {
      flags = removed-flags w.sem t v.flags v.distinct;
      distinct = unlist-IsDistinct t w.sem.waiters v.distinct;
      awake = elim v.awake [ inl h ↦ inl h | inr h ↦ inr (ap (unlist t) h ∙ unlist-nil t) ];
      balance = v.balance;
    })
Step-IsSound n w w' v (gave s small e eq) =
    let (none_waits, same) = semaphore_up-none w.sem s e in
    let more = add32_exact w.sem.count 1 small in
    subst (IsSound n) (ap (λ s. record w { sem = s; given = w.given + 1 }) same ∙ sym eq) (record {
      flags = v.flags;
      distinct = v.distinct;
      awake = inr none_waits;
      balance = omega (arith, v.balance, more);
    })
Step-IsSound n w w' v (woke t s small e eq) =
    let (us, first, same) = semaphore_up-some w.sem s t e in
    let more = add32_exact w.sem.count 1 small in
    subst (IsSound n)
      (ap (λ s. record w { sem = s; given = w.given + 1; woken = t ∷ w.woken }) same ∙ sym eq)
      (record {
        flags = removed-flags (one_more w.sem) t v.flags v.distinct;
        distinct = unlist-IsDistinct t w.sem.waiters v.distinct;
        awake = elim v.awake [
          | inl h ↦ inl (omega (arith, more))
          | inr h ↦ absurd (ground (arith, h, first))
        ];
        balance = omega (arith, v.balance, more);
      })
