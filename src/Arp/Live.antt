-- ===== src/Arp/Live.antt =====
-- The timers of kernel/src/net/ip/arp.c: no packet waits at an entry without one, and the retries of
-- an address that nobody answers for come to an end.
use k_os.Base.{
  ℕ, zero, suc, ◌<◌, ◌≡◌, ◌⊎◌, refl, ap, ◌∙◌, true, false, List, [], ◌∷◌, ◌++◌, map, arith,
  Bool-cases, eq_or_ne, inl, inr,
}
use k_os.Base.Int.{pos, negsuc}
use k_os.Arp.{
  Entry, is_unresolved, Sent, request, failed, arp_retrys, too_many, is_stopped, increment,
  retry_entry, arp_watchdog, new_unresolved, resolve_entry, store_entry, fire_timer,
}

-- An address that is looked for, with one timer set and `r` requests that did not help.
pub record IsTrying (e : Entry) (r : ℕ) : Type 0 where
  pub searched : is_unresolved e.state ≡ true
  pub retrys : e.retrys ≡ pos r
  pub few : r < arp_retrys
  pub timers : e.timers ≡ 1

-- An address that is not looked for: no packet waits.
pub record IsIdle (e : Entry) : Type 0 where
  pub retrys : e.retrys ≡ negsuc 0
  pub timers : e.timers ≡ 0
  pub pending : e.pending ≡ []

abbrev pub IsLive : Entry → Type 0
IsLive e = (is_unresolved e.state ≡ false) ⊎ IsIdle e ⊎ ((r : ℕ) × IsTrying e r)

-- One round on an address that is looked for.
fire_more :
    (e : Entry) (r : ℕ)
    → IsTrying e r
    → suc r < arp_retrys
    → IsTrying (fire_timer e).0 (suc r)
      × ((fire_timer e).0.pending ≡ e.pending)
      × ((fire_timer e).1 ≡ request e.ip ∷ [])
      × ((fire_timer e).0.ip ≡ e.ip)
unfolding fire_timer arp_watchdog retry_entry increment too_many
fire_more e r v more =
    let up : increment e.retrys ≡ pos (suc r) = ap increment v.retrys in
    let again : too_many (increment e.retrys) ≡ false = ap too_many up ∙ ground arith in
    (
      record {
        searched = ground (arith, again, v.searched);
        retrys = ground (arith, again, up, v.searched);
        few = more;
        timers = ground (arith, again, v.searched, v.timers);
      },
      ground (arith, again, v.searched),
      ground (arith, again, v.searched),
      ground (arith, again, v.searched),
    )

fire_last :
    (e : Entry) (r : ℕ)
    → IsTrying e r
    → suc r ≡ arp_retrys
    → IsIdle (fire_timer e).0 × ((fire_timer e).1 ≡ map failed e.pending)
unfolding fire_timer arp_watchdog retry_entry increment too_many
fire_last e r v last =
    let up : increment e.retrys ≡ pos (suc r) = ap increment v.retrys in
    let over : too_many (increment e.retrys) ≡ true = ap too_many up ∙ ground arith in
    (
      record {
        retrys = ground (arith, over, v.searched);
        timers = ground (arith, over, v.searched, v.timers);
        pending = ground (arith, over, v.searched);
      },
      ground (arith, over, v.searched),
    )

-- The timer of an entry fires `n` times.
abbrev pub fires : ℕ → Entry → Entry × List Sent
fires zero e = (e, [])
fires (suc n) e = let rest = fires n (fire_timer e).0 in (rest.0, (fire_timer e).1 ++ rest.1)

abbrev pub requests : ℕ → ℕ → List Sent
requests ip zero = []
requests ip (suc n) = request ip ∷ requests ip n

pub resolve_entry-IsLive : (packet : ℕ) (e : Entry) → IsLive e → IsLive (resolve_entry packet e).0
unfolding resolve_entry arp_watchdog retry_entry increment too_many is_stopped
resolve_entry-IsLive packet e (inl known) = inl (ground (arith, known))
resolve_entry-IsLive packet e (inr (inl v)) = elim (Bool-cases (is_unresolved e.state)) [
  | inr known ↦ inl (ground (arith, known))
  | inl searched ↦
      let up : increment e.retrys ≡ pos 0 = ap increment v.retrys in
      let again : too_many (increment e.retrys) ≡ false = ap too_many up in
      let stopped : is_stopped e.retrys ≡ true = ap is_stopped v.retrys in
      inr (
        inr (
          0,
          record {
            searched = ground (arith, searched, stopped, again);
            retrys = ground (arith, searched, stopped, again, up);
            few = omega arith;
            timers = ground (arith, searched, stopped, again, v.timers);
          },
        ))
]
resolve_entry-IsLive packet e (inr (inr (r, v))) =
    let runs : is_stopped e.retrys ≡ false = ap is_stopped v.retrys in
    inr (
      inr (
        r,
        record {
          searched = ground (arith, v.searched, runs);
          retrys = ground (arith, v.searched, runs, v.retrys);
          few = v.few;
          timers = ground (arith, v.searched, runs, v.timers);
        },
      ))

pub store_entry-IsLive : (mac : ℕ) (e : Entry) → IsLive e → IsLive (store_entry mac e).0
unfolding store_entry
store_entry-IsLive mac e v = inl (ground arith)

pub fire_timer-IsLive : (e : Entry) → 0 < e.timers → IsLive e → IsLive (fire_timer e).0
unfolding fire_timer arp_watchdog
fire_timer-IsLive e set (inl known) = inl (ground (arith, known))
fire_timer-IsLive e set (inr (inl v)) = absurd (omega (arith, v.timers))
fire_timer-IsLive e set (inr (inr (r, v))) = elim (eq_or_ne (suc r) arp_retrys) [
  | inl last ↦ inr (inl (fire_last e r v last).0)
  | inr other ↦ inr (inr (suc r, (fire_more e r v (omega (arith, v.few))).0))
]

pub new_unresolved-IsLive : (ip packet : ℕ) → IsLive (arp_watchdog (new_unresolved ip packet)).0
unfolding arp_watchdog new_unresolved retry_entry increment too_many
new_unresolved-IsLive ip packet =
    inr (inr (0, record { searched = refl; retrys = refl; few = omega arith; timers = refl }))
