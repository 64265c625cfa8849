-- ===== src/Arp/Runs.antt =====
-- The cache of kernel/src/net/ip/arp.c under packets to send, ARP packets that arrive, and timers, in
-- any order.
use k_os.Base.{
  ℕ, ◌+◌, ◌<◌, ◌≡◌, refl, ap, ◌∙◌, sym, subst, Option, none, some, List, [], ◌∷◌, ◌++◌, ◌==◌, All,
  arith, Bool-cases, Option-cases, inl, inr,
}
use k_os.Base.Int.{ℤ}
use k_os.Arp.{
  Entry, Sent, put_unresolved, put_resolved, at_ip, resolve_entry, arp_resolve, store_entry,
  arp_cache_store, arp_handle, fire_timer, ip_broadcast, mac_none,
}
use k_os.Arp.Live.{
  IsLive, resolve_entry-IsLive, store_entry-IsLive, fire_timer-IsLive, new_unresolved-IsLive,
}
use k_os.Arp.Count.{
  count, answers, waiting, fire_timer-waits, arp_resolve-waiting, arp_handle-waiting,
}

-- The cache with the packets that it was given and what it has sent.
pub record World : Type 0 where
  pub cache : List Entry
  pub asked : List ℕ
  pub out : List Sent

-- A timer points to its entry.
pub data Step (w w' : World) : Type 0 where
  resolve :
      (ip packet : ℕ)
      → w' ≡ record {
        cache = (arp_resolve ip packet w.cache).0;
        asked = packet ∷ w.asked;
        out = (arp_resolve ip packet w.cache).1 ++ w.out;
      }
      → Step w w'
  arrive :
      (own target_ip target_mac mac ip : ℕ) (retrys : ℤ)
      → w' ≡ record {
        cache = (arp_handle own target_ip target_mac mac ip retrys w.cache).0;
        asked = w.asked;
        out = (arp_handle own target_ip target_mac mac ip retrys w.cache).1 ++ w.out;
      }
      → Step w w'
  fire :
      (es fs : List Entry) (e : Entry)
      → w.cache ≡ es ++ (e ∷ fs)
      → 0 < e.timers
      → w' ≡ record {
        cache = es ++ ((fire_timer e).0 ∷ fs);
        asked = w.asked;
        out = (fire_timer e).1 ++ w.out;
      }
      → Step w w'

pub data Reaches (w : World) : World → Type 0 where
  here : Reaches w w
  next : {w₁ w' : World} → Reaches w w₁ → Step w₁ w' → Reaches w w'

pub record IsServed (w : World) : Type 0 where
  pub live : All IsLive w.cache
  pub served : (p : ℕ) → waiting p w.cache + answers p w.out ≡ count p w.asked

answers-append : (p : ℕ) (xs ys : List Sent) → answers p (xs ++ ys) ≡ answers p xs + answers p ys
answers-append p [] ys = omega arith
answers-append p (x ∷ xs) ys = omega (arith, answers-append p xs ys)

waiting-append : (p : ℕ) (xs ys : List Entry) → waiting p (xs ++ ys) ≡ waiting p xs + waiting p ys
waiting-append p [] ys = omega arith
waiting-append p (x ∷ xs) ys = omega (arith, waiting-append p xs ys)

abbrev Out : Type 0
Out = List Entry × List Sent

at_ip-IsLive :
    (ip : ℕ) (f : Entry → Entry × List Sent) (cache cache' : List Entry) (out : List Sent)
    → ((e : Entry) → IsLive e → IsLive (f e).0)
    → All IsLive cache
    → at_ip ip f cache ≡ some (cache', out)
    → All IsLive cache'
unfolding at_ip
at_ip-IsLive ip f [] cache' out keeps v e = absurd cc
at_ip-IsLive ip f (x ∷ xs) cache' out keeps (v, vs) e = elim (Bool-cases (x.ip == ip)) [
  | inl found ↦
      let e' : ◌≡◌ {A = Option Out} (some ((f x).0 ∷ xs, (f x).1)) (some (cache', out)) =
        sym (rw (at_ip, found) refl) ∙ e in
      let first : (f x).0 ∷ xs ≡ cache' = cc in subst (All IsLive) first (keeps x v, vs)
  | inr other ↦ elim (Option-cases (at_ip ip f xs)) [
    | inl missing ↦
        let e' : ◌≡◌ {A = Option Out} none (some (cache', out)) =
          sym (rw (at_ip, other, missing) refl) ∙ e in
        absurd cc
    | inr ((es', out'), there) ↦
        let e' : ◌≡◌ {A = Option Out} (some (x ∷ es', out')) (some (cache', out)) =
          sym (rw (at_ip, other, there) refl) ∙ e in
        let first : x ∷ es' ≡ cache' = cc in
        subst (All IsLive) first (v, at_ip-IsLive ip f xs es' out' keeps vs there)
  ]
]

arp_resolve-IsLive :
    (ip packet : ℕ) (cache : List Entry)
    → All IsLive cache
    → All IsLive (arp_resolve ip packet cache).0
unfolding arp_resolve put_unresolved
arp_resolve-IsLive ip packet cache v = elim (Bool-cases (ip == ip_broadcast)) [
  | inl all ↦ rw (arp_resolve, all) v
  | inr one ↦ elim (Option-cases (at_ip ip (resolve_entry packet) cache)) [
    | inl missing ↦ rw (arp_resolve, one, missing) (new_unresolved-IsLive ip packet, v)
    | inr ((cache', out), there) ↦
        rw (arp_resolve, one, there)
          (at_ip-IsLive ip (resolve_entry packet) cache cache' out (resolve_entry-IsLive packet) v
            there)
  ]
]

arp_cache_store-IsLive :
    (mac ip : ℕ) (retrys : ℤ) (cache : List Entry)
    → All IsLive cache
    → All IsLive (arp_cache_store mac ip retrys cache).0
unfolding arp_cache_store put_resolved
arp_cache_store-IsLive mac ip retrys cache v =
    elim (Option-cases (at_ip ip (store_entry mac) cache)) [
      | inl missing ↦ rw (arp_cache_store, missing) (inl refl, v)
      | inr ((cache', out), there) ↦
          rw (arp_cache_store, there)
            (at_ip-IsLive ip (store_entry mac) cache cache' out (store_entry-IsLive mac) v there)
    ]

arp_handle-IsLive :
    (own target_ip target_mac mac ip : ℕ) (retrys : ℤ) (cache : List Entry)
    → All IsLive cache
    → All IsLive (arp_handle own target_ip target_mac mac ip retrys cache).0
unfolding arp_handle
arp_handle-IsLive own target_ip target_mac mac ip retrys cache v =
    let stored = arp_cache_store-IsLive mac ip retrys cache v in
    elim (Bool-cases (own == target_ip)) [
      | inr other ↦ rw (arp_handle, other) stored
      | inl mine ↦ elim (Bool-cases (target_mac == mac_none)) [
        | inr set ↦ rw (arp_handle, mine, set) stored
        | inl clear ↦ rw (arp_handle, mine, clear) stored
      ]
    ]

replace-IsLive :
    (es fs : List Entry) (e e' : Entry)
    → (IsLive e → IsLive e')
    → All IsLive (es ++ (e ∷ fs))
    → All IsLive (es ++ (e' ∷ fs))
replace-IsLive [] fs e e' keeps (v, vs) = (keeps v, vs)
replace-IsLive (x ∷ es) fs e e' keeps (v, vs) = (v, replace-IsLive es fs e e' keeps vs)

Step-IsServed : (w w' : World) → IsServed w → Step w w' → IsServed w'
Step-IsServed w w' v (resolve ip packet eq) = subst IsServed (sym eq) (record {
  live = arp_resolve-IsLive ip packet w.cache v.live;
  served = λ p. omega (
    arith,
    arp_resolve-waiting p ip packet w.cache,
    v.served p,
    answers-append p (arp_resolve ip packet w.cache).1 w.out,
  );
})
Step-IsServed w w' v (arrive own target_ip target_mac mac ip retrys eq) =
    subst IsServed (sym eq) (record {
      live = arp_handle-IsLive own target_ip target_mac mac ip retrys w.cache v.live;
      served = λ p. omega (
        arith,
        arp_handle-waiting p own target_ip target_mac mac ip retrys w.cache,
        v.served p,
        answers-append p (arp_handle own target_ip target_mac mac ip retrys w.cache).1 w.out,
      );
    })
Step-IsServed w w' v (fire es fs e at set eq) = subst IsServed (sym eq) (record {
  live =
      replace-IsLive es fs e (fire_timer e).0 (fire_timer-IsLive e set)
        (subst (All IsLive) at v.live);
  served = λ p. omega (
    arith,
    fire_timer-waits p e,
    v.served p,
    ap (waiting p) at,
    waiting-append p es (e ∷ fs),
    waiting-append p es ((fire_timer e).0 ∷ fs),
    answers-append p (fire_timer e).1 w.out,
  );
})

abbrev pub empty : World
empty = record { cache = []; asked = []; out = [] }

-- From an empty cache on, whatever happens: each packet was delivered or given up as often as it was
-- given to `arp_resolve`, but for the times that it still waits; and at an entry where packets wait a
-- timer is set, with fewer than five requests that did not help.
pub Reaches-IsServed : (w : World) → Reaches empty w → IsServed w
Reaches-IsServed w here = record { live = tt; served = λ p. refl }
Reaches-IsServed w (next {w₁} r m) = Step-IsServed w₁ w (Reaches-IsServed w₁ r) m
