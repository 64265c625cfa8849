-- ===== src/Arp/Count.antt =====
-- Every packet that kernel/src/net/ip/arp.c gets waits or is answered, once.
use k_os.Base.{
  ℕ, ◌+◌, ◌-◌, ◌≡◌, refl, ap, ◌∙◌, sym, Option, none, some, List, [], ◌∷◌, ◌==◌, if◌then◌else◌, map,
  arith, Bool-cases, Option-cases, inl, inr,
}
use k_os.Base.Int.{ℤ}
use k_os.Arp.{
  Entry, is_unresolved, Sent, request, response, delivered, failed, retry_entry, arp_watchdog,
  new_unresolved, put_unresolved, put_resolved, at_ip, resolve_entry, arp_resolve, store_entry,
  arp_cache_store, arp_handle, fire_timer, ip_broadcast, mac_none,
}

-- How often a packet is in a list.
abbrev pub count : ℕ → List ℕ → ℕ
count p [] = 0
count p (q ∷ qs) = (if q == p then 1 else 0) + count p qs

abbrev pub answer : ℕ → Sent → ℕ
answer p (request ip) = 0
answer p (response mac ip) = 0
answer p (delivered q mac) = if q == p then 1 else 0
answer p (failed q) = if q == p then 1 else 0

-- How often a packet is delivered, or given up.
abbrev pub answers : ℕ → List Sent → ℕ
answers p [] = 0
answers p (o ∷ os) = answer p o + answers p os

-- How often it waits at an entry, and in the cache.
abbrev pub waits : ℕ → Entry → ℕ
waits p e = if is_unresolved e.state then count p e.pending else 0

abbrev pub waiting : ℕ → List Entry → ℕ
waiting p [] = 0
waiting p (e ∷ es) = waits p e + waiting p es

answers-failed : (p : ℕ) (qs : List ℕ) → answers p (map failed qs) ≡ count p qs
answers-failed p [] = refl
answers-failed p (q ∷ qs) = ap (λ n. (if q == p then 1 else 0) + n) (answers-failed p qs)

answers-delivered :
    (p mac : ℕ) (qs : List ℕ) → answers p (map (λ q. delivered q mac) qs) ≡ count p qs
answers-delivered p mac [] = refl
answers-delivered p mac (q ∷ qs) =
    ap (λ n. (if q == p then 1 else 0) + n) (answers-delivered p mac qs)

-- An operation on an entry that takes `k` packets `p` more.
abbrev pub Takes : ℕ → ℕ → (Entry → Entry × List Sent) → Type 0
Takes p k f = (e : Entry) → waits p (f e).0 + answers p (f e).1 ≡ waits p e + k

arp_watchdog-waits :
    (p : ℕ) (e : Entry) → waits p (arp_watchdog e).0 + answers p (arp_watchdog e).1 ≡ waits p e
unfolding arp_watchdog retry_entry
arp_watchdog-waits p e = ground (arith, answers-failed p e.pending)

pub fire_timer-waits :
    (p : ℕ) (e : Entry) → waits p (fire_timer e).0 + answers p (fire_timer e).1 ≡ waits p e
unfolding fire_timer
fire_timer-waits p e = arp_watchdog-waits p (record e { timers = e.timers - 1 })

resolve_entry-Takes : (p packet : ℕ) → Takes p (if packet == p then 1 else 0) (resolve_entry packet)
unfolding resolve_entry
resolve_entry-Takes p packet e =
    ground (arith, arp_watchdog-waits p (record e { pending = packet ∷ e.pending }))

store_entry-Takes : (p mac : ℕ) → Takes p 0 (store_entry mac)
unfolding store_entry
store_entry-Takes p mac e = ground (arith, answers-delivered p mac e.pending)

abbrev Out : Type 0
Out = List Entry × List Sent

at_ip-waiting :
    (p k ip : ℕ) (f : Entry → Entry × List Sent) (cache cache' : List Entry) (out : List Sent)
    → Takes p k f
    → at_ip ip f cache ≡ some (cache', out)
    → waiting p cache' + answers p out ≡ waiting p cache + k
unfolding at_ip
at_ip-waiting p k ip f [] cache' out t e = absurd cc
at_ip-waiting p k ip f (x ∷ xs) cache' out t e = elim (Bool-cases (x.ip == ip)) [
  | inl found ↦
      let e' : ◌≡◌ {A = Option Out} (some ((f x).0 ∷ xs, (f x).1)) (some (cache', out)) =
        sym (rw (at_ip, found) refl) ∙ e in
      let first : (f x).0 ∷ xs ≡ cache' = cc in
      let second : (f x).1 ≡ out = cc in
      omega (arith, ap (waiting p) first, ap (answers p) second, t x)
  | inr other ↦ elim (Option-cases (at_ip ip f xs)) [
    | inl missing ↦
        let e' : ◌≡◌ {A = Option Out} none (some (cache', out)) =
          sym (rw (at_ip, other, missing) refl) ∙ e in
        absurd cc
    | inr ((es', out'), there) ↦
        let e' : ◌≡◌ {A = Option Out} (some (x ∷ es', out')) (some (cache', out)) =
          sym (rw (at_ip, other, there) refl) ∙ e in
        let first : x ∷ es' ≡ cache' = cc in
        let second : out' ≡ out = cc in
        omega (
          arith,
          ap (waiting p) first,
          ap (answers p) second,
          at_ip-waiting p k ip f xs es' out' t there,
        )
  ]
]

-- A packet that `arp_resolve` gets is from then on one of those that wait or that are answered, and no
-- other packet is lost or answered again.
pub arp_resolve-waiting :
    (p ip packet : ℕ) (cache : List Entry)
    → waiting p (arp_resolve ip packet cache).0 + answers p (arp_resolve ip packet cache).1
      ≡ waiting p cache + (if packet == p then 1 else 0)
unfolding arp_resolve put_unresolved new_unresolved
arp_resolve-waiting p ip packet cache = elim (Bool-cases (ip == ip_broadcast)) [
  | inl all ↦ rw (arp_resolve, all) (omega arith)
  | inr one ↦ elim (Option-cases (at_ip ip (resolve_entry packet) cache)) [
    | inl missing ↦
        rw (arp_resolve, one, missing)
          (omega (arith, arp_watchdog-waits p (new_unresolved ip packet)))
    | inr ((cache', out), there) ↦
        rw (arp_resolve, one, there)
          (at_ip-waiting p (if packet == p then 1 else 0) ip (resolve_entry packet) cache cache' out
            (resolve_entry-Takes p packet) there)
  ]
]

arp_cache_store-waiting :
    (p mac ip : ℕ) (retrys : ℤ) (cache : List Entry)
    → waiting p (arp_cache_store mac ip retrys cache).0
        + answers p (arp_cache_store mac ip retrys cache).1
      ≡ waiting p cache
unfolding arp_cache_store put_resolved
arp_cache_store-waiting p mac ip retrys cache =
    elim (Option-cases (at_ip ip (store_entry mac) cache)) [
      | inl missing ↦ rw (arp_cache_store, missing) (omega arith)
      | inr ((cache', out), there) ↦
          rw (arp_cache_store, there)
            (omega (
              arith,
              at_ip-waiting p 0 ip (store_entry mac) cache cache' out (store_entry-Takes p mac)
                  there,
            ))
    ]

-- `arp_handle` answers packets that wait, and only those: none is lost or answered twice.
pub arp_handle-waiting :
    (p own target_ip target_mac mac ip : ℕ) (retrys : ℤ) (cache : List Entry)
    → waiting p (arp_handle own target_ip target_mac mac ip retrys cache).0
        + answers p (arp_handle own target_ip target_mac mac ip retrys cache).1
      ≡ waiting p cache
unfolding arp_handle
arp_handle-waiting p own target_ip target_mac mac ip retrys cache =
    let stored = arp_cache_store-waiting p mac ip retrys cache in
    elim (Bool-cases (own == target_ip)) [
      | inr other ↦ rw (arp_handle, other) stored
      | inl mine ↦ elim (Bool-cases (target_mac == mac_none)) [
        | inr set ↦ rw (arp_handle, mine, set) stored
        | inl clear ↦ rw (arp_handle, mine, clear) (omega (arith, stored))
      ]
    ]
