-- ===== src/Arp.antt =====
-- kernel/src/net/ip/arp.c: the cache that finds the hardware address of an IP address, and the packets
-- that wait for it. Addresses and packets are numbers. The chains of the hash table, to which an entry
-- is added in front, are one list: an address is looked for in its own chain only, and entries with the
-- same address are in the same one.
pub mod Live
pub mod Count
pub mod Runs
mod Tests
use k_os.Base.{
  ℕ, zero, suc, ◌+◌, ◌-◌, ◌^◌, Bool, true, false, not, Option, none, some, List, [], ◌∷◌, ◌++◌, leb,
  ◌==◌, if◌then◌else◌, map,
}
use k_os.Base.Int.{ℤ, pos, negsuc}

-- `ARP_RETRYS`
abbrev pub arp_retrys : ℕ
arp_retrys = 5

-- `IP_BROADCAST`
abbrev pub ip_broadcast : ℕ
ip_broadcast = 2 ^ 32 - 1

-- `MAC_BROADCAST` and `MAC_NONE`
abbrev pub mac_broadcast : ℕ
mac_broadcast = 2 ^ 48 - 1

abbrev pub mac_none : ℕ
mac_none = 0

-- `arp_cache_entry_state_t`
pub data EntryState : Type 0 where
  unresolved : EntryState
  resolved : EntryState

abbrev pub is_unresolved : EntryState → Bool
is_unresolved unresolved = true
is_unresolved resolved = false

-- `arp_cache_entry_t`, and the number of timers that will call `arp_watchdog` on it.
pub record Entry : Type 0 where
  pub ip : ℕ
  pub mac : ℕ
  pub state : EntryState
  pub retrys : ℤ
  pub pending : List ℕ
  pub timers : ℕ

-- What `packet_send` is called for: a request for an address, the response to one, a packet that is
-- resolved, and one whose result is PRESULT_UNKNOWNHOST.
pub data Sent : Type 0 where
  request : ℕ → Sent
  response : ℕ → ℕ → Sent
  delivered : ℕ → ℕ → Sent
  failed : ℕ → Sent

-- `retrys++` of a counter that stays small.
unfoldable pub increment : ℤ → ℤ
increment (pos n) = pos (suc n)
increment (negsuc zero) = pos 0
increment (negsuc (suc n)) = negsuc n

-- `entry->retrys >= ARP_RETRYS`
unfoldable pub too_many : ℤ → Bool
too_many (pos n) = leb arp_retrys n
too_many (negsuc n) = false

-- `entry->retrys == -1`
unfoldable pub is_stopped : ℤ → Bool
is_stopped (pos n) = false
is_stopped (negsuc zero) = true
is_stopped (negsuc (suc n)) = false

-- `arp_watchdog` on an entry that is not resolved.
unfoldable pub retry_entry : Entry → Entry × List Sent
retry_entry e =
    if too_many (increment e.retrys)
    then (record e { retrys = negsuc 0; pending = [] }, map failed e.pending)
    else (record e { retrys = increment e.retrys; timers = e.timers + 1 }, request e.ip ∷ [])

-- `arp_watchdog`
unfoldable pub arp_watchdog : Entry → Entry × List Sent
arp_watchdog e = if is_unresolved e.state then retry_entry e else (e, [])

-- The entry of `arp_cache_put_unresolved`.
unfoldable pub new_unresolved : ℕ → ℕ → Entry
new_unresolved ip packet = record {
  ip = ip;
  mac = 0;
  state = unresolved;
  retrys = negsuc 0;
  pending = packet ∷ [];
  timers = 0;
}

-- `arp_cache_put_unresolved`
unfoldable pub put_unresolved : ℕ → ℕ → List Entry → List Entry × List Sent
put_unresolved ip packet cache =
    let out = arp_watchdog (new_unresolved ip packet) in (out.0 ∷ cache, out.1)

-- `arp_cache_put_resolved`, which leaves `retrys` as it is in the memory from kmalloc.
unfoldable pub put_resolved : ℕ → ℕ → ℤ → List Entry → List Entry
put_resolved ip mac retrys cache =
    record { ip = ip; mac = mac; state = resolved; retrys = retrys; pending = []; timers = 0 }
    ∷ cache

-- `arp_cache_find`, and what is done to the entry that it finds.
unfoldable pub at_ip :
    ℕ → (Entry → Entry × List Sent) → List Entry → Option (List Entry × List Sent)
at_ip ip f [] = none
at_ip ip f (e ∷ es) =
    let rest = at_ip ip f es in
    if e.ip == ip
    then some ((f e).0 ∷ es, (f e).1)
    else elim rest [ none ↦ none | some (es', out) ↦ some (e ∷ es', out) ]

-- The branch of `arp_resolve` for an entry that is there.
unfoldable pub resolve_entry : ℕ → Entry → Entry × List Sent
resolve_entry packet e =
    let e' : Entry = record e { pending = packet ∷ e.pending } in
    if not (is_unresolved e.state)
    then (e, delivered packet e.mac ∷ [])
    else if is_stopped e.retrys
    then arp_watchdog e'
    else (e', [])

-- `arp_resolve`
unfoldable pub arp_resolve : ℕ → ℕ → List Entry → List Entry × List Sent
arp_resolve ip packet cache =
    if ip == ip_broadcast
    then (cache, delivered packet mac_broadcast ∷ [])
    else elim (at_ip ip (resolve_entry packet) cache) [
      | none ↦ put_unresolved ip packet cache
      | some out ↦ out
    ]

-- A timer on the entry of an address fires.
unfoldable pub fire_timer : Entry → Entry × List Sent
fire_timer e = arp_watchdog (record e { timers = e.timers - 1 })

-- The branch of `arp_cache_store` for an entry that is there; its list of packets is not emptied.
unfoldable pub store_entry : ℕ → Entry → Entry × List Sent
store_entry mac e =
    if is_unresolved e.state
    then (record e { state = resolved; mac = mac }, map (λ p. delivered p mac) e.pending)
    else (e, [])

-- `arp_cache_store`
unfoldable pub arp_cache_store : ℕ → ℕ → ℤ → List Entry → List Entry × List Sent
arp_cache_store mac ip retrys cache = elim (at_ip ip (store_entry mac) cache) [
  | none ↦ (put_resolved ip mac retrys cache, [])
  | some out ↦ out
]

-- `arp_handle`, of an interface with the address `own`.
unfoldable pub arp_handle : ℕ → ℕ → ℕ → ℕ → ℕ → ℤ → List Entry → List Entry × List Sent
arp_handle own target_ip target_mac sender_mac sender_ip retrys cache =
    let out = arp_cache_store sender_mac sender_ip retrys cache in
    if own == target_ip
    then (if target_mac == mac_none then (out.0, response sender_mac sender_ip ∷ out.1) else out)
    else out
