-- ===== src/Arp/Tests.antt =====
-- An address that nobody answers for, in kernel/src/net/ip/arp.c.
use k_os.Base.{refl, [], ◌∷◌, ◌++◌}
use k_os.Base.Int.{pos}
use k_os.Arp.{Entry, unresolved, arp_resolve}
use k_os.Arp.Runs.{World, resolve, here, next, IsServed, Reaches-IsServed}

abbrev searched : Entry
searched = record {
  ip = 9;
  mac = 0;
  state = unresolved;
  retrys = pos 0;
  pending = 2 ∷ 1 ∷ [];
  timers = 1;
}

abbrev one_asked : World
one_asked = record {
  cache = (arp_resolve 9 1 []).0;
  asked = 1 ∷ [];
  out = (arp_resolve 9 1 []).1 ++ [];
}

served_example : IsServed one_asked
served_example = Reaches-IsServed one_asked (next here (resolve 9 1 refl))
