-- ===== src/Tests/Throughput.antt =====
-- The counters and the router at small inputs.
use zenoh_perf.Base.{
  none, map, ℕ, ◌+◌, ◌<◌, true, false, done, ◌≡◌, refl, List, [], ◌∷◌, arith, ltb, if◌then◌else◌,
  occurrences, occurrences-nil, occurrences-cons,
}
use zenoh_perf.Throughput.Counter.{fresh, tick, run, Event, add, second, sum}
use zenoh_perf.Throughput.Subscriber.{MySh}
use zenoh_perf.Throughput.Pipeline.{pipeline}
use zenoh_perf.Proto.{router, client, id, list_io}
use zenoh_perf.Startup.Manager.{builder}
use zenoh_perf.Throughput.Programs.{thr_message}
use zenoh_perf.Throughput.TransportPrograms.{TPubOpt, t_pub_main}
use zenoh_perf.Throughput.TransportPrograms.Routed.{TRouterOpt, t_router_main, router_relays}
use zenoh_perf.Tests.Programs.{manager, client_built}
use zenoh_perf.Throughput.Router.{SlabLib, new_unicast, connect_all}

abbrev events : List Event
events = add 1 ∷ add 1 ∷ second ∷ second ∷ add 5 ∷ []

printed_twice : (run tick events fresh).printed ≡ 2 ∷ []
unfolding run tick
printed_twice = refl

-- A slab that never gives a key twice: the next key, and the entries, the newest first.
abbrev Table : Type 0
Table = List (ℕ × ℕ)

next_key : Table → ℕ
next_key [] = 0
next_key ((k, t) ∷ table) = let n = next_key table in if ltb k n then n else k + 1

unused_from :
    (j : ℕ) (table : Table) → next_key table < j + 1 → occurrences j (map (λ e. e.0) table) ≡ 0
unfolding next_key
unused_from j [] h = occurrences-nil j
unused_from j ((k, t) ∷ table) h =
    ground (arith, occurrences-cons j k (map (λ (e : ℕ × ℕ). e.0) table), unused_from j table)

abbrev table_slab : SlabLib
table_slab = record {
  Slab = Table;
  new = [];
  insert = λ t table. (next_key table, (next_key table, t) ∷ table);
  iter = λ table. table;
  iter-new = refl;
  insert_unused = λ t table. unused_from (next_key table) table (omega arith);
  iter-insert = λ t table. ([], table, refl, refl);
}

-- The router has dialled the subscribers 2 and 3 and is dialled by the publisher, which is 1 to it,
-- ahead of them; the publisher's transport to it is 4.
abbrev joined : List ℕ
joined = 3 ∷ 2 ∷ 1 ∷ []

all_joined : (t : ℕ) → occurrences t joined ≡ occurrences t (1 ∷ 2 ∷ 3 ∷ [])
all_joined t = omega (
  arith,
  occurrences-cons t 3 (2 ∷ 1 ∷ []),
  occurrences-cons t 2 (1 ∷ []),
  occurrences-cons t 1 [],
  occurrences-cons t 1 (2 ∷ 3 ∷ []),
  occurrences-cons t 2 (3 ∷ []),
  occurrences-cons t 3 [],
)

one_subscriber : occurrences 2 (2 ∷ 3 ∷ []) ≡ 1
one_subscriber =
    ground (arith, occurrences-cons 2 2 (3 ∷ []), occurrences-cons 2 3 [], occurrences-nil 2)

abbrev router_opt : TRouterOpt ℕ ℕ
router_opt = record { listen = 4 ∷ []; connect = 2 ∷ 3 ∷ []; config = none }

abbrev one_endpoint : TPubOpt ℕ ℕ
one_endpoint = record {
  endpoint = 4 ∷ [];
  mode = client;
  payload = 2;
  print = false;
  config = none;
}

router_built : builder manager none router ≡ done router
unfolding builder
router_built = refl

router_relays_example :
    (t_router_main table_slab manager router_opt joined
      ≡ done (
        record { manager = router; listening = 4 ∷ []; opened = 2 ∷ 3 ∷ [] },
        connect_all table_slab joined,
      ))
    × (sent : List ℕ) × (t_pub_main list_io manager (λ t. true) one_endpoint 5
        ≡ done (
          map (λ t. (t, thr_message list_io (id 1) (0 ∷ 0 ∷ []))) sent,
          record { count = 5; printed = [] },
        ))
    × (occurrences 4 sent ≡ 5)
    × (sub : MySh) × (pipeline table_slab
          (λ t. true)
          5
          (4 ∷ [])
          (connect_all table_slab joined)
          4
          0
          2
          (false ∷ true ∷ false ∷ [])
        ≡ done sub)
    × (sub.monitors ≡ 1)
    × (sub.counter.count + sum sub.counter.printed ≡ 5)
unfolding connect_all new_unicast next_key
router_relays_example =
    router_relays table_slab manager list_io (λ t. true) router_opt one_endpoint router client
      router client 4 (2 ∷ 3 ∷ []) joined 2 0 1 4 2 5 (false ∷ true ∷ false ∷ []) router_built refl
      (refl, tt) (refl, (refl, tt)) (omega arith) all_joined refl (omega arith) one_subscriber refl
      client_built refl refl refl (omega arith) (omega arith)
