-- ===== src/Tests/QueryPrograms.antt =====
-- The query programs over session and router from their options on, with two turns and with three; the
-- properties are functions.
use zenoh_perf.Base.{
  ℕ, ◌+◌, ◌≤◌, ◌≡◌, refl, false, String, Option, none, some, List, [], ◌∷◌, arith, ◌==◌,
  if◌then◌else◌, done,
}
use zenoh_perf.Proto.{peer, client, list_io}
use zenoh_perf.Startup.{Config, session_mode}
use zenoh_perf.Startup.Properties.{Key, index, PropertiesLib, query_properties, Settled, Placed}
use zenoh_perf.Throughput.Monitor.{Labels}
use zenoh_perf.Query.{Asker}
use zenoh_perf.Query.Rates.{Rates}
use zenoh_perf.Query.Report.{average, z_report, zn_report}
use zenoh_perf.Query.SessionPrograms.{
  Turn, Reply, z_eval_main, z_query_main, zn_eval_main, zn_query_main, z_query_thr_main,
  zn_query_thr_main, one_each, numbered,
}
use zenoh_perf.Query.SessionPrograms.Answers.{z_query_answered, zn_query_answered}
use zenoh_perf.Query.SessionPrograms.Counting.{first_second}
use zenoh_perf.Query.RouterPrograms.{
  Evaluating, r_eval_main, r_query_main, queries, answered_by, r_query_answered,
}
use zenoh_perf.Startup.{router_mode}
use zenoh_perf.Proto.{router}
use zenoh_perf.Tests.Rate.{ceil_floats}

insert_same :
    (k : Key) (s : String) (p : Key → Option String)
    → (if index k == index k then some s else p k) ≡ some s
insert_same k s p = ground arith

insert_other :
    (k j : Key) (s : String) (p : Key → Option String)
    → (index k == index j) ≡ false
    → (if index k == index j then some s else p k) ≡ p k
insert_other k j s p h = ground (arith, h)

abbrev properties : PropertiesLib
properties = record {
  Properties = Key → Option String;
  default = λ k. none;
  insert = λ j s p k. if index k == index j then some s else p k;
  get = λ k p. p k;
  get-insert = insert_same;
  get_other = insert_other;
}

abbrev base : Config ℕ
base = record { mode = none; multicast = none; add_timestamp = none; listen = []; connect = [] }

abbrev asker : Asker
asker = record { scenario = "lan"; name = "query" }

abbrev times : List (ℕ × ℕ)
times = (10, 25) ∷ (30, 41) ∷ []

z_query_answered_example :
    (listens connects : Config ℕ) × (replies : List (Reply list_io ℕ)) × (z_eval_main list_io
        {F = ℕ}
        (λ path. none)
        base
        peer
        (5 ∷ [])
        8
        (3 ∷ 4 ∷ [])
      ≡ done (listens, replies))
    × (z_query_main list_io {F = ℕ}
          (λ path. none)
          base
          client
          (5 ∷ [])
          asker
          (one_each list_io replies times)
        ≡ done (connects, numbered "zenoh" asker 8 0 times))
    × (listens.listen ≡ 5 ∷ [])
    × (connects.connect ≡ 5 ∷ [])
z_query_answered_example =
    z_query_answered list_io {F = ℕ} (λ path. none) base client (5 ∷ []) asker 8 (3 ∷ 4 ∷ []) times
      (omega arith) refl (omega arith)

peer_evals : session_mode "peer" ≡ some peer
unfolding session_mode
peer_evals = refl

zn_query_answered_example :
    (listens connects : Key → Option String) × (replies : List (Reply list_io ℕ)) × (zn_eval_main
        list_io properties "peer" "tcp/127.0.0.1:7447" 8
        (3 ∷ 4 ∷ [])
      ≡ done (listens, replies))
    × (zn_query_main list_io properties "client" "tcp/127.0.0.1:7447" asker
          (one_each list_io replies times)
        ≡ (connects, numbered "zenoh-net" asker 8 0 times))
    × Settled properties "peer" listens
    × Placed properties peer "tcp/127.0.0.1:7447" listens
    × Settled properties "client" connects
    × Placed properties client "tcp/127.0.0.1:7447" connects
zn_query_answered_example =
    zn_query_answered list_io properties "peer" "client" "tcp/127.0.0.1:7447" peer asker 8
      (3 ∷ 4 ∷ []) times peer_evals (omega arith) refl (omega arith)

abbrev labels : Labels
labels = record { scenario = "lan"; name = "query"; payload = 8 }

abbrev turn : ℕ → Turn (List ℕ)
turn micros = record { replies = [] ∷ []; instant = 100; now = 100 + micros }

first_second_example :
    (s : Rates) × (z_query_thr_main list_io properties "client" "tcp/127.0.0.1:7447"
        (turn 10 ∷ turn 12 ∷ turn 16 ∷ [])
      ≡ (query_properties properties "client" "tcp/127.0.0.1:7447", s))
    × (zn_query_thr_main list_io properties "client" "tcp/127.0.0.1:7447"
          (turn 10 ∷ turn 12 ∷ turn 16 ∷ [])
        ≡ (query_properties properties "client" "tcp/127.0.0.1:7447", s))
    × (z_report ceil_floats labels 1000000 s.rtt s.counter
        ≡ some (record {
          stack = "zenoh";
          labels = labels;
          rate = 3;
          average = average ceil_floats 38 3;
        }))
    × (zn_report ceil_floats labels 1000000 s.rtt s.counter
        ≡ some (record {
          stack = "zenoh-net";
          labels = labels;
          rate = 3;
          average = average ceil_floats 38 3;
        }))
    × (10 ≤ average ceil_floats 38 3)
    × (average ceil_floats 38 3 ≤ 16)
    × Placed properties client "tcp/127.0.0.1:7447"
        (query_properties properties "client" "tcp/127.0.0.1:7447")
first_second_example =
    first_second list_io properties ceil_floats "client" "tcp/127.0.0.1:7447" labels 10 16 (turn 10)
      (turn 12 ∷ turn 16 ∷ [])
      ((omega arith, omega arith), ((omega arith, omega arith), ((omega arith, omega arith), tt)))
      (omega arith) (omega arith)

router_evals : router_mode "router" ≡ some router
unfolding router_mode
router_evals = refl

r_query_answered_example :
    (e : Evaluating (Key → Option String) (List ℕ)) × (connects : Key → Option String)
    × (r_eval_main list_io properties "router" "tcp/127.0.0.1:7447" 8 (queries list_io 0 times)
        ≡ done e)
    × (r_query_main list_io properties "client" "tcp/127.0.0.1:7447" asker
          (answered_by list_io e.answers times)
        ≡ done (connects, numbered "router" asker 8 0 times))
    × Settled properties "router" e.config
    × Placed properties router "tcp/127.0.0.1:7447" e.config
    × Settled properties "client" connects
    × Placed properties client "tcp/127.0.0.1:7447" connects
r_query_answered_example =
    r_query_answered list_io properties "router" "client" "tcp/127.0.0.1:7447" router asker 8 times
      router_evals (omega arith) (omega arith)
