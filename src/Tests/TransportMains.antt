-- ===== src/Tests/TransportMains.antt =====
-- t_pub_thr and t_sub_thr, two runs of t_pubsub_thr; all from their options on.
use zenoh_perf.Base.{
  some, ℕ, ◌+◌, ◌*◌, ◌≡◌, refl, replicate, none, map, true, false, List, [], ◌∷◌, length, arith,
  done,
}
use zenoh_perf.Proto.{name, router, id, peer, client, list_io, ZenohMessage}
use zenoh_perf.Startup.Manager.{builder}
use zenoh_perf.Throughput.Monitor.{rates}
use zenoh_perf.Throughput.Counter.{sum, tick_always}
use zenoh_perf.Throughput.Subscriber.{
  MySh, new_sh, TransportEvent, connected, monitored, message, run_transport,
}
use zenoh_perf.Throughput.Programs.{Loop, thr_message}
use zenoh_perf.Throughput.TransportPrograms.{
  TPubOpt, TSubOpt, TPubsubOpt, t_pubsub_main, Handling, ThrEvent, connects, receives, second_ends,
  t_sub_main, t_pub_main,
}
use zenoh_perf.Throughput.TransportPrograms.Meeting.{pubsub_meets}
use zenoh_perf.Throughput.TransportPrograms.Counted.{messages_of, main_counted}
use zenoh_perf.Tests.Rate.{ceil_floats}
use zenoh_perf.Tests.Programs.{late_manager, late, late_built, manager}

abbrev t_pub : TPubOpt ℕ ℕ
t_pub = record { endpoint = 5 ∷ 6 ∷ []; mode = client; payload = 2; print = false; config = none }

abbrev t_sub : TSubOpt ℕ ℕ
t_sub = record {
  endpoint = 5 ∷ 6 ∷ [];
  mode = peer;
  payload = 2;
  name = "thr";
  scenario = "lan";
  config = none;
}

abbrev two_bytes : ZenohMessage (List ℕ)
two_bytes = thr_message list_io (id 1) (0 ∷ 0 ∷ [])

-- Behind the first connection come the second one, the messages of two turns, and two seconds.
abbrev arrivals : List (ThrEvent (ZenohMessage (List ℕ)))
arrivals =
    receives two_bytes
    ∷ connects
    ∷ receives two_bytes
    ∷ second_ends 1000000
    ∷ receives two_bytes
    ∷ second_ends 1000000
    ∷ receives two_bytes
    ∷ []

four_messages : messages_of arrivals ≡ replicate (2 * 2) two_bytes
unfolding thr_message
four_messages = refl

main_counted_example :
    (sent : List (ℕ × ZenohMessage (List ℕ))) × (after : Handling) × (t_pub_main list_io manager
        (λ t. true)
        t_pub
        2
      ≡ done (sent, record { count = 2; printed = [] }))
    × (map (λ s. s.1) sent ≡ messages_of arrivals)
    × (t_sub_main list_io manager ceil_floats t_sub (connects ∷ arrivals)
        ≡ done (record { manager = router; listening = 5 ∷ 6 ∷ []; opened = [] }, after))
    × (after.tasks ≡ 1)
    × (after.seen.count + rates ceil_floats after.seen.lines ≡ 4)
main_counted_example =
    main_counted list_io manager (λ t. true) ceil_floats t_pub t_sub client router (5 ∷ 6 ∷ []) 2
      arrivals refl refl refl refl refl refl (refl, (refl, tt)) (refl, (refl, tt))
      (refl, (refl, tt)) (omega arith) (omega arith) (omega arith) four_messages (refl, (refl, tt))

abbrev sender : TPubsubOpt ℕ ℕ
sender = record {
  listen = 4 ∷ [];
  connect = 5 ∷ 6 ∷ [];
  mode = client;
  payload = 2;
  name = "thr";
  scenario = "lan";
  print = false;
  config = none;
}

abbrev hearer : TPubsubOpt ℕ ℕ
hearer = record sender { listen = 5 ∷ 6 ∷ []; connect = []; mode = peer }

late_peer_built : builder late_manager none peer ≡ done peer
unfolding builder
late_peer_built = refl

-- Two seconds between the messages of two turns, and the second connection.
abbrev heard_events : List TransportEvent
heard_events = message ∷ monitored ∷ message ∷ connected ∷ message ∷ monitored ∷ message ∷ []

pubsub_meets_example :
    (sent : List ℕ) × (own : Loop list_io late_manager (λ t. true)) × (heard : MySh)
    × (t_pubsub_main list_io late_manager (λ t. true) 3 sender 2 []
        ≡ done (
            some (
              (
                map (λ t. (t, thr_message list_io (name "test") (0 ∷ 0 ∷ []))) sent,
                record { count = 2; printed = [] },
              ),
              run_transport tick_always [] new_sh,
            )))
    × (t_pubsub_main list_io late_manager (λ t. true) 3 hearer 1 (connected ∷ heard_events)
        ≡ done (some (own, heard)))
    × (heard.monitors ≡ 1)
    × (heard.counter.count + sum heard.counter.printed ≡ length sent)
pubsub_meets_example =
    pubsub_meets list_io late_manager (λ t. true) 2 sender hearer 2 1 [] heard_events client peer
      client peer late_built late_peer_built refl refl late late (refl, tt) (refl, (refl, tt)) refl
      (omega arith) (λ t. refl) (omega arith) (omega arith) (omega arith) (omega arith) refl
      (omega arith)
