-- ===== src/Tests/LatencyMains.antt =====
-- t_ping, t_pong, t_pub_delay and t_sub_delay from their options on.
use zenoh_perf.Base.{
  ℕ, ◌+◌, ◌*◌, ◌^◌, ◌≡◌, refl, true, false, List, [], ◌∷◌, length, arith, done, panic,
  capacity_overflow, no_duration,
}
use zenoh_perf.Duration.{is_duration}
use zenoh_perf.Proto.{peer, client, list_io, ZenohMessage}
use zenoh_perf.Startup.Manager.{t_ping}
use zenoh_perf.Latency.TPing
use zenoh_perf.Latency.Delay.Turns.{handle_turns}
use zenoh_perf.Latency.Programs.{
  t_pong_main, PongOpt, PubDelayOpt, t_ping_main, t_pub_delay_main, t_sub_delay_main,
}
use zenoh_perf.Latency.Programs.Starting.{loop_with, pong_serves_ping, ping_main_refused}
use zenoh_perf.Latency.Programs.Delays.{delays_from_options, delays_refused}
use zenoh_perf.Tests.Programs.{manager, client_mode, peer_mode}

-- 0.5, -1.0 and 2^64 as an `f64`.
abbrev half : ℕ
half = 1022 * 2 ^ 52

abbrev minus_one : ℕ
minus_one = 2 ^ 63 + 1023 * 2 ^ 52

half_lasts : is_duration half ≡ true
half_lasts = refl

minus_one_refused : is_duration minus_one ≡ false
minus_one_refused = refl

minus_zero_lasts : is_duration (2 ^ 63) ≡ true
minus_zero_lasts = refl

too_long_refused : is_duration (1087 * 2 ^ 52) ≡ false
too_long_refused = refl

-- Of t_pong, and of t_pong_opt.
abbrev pong_opt : PongOpt
pong_opt = record { endpoint = "tcp/127.0.0.1:7447"; mode = "peer" }

abbrev ping_opt : TPing.Opt
ping_opt = record {
  endpoint = "tcp/127.0.0.1:7447";
  mode = "client";
  payload = 64;
  name = "ping";
  scenario = "lan";
  interval = half;
  parallel = false;
}

pong_serves_ping_example :
    (zeros : List ℕ) × (t_pong_main manager pong_opt
      ≡ done (record { manager = peer; listening = 7 ∷ []; opened = [] }))
    × (t_ping_main manager list_io ping_opt
        ≡ done (
          record { manager = client; listening = []; opened = 7 ∷ [] },
          loop_with manager list_io ping_opt zeros,
        ))
    × ((count micros : ℕ)
        → ((TPing.Parallel.tool list_io (TPing.settings ping_opt) zeros).line count micros).payload
          ≡ 64)
    × ((count micros : ℕ)
        → ((TPing.Single.tool list_io (TPing.settings ping_opt) zeros).line count micros).payload
            + 8
          ≡ 64)
pong_serves_ping_example =
    pong_serves_ping manager list_io pong_opt ping_opt client peer client 7 7 refl peer_mode
      client_mode refl refl refl refl refl refl (omega arith) (omega arith)

abbrev small_opt : TPing.Opt
small_opt = record ping_opt { payload = 7 }

ping_main_refused_example :
    (t_ping manager "client" "tcp/127.0.0.1:7447"
      ≡ done (record { manager = client; listening = []; opened = 7 ∷ [] }))
    × (t_ping_main manager list_io small_opt ≡ panic capacity_overflow)
ping_main_refused_example =
    ping_main_refused manager list_io small_opt client client 7 7 client_mode refl refl refl
      (omega arith) refl

abbrev pub_delay : PubDelayOpt
pub_delay = record {
  endpoint = "tcp/127.0.0.1:7447";
  mode = "client";
  payload = 24;
  interval = half;
}

delays_from_options_example :
    (sent : List (ZenohMessage (List ℕ))) × (t_sub_delay_main manager pong_opt
      ≡ done (record { manager = peer; listening = 7 ∷ []; opened = [] }))
    × (t_pub_delay_main manager list_io pub_delay (1000 ∷ 3000 ∷ [])
        ≡ done (
          record { manager = client; listening = []; opened = 7 ∷ [] },
          record { sent = sent; ended = done tt },
        ))
    × (handle_turns list_io sent (1500 ∷ 3200 ∷ [])
        ≡ done (
            record { bytes = 24; seq = 0; time = 500 }
            ∷ record { bytes = 24; seq = 1; time = 200 }
            ∷ []))
delays_from_options_example =
    delays_from_options list_io manager pong_opt pub_delay client peer client 7 7
      ((1000, 1500) ∷ (3000, 3200) ∷ []) refl peer_mode client_mode refl refl refl refl refl refl
      (omega arith) (omega arith) (omega arith)
      ((omega arith, omega arith, omega arith), ((omega arith, omega arith, omega arith), tt))

abbrev backwards : PubDelayOpt
backwards = record pub_delay { interval = minus_one }

delays_refused_example :
    (sent : List (ZenohMessage (List ℕ))) × (t_pub_delay_main manager list_io backwards
        (1000 ∷ 3000 ∷ [])
      ≡ done (
        record { manager = client; listening = []; opened = 7 ∷ [] },
        record { sent = sent; ended = panic no_duration },
      ))
    × (length sent ≡ 1)
delays_refused_example =
    delays_refused list_io manager backwards client client 7 7 1000 (3000 ∷ []) client_mode refl
      refl refl (omega arith) refl
