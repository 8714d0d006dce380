-- ===== src/Tests/Peers.antt =====
-- z_ping and z_pong, which meet or do not.
use zenoh_perf.Base.{
  ℕ, ◌+◌, ◌≡◌, refl, true, false, String, Option, none, some, List, [], ◌∷◌, arith, ◌==◌,
  if◌then◌else◌, done, length, get_elem?,
}
use zenoh_perf.Latency.Session.{Keys, Names}
use zenoh_perf.Latency.SessionPrograms.{
  z_ping_start, z_pong_start, single_loop, answer_of, z_pong_serves_z_ping,
}
use zenoh_perf.Latency.Report.{Line}
use zenoh_perf.Startup.{Config, session_mode, parse_all}
use zenoh_perf.Duration.{is_duration}
use zenoh_perf.Proto.{list_io, peer, client}
use zenoh_perf.Latency.ZPing
use zenoh_perf.Latency.ZPing.{single_keys, parallel_keys, ping, pong_line, settings}
use zenoh_perf.Latency.Pong
use zenoh_perf.Latency.Pong.{pong_keys, z_pong_misses}

abbrev z_options : ZPing.Opt
z_options = record {
  endpoint = none;
  mode = "peer";
  payload = 8;
  name = "ping";
  scenario = "lan";
  interval = 0;
  parallel = true;
  use_expr = true;
  declare_publication = false;
}

abbrev pong_options : Pong.Opt
pong_options = record {
  endpoint = "tcp/127.0.0.1:7447";
  mode = "peer";
  use_expr = false;
  declare_publication = true;
}

-- The ids of the declared expressions of z_pong and of z_ping with `--parallel`.
abbrev pong_table : ℕ → Option String
pong_table k = if k == 1 then some "/test/ping" else if k == 2 then some "/test/pong" else none

abbrev single_table : ℕ → Option String
single_table k = if k == 1 then some "/test/pong" else if k == 2 then some "/test/ping" else none

abbrev parallel_table : ℕ → Option String
parallel_table k =
    if k == 1 then some "/test/z_pong" else if k == 2 then some "/test/z_ping" else none

-- The code points of the one text that the options have.
abbrev chars : String → List ℕ
chars text = b'a' ∷ b',' ∷ b'b' ∷ []

abbrev parse : List ℕ → Option ℕ
parse [] = none
parse (c ∷ s) = some c

abbrev default : Config ℕ
default = record { mode = none; multicast = none; add_timestamp = none; listen = []; connect = [] }

abbrev pinging : ZPing.Opt
pinging = record z_options { endpoint = some "a,b"; mode = "client"; parallel = false }

abbrev ponging : Pong.Opt
ponging = record pong_options { endpoint = "a,b" }

client_dials : session_mode "client" ≡ some client
unfolding session_mode
client_dials = refl

peer_listens : session_mode "peer" ≡ some peer
unfolding session_mode
peer_listens = refl

both_parsed : parse_all parse default ((b'a' ∷ []) ∷ (b'b' ∷ []) ∷ []) ≡ done (b'a' ∷ b'b' ∷ [])
unfolding parse_all
both_parsed = refl

zero_lasts : is_duration 0 ≡ true
zero_lasts = refl

z_pong_serves_z_ping_example :
    (asked : Keys) × (answered : Keys) × (run : List (List ℕ × Line)) × (z_ping_start chars parse
        default 1 2 pinging
      ≡ done (
        record default { mode = some client; multicast = some false; connect = b'a' ∷ b'b' ∷ [] },
        asked,
      ))
    × (z_pong_start chars parse default 1 2 ponging
        ≡ done (
          record default { mode = some peer; multicast = some false; listen = b'a' ∷ b'b' ∷ [] },
          answered,
        ))
    × Names single_table asked.target "/test/ping"
    × Names pong_table answered.subscribed "/test/ping"
    × Names pong_table answered.target "/test/pong"
    × Names single_table asked.subscribed "/test/pong"
    × (single_loop list_io pinging (answer_of list_io answered) (λ count. 30 + count) 4 0
        ≡ done run)
    × (length run ≡ 4)
    × (get_elem? run 2
        ≡ some (
          ping list_io 8 2,
          pong_line list_io "latency.sequential" (settings pinging) 8 2 (30 + 2),
        ))
z_pong_serves_z_ping_example =
    z_pong_serves_z_ping chars parse default list_io single_table pong_table 1 2 1 2 pinging ponging
      client (b'a' ∷ []) ((b'b' ∷ []) ∷ []) (b'a' ∷ b'b' ∷ []) (λ count. 30 + count) 4 2
      (refl, refl) (refl, refl) refl peer_listens client_dials refl refl (omega arith, tt)
      ((omega arith, tt), tt) both_parsed (omega arith) (omega arith) (omega arith) (omega arith)
      zero_lasts

z_pong_misses_example : ¬ (
    Names parallel_table (parallel_keys 1 2 z_options).target "/test/ping"
    × Names pong_table (pong_keys 1 2 pong_options).subscribed "/test/ping")
z_pong_misses_example =
    z_pong_misses parallel_table pong_table 1 2 1 2 z_options pong_options (refl, refl) (refl, refl)
      "/test/ping"
