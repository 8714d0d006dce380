-- ===== src/Tests/Startup.antt =====
-- r_ping and r_pong at small inputs, from their options on.
use zenoh_perf.Base.{
  ℕ, ◌-◌, ◌++◌, String, ◌≡◌, refl, true, false, Option, none, some, List, [], ◌∷◌, arith, done,
}
use zenoh_perf.Proto.{router, client, list_io, Call, send_data, resource_of, subscriptions, targets}
use zenoh_perf.Startup.{Config, split, router_mode, parse_all}
use zenoh_perf.Pending
use zenoh_perf.Latency.RPing
use zenoh_perf.Latency.RPing.Parallel.{declarations, make_call, pong_line}
use zenoh_perf.Latency.Pong.{pong_declarations, pong_on_call, on_calls}
use zenoh_perf.Latency.RouterPrograms.{
  RPongOpt, r_ping_main, r_pong_main, loop_of, r_pong_serves_r_ping,
}

-- A parser that wants a text, and the default.
abbrev parse : List ℕ → Option ℕ
parse [] = none
parse (c ∷ s) = some c

abbrev base : Config ℕ
base = record { mode = none; multicast = none; add_timestamp = none; listen = []; connect = [] }

commas_split : split (b'a' ∷ b',' ∷ b',' ∷ b'b' ∷ []) ≡ (b'a' ∷ []) ∷ [] ∷ (b'b' ∷ []) ∷ []
unfolding split
commas_split = refl

abbrev pieces : List (List ℕ)
pieces = (b'b' ∷ []) ∷ []

both_parsed : parse_all parse base ((b'a' ∷ []) ∷ pieces) ≡ done (b'a' ∷ b'b' ∷ [])
unfolding parse_all
both_parsed = refl

router_listens : router_mode "router" ≡ some router
unfolding router_mode
router_listens = refl

client_dials : router_mode "client" ≡ some client
unfolding router_mode
client_dials = refl

-- The code points of the one text that the options have.
chars : String → List ℕ
chars text = b'a' ∷ b',' ∷ b'b' ∷ []

abbrev r_pong : RPongOpt
r_pong = record { endpoint = "a,b"; mode = "router" }

abbrev r_ping : RPing.Opt
r_ping = record {
  endpoint = "a,b";
  mode = "client";
  payload = 9;
  name = "ping";
  scenario = "lan";
  interval = 0;
  parallel = true;
}

r_pong_serves_r_ping_example :
    (r_pong_main list_io chars parse base r_pong
      ≡ done (
        record base { mode = some router; multicast = some false; listen = b'a' ∷ b'b' ∷ [] },
        pong_declarations,
      ))
    × (r_ping_main list_io chars parse base r_ping
        ≡ done (
          record base { mode = some client; multicast = some false; connect = b'a' ∷ b'b' ∷ [] },
          declarations list_io,
          loop_of list_io r_ping,
        ))
    × (resource_of (declarations list_io) (make_call list_io (0 ∷ []) 3).key_expr
        ≡ some "/test/ping")
    × (subscriptions (pong_declarations {B = List ℕ}) ≡ some "/test/ping" ∷ [])
    × (subscriptions (declarations list_io) ≡ some "/test/pong" ∷ [])
    × (calls : List (Call (List ℕ))) × (pong_on_call true (send_data (make_call list_io (0 ∷ []) 3))
        ≡ done calls)
    × (targets (pong_declarations ++ calls) ≡ some "/test/pong" ∷ [])
    × (on_calls list_io (RPing.settings r_ping) calls 40 (Pending.insert 3 25 Pending.empty)
        ≡ done (
          pong_line list_io (RPing.settings r_ping) 9 3 (40 - 25) ∷ [],
          Pending.remove 3 (Pending.insert 3 25 Pending.empty),
        ))
unfolding chars
r_pong_serves_r_ping_example =
    r_pong_serves_r_ping list_io chars parse base r_pong r_ping router client (b'a' ∷ []) pieces
      (b'a' ∷ b'b' ∷ []) 3 40 25 Pending.empty router_listens (ground arith) client_dials refl refl
      (omega arith, tt) ((omega arith, tt), tt) both_parsed (omega arith) (omega arith)
      (omega arith)
