-- ===== src/Tests/Stopping.antt =====
-- r_ping.rs without `--parallel`, a payload of 8 bytes and an interval of -1: its only line.
use zenoh_perf.Base.{ℕ, ◌+◌, ◌*◌, ◌^◌, ◌≡◌, refl, ◌⊎◌, false, none, some, [], ◌∷◌, arith, List}
use zenoh_perf.Pending
use zenoh_perf.Proto.{list_io, SendData}
use zenoh_perf.Latency.Report.{Settings}
use zenoh_perf.Latency.Sequential.{
  wait, print, sleep, advance, PingTool, System, Reach, start, later, turn, act, deliver, meet,
}
use zenoh_perf.Latency.Sequential.Safety.{pong_meets_loop}
use zenoh_perf.Latency.Sequential.Stopping.{stops_at_sleep}
use zenoh_perf.Latency.RPing.Single.{tool}
use zenoh_perf.Latency.RPing.Parallel.{make_call}

abbrev here : Settings
here = record { scenario = "lan"; name = "ping"; interval = 2 ^ 63 + 1023 * 2 ^ 52 }

abbrev ping_tool : PingTool
ping_tool = tool list_io here []

abbrev ping_0 : SendData (List ℕ)
ping_0 = make_call list_io [] 0

refused : ping_tool.sleeps ≡ some false
refused = refl

abbrev under_way : System ping_tool.Printed ping_tool.Message
under_way = record {
  count = 0;
  todo = wait ∷ print 0 ∷ sleep false ∷ advance ∷ [];
  barrier = 0;
  barriers = 1;
  started = 5;
  pending = Pending.insert 0 0 Pending.empty;
  wire = ping_0 ∷ [];
  handler = none;
  printed = [];
  lost = 0;
}

under_way-Reach : Reach ping_tool 4 under_way
under_way-Reach =
    later
      (later (later (later start (turn refl) refl) (act 4 _ _ (ping_tool.round-eq 0) refl) refl)
        (act 5 _ _ refl refl) refl)
      (act 6 _ _ refl refl) refl

abbrev stopped : System ping_tool.Printed ping_tool.Message
stopped = record under_way {
  todo = sleep false ∷ advance ∷ [];
  pending = Pending.remove 0 under_way.pending;
  wire = [];
  printed = ping_tool.line 0 4 ∷ [];
}

stopped-Reach : Reach ping_tool 7 stopped
stopped-Reach =
    let taken = pong_meets_loop ping_tool 4 under_way (omega arith) under_way-Reach 0 ping_0 refl in
    later
      (later (later under_way-Reach (deliver 0 ping_0 0 _ refl refl taken.2) refl)
        (meet _ refl refl) refl)
      (act 9 _ _ refl refl) refl

stops_at_sleep_example :
    (stopped.printed ≡ [])
    ⊎ ((l : ping_tool.Printed) × (stopped.printed ≡ l ∷ [])
        × (ping_tool.count_of l ≡ 0)
        × (stopped.todo ≡ sleep false ∷ advance ∷ []))
stops_at_sleep_example = stops_at_sleep ping_tool refused 7 stopped (omega arith) stopped-Reach
