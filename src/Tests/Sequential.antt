-- ===== src/Tests/Sequential.antt =====
-- The blocking ping of t_ping.rs with a payload of 8 bytes, up to its first wait; the payload option.
use mathlib.Core.Option.{some-injective}
use zenoh_perf.Base.{true, false, some, ℕ, ◌+◌, ◌≤◌, ◌≡◌, refl, none, List, [], ◌∷◌, arith, done}
use zenoh_perf.Pending
use zenoh_perf.Proto.{list_io, ZenohMessage}
use zenoh_perf.Latency.Report.{Settings}
use zenoh_perf.Latency.Sequential.{
  wait, print, sleep, advance, PingTool, System, Reach, start, later, turn, act, deliver, meet,
  exec,
}
use zenoh_perf.Latency.Sequential.Cycle.{Entry, prints, cycle, refines_cycle}
use zenoh_perf.Latency.Sequential.Safety.{pong_meets_loop}
use zenoh_perf.Latency.Sequential.Completion.{next_line}
use zenoh_perf.Latency.TPing.Single.{tool}
use zenoh_perf.Latency.TPing.Parallel.{make_message}

abbrev here : Settings
here = record { scenario = "lan"; name = "ping"; interval = 0 }

abbrev ping_tool : PingTool
ping_tool = tool list_io here []

abbrev ping_0 : ZenohMessage (List ℕ)
ping_0 = make_message list_io [] 0

abbrev under_way : System ping_tool.Printed ping_tool.Message
under_way = record {
  count = 0;
  todo = wait ∷ print 0 ∷ sleep true ∷ advance ∷ [];
  barrier = 0;
  barriers = 1;
  started = 5;
  pending = Pending.insert 0 0 Pending.empty;
  wire = ping_0 ∷ [];
  handler = none;
  printed = [];
  lost = 0;
}

under_way-Reach : Reach ping_tool 4 under_way
under_way-Reach =
    later
      (later (later (later start (turn refl) refl) (act 4 _ _ (ping_tool.round-eq 0) refl) refl)
        (act 5 _ _ refl refl) refl)
      (act 6 _ _ refl refl) refl

pong_meets_loop_example :
    (under_way.todo ≡ wait ∷ print 0 ∷ sleep true ∷ advance ∷ [])
    × (under_way.handler ≡ none)
    × (ping_tool.receive ping_0 under_way.pending
        ≡ done (under_way.barrier, Pending.remove 0 under_way.pending))
pong_meets_loop_example =
    pong_meets_loop ping_tool 4 under_way (omega arith) under_way-Reach 0 ping_0 refl

-- The handler has taken the pong, and the barrier has let the loop go.
abbrev met : System ping_tool.Printed ping_tool.Message
met = record under_way {
  todo = print 0 ∷ sleep true ∷ advance ∷ [];
  pending = Pending.remove 0 under_way.pending;
  wire = [];
}

met-Reach : Reach ping_tool 6 met
met-Reach =
    let taken = pong_meets_loop ping_tool 4 under_way (omega arith) under_way-Reach 0 ping_0 refl in
    later (later under_way-Reach (deliver 0 ping_0 0 _ refl refl taken.2) refl) (meet _ refl refl)
      refl

refines_cycle_example :
    Entry ping_tool.line
      (cycle met)
      (prints 9)
      (cycle (exec ping_tool.line 9 (print 0) (sleep true ∷ advance ∷ []) met))
refines_cycle_example =
    refines_cycle ping_tool 6 met (exec ping_tool.line 9 (print 0) (sleep true ∷ advance ∷ []) met)
      (omega arith) met-Reach (act 9 (print 0) (sleep true ∷ advance ∷ []) refl refl)

lasting : ¬ (some true ≡ some false)
lasting same = let equal = some-injective _ _ same in cc

next_line_example :
    (m : ℕ) × (t : System ping_tool.Printed ping_tool.Message) × (l : ping_tool.Printed) × (m ≤ 9)
    × Reach ping_tool (4 + m) t
    × (t.lost ≡ 0)
    × (t.printed ≡ l ∷ [])
    × (ping_tool.count_of l ≡ 0)
next_line_example = next_line ping_tool 4 under_way (omega arith) lasting under_way-Reach refl
