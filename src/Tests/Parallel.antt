-- ===== src/Tests/Parallel.antt =====
-- The non-blocking ping of t_ping.rs with a payload of 8 bytes: one turn of its loop.
use zenoh_perf.Base.{
  true, ℕ, ◌-◌, ◌≡◌, refl, none, some, List, [], ◌∷◌, map, arith, ltb, if◌then◌else◌, occurrences,
  done,
}
use zenoh_perf.Pending
use zenoh_perf.Pending.{Pending, get-insert, pending_laws}
use zenoh_perf.Proto.{list_io, ZenohMessage}
use zenoh_perf.Latency.Report.{Settings}
use zenoh_perf.Latency.Parallel.{
  sleep, advance, PingTool, System, Reach, start, later, turn, act, deliver,
}
use zenoh_perf.Latency.Parallel.Ledger.{Entry, closes, ledger, refines_ledger}
use zenoh_perf.Latency.Parallel.Safety.{pong_answered, all_answered}
use zenoh_perf.Latency.TPing.Parallel.{tool, make_message, parallel_round-eq}

abbrev here : Settings
here = record { scenario = "lan"; name = "ping"; interval = 0 }

abbrev ping_tool : PingTool
ping_tool = tool list_io here []

abbrev ping_0 : ZenohMessage (List ℕ)
ping_0 = make_message list_io [] 0

-- The first ping is in the map since time 5 and on the wire.
abbrev under_way : System ping_tool.Message
under_way = record {
  count = 0;
  todo = sleep true ∷ advance ∷ [];
  pending = Pending.insert 0 5 Pending.empty;
  wire = ping_0 ∷ [];
  printed = [];
  lost = 0;
}

under_way-Reach : Reach ping_tool 3 under_way
under_way-Reach =
    later
      (later (later start (turn _ refl (parallel_round-eq list_io [] 0)) refl) (act 5 _ _ refl refl)
        refl)
      (act 6 _ _ refl refl) refl

pong_answered_example :
    (k t : ℕ) × (Pending.get k under_way.pending ≡ some t)
    × (ping_tool.receive ping_0 9 under_way.pending
        ≡ done (ping_tool.line k (9 - t), Pending.remove k under_way.pending))
pong_answered_example =
    pong_answered ping_tool 3 under_way (omega arith) under_way-Reach 9 0 ping_0 refl

-- The pong has come back at time 9, and the loop is at its next turn.
abbrev settled : System ping_tool.Message
settled = record {
  count = 1;
  todo = [];
  pending = Pending.remove 0 (Pending.insert 0 5 Pending.empty);
  wire = [];
  printed = ping_tool.line 0 4 ∷ [];
  lost = 0;
}

pong_0 :
    ping_tool.receive ping_0 9 under_way.pending
    ≡ done (ping_tool.line 0 4, Pending.remove 0 under_way.pending)
pong_0 = ground (
  arith,
  ping_tool.receive-make 0 9 under_way.pending (omega arith),
  get-insert 0 0 5 (Pending.empty {V = ℕ}),
)

settled-Reach : Reach ping_tool 6 settled
settled-Reach =
    later
      (later (later under_way-Reach (deliver 9 0 _ _ _ refl pong_0) refl) (act 10 _ _ refl refl)
        refl)
      (act 11 _ _ refl refl) refl

all_answered_example :
    (occurrences 0 (map (λ l. l.count) settled.printed) ≡ (if ltb 0 settled.count then 1 else 0))
    × (Pending.get 0 settled.pending ≡ none)
all_answered_example = all_answered ping_tool 6 settled (omega arith) settled-Reach refl refl refl 0

refines_ledger_example : Entry ping_tool.line (ledger under_way) (closes 9) (
    ledger (record under_way {
      pending = Pending.remove 0 under_way.pending;
      wire = [];
      printed = ping_tool.line 0 4 ∷ [];
    }))
refines_ledger_example =
    refines_ledger ping_tool 3 under_way _ (omega arith) under_way-Reach
      (deliver 9 0 ping_0 (ping_tool.line 0 4) (Pending.remove 0 under_way.pending) refl pong_0)
