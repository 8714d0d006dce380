-- ===== src/Tests/Queries.antt =====
-- The query programs: t_query against t_eval up to its first wait, r_query_thr against r_eval, a turn
-- and a second of the counters.
use zenoh_perf.Base.{ℕ, ◌+◌, ◌≤◌, ◌≡◌, refl, ◌∙◌, none, some, [], ◌∷◌, arith, done}
use zenoh_perf.Pending
use zenoh_perf.Pending.{Pending, get-insert}
use zenoh_perf.Proto.{list_io}
use zenoh_perf.Latency.Sequential
use zenoh_perf.Query.{Asker, make_query}
use zenoh_perf.Query.Router.{query_call}
use zenoh_perf.Query.Throughput.{r_query_thr, query_round-eq}
use zenoh_perf.Query.Latency.{t_query}
use zenoh_perf.Query.Asking.{
  QueryTool, System, Step, Reach, start, later, turn, act, deliver, meet, print, wait, advance,
  idle, held, the_barrier,
}
use zenoh_perf.Query.Asking.Safety.{reply_meets_loop}
use zenoh_perf.Query.Asking.Completion.{next_reply}
use zenoh_perf.Query.Asking.Exchange.{Exchange, Entry, hidden, in_map, resting, Represents}
use zenoh_perf.Query.Asking.Exchange.Refinement.{refines_exchange}
use zenoh_perf.Query.Rates
use zenoh_perf.Query.Rates.{
  Rates, at_start, add_rtt, add_one, take_rtt, take_counter, turn_ends, turn_counts, second, owed,
  taken, micros_dropped,
}

abbrev asker : Asker
asker = record { scenario = "lan"; name = "query" }

abbrev tool : QueryTool
tool = t_query list_io asker 4 (omega arith)

-- The first query is in the map since time 5 and on the wire.
abbrev under_way : System tool.Printed tool.Message
under_way = record {
  count = 0;
  todo = wait ∷ advance ∷ [];
  pending = Pending.insert 0 (5, the_barrier) Pending.empty;
  wire = make_query list_io 0 ∷ [];
  handler = idle;
  printed = [];
  lost = 0;
}

under_way-Reach : Reach tool 3 under_way
under_way-Reach =
    later (later (later start (turn refl) refl) (act 5 _ _ (tool.round-eq 0) refl) refl)
      (act 6 _ _ refl refl) refl

reply_meets_loop_example :
    (since : ℕ) × (under_way.todo ≡ wait ∷ advance ∷ [])
    × (Pending.get 0 under_way.pending ≡ some (since, the_barrier))
    × (tool.receive (make_query list_io 0) under_way.pending
        ≡ done (the_barrier, tool.line 0 since, Pending.remove 0 under_way.pending))
reply_meets_loop_example =
    reply_meets_loop tool 3 under_way (omega arith) under_way-Reach 0 (make_query list_io 0) refl

next_reply_example :
    (m : ℕ) × (t : System tool.Printed tool.Message) × (l : tool.Printed) × (m ≤ 7)
    × Reach tool (3 + m) t
    × (t.lost ≡ 0)
    × (t.printed ≡ l ∷ [])
    × (tool.number_of l ≡ 0)
next_reply_example = next_reply tool 3 under_way (omega arith) under_way-Reach refl

-- It represents one open query.
abbrev open_query : Exchange tool.Printed
open_query = record { asked = 1; open_since = some 5; to_print = none; lines = [] }

entry_at : Pending.get 0 under_way.pending ≡ some (5, the_barrier)
entry_at = ground (arith, get-insert {V = ℕ × ℕ} 0 0 (5, the_barrier) Pending.empty)

under_way-Represents : Represents tool under_way open_query
under_way-Represents = record {
  asked = refl;
  opened = in_map 5 refl refl entry_at refl;
  left = resting refl refl;
  lines = refl;
}

-- The reply has come, and the handler stands at the barrier.
abbrev replied : System tool.Printed tool.Message
replied = record under_way {
  wire = [];
  pending = Pending.remove 0 under_way.pending;
  handler = held the_barrier (tool.line 0 5);
}

reply_comes : Step tool under_way replied
reply_comes =
    deliver 0 (make_query list_io 0) the_barrier (tool.line 0 5) _ refl refl
      (tool.receive-ask 0 under_way.pending (omega arith) ∙ ground (arith, entry_at))

-- Both have left the barrier, and the line is printed at time 12.
abbrev pub one_printed : System tool.Printed tool.Message
one_printed = record replied {
  todo = advance ∷ [];
  handler = idle;
  printed = tool.line 0 5 12 ∷ [];
}

pub one_printed-Reach : Reach tool 6 one_printed
one_printed-Reach =
    later
      (later (later under_way-Reach reply_comes refl)
        (meet (advance ∷ []) (tool.line 0 5) refl refl) refl)
      (print 12 (tool.line 0 5) refl) refl

refines_exchange_example :
    (c : Exchange tool.Printed) × Represents tool replied c × Entry tool.line open_query hidden c
unfolding reply_comes
refines_exchange_example =
    refines_exchange tool 3 under_way replied open_query (omega arith) under_way-Reach
      under_way-Represents reply_comes

-- The loop of r_query_thr in the system of the blocking ping.
first_turn : Sequential.Reach (r_query_thr list_io 4 (omega arith)) 2 (record {
  count = 0;
  todo =
      Sequential.stamp
      ∷ Sequential.send (query_call list_io 0)
      ∷ Sequential.wait
      ∷ Sequential.print 0
      ∷ Sequential.advance
      ∷ [];
  barrier = 0;
  barriers = 1;
  started = 0;
  pending = Pending.insert 0 0 Pending.empty;
  wire = [];
  handler = none;
  printed = [];
  lost = 0;
})
first_turn =
    Sequential.later (Sequential.later Sequential.start (Sequential.turn refl) refl)
      (Sequential.act 5 _ _ (query_round-eq (query_call list_io) 0) refl) refl

-- One turn of 7 micros, reported by the next second.
abbrev reported : Rates
reported = take_counter 7 (take_rtt (add_one (add_rtt 7 at_start)))

reported-Reach : Rates.Reach reported
unfolding add_rtt add_one take_rtt take_counter
reported-Reach =
    Rates.later
      (Rates.later (Rates.later (Rates.later Rates.start (turn_ends 7 refl)) (turn_counts refl))
        (second refl))
      (Rates.report 7 refl)

reported_once : reported.reports ≡ (7, 1) ∷ []
unfolding add_rtt add_one take_rtt take_counter
reported_once = refl

micros_dropped_example :
    (s : Rates) × Rates.Reach s × (s.reports ≡ (0, 1) ∷ []) × (s.turns ≡ 1) × (s.dropped ≡ 9)
micros_dropped_example = micros_dropped 9 (omega arith)
