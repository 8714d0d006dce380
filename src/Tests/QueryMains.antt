-- ===== src/Tests/QueryMains.antt =====
-- t_eval with t_query and with t_query_thr, from their options on.
use zenoh_perf.Base.{inl, ◌∙◌, ℕ, ◌+◌, ◌≡◌, refl, ◌≤◌, none, map, [], ◌∷◌, arith, done}
use zenoh_perf.Proto.{peer, client, list_io}
use zenoh_perf.Startup.Manager.{builder}
use zenoh_perf.Throughput.Counter.{sum}
use zenoh_perf.Latency.Sequential.Invariant.{down_from}
use zenoh_perf.Query.{QueryLine, query_line}
use zenoh_perf.Query.TransportPrograms.{EvalOpt, QueryOpt, asker_of, t_eval_main, t_query_main}
use zenoh_perf.Query.TransportPrograms.Asked.{query_lines}
use zenoh_perf.Query.Asking.Exchange.Times.{Timed, asked_when, printed_when}
use zenoh_perf.Tests.Queries.{one_printed, one_printed-Reach}
use zenoh_perf.Pending
use zenoh_perf.Pending.{Pending, get-insert}
use zenoh_perf.Latency.Sequential
use zenoh_perf.Latency.Sequential.{PingTool, System}
use zenoh_perf.Query.Throughput.{Turn, t_query_thr, query_round-eq}
use zenoh_perf.Query.Throughput.Measured
use zenoh_perf.Query.Rates
use zenoh_perf.Query.Rates.{Rates, add_rtt, add_one, take_rtt, take_counter}
use zenoh_perf.Query.TransportPrograms.{QueryThrOpt, t_query_thr_main, thr_labels}
use zenoh_perf.Query.TransportPrograms.Counted.{query_thr_counted}
use zenoh_perf.Query.{make_query}
use zenoh_perf.Tests.Programs.{client_built, manager, client_mode, peer_mode}

abbrev evals : EvalOpt ℕ ℕ
evals = record { locator = 5; mode = "peer"; payload = 4; config = none }

abbrev querist : QueryOpt ℕ ℕ
querist = record { locator = 5; mode = "client"; name = "query"; scenario = "lan"; config = none }

peer_built : builder manager none peer ≡ done peer
unfolding builder
peer_built = refl

query_lines_example :
    (t_eval_main manager evals
      ≡ done (record { manager = peer; listening = 5 ∷ []; opened = [] }, record { payload = 4 }))
    × (t_query_main manager querist
        ≡ done (record { manager = client; listening = []; opened = 5 ∷ [] }, asker_of querist))
    × (lines : ℕ) × (map (λ (l : QueryLine). l.qid) one_printed.printed ≡ down_from lines)
    × (0 ≤ lines + 1)
    × (lines ≤ 0 + 1)
    × Timed
        (query_line "session" (asker_of querist) 4)
        (asked_when one_printed-Reach)
        one_printed.printed
        (printed_when one_printed-Reach)
unfolding asker_of
query_lines_example =
    query_lines manager list_io evals querist peer client peer client 5 5 (omega arith) refl
      peer_mode client_mode peer_built client_built refl refl refl 6 one_printed (omega arith)
      one_printed-Reach

abbrev thr_querist : QueryThrOpt ℕ ℕ
thr_querist = record {
  locator = 5;
  mode = "client";
  name = "query";
  scenario = "lan";
  payload = 4;
  config = none;
}

abbrev thr_tool : PingTool
thr_tool = t_query_thr list_io 4 (omega arith)

-- The first reply has come 7 micros after its query, and was counted and printed.
abbrev first_counted : System Turn thr_tool.Message
first_counted = record {
  count = 0;
  todo = Sequential.advance ∷ [];
  barrier = 0;
  barriers = 1;
  started = 5;
  pending = Pending.remove 0 (Pending.insert 0 0 Pending.empty);
  wire = [];
  handler = none;
  printed = (0, 7) ∷ [];
  lost = 0;
}

abbrev first_reported : Rates
first_reported = take_counter 7 (take_rtt (add_one (add_rtt 7 Rates.at_start)))

thr_reply :
    thr_tool.receive (thr_tool.make 0) (Pending.insert 0 0 Pending.empty)
    ≡ done (0, Pending.remove 0 (Pending.insert 0 0 Pending.empty))
thr_reply =
    thr_tool.receive-make 0 (Pending.insert 0 0 Pending.empty) (omega arith)
    ∙ ground (arith, get-insert {V = ℕ} 0 0 0 Pending.empty)

-- Up to the barrier that lets both threads go.
replied-Reach :
    Measured.Reach thr_tool
      (λ turn. turn.1)
      6
      (record first_counted { todo = Sequential.print 0 ∷ Sequential.advance ∷ []; printed = [] })
      Rates.at_start
replied-Reach =
    go
      (go
        (go
          (go
            (go (go Measured.start (Sequential.turn refl) refl)
              (Sequential.act 4 _ _ (query_round-eq (make_query list_io) 0) refl) refl)
            (Sequential.act 5 _ _ refl refl) refl)
          (Sequential.act 6 _ _ refl refl) refl)
        (Sequential.deliver 0 (thr_tool.make 0) 0 _ refl refl thr_reply) refl)
      (Sequential.meet _ refl refl) refl
  where
    go :
        {n : ℕ} {s t : System Turn thr_tool.Message}
        → Measured.Reach thr_tool (λ turn. turn.1) n s Rates.at_start
        → Sequential.Step thr_tool s t
        → t.printed ≡ s.printed
        → Measured.Reach thr_tool (λ turn. turn.1) (n + 1) t Rates.at_start
    go r st e = Measured.later r (Measured.goes_on st e (inl refl)) refl

counted-Reach : Measured.Reach thr_tool (λ turn. turn.1) 10 first_counted first_reported
unfolding add_rtt add_one take_rtt take_counter
counted-Reach =
    Measured.later
      (Measured.later
        (Measured.later
          (Measured.later replied-Reach
            (Measured.ends_turn (0, 7) (Sequential.act 12 _ _ refl refl) refl refl) refl)
          (Measured.counts_turn refl) refl)
        (Measured.takes_rtt refl) refl)
      (Measured.reports 7 refl) refl

query_thr_counted_example :
    (t_eval_main manager evals
      ≡ done (record { manager = peer; listening = 5 ∷ []; opened = [] }, record { payload = 4 }))
    × (t_query_thr_main manager thr_querist
        ≡ done (
          record { manager = client; listening = []; opened = 5 ∷ [] },
          thr_labels thr_querist,
          Rates.at_start,
        ))
    × (lines : ℕ) × (map (λ (turn : Turn). turn.0) first_counted.printed ≡ down_from lines)
    × (0 ≤ lines)
    × (lines ≤ 0 + 1)
    × (sum (map (λ p. p.1) first_reported.reports)
          + first_reported.counter
          + Rates.owed first_reported.loop
        ≡ lines)
    × (sum (map (λ p. p.0) first_reported.reports)
          + first_reported.dropped
          + Rates.taken first_reported.task
          + first_reported.rtt
        ≡ 7)
query_thr_counted_example =
    query_thr_counted manager list_io evals thr_querist peer client peer client 5 5 (omega arith)
      refl peer_mode client_mode peer_built client_built refl refl refl 10 first_counted
      first_reported (omega arith) (omega arith) counted-Reach
