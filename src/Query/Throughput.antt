-- ===== src/Query/Throughput.antt =====
-- The loops of query/src/bin/t_query_thr.rs and r_query_thr.rs, as the blocking loop of `Sequential`
-- with the evaluating program behind the network. A loop reports the micros of each turn.
pub mod Measured
use zenoh_perf.Base.{
  none, ℕ, ◌^◌, ◌<◌, ◌≡◌, refl, true, false, List, ◌∷◌, arith, Outcome, done, unwrap, ◌>>=◌,
}
use zenoh_perf.Pending.{Pending}
use zenoh_perf.Proto.{ZBufIo, ZenohBody, KeyExpr, Call}
use zenoh_perf.Latency.Sequential.{
  Action, insert_barrier, stamp, send, wait, print, ending, answer, PingTool,
}
use zenoh_perf.Query.{make_query, eval_message, handle_reply}
use zenoh_perf.Query.Router.{query_call, eval_on_call, eval_query, first_wait}

-- One turn of either loop: the query `ask`, and the two `fetch_add`s as one report.
unfoldable pub query_round : {M : Type 0} → (ℕ → M) → ℕ → List (Action M)
query_round ask count =
    insert_barrier count ∷ stamp ∷ send (ask count) ∷ wait ∷ print count ∷ ending none

pub query_round-eq :
    {M : Type 0} (ask : ℕ → M) (k : ℕ)
    → query_round ask k ≡ insert_barrier k ∷ stamp ∷ send (ask k) ∷ wait ∷ print k ∷ ending none
unfolding query_round
query_round-eq ask k = refl

-- What a turn adds to the counters: its number, and the micros for `rtt`.
abbrev pub Turn : Type 0
Turn = ℕ × ℕ

module _ (io : ZBufIo) where
  open io use {ZBuf, from}

  -- t_query_thr's handler on t_eval's reply to a query.
  unfoldable pub t_answer : ℕ → KeyExpr × ZenohBody ZBuf → Pending ℕ → Outcome (ℕ × Pending ℕ)
  unfolding eval_message handle_reply
  t_answer payload query pending = do
    reply ← eval_message io payload query.1
    handle_reply io reply.body pending

  pub t_answer-make_query :
      (payload : ℕ)
      → payload < 2 ^ 63
      → (k : ℕ) (p : Pending ℕ) → k < 2 ^ 64
      → t_answer payload (make_query io k) p ≡ answer k p
  unfolding t_answer make_query
  t_answer-make_query payload fits k p h = ground arith

  -- t_query_thr against t_eval with a payload option that Rust can allocate.
  abbrev pub t_query_thr : (payload : ℕ) → payload < 2 ^ 63 → PingTool
  t_query_thr payload fits = record {
    Message = KeyExpr × ZenohBody ZBuf;
    Printed = Turn;
    sleeps = none;
    make = make_query io;
    round = query_round (make_query io);
    receive = t_answer payload;
    line = λ count micros. (count, micros);
    count_of = λ turn. turn.0;
    line-count = λ k micros. refl;
    round-eq = query_round-eq (make_query io);
    receive-make = t_answer-make_query payload fits;
  }

  -- r_query_thr's callbacks on r_eval's answer to a query.
  unfoldable pub r_answer : ℕ → Call ZBuf → Pending ℕ → Outcome (ℕ × Pending ℕ)
  unfolding first_wait
  r_answer payload query pending = do
    calls ← eval_on_call io true payload query
    (waits, left) ← first_wait io calls pending
    barrier ← unwrap waits
    done (barrier, left)

  pub r_answer-query_call :
      (payload : ℕ)
      → payload < 2 ^ 63
      → (k : ℕ) (p : Pending ℕ) → k < 2 ^ 64
      → r_answer payload (query_call io k) p ≡ answer k p
  unfolding r_answer
  r_answer-query_call payload fits k p h = ground (arith, eval_query io payload k)

  -- r_query_thr against r_eval with a payload option that Rust can allocate.
  abbrev pub r_query_thr : (payload : ℕ) → payload < 2 ^ 63 → PingTool
  r_query_thr payload fits = record {
    Message = Call ZBuf;
    Printed = Turn;
    sleeps = none;
    make = query_call io;
    round = query_round (query_call io);
    receive = r_answer payload;
    line = λ count micros. (count, micros);
    count_of = λ turn. turn.0;
    line-count = λ k micros. refl;
    round-eq = query_round-eq (query_call io);
    receive-make = r_answer-query_call payload fits;
  }
