-- ===== src/Query/Session.antt =====
-- The query programs over a session, in query/src/bin: z_eval.rs and zn_eval.rs reply, z_query.rs and
-- zn_query.rs print a line for each query, z_query_thr.rs and zn_query_thr.rs count them. A query of a
-- session gives a stream of replies: which they are, of those that were sent, is zenoh's (it consolidates
-- them), and the list of them is an argument.
use zenoh_perf.Base.{ℕ, ◌+◌, ◌%◌, ◌^◌, ◌≡◌, refl, String, List, [], ◌∷◌, Outcome, done, ◌>>=◌}
use zenoh_perf.Proto.{ZBufIo, KeyExpr}
use zenoh_perf.Latency.Report.{zeroed}
use zenoh_perf.Query.{Asker, QueryLine, query_line}
use zenoh_perf.Query.Rates.{Rates, asking, add_rtt, add_one, Reach, later, turn_ends, turn_counts}

abbrev pub query_key : KeyExpr
query_key = KeyExpr.name "/test/query"

module _ (io : ZBufIo) where
  open io use {ZBuf, from, len, len-from}

  -- The loop of `main` of z_eval and zn_eval over the queries that arrive: the key and the payload of
  -- each reply.
  unfoldable pub serve : {Q : Type 0} → ℕ → List Q → Outcome (List (Q × KeyExpr × ZBuf))
  unfolding zeroed
  serve payload [] = done []
  serve payload (query ∷ queries) = do
    zeros ← zeroed payload
    others ← serve payload queries
    done ((query, query_key, from zeros) ∷ others)

  -- `while let Some(reply) = data_stream.next().await { payload += …len(); }`
  unfoldable pub payload_sum : ℕ → List ZBuf → ℕ
  payload_sum payload [] = payload
  payload_sum payload (reply ∷ replies) = payload_sum ((payload + len reply) % 2 ^ 64) replies

  -- A turn of the loop of z_query ("zenoh") and zn_query ("zenoh-net"), from `instant` to `now`: the
  -- line, and the next count.
  unfoldable pub session_turn : String → Asker → ℕ → List ZBuf → ℕ → ℕ → QueryLine × ℕ
  unfolding payload_sum
  session_turn stack asker count replies instant now =
      (query_line stack asker (payload_sum 0 replies) count instant now, (count + 1) % 2 ^ 64)

-- A turn of the loop of z_query_thr and zn_query_thr: the stream is read to its end, then the micros
-- of the turn are added, and one.
unfoldable pub counting_turn : {R : Type 0} → List R → ℕ → Rates → Rates
unfolding add_rtt add_one
counting_turn [] micros s = add_one (add_rtt micros s)
counting_turn (reply ∷ replies) micros s = counting_turn replies micros s

-- A turn is two steps of the counters, so what holds of them holds of these programs.
pub counting_turn-Reach :
    {R : Type 0} (replies : List R) (micros : ℕ) (s : Rates)
    → s.loop ≡ asking
    → Reach s
    → Reach (counting_turn replies micros s)
unfolding counting_turn
counting_turn-Reach [] micros s e r =
    later (later r (turn_ends micros e)) (turn_counts (unfold add_rtt in refl))
counting_turn-Reach (reply ∷ replies) micros s e r = counting_turn-Reach replies micros s e r
