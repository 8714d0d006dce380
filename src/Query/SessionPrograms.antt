-- ===== src/Query/SessionPrograms.antt =====
-- `main` of the query programs over a session, in query/src/bin, from the options on: z_eval.rs and
-- zn_eval.rs, z_query.rs and zn_query.rs, z_query_thr.rs and zn_query_thr.rs. The session is zenoh's: it
-- hands over the queries, and gives each turn of an asking loop the stream of its replies.
pub mod Answers
pub mod Counting
use zenoh_perf.Base.{
  ℕ, ◌+◌, ◌-◌, ◌%◌, ◌^◌, ◌<◌, ◌≡◌, refl, String, Option, none, some, List, [], ◌∷◌, ◌++◌, map,
  arith, length, replicate, length-replicate, Outcome, done, ◌>>=◌,
}
use zenoh_perf.Proto.{ZBufIo, WhatAmI, peer, client, KeyExpr}
use zenoh_perf.Startup.{Config, session_mode, eval_config, query_config, base_config}
use zenoh_perf.Startup.Meeting.{pub_config-base, z_sub_config-peer}
use zenoh_perf.Startup.Properties.{
  PropertiesLib, query_properties, zn_eval_properties, Placed, query-Placed, zn_eval-Placed,
}
use zenoh_perf.Query.{Asker, QueryLine, query_line}
use zenoh_perf.Query.Session.{query_key, serve, payload_sum, session_turn, counting_turn}
use zenoh_perf.Query.Rates
use zenoh_perf.Query.Rates.{Rates}

-- What a turn of an asking loop brings: the replies, when it began, and when they were read.
pub record Turn (B : Type 0) : Type 0 where
  pub replies : List B
  pub instant : ℕ
  pub now : ℕ

-- The loop of z_query_thr and zn_query_thr.
unfoldable pub counting_turns : {B : Type 0} → List (Turn B) → Rates → Rates
unfolding counting_turn
counting_turns [] s = s
counting_turns (t ∷ turns) s = counting_turns turns (counting_turn t.replies (t.now - t.instant) s)

-- One line for each turn, numbered from `count`, with this payload.
abbrev pub numbered : String → Asker → ℕ → ℕ → List (ℕ × ℕ) → List QueryLine
numbered stack asker payload count [] = []
numbered stack asker payload count ((instant, now) ∷ times) =
    query_line stack asker payload count instant now
    ∷ numbered stack asker payload (count + 1) times

module _ (io : ZBufIo) where
  open io use {ZBuf, from, len, len-from}

  -- A reply: the query, its key, and the payload.
  abbrev pub Reply : Type 0 → Type 0
  Reply Q = Q × KeyExpr × ZBuf

  -- The loop of z_query and zn_query, from a count on: the lines, and the count behind them.
  unfoldable pub session_turns : String → Asker → ℕ → List (Turn ZBuf) → List QueryLine × ℕ
  unfolding session_turn
  session_turns stack asker count [] = ([], count)
  session_turns stack asker count (t ∷ turns) =
      let (line, next) = session_turn io stack asker count t.replies t.instant t.now in
      let (lines, last) = session_turns stack asker next turns in (line ∷ lines, last)

  module _ {E F : Type 0} (from_file : F → Option (Config E)) (default : Config E) where
    unfoldable pub z_eval_main :
        {Q : Type 0} → WhatAmI → List E → ℕ → List Q → Outcome (Config E × List (Reply Q))
    unfolding eval_config serve
    z_eval_main mode endpoint payload queries = do
      config ← eval_config from_file default mode endpoint
      replies ← serve io payload queries
      done (config, replies)

    unfoldable pub z_query_main :
        WhatAmI → List E → Asker → List (Turn ZBuf) → Outcome (Config E × List QueryLine)
    unfolding query_config session_turns
    z_query_main mode endpoint asker turns = do
      config ← query_config from_file default mode endpoint
      done (config, (session_turns "zenoh" asker 0 turns).0)

  module _ (lib : PropertiesLib) where
    open lib use {Properties}

    unfoldable pub zn_eval_main :
        {Q : Type 0} → String → String → ℕ → List Q → Outcome (Properties × List (Reply Q))
    unfolding zn_eval_properties serve
    zn_eval_main mode locator payload queries = do
      config ← zn_eval_properties lib mode locator
      replies ← serve io payload queries
      done (config, replies)

    unfoldable pub zn_query_main :
        String → String → Asker → List (Turn ZBuf) → Properties × List QueryLine
    unfolding query_properties session_turns
    zn_query_main mode locator asker turns =
        (query_properties lib mode locator, (session_turns "zenoh-net" asker 0 turns).0)

    -- Both programs that count: the session of one takes texts, the other wraps the same map.
    unfoldable pub z_query_thr_main : String → String → List (Turn ZBuf) → Properties × Rates
    unfolding query_properties counting_turns
    z_query_thr_main mode locator turns =
        (query_properties lib mode locator, counting_turns turns Rates.at_start)

    unfoldable pub zn_query_thr_main : String → String → List (Turn ZBuf) → Properties × Rates
    unfolding query_properties counting_turns
    zn_query_thr_main mode locator turns =
        (query_properties lib mode locator, counting_turns turns Rates.at_start)

  -- The turns when each query has one reply: the replies, each with when it was asked and read.
  abbrev pub one_each : {Q : Type 0} → List (Reply Q) → List (ℕ × ℕ) → List (Turn ZBuf)
  one_each [] times = []
  one_each (r ∷ replies) [] = []
  one_each (r ∷ replies) ((instant, now) ∷ times) =
      record { replies = r.2 ∷ []; instant = instant; now = now } ∷ one_each replies times
