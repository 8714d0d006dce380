-- ===== src/Query.antt =====
-- The query programs over the transport layer: query/src/bin/t_eval.rs replies, t_query.rs and
-- t_query_thr.rs ask and wait for the reply. Their barriers are numbers that name them.
pub mod Router
pub mod Throughput
pub mod Asking
pub mod Latency
pub mod Rates
pub mod Session
pub mod SessionPrograms
pub mod RouterPrograms
pub mod TransportPrograms
pub mod Report
use zenoh_perf.Base.{
  ℕ, ◌-◌, ◌^◌, ◌<◌, ◌≡◌, String, none, some, arith, ◌==◌, if◌then◌else◌, replicate,
  length-replicate, Outcome, done, panic, unwrap, invalid_message, multicast, ◌>>=◌,
}
use zenoh_perf.Pending
use zenoh_perf.Pending.{Pending, pending_laws, get-insert, get-remove}
use zenoh_perf.Proto.{
  ZBufIo, ZenohBody, data_body, query_body, other_body, ZenohMessage, KeyExpr, data_channel, block,
}
use zenoh_perf.Latency.Report.{zeroed}

-- `MySH` of t_query: the options that its lines repeat.
pub record Asker : Type 0 where
  pub scenario : String
  pub name : String

-- "{stack},{scenario},query.latency,{name},{payload},{qid},{micros}"
pub record QueryLine : Type 0 where
  pub stack : String
  pub scenario : String
  pub name : String
  pub payload : ℕ
  pub qid : ℕ
  pub micros : ℕ

-- The line printed at the time `now` for a query that was put into the map at `instant`.
abbrev pub query_line : String → Asker → ℕ → ℕ → ℕ → ℕ → QueryLine
query_line stack mh payload qid instant now = record {
  stack = stack;
  scenario = mh.scenario;
  name = mh.name;
  payload = payload;
  qid = qid;
  micros = now - instant;
}

-- `MySH::new_unicast` of t_query.
unfoldable pub new_unicast : Asker → Outcome Asker
new_unicast sh = done (record { scenario = sh.scenario; name = sh.name })

-- `MySH::new_multicast` of the three programs.
unfoldable pub new_multicast : {S : Type 0} → S → Outcome S
new_multicast sh = panic multicast

module _ (io : ZBufIo) where
  open io use {ZBuf, from, len, len-from}

  -- The query of the turn `count` of both loops: its key and its body.
  unfoldable pub make_query : ℕ → KeyExpr × ZenohBody ZBuf
  make_query count = (KeyExpr.name "/test/query", query_body count)

  -- `MyMH::handle_message` of t_eval, with the option `payload`: the message that it sends.
  unfoldable pub eval_message : ℕ → ZenohBody ZBuf → Outcome (ZenohMessage ZBuf)
  unfolding zeroed
  eval_message payload (query_body qid) = do
    zeros ← zeroed payload
    done (record {
      key = KeyExpr.name "/test/query";
      body = data_body (from zeros) (some qid);
      channel = data_channel;
      congestion_control = block;
    })
  eval_message payload (data_body value reply_context) = panic invalid_message
  eval_message payload other_body = panic invalid_message

  -- `MyMH::handle_message` of t_query_thr, up to `barrier.wait()`.
  unfoldable pub handle_reply : ZenohBody ZBuf → Pending ℕ → Outcome (ℕ × Pending ℕ)
  handle_reply (data_body value reply_context) pending = do
    qid ← unwrap reply_context
    barrier ← unwrap (Pending.get qid pending)
    done (barrier, Pending.remove qid pending)
  handle_reply (query_body qid) pending = panic invalid_message
  handle_reply other_body pending = panic invalid_message

  -- `MyMH::handle_message` of t_query: the barrier that it waits at, and the line that it prints
  -- behind it, by the time then.
  unfoldable pub print_reply :
      Asker → ZenohBody ZBuf → Pending (ℕ × ℕ) → Outcome (ℕ × (ℕ → QueryLine) × Pending (ℕ × ℕ))
  print_reply mh (data_body value reply_context) pending = do
    qid ← unwrap reply_context
    (instant, barrier) ← unwrap (Pending.get qid pending)
    done (barrier, query_line "session" mh (len value) qid instant, Pending.remove qid pending)
  print_reply mh (query_body qid) pending = panic invalid_message
  print_reply mh other_body pending = panic invalid_message

  -- What t_eval replies to a query reaches the entry of that query in t_query_thr and no other: the
  -- handler waits at the barrier that the loop put into the map, and the other entries stay. The
  -- payload option of t_eval is one that Rust can allocate.
  reply_meets_query :
      (payload qid barrier : ℕ) (before : Pending ℕ)
      → payload < 2 ^ 63
      → (reply : ZenohMessage ZBuf) × (left : Pending ℕ) × (eval_message payload (make_query qid).1
          ≡ done reply)
        × (handle_reply reply.body (Pending.insert qid barrier before) ≡ done (barrier, left))
        × ((k : ℕ) → Pending.get k left ≡ (if qid == k then none else Pending.get k before))
  unfolding make_query eval_message handle_reply
  reply_meets_query payload qid barrier before fits = (
    record {
      key = KeyExpr.name "/test/query";
      body = data_body (from (replicate payload 0)) (some qid);
      channel = data_channel;
      congestion_control = block;
    },
    Pending.remove qid (Pending.insert qid barrier before),
    ground arith,
    ground (arith, get-insert qid qid barrier before),
    λ k. ground (
      arith,
      get-remove qid k (Pending.insert qid barrier before),
      get-insert qid k barrier before,
    ),
  )

  -- The line that t_query prints for a reply of t_eval has the payload option of t_eval, the number
  -- of the query and the time from when it was put into the map to the printing, and the handler waits
  -- at the barrier that is there. The payload option of t_eval is one that Rust can allocate.
  pub reply_printed :
      (mh : Asker) (payload qid barrier instant : ℕ) (before : Pending (ℕ × ℕ))
      → payload < 2 ^ 63
      → (reply : ZenohMessage ZBuf) × (left : Pending (ℕ × ℕ)) × (eval_message payload
            (make_query qid).1
          ≡ done reply)
        × (print_reply mh reply.body (Pending.insert qid (instant, barrier) before)
            ≡ done (barrier, query_line "session" mh payload qid instant, left))
  unfolding make_query eval_message print_reply
  reply_printed mh payload qid barrier instant before fits = (
    record {
      key = KeyExpr.name "/test/query";
      body = data_body (from (replicate payload 0)) (some qid);
      channel = data_channel;
      congestion_control = block;
    },
    Pending.remove qid (Pending.insert qid (instant, barrier) before),
    ground arith,
    ground (
      arith,
      get-insert qid qid (instant, barrier) before,
      len-from (replicate payload 0),
      length-replicate {A = ℕ} payload 0,
    ),
  )
