-- ===== src/Latency/TPing/Parallel.antt =====
-- t_ping.rs with `--parallel`.
use zenoh_perf.Base.{
  true, ℕ, ◌-◌, ◌^◌, ◌<◌, ◌≡◌, refl, none, some, List, [], ◌∷◌, arith, Outcome, done, panic, unwrap,
  fill_buffer, invalid_message, multicast, ◌>>=◌,
}
use zenoh_perf.Bytes.{from_le_bytes}
use zenoh_perf.Pending
use zenoh_perf.Pending.{Pending}
use zenoh_perf.Proto.{
  ZBufIo, ZenohBody, data_body, query_body, other_body, ZenohMessage, KeyExpr, data_channel, block,
}
use zenoh_perf.Latency.Report.{Settings, Line, line_of}
use zenoh_perf.Latency.Payload.{tail_payload, ping_bytes, read_count}
use zenoh_perf.Latency.Parallel.{Action, insert_pending, send, sleep, advance, answer, PingTool}
use zenoh_perf.Latency.TPing.{Opt, settings}

-- `MySHParallel::new_unicast` hands its fields and the same map to each `MyMHParallel`.
unfoldable pub new_unicast : Settings → Outcome Settings
new_unicast sh = done (record { scenario = sh.scenario; name = sh.name; interval = sh.interval })

unfoldable pub new_multicast : Settings → Outcome Settings
new_multicast sh = panic multicast

module _ (io : ZBufIo) where
  open io use {ZBuf, from, len, reader_exact, len-from}

  abbrev pub pong_line : Settings → ℕ → ℕ → ℕ → Line
  pong_line = line_of "session" "latency.parallel"

  -- `MyMHParallel::handle_message` at the time `now`.
  unfoldable pub handle_message :
      Settings → ZenohBody ZBuf → ℕ → Pending ℕ → Outcome (Line × Pending ℕ)
  handle_message mh (data_body payload reply_context) now pending = elim (reader_exact 8 payload) [
    | none ↦ panic fill_buffer
    | some (count_bytes, rest) ↦ do
      let count = from_le_bytes count_bytes
      instant ← unwrap (Pending.get count pending)
      done (pong_line mh (len payload) count (now - instant), Pending.remove count pending)
  ]
  handle_message mh (query_body qid) now pending = panic invalid_message
  handle_message mh other_body now pending = panic invalid_message

  unfoldable pub make_message : List ℕ → ℕ → ZenohMessage ZBuf
  unfolding ping_bytes
  make_message payload count = record {
    key = KeyExpr.name "/test/ping";
    body = data_body (from (ping_bytes payload count)) none;
    channel = data_channel;
    congestion_control = block;
  }

  -- One turn of the loop of `parallel`, `payload` being the zeros made before it.
  unfoldable pub parallel_round : List ℕ → ℕ → Outcome (List (Action (ZenohMessage ZBuf)))
  parallel_round payload count =
      done (insert_pending count ∷ send (make_message payload count) ∷ sleep true ∷ advance ∷ [])

  pub parallel_round-eq :
      (payload : List ℕ) (k : ℕ)
      → parallel_round payload k
        ≡ done (insert_pending k ∷ send (make_message payload k) ∷ sleep true ∷ advance ∷ [])
  unfolding parallel_round
  parallel_round-eq payload k = refl

  -- What the handler makes of a message that the peer reflected.
  pub handle_message-make_message :
      (mh : Settings) (payload : List ℕ) (count now : ℕ) (p : Pending ℕ)
      → count < 2 ^ 64
      → handle_message mh (make_message payload count).body now p
        ≡ answer (pong_line mh (len (from (ping_bytes payload count))) count) count now p
  unfolding handle_message make_message
  handle_message-make_message mh payload count now p h =
      let (bytes, e, c) = read_count io count payload h in ground (arith, e, c)

  abbrev pub tool : Settings → List ℕ → PingTool
  tool mh payload = record {
    Message = ZenohMessage ZBuf;
    lasts = true;
    make = make_message payload;
    round = parallel_round payload;
    receive = λ m. handle_message mh m.body;
    line = λ count. pong_line mh (len (from (ping_bytes payload count))) count;
    line-count = λ k micros. refl;
    round-eq = parallel_round-eq payload;
    receive-make = λ k now p. handle_message-make_message mh payload k now p;
  }

  -- `parallel`, up to its loop.
  unfoldable pub parallel : Opt → Outcome PingTool
  unfolding tail_payload settings
  parallel opt = do payload ← tail_payload opt.payload; done (tool (settings opt) payload)
