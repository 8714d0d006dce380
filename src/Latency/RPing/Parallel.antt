-- ===== src/Latency/RPing/Parallel.antt =====
-- r_ping.rs with `--parallel`.
use zenoh_perf.Base.{
  ℕ, ◌-◌, ◌^◌, ◌<◌, ◌≡◌, refl, Option, none, some, List, [], ◌∷◌, arith, Outcome, done, panic,
  unwrap, fill_buffer, ◌>>=◌,
}
use zenoh_perf.Bytes.{from_le_bytes}
use zenoh_perf.Pending
use zenoh_perf.Pending.{Pending}
use zenoh_perf.Duration.{is_duration}
use zenoh_perf.Proto.{
  ZBufIo, KeyExpr, data_channel, block, SendData, Call, decl_resource, decl_subscriber, send_data,
}
use zenoh_perf.Latency.Report.{Settings, Line, line_of}
use zenoh_perf.Latency.Payload.{tail_payload, ping_bytes, read_count}
use zenoh_perf.Latency.Parallel.{Action, insert_pending, send, sleep, advance, answer, PingTool}
use zenoh_perf.Latency.RPing.{Opt, settings, key_expr_ping, key_expr_pong}

module _ (io : ZBufIo) where
  open io use {ZBuf, from, len, reader_exact}

  abbrev pub pong_line : Settings → ℕ → ℕ → ℕ → Line
  pong_line = line_of "router" "latency.parallel"

  -- `LatencyPrimitivesParallel::send_data` at the time `now`.
  unfoldable pub on_send_data :
      Settings → SendData ZBuf → ℕ → Pending ℕ → Outcome (Line × Pending ℕ)
  on_send_data rx sent now pending = elim (reader_exact 8 sent.payload) [
    | none ↦ panic fill_buffer
    | some (count_bytes, rest) ↦ do
      let count = from_le_bytes count_bytes
      instant ← unwrap (Pending.get count pending)
      done (pong_line rx (len sent.payload) count (now - instant), Pending.remove count pending)
  ]

  -- `LatencyPrimitivesParallel`: every other callback is empty.
  unfoldable pub on_call : Settings → Call ZBuf → ℕ → Pending ℕ → Outcome (Option Line × Pending ℕ)
  unfolding on_send_data
  on_call rx (send_data sent) now pending = do
    (line, left) ← on_send_data rx sent now pending
    done (some line, left)
  on_call rx call now pending = done (none, pending)

  -- What `parallel` declares before its loop, in order.
  abbrev pub declarations : List (Call ZBuf)
  declarations =
      decl_resource 1 (KeyExpr.name key_expr_pong)
      ∷ decl_subscriber (KeyExpr.id 1)
      ∷ decl_resource 2 (KeyExpr.name key_expr_ping)
      ∷ []

  unfoldable pub make_call : List ℕ → ℕ → SendData ZBuf
  unfolding ping_bytes
  make_call payload count = record {
    key_expr = KeyExpr.id 2;
    payload = from (ping_bytes payload count);
    channel = data_channel;
    congestion_control = block;
  }

  unfoldable pub parallel_round : ℕ → List ℕ → ℕ → Outcome (List (Action (SendData ZBuf)))
  parallel_round interval payload count = done (
      insert_pending count
      ∷ send (make_call payload count)
      ∷ sleep (is_duration interval)
      ∷ advance
      ∷ [])

  pub parallel_round-eq :
      (interval : ℕ) (payload : List ℕ) (k : ℕ)
      → parallel_round interval payload k
        ≡ done (
            insert_pending k
            ∷ send (make_call payload k)
            ∷ sleep (is_duration interval)
            ∷ advance
            ∷ [])
  unfolding parallel_round
  parallel_round-eq interval payload k = refl

  -- What the callback makes of a payload that the pong program sent back.
  pub on_send_data-make_call :
      (rx : Settings) (payload : List ℕ) (count now : ℕ) (p : Pending ℕ)
      → count < 2 ^ 64
      → on_send_data rx (make_call payload count) now p
        ≡ answer (pong_line rx (len (from (ping_bytes payload count))) count) count now p
  unfolding on_send_data make_call
  on_send_data-make_call rx payload count now p h =
      let (bytes, e, c) = read_count io count payload h in ground (arith, e, c)

  abbrev pub tool : Settings → List ℕ → PingTool
  tool rx payload = record {
    Message = SendData ZBuf;
    lasts = is_duration rx.interval;
    make = make_call payload;
    round = parallel_round rx.interval payload;
    receive = on_send_data rx;
    line = λ count. pong_line rx (len (from (ping_bytes payload count))) count;
    line-count = λ k micros. refl;
    round-eq = parallel_round-eq rx.interval payload;
    receive-make = λ k now p. on_send_data-make_call rx payload k now p;
  }

  -- `parallel`, up to its loop.
  unfoldable pub parallel : Opt → Outcome PingTool
  unfolding tail_payload settings
  parallel opt = do payload ← tail_payload opt.payload; done (tool (settings opt) payload)
