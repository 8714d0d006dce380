-- ===== src/Latency/TPing/Single.antt =====
-- t_ping.rs without `--parallel`.
use zenoh_perf.Base.{
  ℕ, ◌^◌, ◌<◌, ◌≡◌, refl, true, none, some, List, [], ◌∷◌, arith, length, Outcome, done, panic,
  unwrap, fill_buffer, invalid_message, ◌>>=◌,
}
use zenoh_perf.Bytes.{from_le_bytes}
use zenoh_perf.Pending
use zenoh_perf.Pending.{Pending}
use zenoh_perf.Proto.{ZBufIo, ZenohBody, data_body, query_body, other_body, ZenohMessage}
use zenoh_perf.Latency.Report.{Settings, Line, line_of}
use zenoh_perf.Latency.Payload.{tail_payload, read_count}
use zenoh_perf.Latency.Sequential.{
  Action, insert_barrier, stamp, send, wait, print, sleep, advance, answer, PingTool,
}
use zenoh_perf.Latency.TPing.{Opt, settings}
use zenoh_perf.Latency.TPing.Parallel.{make_message}

module _ (io : ZBufIo) where
  open io use {ZBuf, from, len, reader_exact}

  -- `MyMHSequential::handle_message`, up to `barrier.wait()`.
  unfoldable pub handle_message : ZenohBody ZBuf → Pending ℕ → Outcome (ℕ × Pending ℕ)
  handle_message (data_body payload reply_context) pending = elim (reader_exact 8 payload) [
    | none ↦ panic fill_buffer
    | some (count_bytes, rest) ↦ do
      let count = from_le_bytes count_bytes
      barrier ← unwrap (Pending.get count pending)
      done (barrier, Pending.remove count pending)
  ]
  handle_message (query_body qid) pending = panic invalid_message
  handle_message other_body pending = panic invalid_message

  -- The line printed after the barrier: `payload.len()` is the length of the zeros alone.
  unfoldable pub single_line : Settings → List ℕ → ℕ → ℕ → Line
  single_line s payload = line_of "session" "latency.sequential" s (length payload)

  -- One turn of the loop of `single`, `payload` being the zeros made before it, and so the duration
  -- of the sleep.
  unfoldable pub single_round : List ℕ → ℕ → List (Action (ZenohMessage ZBuf))
  single_round payload count =
      insert_barrier count
      ∷ stamp
      ∷ send (make_message io payload count)
      ∷ wait
      ∷ print count
      ∷ sleep true
      ∷ advance
      ∷ []

  pub single_round-eq :
      (payload : List ℕ) (k : ℕ)
      → single_round payload k
        ≡ insert_barrier k
          ∷ stamp
          ∷ send (make_message io payload k)
          ∷ wait
          ∷ print k
          ∷ sleep true
          ∷ advance
          ∷ []
  unfolding single_round
  single_round-eq payload k = refl

  pub handle_message-make_message :
      (payload : List ℕ) (count : ℕ) (p : Pending ℕ)
      → count < 2 ^ 64
      → handle_message (make_message io payload count).body p ≡ answer count p
  unfolding handle_message make_message
  handle_message-make_message payload count p h =
      let (bytes, e, c) = read_count io count payload h in ground (arith, e, c)

  pub single_line-count :
      (s : Settings) (payload : List ℕ) (k micros : ℕ) → (single_line s payload k micros).count ≡ k
  unfolding single_line
  single_line-count s payload k micros = refl

  abbrev pub tool : Settings → List ℕ → PingTool
  tool s payload = record {
    Message = ZenohMessage ZBuf;
    make = make_message io payload;
    Printed = Line;
    sleeps = some true;
    count_of = λ l. l.count;
    round = single_round payload;
    receive = λ m. handle_message m.body;
    line = single_line s payload;
    line-count = single_line-count s payload;
    round-eq = single_round-eq payload;
    receive-make = handle_message-make_message payload;
  }

  -- `single`, up to its loop.
  unfoldable pub single : Opt → Outcome PingTool
  unfolding tail_payload settings
  single opt = do payload ← tail_payload opt.payload; done (tool (settings opt) payload)
