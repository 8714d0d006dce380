-- ===== src/Latency/RPing/Single.antt =====
-- r_ping.rs without `--parallel`.
use zenoh_perf.Base.{
  ℕ, ◌^◌, ◌<◌, ◌≡◌, refl, Option, none, some, List, [], ◌∷◌, arith, length, Outcome, done, panic,
  unwrap, fill_buffer, ◌>>=◌,
}
use zenoh_perf.Bytes.{from_le_bytes}
use zenoh_perf.Pending
use zenoh_perf.Pending.{Pending}
use zenoh_perf.Duration.{is_duration}
use zenoh_perf.Proto.{ZBufIo, SendData, Call, send_data}
use zenoh_perf.Latency.Report.{Settings, Line, line_of}
use zenoh_perf.Latency.Payload.{tail_payload, read_count}
use zenoh_perf.Latency.Sequential.{
  Action, insert_barrier, stamp, send, wait, print, sleep, advance, answer, PingTool,
}
use zenoh_perf.Latency.RPing.{Opt, settings}
use zenoh_perf.Latency.RPing.Parallel.{make_call}

module _ (io : ZBufIo) where
  open io use {ZBuf, from, len, reader_exact}

  -- `LatencyPrimitivesSequential::send_data`, up to `barrier.wait()`.
  unfoldable pub on_send_data : SendData ZBuf → Pending ℕ → Outcome (ℕ × Pending ℕ)
  on_send_data sent pending = elim (reader_exact 8 sent.payload) [
    | none ↦ panic fill_buffer
    | some (count_bytes, rest) ↦ do
      let count = from_le_bytes count_bytes
      barrier ← unwrap (Pending.get count pending)
      done (barrier, Pending.remove count pending)
  ]

  -- `LatencyPrimitivesSequential`: every other callback is empty.
  unfoldable pub on_call : Call ZBuf → Pending ℕ → Outcome (Option ℕ × Pending ℕ)
  unfolding on_send_data
  on_call (send_data sent) pending = do
    (barrier, left) ← on_send_data sent pending
    done (some barrier, left)
  on_call call pending = done (none, pending)

  -- The line printed after the barrier: `payload.len()` is the length of the zeros alone.
  unfoldable pub single_line : Settings → List ℕ → ℕ → ℕ → Line
  single_line s payload = line_of "router" "latency.sequential" s (length payload)

  -- One turn of the loop of `single`, `payload` being the zeros made before it; the duration of the
  -- sleep is made in it.
  unfoldable pub single_round : ℕ → List ℕ → ℕ → List (Action (SendData ZBuf))
  single_round interval payload count =
      insert_barrier count
      ∷ stamp
      ∷ send (make_call io payload count)
      ∷ wait
      ∷ print count
      ∷ sleep (is_duration interval)
      ∷ advance
      ∷ []

  pub single_round-eq :
      (interval : ℕ) (payload : List ℕ) (k : ℕ)
      → single_round interval payload k
        ≡ insert_barrier k
          ∷ stamp
          ∷ send (make_call io payload k)
          ∷ wait
          ∷ print k
          ∷ sleep (is_duration interval)
          ∷ advance
          ∷ []
  unfolding single_round
  single_round-eq interval payload k = refl

  pub on_send_data-make_call :
      (payload : List ℕ) (count : ℕ) (p : Pending ℕ)
      → count < 2 ^ 64
      → on_send_data (make_call io payload count) p ≡ answer count p
  unfolding on_send_data make_call
  on_send_data-make_call payload count p h =
      let (bytes, e, c) = read_count io count payload h in ground (arith, e, c)

  pub single_line-count :
      (s : Settings) (payload : List ℕ) (k micros : ℕ) → (single_line s payload k micros).count ≡ k
  unfolding single_line
  single_line-count s payload k micros = refl

  abbrev pub tool : Settings → List ℕ → PingTool
  tool s payload = record {
    Message = SendData ZBuf;
    make = make_call io payload;
    Printed = Line;
    sleeps = some (is_duration s.interval);
    count_of = λ l. l.count;
    round = single_round s.interval payload;
    receive = on_send_data;
    line = single_line s payload;
    line-count = single_line-count s payload;
    round-eq = single_round-eq s.interval payload;
    receive-make = on_send_data-make_call payload;
  }

  -- `single`, up to its loop.
  unfoldable pub single : Opt → Outcome PingTool
  unfolding tail_payload settings
  single opt = do payload ← tail_payload opt.payload; done (tool (settings opt) payload)
