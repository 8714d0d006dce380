-- ===== src/Latency/ZPing.antt =====
-- latency/src/bin/z_ping.rs: a ping over a zenoh session.
use zenoh_perf.Base.{
  ℕ, ◌-◌, ◌^◌, ◌≤◌, ◌<◌, ◌≡◌, refl, Bool, String, Option, none, some, List, [], ◌∷◌, ◌++◌, arith,
  leb, replicate, if◌then◌else◌, Outcome, done, panic, unwrap, fill_buffer, invalid_value,
  slice_range, ◌>>=◌, length-replicate, drop-replicate, length-append,
}
use zenoh_perf.Bytes.{from_le_bytes, to_le_bytes, copy_from_slice, length-to_le_bytes}
use zenoh_perf.Pending
use zenoh_perf.Pending.{Pending}
use zenoh_perf.Duration.{is_duration}
use zenoh_perf.Proto.{ZBufIo}
use zenoh_perf.Latency.Report.{Settings, Line, line_of, zeroed}
use zenoh_perf.Latency.Payload.{read_count}
use zenoh_perf.Latency.Parallel.{Action, insert_pending, send, sleep, advance, answer, PingTool}
use zenoh_perf.Latency.Session.{Keys, set_up}

pub record Opt : Type 0 where
  pub endpoint : Option String
  pub mode : String
  pub payload : ℕ
  pub name : String
  pub scenario : String
  pub interval : ℕ
  pub parallel : Bool
  pub use_expr : Bool
  pub declare_publication : Bool

abbrev pub key_expr_ping : String
key_expr_ping = "/test/z_ping"

abbrev pub key_expr_pong : String
key_expr_pong = "/test/z_pong"

unfoldable pub settings : Opt → Settings
settings opt = record { scenario = opt.scenario; name = opt.name; interval = opt.interval }

-- What `parallel` declares before its loop.
unfoldable pub parallel_keys : ℕ → ℕ → Opt → Keys
unfolding set_up
parallel_keys pong_id ping_id opt =
    set_up pong_id ping_id opt.use_expr opt.declare_publication key_expr_pong key_expr_ping

-- What `single` declares before its loop: the names are written out there.
unfoldable pub single_keys : ℕ → ℕ → Opt → Keys
unfolding set_up
single_keys pong_id ping_id opt =
    set_up pong_id ping_id opt.use_expr opt.declare_publication "/test/pong" "/test/ping"

-- `let mut payload = vec![0u8; opt.payload]; payload[0..8].copy_from_slice(&count_bytes);`
unfoldable pub ping_payload : ℕ → ℕ → Outcome (List ℕ)
unfolding zeroed copy_from_slice
ping_payload size count = do payload ← zeroed size; copy_from_slice 0 (to_le_bytes 8 count) payload

-- A payload option from 8 bytes up to Rust's limit gives the count and zeros up to that size; a
-- smaller one panics at the slice.
pub ping_payload_cases :
    (size count : ℕ)
    → size < 2 ^ 63
    → ping_payload size count ≡ (
        if leb 8 size
        then done (to_le_bytes 8 count ++ replicate (size - 8) 0)
        else panic slice_range)
unfolding ping_payload
ping_payload_cases size count h = ground (
  arith,
  drop-replicate {A = ℕ} 8 size 0,
  length-to_le_bytes 8 count,
  length-replicate {A = ℕ} size 0,
)

module _ (io : ZBufIo) where
  open io use {ZBuf, from, len, reader_exact}

  abbrev pub pong_line : String → Settings → ℕ → ℕ → ℕ → Line
  pong_line = line_of "zenoh"

  -- The task of `parallel` on one sample, at the time `now`.
  unfoldable pub receive : Settings → ZBuf → ℕ → Pending ℕ → Outcome (Line × Pending ℕ)
  receive sh payload now pending = elim (reader_exact 8 payload) [
    | none ↦ panic fill_buffer
    | some (count_bytes, rest) ↦ do
      let count = from_le_bytes count_bytes
      instant ← unwrap (Pending.get count pending)
      done (
        pong_line "latency.parallel" sh (len payload) count (now - instant),
        Pending.remove count pending,
      )
  ]

  -- One turn of the loop of `parallel`.
  unfoldable pub parallel_round : ℕ → ℕ → ℕ → Outcome (List (Action ZBuf))
  unfolding ping_payload
  parallel_round interval size count = do
    payload ← ping_payload size count
    done (insert_pending count ∷ send (from payload) ∷ sleep (is_duration interval) ∷ advance ∷ [])

  abbrev pub ping : ℕ → ℕ → ZBuf
  ping size count = from (to_le_bytes 8 count ++ replicate (size - 8) 0)

  pub receive-ping :
      (sh : Settings) (size count now : ℕ) (p : Pending ℕ)
      → count < 2 ^ 64
      → receive sh (ping size count) now p
        ≡ answer (pong_line "latency.parallel" sh (len (ping size count)) count) count now p
  unfolding receive
  receive-ping sh size count now p h =
      let (bytes, e, c) = read_count io count (replicate (size - 8) 0) h in ground (arith, e, c)

  pub parallel_round-eq :
      (interval size : ℕ)
      → 8 ≤ size
      → size < 2 ^ 63
      → (k : ℕ)
      → parallel_round interval size k
        ≡ done (insert_pending k ∷ send (ping size k) ∷ sleep (is_duration interval) ∷ advance ∷ [])
  unfolding parallel_round
  parallel_round-eq interval size lo hi k = ground (arith, ping_payload_cases size k hi)

  -- `parallel` with a payload that holds the count and that Rust can allocate.
  abbrev pub tool : Settings → (size : ℕ) → 8 ≤ size → size < 2 ^ 63 → PingTool
  tool sh size lo hi = record {
    Message = ZBuf;
    lasts = is_duration sh.interval;
    make = ping size;
    round = parallel_round sh.interval size;
    receive = receive sh;
    line = λ count. pong_line "latency.parallel" sh (len (ping size count)) count;
    line-count = λ k micros. refl;
    round-eq = parallel_round-eq sh.interval size lo hi;
    receive-make = λ k now p. receive-ping sh size k now p;
  }

  -- What follows `sub.next().await` in a turn of the loop of `single`, `elapsed` after the put.
  unfoldable pub single_reply : Settings → Option ZBuf → ℕ → Outcome Line
  single_reply sh none elapsed = panic invalid_value
  single_reply sh (some payload) elapsed = elim (reader_exact 8 payload) [
    | none ↦ panic fill_buffer
    | some (count_bytes, rest) ↦
        done (pong_line "latency.sequential" sh (len payload) (from_le_bytes count_bytes) elapsed)
  ]

  -- A turn of the loop of `single`: the payload that is put, and the line that is printed. `peer`
  -- is what the subscriber yields next, once that payload is put.
  unfoldable pub single_round : Opt → (ZBuf → Option ZBuf) → ℕ → ℕ → Outcome (ZBuf × Line)
  unfolding ping_payload single_reply settings
  single_round opt peer count elapsed = do
    payload ← ping_payload opt.payload count
    line ← single_reply (settings opt) (peer (from payload)) elapsed
    done (from payload, line)

  -- Against a peer that reflects what is put, a turn prints the count of its own ping and the
  -- payload option, whenever that option is at least 8 bytes and can be allocated.
  pub single_round_reflected :
      (opt : Opt) (count elapsed : ℕ)
      → 8 ≤ opt.payload
      → opt.payload < 2 ^ 63
      → count < 2 ^ 64
      → single_round opt some count elapsed
        ≡ done (
          ping opt.payload count,
          pong_line "latency.sequential" (settings opt) opt.payload count elapsed,
        )
  unfolding single_round single_reply
  single_round_reflected opt count elapsed lo hi h =
      let tail : List ℕ = replicate (opt.payload - 8) 0 in
      let (bytes, e, c) = read_count io count tail h in
      ground (
        arith,
        ping_payload_cases opt.payload count hi,
        e,
        c,
        io.len-from (to_le_bytes 8 count ++ tail),
        length-append (to_le_bytes 8 count) tail,
        length-to_le_bytes 8 count,
        length-replicate {A = ℕ} (opt.payload - 8) 0,
      )
