-- ===== src/Latency/Programs.antt =====
-- `main` of t_ping.rs, t_pong.rs, t_pub_delay.rs and t_sub_delay.rs in latency/src/bin, from the options
-- on. The transports come from zenoh's manager, and a transport of t_pub_delay takes every message.
pub mod Starting
pub mod Delays
use zenoh_perf.Base.{
  ℕ, ◌+◌, ◌-◌, ◌*◌, ◌%◌, ◌^◌, ◌≤◌, ◌<◌, ◌≡◌, refl, Bool, true, false, String, List, [], ◌∷◌, map,
  arith, leb, ltb, ◌==◌, ◌&&◌, ◌||◌, if◌then◌else◌, length, replicate, length-replicate, Outcome,
  done, panic, capacity_overflow, no_duration, require, ◌>>=◌, ◌>>◌,
}
use zenoh_perf.Proto.{ZBufIo, ZenohMessage}
use zenoh_perf.Duration.{is_duration, from_secs_f64}
use zenoh_perf.Startup.Manager
use zenoh_perf.Startup.Manager.{ManagerLib, Started}
use zenoh_perf.Latency.Payload.{tail_payload, tail_payload_cases, ping_bytes, length-ping_bytes}
use zenoh_perf.Latency.Delay.{stamped_message}
use zenoh_perf.Latency.TPing
use zenoh_perf.Latency.TPing.Parallel.{parallel}
use zenoh_perf.Latency.TPing.Single.{single, single_line}
use zenoh_perf.Latency.Parallel
use zenoh_perf.Latency.Sequential

-- `struct Opt` of t_pong and of t_sub_delay.
pub record PongOpt : Type 0 where
  pub endpoint : String
  pub mode : String

-- `struct Opt` of t_pub_delay; `interval` is the bit pattern of the `f64`.
pub record PubDelayOpt : Type 0 where
  pub endpoint : String
  pub mode : String
  pub payload : ℕ
  pub interval : ℕ

-- The messages that t_pub_delay has sent, and how its loop stands.
pub record Publishing (M : Type 0) : Type 0 where
  pub sent : List M
  pub ended : Outcome (Unit {0})

-- The loop that t_ping has come to.
pub data Looping : Type 1 where
  non_blocking : Parallel.PingTool → Looping
  blocking : Sequential.PingTool → Looping

module _ (io : ZBufIo) where
  open io use {ZBuf}

  -- `parallel` or `single` of t_ping, up to the loop.
  unfoldable pub t_ping_loop : TPing.Opt → Outcome Looping
  unfolding parallel single
  t_ping_loop opt =
      if opt.parallel
      then (do tool ← parallel io opt; done (non_blocking tool))
      else do tool ← single io opt; done (blocking tool)

  -- The loop of t_pub_delay, a turn for each system time; it sleeps
  -- behind the message.
  unfoldable pub t_pub_delay_loop : PubDelayOpt → ℕ → List ℕ → Publishing (ZenohMessage ZBuf)
  unfolding from_secs_f64
  t_pub_delay_loop opt count [] = record { sent = []; ended = done tt }
  t_pub_delay_loop opt count (now ∷ nows) =
      let later = t_pub_delay_loop opt ((count + 1) % 2 ^ 64) nows in
      elim (stamped_message io opt.payload count now) [
        | panic e ↦ record { sent = []; ended = panic e }
        | done message ↦ elim (from_secs_f64 opt.interval) [
          | panic e ↦ record { sent = message ∷ []; ended = panic e }
          | done slept ↦ record { sent = message ∷ later.sent; ended = later.ended }
        ]
      ]

module _ {E T : Type 0} (lib : ManagerLib E T) where
  unfoldable pub t_pong_main : PongOpt → Manager.Start lib
  unfolding Manager.t_pong
  t_pong_main opt = Manager.t_pong lib opt.mode opt.endpoint

  unfoldable pub t_sub_delay_main : PongOpt → Manager.Start lib
  unfolding Manager.t_sub_delay
  t_sub_delay_main opt = Manager.t_sub_delay lib opt.mode opt.endpoint

  module _ (io : ZBufIo) where
    open io use {ZBuf, from, len-from}

    -- `main` of t_ping up to its loop; the interval is looked at once the transport is opened.
    unfoldable pub t_ping_main : TPing.Opt → Outcome (Started lib.Manager E T × Looping)
    unfolding Manager.t_ping from_secs_f64 t_ping_loop
    t_ping_main opt = do
      started ← Manager.t_ping lib opt.mode opt.endpoint
      from_secs_f64 opt.interval
      loop ← t_ping_loop io opt
      done (started, loop)

    -- `main` of t_pub_delay, with so many turns.
    unfoldable pub t_pub_delay_main :
        PubDelayOpt → List ℕ → Outcome (Started lib.Manager E T × Publishing (ZenohMessage ZBuf))
    unfolding Manager.t_pub_delay t_pub_delay_loop
    t_pub_delay_main opt nows = do
      started ← Manager.t_pub_delay lib opt.mode opt.endpoint
      done (started, t_pub_delay_loop io opt 0 nows)
