-- ===== src/Latency/RPing.antt =====
-- latency/src/bin/r_ping.rs: a ping over zenoh's router, by the callbacks of `Primitives`.
pub mod Parallel
pub mod Single
use zenoh_perf.Base.{ℕ, Bool, String}
use zenoh_perf.Latency.Report.{Settings}

pub record Opt : Type 0 where
  pub endpoint : String
  pub mode : String
  pub payload : ℕ
  pub name : String
  pub scenario : String
  pub interval : ℕ
  pub parallel : Bool

abbrev pub key_expr_ping : String
key_expr_ping = "/test/ping"

abbrev pub key_expr_pong : String
key_expr_pong = "/test/pong"

-- `LatencyPrimitivesParallel::new(opt.scenario, opt.name, opt.interval, pending)`.
unfoldable pub settings : Opt → Settings
settings opt = record { scenario = opt.scenario; name = opt.name; interval = opt.interval }
