-- ===== src/Latency/TPing.antt =====
-- latency/src/bin/t_ping.rs: a ping over zenoh's transport layer.
pub mod Parallel
pub mod Single
use zenoh_perf.Base.{ℕ, Bool, String}
use zenoh_perf.Latency.Report.{Settings}

-- `struct Opt`; `interval` is the bit pattern of the `f64`.
pub record Opt : Type 0 where
  pub endpoint : String
  pub mode : String
  pub payload : ℕ
  pub name : String
  pub scenario : String
  pub interval : ℕ
  pub parallel : Bool

-- `MySHParallel::new(opt.scenario, opt.name, opt.interval, pending)`. The shared map is passed
-- along by itself.
unfoldable pub settings : Opt → Settings
settings opt = record { scenario = opt.scenario; name = opt.name; interval = opt.interval }
