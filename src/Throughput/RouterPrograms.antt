-- ===== src/Throughput/RouterPrograms.antt =====
-- `main` of r_pub_thr.rs and of r_sub_thr.rs in throughput/src/bin, from the options on. The runtime is
-- zenoh's: it hands over the calls on the subscriber's primitives, at any time between its seconds.
pub mod Counted
use zenoh_perf.Base.{
  ℕ, ◌+◌, ◌%◌, ◌^◌, ◌<◌, ◌≡◌, refl, ap, ◌∙◌, String, Option, some, List, [], ◌∷◌, ◌++◌, map, arith,
  Bool, false, if◌then◌else◌, length, length-map, length-replicate, replicate, Outcome, done, ◌>>=◌,
}
use zenoh_perf.Proto.{ZBufIo, WhatAmI, router, peer, client, Call}
use zenoh_perf.Startup.{Config, base_config, pub_config, r_sub_config}
use zenoh_perf.Startup.Meeting.{pub_config-base, r_sub_config-serving, Serves}
use zenoh_perf.Throughput.Counter.{Counter, fresh}
use zenoh_perf.Throughput.Callbacks.{on_call, on_call-eq}
use zenoh_perf.Throughput.Session.{r_pub_thr, sub_declarations, published_counted}
use zenoh_perf.Throughput.Rate.{Float64}
use zenoh_perf.Throughput.Monitor.{
  Labels, MonitorEvent, add, second, Monitored, at_start, monitor, r_sub_monitor, run_monitor,
  added, rates, Exact, rates_conserved,
}

-- `Opt` of r_pub_thr; its endpoints, its mode and the path of its file are what clap has read.
pub record PubOpt (E F : Type 0) : Type 0 where
  pub endpoint : List E
  pub mode : WhatAmI
  pub payload : ℕ
  pub print : Bool
  pub config : Option F

-- `Opt` of r_sub_thr
pub record SubOpt (E F : Type 0) : Type 0 where
  pub endpoint : List E
  pub mode : WhatAmI
  pub payload : ℕ
  pub name : String
  pub scenario : String
  pub config : Option F

-- What happens to r_sub_thr: a callback, or the end of a second that took so many micros.
pub data SubEvent (B : Type 0) : Type 0 where
  call : Call B → SubEvent B
  second_ends : (elapsed : ℕ) → SubEvent B

abbrev pub labels_of : {E F : Type 0} → SubOpt E F → Labels
labels_of opt = record { scenario = opt.scenario; name = opt.name; payload = opt.payload }

module _ (float : Float64) where
  -- The callbacks and the loop of `main`, on the counter that they share.
  unfoldable pub r_sub_loop : {B : Type 0} → Labels → List (SubEvent B) → Monitored → Monitored
  unfolding on_call
  r_sub_loop labels [] s = s
  r_sub_loop labels (call c ∷ es) s =
      r_sub_loop labels es
        (record s { count = (on_call c (record fresh { count = s.count })).count })
  r_sub_loop labels (second_ends elapsed ∷ es) s =
      r_sub_loop labels es (r_sub_monitor float labels elapsed s)

module _ {E F : Type 0} (from_file : F → Option (Config E)) (default : Config E) (io : ZBufIo) where
  open io use {ZBuf}

  -- `main` of r_pub_thr after so many turns: its configuration, its calls, and its counter.
  unfoldable pub r_pub_main : PubOpt E F → ℕ → Outcome (Config E × List (Call ZBuf) × Counter)
  unfolding pub_config r_pub_thr
  r_pub_main opt turns = do
    config ← pub_config from_file default opt.mode opt.endpoint opt.config
    (calls, counter) ← r_pub_thr io opt.print opt.payload turns
    done (config, calls, counter)

  -- `main` of r_sub_thr when these events have happened: its configuration, its calls, the counter and
  -- the lines.
  unfoldable pub r_sub_main :
      Float64
      → SubOpt E F
      → List (SubEvent ZBuf)
      → Outcome (Config E × List (Call ZBuf) × Monitored)
  unfolding r_sub_config r_sub_loop
  r_sub_main float opt events = do
    config ← r_sub_config from_file default opt.mode opt.endpoint opt.config
    done (config, sub_declarations io, r_sub_loop float (labels_of opt) events at_start)
