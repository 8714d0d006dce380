-- ===== src/Throughput/TransportPrograms.antt =====
-- `main` of t_pub_thr.rs, t_sub_thr.rs and t_pubsub_thr.rs in throughput/src/bin, from their `Opt` on.
-- The events of t_sub_thr are what its manager calls and the seconds of its monitoring tasks.
pub mod Counted
pub mod Meeting
pub mod Routed
use zenoh_perf.Base.{
  ℕ, zero, suc, ◌+◌, ◌%◌, ◌^◌, Bool, true, false, not, String, Option, none, some, List, [], ◌∷◌,
  if◌then◌else◌, Outcome, done, ◌>>=◌,
}
use zenoh_perf.Proto.{ZBufIo, WhatAmI, ZenohMessage}
use zenoh_perf.Startup.Manager.{ManagerLib, Started, t_sub_thr}
use zenoh_perf.Throughput.Rate.{Float64}
use zenoh_perf.Throughput.Monitor.{Labels, Monitored, at_start, t_sub_monitor}
use zenoh_perf.Throughput.Counter.{tick_always}
use zenoh_perf.Throughput.Subscriber.{MySh, new_sh, TransportEvent, run_transport}
use zenoh_perf.Throughput.Programs.{Loop, t_pub_thr_main, t_pubsub_thr_main}

-- `struct Opt` of t_pub_thr; clap has read its endpoints, its mode and the path of its file.
pub record TPubOpt (E F : Type 0) : Type 0 where
  pub endpoint : List E
  pub mode : WhatAmI
  pub payload : ℕ
  pub print : Bool
  pub config : Option F

-- `struct Opt` of t_sub_thr
pub record TSubOpt (E F : Type 0) : Type 0 where
  pub endpoint : List E
  pub mode : WhatAmI
  pub payload : ℕ
  pub name : String
  pub scenario : String
  pub config : Option F

-- `struct Opt` of t_pubsub_thr
pub record TPubsubOpt (E F : Type 0) : Type 0 where
  pub listen : List E
  pub connect : List E
  pub mode : WhatAmI
  pub payload : ℕ
  pub name : String
  pub scenario : String
  pub print : Bool
  pub config : Option F

-- `MySH`: its labels and its flag, how many tasks it has spawned, the counter, and their lines.
pub record Handling : Type 0 where
  pub labels : Labels
  pub active : Bool
  pub tasks : ℕ
  pub seen : Monitored

-- `MySH::new(scenario, name, payload, count)`
unfoldable pub new_sub : {E F : Type 0} → TSubOpt E F → Handling
new_sub opt = record {
  labels = record { scenario = opt.scenario; name = opt.name; payload = opt.payload };
  active = false;
  tasks = 0;
  seen = at_start;
}

pub data ThrEvent (M : Type 0) : Type 0 where
  connects : ThrEvent M
  receives : M → ThrEvent M
  second_ends : (elapsed : ℕ) → ThrEvent M

-- `MySH::new_unicast`
unfoldable pub on_unicast : Handling → Handling
on_unicast sh =
    if not sh.active
    then record sh { active = true; tasks = sh.tasks + 1 }
    else record sh { active = true }

-- `MyMH::handle_message`
unfoldable pub on_message : {M : Type 0} → M → Handling → Handling
on_message message sh = record sh {
  seen = record { count = (sh.seen.count + 1) % 2 ^ 64; lines = sh.seen.lines };
}

module _ (float : Float64) where
  -- A second of each of so many tasks.
  unfoldable pub task_readings : ℕ → Labels → ℕ → Monitored → Monitored
  task_readings zero labels elapsed s = s
  task_readings (suc tasks) labels elapsed s =
      t_sub_monitor float labels elapsed (task_readings tasks labels elapsed s)

  unfoldable pub t_sub_events : {M : Type 0} → List (ThrEvent M) → Handling → Handling
  unfolding on_unicast on_message task_readings
  t_sub_events [] sh = sh
  t_sub_events (connects ∷ es) sh = t_sub_events es (on_unicast sh)
  t_sub_events (receives m ∷ es) sh = t_sub_events es (on_message m sh)
  t_sub_events (second_ends elapsed ∷ es) sh =
      t_sub_events es (record sh { seen = task_readings sh.tasks sh.labels elapsed sh.seen })

module _ (io : ZBufIo) {E : Type 0} (lib : ManagerLib E ℕ) where
  open io use {ZBuf}
  open lib use {Manager, File}

  unfoldable pub t_sub_main :
      Float64
      → TSubOpt E File
      → List (ThrEvent (ZenohMessage ZBuf))
      → Outcome (Started Manager E ℕ × Handling)
  unfolding t_sub_thr new_sub t_sub_events
  t_sub_main float opt events = do
    started ← t_sub_thr lib opt.config opt.mode opt.endpoint
    done (started, t_sub_events float events (new_sub opt))

  -- With so many turns of the loop.
  unfoldable pub t_pub_main : (up : ℕ → Bool) → TPubOpt E File → ℕ → Outcome (Loop io lib up)
  unfolding t_pub_thr_main
  t_pub_main up opt turns =
      t_pub_thr_main io lib up opt.config opt.mode opt.endpoint opt.payload turns

  -- With so many calls for each dial, and what has reached the handlers of its transports.
  unfoldable pub t_pubsub_main :
      (up : ℕ → Bool)
      → ℕ
      → TPubsubOpt E File
      → ℕ
      → List TransportEvent
      → Outcome (Option (Loop io lib up × MySh))
  unfolding t_pubsub_thr_main run_transport tick_always
  t_pubsub_main up calls opt turns events = do
    loop ←
        t_pubsub_thr_main io lib up calls opt.config opt.mode opt.listen opt.connect opt.payload
          turns
    done (elim loop [ none ↦ none | some l ↦ some (l, run_transport tick_always events new_sh) ])
