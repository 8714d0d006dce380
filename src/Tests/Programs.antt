-- ===== src/Tests/Programs.antt =====
-- The programs from their options on, with a manager that listens everywhere and reaches every
-- endpoint but 9; the lines of the tasks.
use zenoh_perf.Base.{
  ℕ, ◌+◌, ◌≤◌, ◌≡◌, refl, true, false, String, Option, none, some, List, [], ◌∷◌, arith, leb, ◌==◌,
  if◌then◌else◌, done,
}
use zenoh_perf.Proto.{targets, subscriptions, WhatAmI, router, peer, client, name, list_io}
use zenoh_perf.Startup.{Config, router_mode, base_config}
use zenoh_perf.Startup.Manager.{ManagerLib, builder}
use zenoh_perf.Throughput.Monitor.{
  Labels, MonitorEvent, add, second, at_start, monitor, run_monitor, rates, rates_conserved,
}
use zenoh_perf.Throughput.Session.{key_expr}
use zenoh_perf.Throughput.Session.{put_value}
use zenoh_perf.Throughput.SessionPrograms.Counted.{
  ZPutOpt, ZSubOpt, SampleEvent, sample, second_passes, samples_of, z_put_run, z_sub_run,
  sub_counts_put,
}
use zenoh_perf.Throughput.SessionPrograms.{Putting, Subscribing}
use zenoh_perf.Latency.Session.{Names}
use zenoh_perf.Proto.{
  targets, subscriptions, id, decl_resource, decl_publisher, send_data, Call, data_channel, block,
}
use zenoh_perf.Throughput.Monitor.{Monitored}
use zenoh_perf.Throughput.Session.{r_pub_thr, sub_declarations}
use zenoh_perf.Throughput.RouterPrograms.{
  PubOpt, SubOpt, SubEvent, call, second_ends, r_pub_main, r_sub_main,
}
use zenoh_perf.Throughput.RouterPrograms.Counted.{sub_counts_pub}
use zenoh_perf.Tests.Rate.{ceil_floats}

abbrev opens : WhatAmI → ℕ → ℕ → Option ℕ
opens m n e = if e == 9 then none else some e

-- Builders and managers are their roles, and files cannot be read.
abbrev pub manager : ManagerLib ℕ ℕ
manager = record {
  File = ℕ;
  Config = ℕ;
  Builder = WhatAmI;
  Manager = WhatAmI;
  parse_mode = router_mode;
  parse = λ text. some 7;
  from_file = λ path. none;
  from_config = λ config. none;
  whatami = λ mode. mode;
  build = λ b. some b;
  create = λ b. b;
  listens = λ m e. true;
  opens = opens;
}

pub client_mode : router_mode "client" ≡ some client
unfolding router_mode
client_mode = refl

pub peer_mode : router_mode "peer" ≡ some peer
unfolding router_mode
peer_mode = refl

pub client_built : builder manager none client ≡ done client
unfolding builder
client_built = refl

-- A manager whose dials succeed from the third call on.
abbrev pub late_manager : ManagerLib ℕ ℕ
late_manager = record manager { opens = λ m n e. if leb 2 n then some e else none }

pub late :
    (n e : ℕ) → (j : ℕ) × (t : ℕ) × (j ≤ 2) × ((if leb 2 (n + j) then some e else none) ≡ some t)
late n e = (2, e, omega arith, ground arith)

pub late_built : builder late_manager none client ≡ done client
unfolding builder
late_built = refl

abbrev labels : Labels
labels = record { scenario = "lan"; name = "thr"; payload = 8 }

abbrev events : List MonitorEvent
events = add 3 ∷ second 1000000 ∷ second 1000000 ∷ add 4 ∷ add 1 ∷ second 1000000 ∷ add 2 ∷ []

rates_conserved_example :
    (run_monitor ceil_floats (monitor ceil_floats "session" labels) events at_start).count
      + rates ceil_floats
          (run_monitor ceil_floats (monitor ceil_floats "session" labels) events at_start).lines
    ≡ 10
rates_conserved_example =
    rates_conserved ceil_floats "session" labels events (refl, (refl, (refl, tt))) (omega arith)

abbrev base : Config ℕ
base = record { mode = none; multicast = none; add_timestamp = none; listen = []; connect = [] }

abbrev table : ℕ → Option String
table i = some key_expr

no_file : base_config {F = ℕ} (λ path. none) base none ≡ done base
unfolding base_config
no_file = refl

abbrev z_put : ZPutOpt ℕ ℕ
z_put = record {
  endpoint = 5 ∷ [];
  mode = client;
  payload = 8;
  print = false;
  config = none;
  use_expr = true;
  declare_publication = false;
}

abbrev z_sub : ZSubOpt ℕ ℕ
z_sub = record {
  endpoint = 5 ∷ [];
  mode = peer;
  payload = 8;
  name = "thr";
  scenario = "lan";
  config = none;
  use_expr = false;
  no_callback = true;
}

abbrev value : List ℕ
value = put_value list_io 8

abbrev samples : List (SampleEvent (List ℕ))
samples = sample value ∷ second_passes 1000000 ∷ sample value ∷ second_passes 1000000 ∷ []

sub_counts_put_example :
    (put : Putting ℕ (List ℕ)) × (heard : Subscribing ℕ) × (s : Monitored) × (z_put_run {F = ℕ}
        (λ path. none)
        base
        list_io
        1
        z_put
        2
      ≡ done put)
    × (put.sent ≡ samples_of samples)
    × (z_sub_run {F = ℕ} (λ path. none) base list_io ceil_floats 2 z_sub samples ≡ done (heard, s))
    × (put.config.connect ≡ 5 ∷ [])
    × (heard.config.listen ≡ 5 ∷ [])
    × Names table put.key key_expr
    × Names table heard.key key_expr
    × (s.count + rates ceil_floats s.lines ≡ 2)
sub_counts_put_example =
    sub_counts_put {F = ℕ} (λ path. none) base list_io ceil_floats table table 1 2 z_put z_sub base
      base 2 samples no_file no_file refl refl refl refl (omega arith) refl (refl, (refl, tt))

abbrev pub_opt : PubOpt ℕ ℕ
pub_opt = record { endpoint = 5 ∷ []; mode = client; payload = 2; print = true; config = none }

abbrev sub_opt : SubOpt ℕ ℕ
sub_opt = record {
  endpoint = 5 ∷ [];
  mode = router;
  payload = 2;
  name = "thr";
  scenario = "lan";
  config = none;
}

abbrev sent : Call (List ℕ)
sent = send_data (record {
  key_expr = id 1;
  payload = 0 ∷ 0 ∷ [];
  channel = data_channel;
  congestion_control = block;
})

-- The first second ends behind the declaration of a resource, the next one behind the first message.
abbrev arrivals : List (SubEvent (List ℕ))
arrivals =
    call (decl_resource 1 (name key_expr))
    ∷ second_ends 1000000
    ∷ call sent
    ∷ second_ends 1000000
    ∷ call sent
    ∷ []

abbrev two_calls : List (Call (List ℕ))
two_calls = decl_resource 1 (name key_expr) ∷ decl_publisher (id 1) ∷ sent ∷ sent ∷ []

two_sent : r_pub_thr list_io true 2 2 ≡ done (two_calls, record { count = 2; printed = [] })
unfolding r_pub_thr
two_sent = refl

sub_counts_pub_example :
    (connects listens : Config ℕ) × (s : Monitored) × (r_pub_main
        (λ path. none)
        base
        list_io
        pub_opt
        2
      ≡ done (connects, two_calls, record { count = 2; printed = [] }))
    × (r_sub_main (λ path. none) base list_io ceil_floats sub_opt arrivals
        ≡ done (listens, sub_declarations list_io, s))
    × (connects.connect ≡ 5 ∷ [])
    × (listens.listen ≡ 5 ∷ [])
    × (targets two_calls ≡ some key_expr ∷ some key_expr ∷ [])
    × (subscriptions (sub_declarations list_io) ≡ some key_expr ∷ [])
    × (s.count + rates ceil_floats s.lines ≡ 3)
sub_counts_pub_example =
    sub_counts_pub (λ path. none) base list_io ceil_floats pub_opt sub_opt base base 2 arrivals
      two_calls (record { count = 2; printed = [] }) no_file no_file tt refl (omega arith)
      (omega arith) two_sent refl (refl, (refl, tt))
