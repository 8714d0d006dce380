-- ===== src/Throughput/SessionPrograms/Counted.antt =====
-- `main` of z_put_thr.rs and of z_sub_thr.rs in throughput/src/bin, from their `Opt` on, with the samples
-- that the session of z_sub_thr hands over, at any time between the seconds of `measure`.
use zenoh_perf.Base.{
  ℕ, ◌+◌, ◌%◌, ◌^◌, ◌<◌, ◌≡◌, refl, ap, ◌∙◌, sym, Bool, false, String, Option, some, List, [], ◌∷◌,
  ◌++◌, arith, length, replicate, length-replicate, Outcome, done, ◌>>=◌,
}
use zenoh_perf.Proto.{ZBufIo, WhatAmI, peer}
use zenoh_perf.Startup.{Config, base_config}
use zenoh_perf.Startup.Meeting.{pub_config-base, z_sub_config-peer}
use zenoh_perf.Latency.Session.{Names}
use zenoh_perf.Throughput.Counter.{fresh}
use zenoh_perf.Throughput.Session.{
  key_expr, put_value, put_keys, sub_keys, send_turns, send_turns-eq, thr_keys-Names,
}
use zenoh_perf.Throughput.Rate.{Float64}
use zenoh_perf.Throughput.Monitor.{
  Labels, MonitorEvent, add, second, Monitored, at_start, z_sub_monitor, run_monitor, added, rates,
  Exact, rates_conserved,
}
use zenoh_perf.Throughput.SessionPrograms.{Putting, Subscribing, z_put_main, z_sub_main}

-- `struct Opt` of z_put_thr; clap has read its endpoints, its mode and the path of its file.
pub record ZPutOpt (E F : Type 0) : Type 0 where
  pub endpoint : List E
  pub mode : WhatAmI
  pub payload : ℕ
  pub print : Bool
  pub config : Option F
  pub use_expr : Bool
  pub declare_publication : Bool

-- `struct Opt` of z_sub_thr
pub record ZSubOpt (E F : Type 0) : Type 0 where
  pub endpoint : List E
  pub mode : WhatAmI
  pub payload : ℕ
  pub name : String
  pub scenario : String
  pub config : Option F
  pub use_expr : Bool
  pub no_callback : Bool

pub data SampleEvent (S : Type 0) : Type 0 where
  sample : S → SampleEvent S
  second_passes : (elapsed : ℕ) → SampleEvent S

-- What `measure` repeats.
abbrev pub measured : {E F : Type 0} → ZSubOpt E F → Labels
measured opt = record { scenario = opt.scenario; name = opt.name; payload = opt.payload }

module _ (float : Float64) where
  -- The loop over the receiver, or the callback: both add one; and the loop of `measure`.
  unfoldable pub z_sub_events : {S : Type 0} → Labels → List (SampleEvent S) → Monitored → Monitored
  z_sub_events labels [] s = s
  z_sub_events labels (sample x ∷ es) s =
      z_sub_events labels es (record s { count = (s.count + 1) % 2 ^ 64 })
  z_sub_events labels (second_passes elapsed ∷ es) s =
      z_sub_events labels es (z_sub_monitor float labels elapsed s)

abbrev pub samples_of : {S : Type 0} → List (SampleEvent S) → List S
samples_of [] = []
samples_of (sample x ∷ es) = x ∷ samples_of es
samples_of (second_passes elapsed ∷ es) = samples_of es

-- The events as the counter and `measure` see them.
abbrev pub counted : {S : Type 0} → List (SampleEvent S) → List MonitorEvent
counted [] = []
counted (sample x ∷ es) = add 1 ∷ counted es
counted (second_passes elapsed ∷ es) = second elapsed ∷ counted es

added-counted :
    {S : Type 0} (float : Float64) (es : List (SampleEvent S))
    → added float (counted es) ≡ length (samples_of es)
added-counted float [] = refl
added-counted float (sample x ∷ es) = omega (arith, added-counted float es)
added-counted float (second_passes elapsed ∷ es) = added-counted float es

z_sub_events-counted :
    {S : Type 0} (float : Float64) (labels : Labels) (es : List (SampleEvent S)) (s : Monitored)
    → z_sub_events float labels es s ≡ run_monitor float (z_sub_monitor float labels) (counted es) s
unfolding z_sub_events run_monitor
z_sub_events-counted float labels [] s = refl
z_sub_events-counted float labels (sample x ∷ es) s =
    z_sub_events-counted float labels es (record s { count = (s.count + 1) % 2 ^ 64 })
z_sub_events-counted float labels (second_passes elapsed ∷ es) s =
    z_sub_events-counted float labels es (z_sub_monitor float labels elapsed s)

module _ {E F : Type 0} (from_file : F → Option (Config E)) (default : Config E) (io : ZBufIo) where
  open io use {ZBuf}

  -- After so many turns.
  unfoldable pub z_put_run : ℕ → ZPutOpt E F → ℕ → Outcome (Putting E ZBuf)
  unfolding z_put_main
  z_put_run expr_id opt turns =
      z_put_main from_file default io expr_id opt.mode opt.endpoint opt.config opt.payload opt.print
        opt.use_expr opt.declare_publication turns

  unfoldable pub z_sub_run :
      Float64 → ℕ → ZSubOpt E F → List (SampleEvent ZBuf) → Outcome (Subscribing E × Monitored)
  unfolding z_sub_main z_sub_events
  z_sub_run float expr_id opt events = do
    sub ← z_sub_main from_file default expr_id opt.mode opt.endpoint opt.config opt.use_expr
    done (sub, z_sub_events float (measured opt) events at_start)

  -- With the same endpoints, z_put_thr in any mode connects to those that z_sub_thr listens on as a
  -- peer, and puts to what z_sub_thr subscribes to, by whatever flags of both. When the samples of
  -- z_sub_thr are what some turns of z_put_thr have put, with seconds of exactly a second anywhere
  -- between them, the rates that z_sub_thr has printed and what it still counts are the turns
  -- together. The configuration files, if any, can be read, each session knows the expression that it
  -- declares, and the turns are below 2^53.
  pub sub_counts_put :
      (float : Float64) (put_table sub_table : ℕ → Option String) (a b : ℕ) (opt : ZPutOpt E F)
      (sub : ZSubOpt E F) (put_base sub_base : Config E) (turns : ℕ)
      (events : List (SampleEvent ZBuf))
      → base_config from_file default opt.config ≡ done put_base
      → base_config from_file default sub.config ≡ done sub_base
      → put_table a ≡ some key_expr
      → sub_table b ≡ some key_expr
      → sub.mode ≡ peer
      → sub.endpoint ≡ opt.endpoint
      → turns < 2 ^ 53
      → samples_of events ≡ replicate turns (put_value io opt.payload)
      → Exact float (counted events)
      → (put : Putting E ZBuf) × (heard : Subscribing E) × (s : Monitored) × (z_put_run a opt turns
          ≡ done put)
        × (put.sent ≡ samples_of events)
        × (z_sub_run float b sub events ≡ done (heard, s))
        × (put.config.connect ≡ put_base.connect ++ opt.endpoint)
        × (heard.config.listen ≡ sub_base.listen ++ opt.endpoint)
        × Names put_table put.key key_expr
        × Names sub_table heard.key key_expr
        × (s.count + rates float s.lines ≡ turns)
  unfolding z_put_run z_put_main z_sub_run z_sub_main
  sub_counts_put float put_table sub_table a b opt sub put_base sub_base turns events pb sb pt st
        as_peer same few all exact =
      let names =
        thr_keys-Names put_table sub_table a b opt.use_expr sub.use_expr opt.declare_publication pt
          st in
      let value : ZBuf = put_value io opt.payload in
      let sent = send_turns opt.print value turns fresh in
      let keys = put_keys a opt.use_expr opt.declare_publication in
      let many : added float (counted events) ≡ turns =
        added-counted float events ∙ ap length all ∙ length-replicate turns value in
      let s : Monitored = z_sub_events float (measured sub) events at_start in
      (
        record {
          config = record put_base {
            mode = some opt.mode;
            multicast = some false;
            add_timestamp = some false;
            connect = put_base.connect ++ opt.endpoint;
          };
          key = keys.0;
          calls = keys.1;
          sent = sent.0;
          counter = sent.1;
        },
        record {
          config = record sub_base {
            mode = some peer;
            multicast = some false;
            listen = sub_base.listen ++ sub.endpoint;
          };
          key = (sub_keys b sub.use_expr).0;
          calls = (sub_keys b sub.use_expr).1;
        },
        s,
        simp (pub_config-base from_file default put_base opt.config opt.mode opt.endpoint pb),
        ap (λ r. r.0) (send_turns-eq opt.print value turns fresh (omega arith)) ∙ sym all,
        simp (as_peer, z_sub_config-peer from_file default sub_base sub.config sub.endpoint sb),
        refl,
        ap (λ es. sub_base.listen ++ es) same,
        names.0,
        names.1,
        rw (z_sub_events-counted float (measured sub) events at_start) (
            rates_conserved float "zenoh" (measured sub) (counted events) exact
              (omega (arith, many))
            ∙ many),
      )
