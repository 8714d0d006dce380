-- ===== src/Throughput/SessionPrograms.antt =====
-- `main` of z_put_thr.rs and of z_sub_thr.rs in throughput/src/bin, from the options on. The session
-- is zenoh's; `expr_id` is what it returns for the declared expression.
pub mod Counted
use zenoh_perf.Base.{
  ℕ, ◌^◌, ◌<◌, ◌≡◌, refl, ap, ◌∙◌, Bool, false, String, Option, some, List, [], ◌∷◌, ◌++◌, arith,
  Outcome, done, ◌>>=◌,
}
use zenoh_perf.Proto.{ZBufIo, WhatAmI, peer, KeyExpr}
use zenoh_perf.Startup.{Config, base_config, pub_config, z_sub_config}
use zenoh_perf.Startup.Meeting.{pub_config-base, z_sub_config-peer}
use zenoh_perf.Latency.Session.{SessionCall, Names}
use zenoh_perf.Throughput.Counter.{Counter, fresh}
use zenoh_perf.Throughput.Session.{
  key_expr, send_turns, put_value, put_keys, sub_keys, thr_keys-Names, count_samples,
  samples_counted, send_turns-eq,
}
use zenoh_perf.Throughput.Rate.{Float64}
use zenoh_perf.Throughput.Monitor.{Labels, z_sub_monitor, monitor-exact}

-- A publisher: its configuration, its key, its calls, what it has put, and its counter.
pub record Putting (E B : Type 0) : Type 0 where
  pub config : Config E
  pub key : KeyExpr
  pub calls : List SessionCall
  pub sent : List B
  pub counter : Counter

pub record Subscribing (E : Type 0) : Type 0 where
  pub config : Config E
  pub key : KeyExpr
  pub calls : List SessionCall

-- The line for the samples of so many turns.
measured_line :
    {B : Type 0} (float : Float64) (labels : Labels) (print : Bool) (value : B) (turns : ℕ)
    → 0 < turns
    → turns < 2 ^ 53
    → (z_sub_monitor float labels 1000000 (record {
      count = (count_samples (send_turns print value turns fresh).0 fresh).count;
      lines = [];
    })).lines
      ≡ record { stack = "zenoh"; labels = labels; rate = turns } ∷ []
measured_line float labels print value turns some_turn few =
    let all : (count_samples (send_turns print value turns fresh).0 fresh).count ≡ turns =
      ap (λ r. (count_samples r.0 fresh).count)
        (send_turns-eq print value turns fresh (omega arith))
      ∙ samples_counted value turns fresh (omega arith)
      ∙ omega arith in
    rw all (monitor-exact float "zenoh" labels turns some_turn few)

module _ {E F : Type 0} (from_file : F → Option (Config E)) (default : Config E) where
  -- `main` of z_put_thr after so many turns.
  unfoldable pub z_put_main :
      (io : ZBufIo)
      → ℕ
      → WhatAmI
      → List E
      → Option F
      → ℕ
      → Bool
      → Bool
      → Bool
      → ℕ
      → Outcome (Putting E io.ZBuf)
  unfolding pub_config put_keys send_turns
  z_put_main io expr_id mode endpoint path payload print use_expr with_publication turns = do
    config ← pub_config from_file default mode endpoint path
    let (key, calls) = put_keys expr_id use_expr with_publication
    let (sent, counter) = send_turns print (put_value io payload) turns fresh
    done (record { config = config; key = key; calls = calls; sent = sent; counter = counter })

  -- `main` of z_sub_thr up to the samples.
  unfoldable pub z_sub_main : ℕ → WhatAmI → List E → Option F → Bool → Outcome (Subscribing E)
  unfolding z_sub_config sub_keys
  z_sub_main expr_id mode endpoint path use_expr = do
    config ← z_sub_config from_file default mode endpoint path
    let (key, calls) = sub_keys expr_id use_expr
    done (record { config = config; key = key; calls = calls })

  -- With the same option of endpoints, z_put_thr in any mode connects to the endpoints that z_sub_thr
  -- listens on as a peer, puts to what z_sub_thr subscribes to, by whatever flags of both, and when the
  -- messages have arrived and z_sub_thr's second lasts a second, its line has their number as the
  -- rate. The configuration files, if any, can be read, each session knows the expression that it
  -- declares, and the messages are some, and fewer than 2^53.
  put_meets_sub :
      (io : ZBufIo) (float : Float64) (labels : Labels) (put_table sub_table : ℕ → Option String)
      (a b : ℕ) (mode : WhatAmI) (endpoint : List E) (put_path sub_path : Option F)
      (put_base sub_base : Config E) (payload : ℕ) (print use_expr with_publication sub_expr : Bool)
      (turns : ℕ)
      → base_config from_file default put_path ≡ done put_base
      → base_config from_file default sub_path ≡ done sub_base
      → put_table a ≡ some key_expr
      → sub_table b ≡ some key_expr
      → 0 < turns
      → turns < 2 ^ 53
      → (put : Putting E io.ZBuf) × (sub : Subscribing E) × (z_put_main io a mode endpoint put_path
            payload print use_expr with_publication turns
          ≡ done put)
        × (z_sub_main b peer endpoint sub_path sub_expr ≡ done sub)
        × (put.config.connect ≡ put_base.connect ++ endpoint)
        × (sub.config.listen ≡ sub_base.listen ++ endpoint)
        × Names put_table put.key key_expr
        × Names sub_table sub.key key_expr
        × ((z_sub_monitor float labels 1000000
              (record { count = (count_samples put.sent fresh).count; lines = [] })).lines
            ≡ record { stack = "zenoh"; labels = labels; rate = turns } ∷ [])
  unfolding z_put_main z_sub_main
  put_meets_sub io float labels put_table sub_table a b mode endpoint put_path sub_path put_base
        sub_base payload print use_expr with_publication sub_expr turns pb sb pt st some_turn few =
      let names = thr_keys-Names put_table sub_table a b use_expr sub_expr with_publication pt st in
      let sent = send_turns print (put_value io payload) turns fresh in
      let keys = put_keys a use_expr with_publication in
      (
        record {
          config = record put_base {
            mode = some mode;
            multicast = some false;
            add_timestamp = some false;
            connect = put_base.connect ++ endpoint;
          };
          key = keys.0;
          calls = keys.1;
          sent = sent.0;
          counter = sent.1;
        },
        record {
          config = record sub_base {
            mode = some peer;
            multicast = some false;
            listen = sub_base.listen ++ endpoint;
          };
          key = (sub_keys b sub_expr).0;
          calls = (sub_keys b sub_expr).1;
        },
        simp (pub_config-base from_file default put_base put_path mode endpoint pb),
        simp (z_sub_config-peer from_file default sub_base sub_path endpoint sb),
        refl,
        refl,
        names.0,
        names.1,
        measured_line float labels print (put_value io payload) turns some_turn few,
      )
