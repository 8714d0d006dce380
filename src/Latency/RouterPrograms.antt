-- ===== src/Latency/RouterPrograms.antt =====
-- `main` of r_ping.rs and of r_pong.rs in latency/src/bin, from the options on, up to the loop and the
-- wait. The runtime is zenoh's; `chars` are the code points of a text.
use zenoh_perf.Base.{
  refl, ℕ, ◌-◌, ◌^◌, ◌≤◌, ◌<◌, ◌≡◌, ap, ◌∙◌, ◌≢◌, true, false, String, Option, some, List, [], ◌∷◌,
  ◌++◌, arith, if◌then◌else◌, replicate, Outcome, done, ◌>>=◌,
}
use zenoh_perf.Proto.{ZBufIo, Call, send_data, WhatAmI, client, resource_of, subscriptions, targets}
use zenoh_perf.Startup.{Config, router_mode, parse_all, r_ping_config, r_pong_config}
use zenoh_perf.Startup.Meeting.{join, NoComma, NoCommas, ping_dials_pong}
use zenoh_perf.Latency.Payload.{tail_payload, tail_payload_cases, ping_bytes, length-ping_bytes}
use zenoh_perf.Latency.RPing
use zenoh_perf.Pending
use zenoh_perf.Pending.{Pending}
use zenoh_perf.Latency.RPing.Parallel.{declarations, make_call, pong_line, parallel}
use zenoh_perf.Latency.RPing.Single.{single, single_line}
use zenoh_perf.Latency.Pong.{pong_declarations, pong_on_call, on_calls, r_pong_answers}
use zenoh_perf.Latency.Programs.{Looping, non_blocking, blocking}

-- `struct Opt` of r_pong
pub record RPongOpt : Type 0 where
  pub endpoint : String
  pub mode : String

module _ (io : ZBufIo) where
  open io use {ZBuf, from, len-from}

  -- `parallel` or `single` of r_ping, up to the loop.
  unfoldable pub r_ping_loop : RPing.Opt → Outcome Looping
  unfolding parallel single
  r_ping_loop opt =
      if opt.parallel
      then (do tool ← parallel io opt; done (non_blocking tool))
      else do tool ← single io opt; done (blocking tool)

  -- The zeros of r_ping's messages.
  abbrev pub zeros_of : RPing.Opt → List ℕ
  zeros_of opt = replicate (opt.payload - 8) 0

  abbrev pub loop_of : RPing.Opt → Looping
  loop_of opt =
      if opt.parallel
      then non_blocking (RPing.Parallel.tool io (RPing.settings opt) (zeros_of opt))
      else blocking (RPing.Single.tool io (RPing.settings opt) (zeros_of opt))

  r_ping_loop-eq :
      (opt : RPing.Opt)
      → tail_payload opt.payload ≡ done (zeros_of opt)
      → r_ping_loop opt ≡ done (loop_of opt)
  unfolding r_ping_loop parallel single
  r_ping_loop-eq opt made = ground (arith, made)

  module _ {E : Type 0} (chars : String → List ℕ) (parse : List ℕ → Option E)
      (default : Config E) where
    unfoldable pub r_ping_main : RPing.Opt → Outcome (Config E × List (Call ZBuf) × Looping)
    unfolding r_ping_config r_ping_loop
    r_ping_main opt = do
      config ← r_ping_config parse default opt.mode (chars opt.endpoint)
      loop ← r_ping_loop opt
      done (config, declarations io, loop)

    unfoldable pub r_pong_main : RPongOpt → Outcome (Config E × List (Call ZBuf))
    unfolding r_pong_config
    r_pong_main opt = do
      config ← r_pong_config parse default opt.mode (chars opt.endpoint)
      done (config, pong_declarations)

    -- With the same option of endpoints, r_pong as a peer or a router listens on those that r_ping
    -- connects to in any mode, and r_ping comes to the loop that its flag names. r_ping sends its pings
    -- to the resource that r_pong subscribes to. To each ping of the loop r_pong answers once, to the
    -- resource that r_ping subscribes to, so that r_ping with `--parallel` prints one line, with its payload option,
    -- the number of the ping and the time since it was sent, and takes the ping from its map. The
    -- router hands what is sent to a resource to its subscriber, the endpoints have no comma and parse, the payload
    -- option is from 8 up to Rust's limit, and the number is below 2^64.
    pub r_pong_serves_r_ping :
        (pong : RPongOpt) (opt : RPing.Opt) (w v : WhatAmI) (piece : List ℕ)
        (pieces : List (List ℕ)) (es : List E) (count now instant : ℕ) (before : Pending ℕ)
        → router_mode pong.mode ≡ some w
        → w ≢ client
        → router_mode opt.mode ≡ some v
        → pong.endpoint ≡ opt.endpoint
        → chars opt.endpoint ≡ join piece pieces
        → NoComma piece
        → NoCommas pieces
        → parse_all parse default (piece ∷ pieces) ≡ done es
        → 8 ≤ opt.payload
        → opt.payload < 2 ^ 63
        → count < 2 ^ 64
        → (r_pong_main pong
            ≡ done (
              record default {
                mode = some w;
                multicast = some false;
                listen = default.listen ++ es;
              },
              pong_declarations,
            ))
          × (r_ping_main opt
              ≡ done (
                record default {
                  mode = some v;
                  multicast = some false;
                  connect = default.connect ++ es;
                },
                declarations io,
                loop_of opt,
              ))
          × (resource_of (declarations io) (make_call io (zeros_of opt) count).key_expr
              ≡ some "/test/ping")
          × (subscriptions (pong_declarations {B = ZBuf}) ≡ some "/test/ping" ∷ [])
          × (subscriptions (declarations io) ≡ some "/test/pong" ∷ [])
          × (calls : List (Call ZBuf)) × (pong_on_call true
                (send_data (make_call io (zeros_of opt) count))
              ≡ done calls)
          × (targets (pong_declarations ++ calls) ≡ some "/test/pong" ∷ [])
          × (on_calls io (RPing.settings opt) calls now (Pending.insert count instant before)
              ≡ done (
                pong_line io (RPing.settings opt) opt.payload count (now - instant) ∷ [],
                Pending.remove count (Pending.insert count instant before),
              ))
    unfolding r_pong_main r_ping_main
    r_pong_serves_r_ping pong opt w v piece pieces es count now instant before pm listens qm same
          text h hs parsed lo hi few =
        let (served, dialled) =
          ping_dials_pong parse default pong.mode opt.mode w v piece pieces es pm listens qm h hs
            parsed in
        let made : tail_payload opt.payload ≡ done (zeros_of opt) =
          ground (arith, tail_payload_cases opt.payload hi) in
        let (calls, answered, back, heard) =
          r_pong_answers io (RPing.settings opt) (zeros_of opt) count now instant before few in
        let size : io.len (from (ping_bytes (zeros_of opt) count)) ≡ opt.payload =
          len-from (ping_bytes (zeros_of opt) count)
          ∙ length-ping_bytes opt.payload count (zeros_of opt) hi made in
        (
          simp (ap chars same ∙ text, served),
          simp (text, dialled, r_ping_loop-eq opt made),
          unfold make_call in refl,
          refl,
          refl,
          calls,
          answered,
          back,
          heard
              ∙ ap
                  (λ n. done (
                    pong_line io (RPing.settings opt) n count (now - instant) ∷ [],
                    Pending.remove count (Pending.insert count instant before),
                  ))
                  size,
        )
