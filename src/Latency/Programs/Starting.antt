-- ===== src/Latency/Programs/Starting.antt =====
-- What t_ping, and t_pub_delay with t_sub_delay, come to by their options.
use zenoh_perf.Base.{
  [], ◌∷◌, ℕ, ap, ◌∙◌, ◌+◌, ◌-◌, ◌^◌, ◌≤◌, ◌<◌, ◌≡◌, true, false, some, List, arith, leb, ◌&&◌,
  if◌then◌else◌, replicate, done, panic, capacity_overflow, no_duration,
}
use zenoh_perf.Duration.{is_duration, from_secs_f64}
use zenoh_perf.Proto.{ZBufIo, WhatAmI, peer}
use zenoh_perf.Startup.Manager.{ManagerLib, t_ping, t_pong, listen_or_open}
use zenoh_perf.Startup.Manager.Pairs.{dialler}
use zenoh_perf.Latency.Payload.{tail_payload_cases}
use zenoh_perf.Latency.Columns.{payload_columns}
use zenoh_perf.Latency.TPing
use zenoh_perf.Latency.TPing.Parallel.{parallel}
use zenoh_perf.Latency.TPing.Single.{single, single_line}
use zenoh_perf.Latency.Programs.{
  PongOpt, t_pong_main, Looping, non_blocking, blocking, t_ping_loop, t_ping_main,
}

module _ {E T : Type 0} (lib : ManagerLib E T) (io : ZBufIo) where
  open lib use {Manager, parse_mode, parse, whatami, build, opens, listens}
  open io use {ZBuf, from, len-from}

  -- The loop that t_ping has come to with these zeros.
  abbrev pub loop_with : TPing.Opt → List ℕ → Looping
  loop_with opt zeros =
      if opt.parallel
      then non_blocking (TPing.Parallel.tool io (TPing.settings opt) zeros)
      else blocking (TPing.Single.tool io (TPing.settings opt) zeros)

  dialled :
      (opt : TPing.Opt) (w : WhatAmI) (m : Manager) (e : E) (t : T)
      → parse_mode opt.mode ≡ some w
      → build (whatami w) ≡ some m
      → parse opt.endpoint ≡ some e
      → opens m 0 e ≡ some t
      → t_ping lib opt.mode opt.endpoint ≡ done (dialler lib m e t)
  unfolding t_ping
  dialled opt w m e t pm b p o = simp (pm, b, p, o)

  t_ping_loop-cases :
      (opt : TPing.Opt)
      → opt.payload < 2 ^ 63
      → t_ping_loop io opt ≡ (
          if leb 8 opt.payload
          then done (loop_with opt (replicate (opt.payload - 8) 0))
          else panic capacity_overflow)
  unfolding t_ping_loop parallel single
  t_ping_loop-cases opt h = ground (arith, tail_payload_cases opt.payload h)

  loop-runs :
      (opt : TPing.Opt) (zeros : List ℕ)
      → parallel io opt ≡ done (TPing.Parallel.tool io (TPing.settings opt) zeros)
      → single io opt ≡ done (TPing.Single.tool io (TPing.settings opt) zeros)
      → t_ping_loop io opt ≡ done (loop_with opt zeros)
  unfolding t_ping_loop
  loop-runs opt zeros p q = ground (arith, p, q)

  -- With the same option of an endpoint, t_pong as a peer listens where t_ping dials in any mode; and
  -- t_ping comes to the loop that its flag names, with the same zeros in both. The lines of the
  -- non-blocking loop report the payload option, those of the blocking one report 8 bytes less. The
  -- modes and the endpoint parse, the managers can be built, listen and open the transport, the
  -- interval is a duration, and the payload option is from 8 up to Rust's limit.
  pub pong_serves_ping :
      (pong : PongOpt) (opt : TPing.Opt) (w : WhatAmI) (served m : Manager) (e : E) (t : T)
      → pong.endpoint ≡ opt.endpoint
      → parse_mode pong.mode ≡ some peer
      → parse_mode opt.mode ≡ some w
      → parse opt.endpoint ≡ some e
      → build (whatami peer) ≡ some served
      → build (whatami w) ≡ some m
      → listens served e ≡ true
      → opens m 0 e ≡ some t
      → is_duration opt.interval ≡ true
      → 8 ≤ opt.payload
      → opt.payload < 2 ^ 63
      → (zeros : List ℕ) × (t_pong_main lib pong
          ≡ done (record { manager = served; listening = e ∷ []; opened = [] }))
        × (t_ping_main lib io opt ≡ done (dialler lib m e t, loop_with opt zeros))
        × ((count micros : ℕ)
            → ((TPing.Parallel.tool io (TPing.settings opt) zeros).line count micros).payload
              ≡ opt.payload)
        × ((count micros : ℕ)
            → ((TPing.Single.tool io (TPing.settings opt) zeros).line count micros).payload + 8
              ≡ opt.payload)
  unfolding t_ping_main from_secs_f64 t_pong_main t_pong listen_or_open
  pong_serves_ping pong opt w served m e t same pm qm p b c l o lasts lo hi =
      let (zeros, in_parallel, alone, reported, short) = payload_columns io opt lo hi in
      let heard : parse pong.endpoint ≡ some e = ap parse same ∙ p in
      (
        zeros,
        simp (pm, b, heard, l),
        simp (dialled opt w m e t qm c p o, lasts, loop-runs opt zeros in_parallel alone),
        reported,
        short,
      )

  -- With an interval that is no duration, or a payload option below 8, t_ping ends by a panic before
  -- its first message, though its transport was opened: the interval is looked at first. The mode and
  -- the endpoint parse, and the manager can be built and opens the transport.
  pub ping_main_refused :
      (opt : TPing.Opt) (w : WhatAmI) (m : Manager) (e : E) (t : T)
      → parse_mode opt.mode ≡ some w
      → build (whatami w) ≡ some m
      → parse opt.endpoint ≡ some e
      → opens m 0 e ≡ some t
      → opt.payload < 2 ^ 63
      → (is_duration opt.interval && leb 8 opt.payload) ≡ false
      → (t_ping lib opt.mode opt.endpoint ≡ done (dialler lib m e t))
        × (t_ping_main lib io opt
            ≡ panic (if is_duration opt.interval then capacity_overflow else no_duration))
  unfolding t_ping_main from_secs_f64
  ping_main_refused opt w m e t pm b p o hi bad =
      let opened = dialled opt w m e t pm b p o in
      (opened, ground (arith, opened, t_ping_loop-cases opt hi))
