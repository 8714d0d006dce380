-- ===== src/Latency/Programs/Delays.antt =====
-- t_pub_delay and t_sub_delay from their options to the lines.
use zenoh_perf.Base.{
  ℕ, ◌+◌, ◌%◌, ◌^◌, ◌≤◌, ◌<◌, ◌≡◌, ap, ◌∙◌, none, replicate, ◌-◌, ◌++◌, true, false, some, List, [],
  ◌∷◌, map, arith, leb, ◌&&◌, if◌then◌else◌, length, bind_done, done, panic, short_payload,
  no_duration,
}
use zenoh_perf.Duration.{is_duration, from_secs_f64}
use zenoh_perf.Proto
use zenoh_perf.Proto.{ZBufIo, ZenohMessage, KeyExpr, data_body, data_channel, block, peer}
use zenoh_perf.Bytes.{to_le_bytes}
use zenoh_perf.Startup.Manager.{ManagerLib, t_pub_delay, t_sub_delay, listen_or_open}
use zenoh_perf.Startup.Manager.Pairs.{dialler}
use zenoh_perf.Latency.Delay.{stamped_message, stamped_payload_cases}
use zenoh_perf.Latency.Delay.Turns.{publish_turns, handle_turns, delays_in_order, Timely, lines_of}
use zenoh_perf.Latency.Programs.{
  PongOpt, PubDelayOpt, t_pub_delay_loop, t_pub_delay_main, t_sub_delay_main,
}

module _ (io : ZBufIo) where
  open io use {ZBuf}

  -- With an interval that is a duration, the loop sends all that its turns make.
  loop-publish_turns :
      (opt : PubDelayOpt) (count : ℕ) (nows : List ℕ) (sent : List (ZenohMessage ZBuf))
      → is_duration opt.interval ≡ true
      → publish_turns io opt.payload count nows ≡ done sent
      → t_pub_delay_loop io opt count nows ≡ record { sent = sent; ended = done tt }
  unfolding publish_turns t_pub_delay_loop from_secs_f64
  loop-publish_turns opt count [] sent lasts e =
      let none_sent : ◌≡◌ {A = List (ZenohMessage ZBuf)} [] sent = cc in
      ap (λ x. record { sent = x; ended = done tt }) none_sent
  loop-publish_turns opt count (now ∷ nows) sent lasts e =
      let (message, made, rest) = bind_done (stamped_message io opt.payload count now) _ _ e in
      let (later, sent_later, all) =
        bind_done (publish_turns io opt.payload ((count + 1) % 2 ^ 64) nows) _ _ rest in
      let on = loop-publish_turns opt ((count + 1) % 2 ^ 64) nows later lasts sent_later in
      let same : message ∷ later ≡ sent = cc in ground (arith, made, lasts, on, same)

  message_made :
      (size count now : ℕ)
      → size < 2 ^ 63
      → (message : ZenohMessage ZBuf) × (stamped_message io size count now
          ≡ (if leb 24 size then done message else panic short_payload))
  unfolding stamped_message
  message_made size count now h = (
    record {
      key = KeyExpr.name "/test/ping";
      body =
          data_body
            (io.from (to_le_bytes 8 count ++ (to_le_bytes 16 now ++ replicate (size - 24) 0))) none;
      channel = data_channel;
      congestion_control = block;
    },
    ground (arith, stamped_payload_cases size count now h),
  )

  -- The first turn, when it is the last.
  loop-refused :
      (opt : PubDelayOpt) (now : ℕ) (nows : List ℕ)
      → opt.payload < 2 ^ 63
      → (leb 24 opt.payload && is_duration opt.interval) ≡ false
      → (sent : List (ZenohMessage ZBuf)) × (t_pub_delay_loop io opt 0 (now ∷ nows) ≡ record {
        sent = sent;
        ended = panic (if leb 24 opt.payload then no_duration else short_payload);
      })
        × (length sent ≡ (if leb 24 opt.payload then 1 else 0))
  unfolding t_pub_delay_loop from_secs_f64
  loop-refused opt now nows hi bad =
      let (message, made) = message_made opt.payload 0 now hi in
      ((if leb 24 opt.payload then message ∷ [] else []), ground (arith, made), ground arith)

  module _ {E T : Type 0} (lib : ManagerLib E T) where
    open lib use {Manager, parse_mode, parse, whatami, build, opens, listens}

    dialled :
        (opt : PubDelayOpt) (w : Proto.WhatAmI) (m : Manager) (e : E) (t : T)
        → parse_mode opt.mode ≡ some w
        → build (whatami w) ≡ some m
        → parse opt.endpoint ≡ some e
        → opens m 0 e ≡ some t
        → t_pub_delay lib opt.mode opt.endpoint ≡ done (dialler lib m e t)
    unfolding t_pub_delay
    dialled opt w m e t pm b p o = simp (pm, b, p, o)

    -- With the same option of an endpoint, t_sub_delay as a peer listens where t_pub_delay dials in
    -- any mode; t_pub_delay sends a message for each of its turns, and t_sub_delay prints a line for
    -- each, in order: the payload option of t_pub_delay, the number of the turn from 0 on, and how
    -- long the message took, when the clocks agree. The modes and the endpoint parse, the managers can
    -- be built, listen and open the transport, the interval is a duration, the payload option has room
    -- for the stamps and can be allocated, and the turns are below 2^64.
    pub delays_from_options :
        (subs : PongOpt) (pubs : PubDelayOpt) (w : Proto.WhatAmI)
        (sub_manager pub_manager : Manager) (e : E) (t : T) (stamps : List (ℕ × ℕ))
        → subs.endpoint ≡ pubs.endpoint
        → parse_mode subs.mode ≡ some peer
        → parse_mode pubs.mode ≡ some w
        → parse pubs.endpoint ≡ some e
        → build (whatami peer) ≡ some sub_manager
        → build (whatami w) ≡ some pub_manager
        → listens sub_manager e ≡ true
        → opens pub_manager 0 e ≡ some t
        → is_duration pubs.interval ≡ true
        → 24 ≤ pubs.payload
        → pubs.payload < 2 ^ 63
        → length stamps < 2 ^ 64
        → Timely io stamps
        → (sent : List (ZenohMessage ZBuf)) × (t_sub_delay_main lib subs
            ≡ done (record { manager = sub_manager; listening = e ∷ []; opened = [] }))
          × (t_pub_delay_main lib io pubs (map (λ s. s.0) stamps)
              ≡ done (dialler lib pub_manager e t, record { sent = sent; ended = done tt }))
          × (handle_turns io sent (map (λ s. s.1) stamps)
              ≡ done (lines_of io pubs.payload 0 stamps))
    unfolding t_sub_delay_main t_sub_delay listen_or_open t_pub_delay_main
    delays_from_options subs pubs w sub_manager pub_manager e t stamps same sm pm p b c l o lasts lo
          hi few timely =
        let (sent, turns, lines) =
          delays_in_order io pubs.payload 0 stamps lo hi (omega arith) timely in
        let heard : parse subs.endpoint ≡ some e = ap parse same ∙ p in
        (
          sent,
          simp (sm, b, heard, l),
          simp (
            dialled pubs w pub_manager e t pm c p o,
            loop-publish_turns pubs 0 (map (λ s. s.0) stamps) sent lasts turns,
          ),
          lines,
        )

    -- With a payload option below 24, or an interval that is no duration, t_pub_delay ends by a panic
    -- in its first turn, though its transport was opened: a payload option below 24 before its first
    -- message is sent, a bad interval right behind it. The mode and the endpoint parse, and the
    -- manager can be built and opens the transport.
    pub delays_refused :
        (opt : PubDelayOpt) (w : Proto.WhatAmI) (m : Manager) (e : E) (t : T) (now : ℕ)
        (nows : List ℕ)
        → parse_mode opt.mode ≡ some w
        → build (whatami w) ≡ some m
        → parse opt.endpoint ≡ some e
        → opens m 0 e ≡ some t
        → opt.payload < 2 ^ 63
        → (leb 24 opt.payload && is_duration opt.interval) ≡ false
        → (sent : List (ZenohMessage ZBuf)) × (t_pub_delay_main lib io opt (now ∷ nows)
            ≡ done (
              dialler lib m e t,
              record {
                sent = sent;
                ended = panic (if leb 24 opt.payload then no_duration else short_payload);
              },
            ))
          × (length sent ≡ (if leb 24 opt.payload then 1 else 0))
    unfolding t_pub_delay_main
    delays_refused opt w m e t now nows pm b p o hi bad =
        let (sent, ended, one) = loop-refused opt now nows hi bad in
        (sent, simp (dialled opt w m e t pm b p o, ended), one)
