-- ===== src/Throughput/TransportPrograms/Counted.antt =====
-- What t_sub_thr prints of the messages of t_pub_thr, both in throughput/src/bin.
use zenoh_perf.Base.{
  ℕ, ◌+◌, ◌*◌, ◌%◌, ◌^◌, ◌<◌, ◌≡◌, refl, ap, ◌∙◌, sym, Bool, true, Option, none, some, List, [],
  ◌∷◌, map, arith, replicate, length-replicate, length, done,
}
use zenoh_perf.Proto.{ZBufIo, WhatAmI, router, peer, id, ZenohMessage}
use zenoh_perf.Startup.Dial.{AllListen, listen_all-AllListen}
use zenoh_perf.Startup.Manager.{ManagerLib, builder, t_sub_thr}
use zenoh_perf.Startup.Manager.Pairs.{AllOpen}
use zenoh_perf.Throughput.Publisher.{AllUp}
use zenoh_perf.Throughput.Rate.{Float64}
use zenoh_perf.Throughput.Monitor.{
  Labels, MonitorEvent, add, second, Monitored, at_start, t_sub_monitor, run_monitor, added, rates,
  Exact, rates_conserved,
}
use zenoh_perf.Throughput.Programs.{thr_message, pub_main_sent}
use zenoh_perf.Throughput.TransportPrograms.{
  TPubOpt, TSubOpt, Handling, ThrEvent, connects, receives, second_ends, t_sub_events, t_sub_main,
  t_pub_main,
}

abbrev pub messages_of : {M : Type 0} → List (ThrEvent M) → List M
messages_of [] = []
messages_of (connects ∷ es) = messages_of es
messages_of (receives m ∷ es) = m ∷ messages_of es
messages_of (second_ends elapsed ∷ es) = messages_of es

-- The events as the counter and its task see them.
abbrev pub counted : {M : Type 0} → List (ThrEvent M) → List MonitorEvent
counted [] = []
counted (connects ∷ es) = counted es
counted (receives m ∷ es) = add 1 ∷ counted es
counted (second_ends elapsed ∷ es) = second elapsed ∷ counted es

module _ (float : Float64) where
  added-counted :
      {M : Type 0} (es : List (ThrEvent M)) → added float (counted es) ≡ length (messages_of es)
  added-counted [] = refl
  added-counted (connects ∷ es) = added-counted es
  added-counted (receives m ∷ es) = omega (arith, added-counted es)
  added-counted (second_ends elapsed ∷ es) = added-counted es

  -- Once it is active, with its one task.
  t_sub_events-active :
      {M : Type 0} (labels : Labels) (es : List (ThrEvent M)) (s : Monitored)
      → t_sub_events float es (record { labels = labels; active = true; tasks = 1; seen = s })
        ≡ record {
          labels = labels;
          active = true;
          tasks = 1;
          seen = run_monitor float (t_sub_monitor float labels) (counted es) s;
        }
  unfolding t_sub_events run_monitor
  t_sub_events-active labels [] s = refl
  t_sub_events-active labels (connects ∷ es) s = t_sub_events-active labels es s
  t_sub_events-active labels (receives m ∷ es) s =
      t_sub_events-active labels es (record s { count = (s.count + 1) % 2 ^ 64 })
  t_sub_events-active labels (second_ends elapsed ∷ es) s =
      t_sub_events-active labels es (t_sub_monitor float labels elapsed s)

module _ (io : ZBufIo) {E : Type 0} (lib : ManagerLib E ℕ) (up : ℕ → Bool) where
  open io use {ZBuf}
  open lib use {Manager, File, build, listens, opens}

  length-AllOpen :
      (m : Manager) (n : ℕ) (es : List E) (ts : List ℕ)
      → AllOpen lib m n es ts
      → length ts ≡ length es
  length-AllOpen m n [] [] h = refl
  length-AllOpen m n [] (t ∷ ts) h = absurd h
  length-AllOpen m n (e ∷ es) [] h = absurd h
  length-AllOpen m n (e ∷ es) (t ∷ ts) h = omega (arith, length-AllOpen m (n + 1) es ts h.1)

  without_file : (mode : WhatAmI) → builder lib none mode ≡ done (lib.whatami mode)
  unfolding builder
  without_file mode = refl

  subscriber_started :
      (path : Option File) (mode : WhatAmI) (endpoint : List E) (m : Manager)
      → path ≡ none
      → mode ≡ peer
      → build (lib.whatami router) ≡ some m
      → AllListen (opens m) (listens m) endpoint
      → t_sub_thr lib path mode endpoint
        ≡ done (record { manager = m; listening = endpoint; opened = [] })
  subscriber_started path mode endpoint m p q b l =
      ap (λ x. t_sub_thr lib x mode endpoint) p
      ∙ ap (λ w. t_sub_thr lib none w endpoint) q
      ∙ unfold t_sub_thr builder in simp (b, listen_all-AllListen (opens m) (listens m) endpoint l)

  messages-sent :
      {M : Type 0} (m : M) (sent : List ℕ)
      → map (λ (s : ℕ × M). s.1) (map (λ t. (t, m)) sent) ≡ replicate (length sent) m
  messages-sent m [] = refl
  messages-sent m (t ∷ sent) = ap (λ ms. m ∷ ms) (messages-sent m sent)

  -- With the same endpoints and no files, t_pub_thr opens a transport to each endpoint in every mode,
  -- and t_sub_thr as a peer listens on each, with a manager that is built for a router. When the first
  -- event of t_sub_thr is a connection, and its messages are as many as some turns of t_pub_thr
  -- times the endpoints, with connections and seconds of exactly a second anywhere between them,
  -- t_sub_thr has one monitoring task, and the rates that this has printed and what is still counted
  -- are the turns times the endpoints together. The managers can be built, listen and open the
  -- transports, these take every message, the payload option of t_pub_thr is one that Rust can
  -- allocate, and the product is below 2^53 and the turns below 2^64.
  pub main_counted :
      (float : Float64) (publ : TPubOpt E File) (sub : TSubOpt E File)
      (pub_manager sub_manager : Manager) (ts : List ℕ) (turns : ℕ)
      (events : List (ThrEvent (ZenohMessage ZBuf)))
      → publ.config ≡ none
      → sub.config ≡ none
      → sub.mode ≡ peer
      → sub.endpoint ≡ publ.endpoint
      → build (lib.whatami publ.mode) ≡ some pub_manager
      → build (lib.whatami router) ≡ some sub_manager
      → AllListen (opens sub_manager) (listens sub_manager) sub.endpoint
      → AllOpen lib pub_manager 0 publ.endpoint ts
      → AllUp up ts
      → publ.payload < 2 ^ 63
      → turns < 2 ^ 64
      → turns * length publ.endpoint < 2 ^ 53
      → messages_of events
        ≡ replicate
            (turns * length publ.endpoint)
            (thr_message io (id 1) (replicate publ.payload 0))
      → Exact float (counted events)
      → (sent : List (ℕ × ZenohMessage ZBuf)) × (after : Handling) × (t_pub_main io lib up publ
            turns
          ≡ done (sent, record { count = turns; printed = [] }))
        × (map (λ s. s.1) sent ≡ messages_of events)
        × (t_sub_main io lib float sub (connects ∷ events)
            ≡ done (record { manager = sub_manager; listening = sub.endpoint; opened = [] }, after))
        × (after.tasks ≡ 1)
        × (after.seen.count + rates float after.seen.lines ≡ turns * length publ.endpoint)
  unfolding t_pub_main t_sub_main
  main_counted float publ sub pub_manager sub_manager ts turns events pc sc sm same pb sb l o all_up
        fits few small all exact =
      let message : ZenohMessage ZBuf = thr_message io (id 1) (replicate publ.payload 0) in
      let path : builder lib publ.config publ.mode ≡ done (lib.whatami publ.mode) =
        ap (λ p. builder lib p publ.mode) pc ∙ without_file publ.mode in
      let (sent, e, each, size) =
        pub_main_sent io lib up publ.config publ.mode publ.endpoint publ.payload turns
          (lib.whatami publ.mode) pub_manager ts path pb o all_up fits few in
      let total : length sent ≡ turns * length publ.endpoint =
        size ∙ ap (λ n. turns * n) (length-AllOpen pub_manager 0 publ.endpoint ts o) in
      let labels : Labels = record {
        scenario = sub.scenario;
        name = sub.name;
        payload = sub.payload;
      } in
      let s : Monitored =
        run_monitor float (t_sub_monitor float labels) (counted events) at_start in
      let many : added float (counted events) ≡ turns * length publ.endpoint =
        added-counted float events
        ∙ ap length all
        ∙ length-replicate (turns * length publ.endpoint) message in
      (
        map (λ t. (t, message)) sent,
        record { labels = labels; active = true; tasks = 1; seen = s },
        e,
        messages-sent message sent ∙ ap (λ n. replicate n message) total ∙ sym all,
        simp (
          subscriber_started sub.config sub.mode sub.endpoint sub_manager sc sm sb l,
          t_sub_events-active float labels events at_start,
        ),
        refl,
        rates_conserved float "session" labels (counted events) exact (omega (arith, many)) ∙ many,
      )
