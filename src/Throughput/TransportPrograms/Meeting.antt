-- ===== src/Throughput/TransportPrograms/Meeting.antt =====
-- Two runs of throughput/src/bin/t_pubsub_thr.rs: one publishes to where the other listens.
use zenoh_perf.Base.{
  ℕ, ◌+◌, ◌*◌, ◌^◌, ◌<◌, ◌≡◌, refl, ap, ◌∙◌, sym, Bool, true, some, List, [], ◌∷◌, map, arith,
  replicate, length, done,
}
use zenoh_perf.Proto.{ZBufIo, name}
use zenoh_perf.Startup.Dial.{Answers, AllListen, Opened}
use zenoh_perf.Startup.Manager.{ManagerLib, builder}
use zenoh_perf.Throughput.Counter.{sum, tick_always, tick_always-Keeps}
use zenoh_perf.Throughput.Subscriber.{
  MySh, new_sh, TransportEvent, connected, run_transport, messages_in, subscriber_counts,
}
use zenoh_perf.Throughput.Programs.{Loop, thr_message, pubsub_main_sent}
use zenoh_perf.Throughput.TransportPrograms.{TPubsubOpt, t_pubsub_main}

module _ (io : ZBufIo) {E : Type 0} (lib : ManagerLib E ℕ) (up : ℕ → Bool) where
  open lib use {Manager, Builder, File, build, listens, opens}

  length-Opened :
      (m : Manager) (ts : List ℕ) (es : List E)
      → Opened (opens m) (listens m) ts es
      → length ts ≡ length es
  length-Opened m [] [] h = refl
  length-Opened m [] (e ∷ es) h = absurd h
  length-Opened m (t ∷ ts) [] h = absurd h
  length-Opened m (t ∷ ts) (e ∷ es) h = omega (arith, length-Opened m ts es h.1)

  -- One of the two, with anything that reaches its handlers.
  runs :
      (patience : ℕ) (opt : TPubsubOpt E File) (turns : ℕ) (events : List TransportEvent)
      (b : Builder) (m : Manager)
      → builder lib opt.config opt.mode ≡ done b
      → build b ≡ some m
      → Answers (opens m) (listens m) patience
      → AllListen (opens m) (listens m) opt.listen
      → 0 < length opt.listen + length opt.connect
      → ((t : ℕ) → up t ≡ true)
      → opt.payload < 2 ^ 63
      → turns < 2 ^ 64
      → (sent : List ℕ) × (t_pubsub_main io lib up (patience + 1) opt turns events
          ≡ done (
              some (
                (
                  map (λ t. (t, thr_message io (name "test") (replicate opt.payload 0))) sent,
                  record { count = turns; printed = [] },
                ),
                run_transport tick_always events new_sh,
              )))
        × (length sent ≡ turns * length opt.connect)
  unfolding t_pubsub_main
  runs patience opt turns events b m built managed answers l some_endpoint all_up fits few =
      let (ts, sent, opened, e, each, size) =
        pubsub_main_sent io lib up patience opt.config opt.mode opt.listen opt.connect opt.payload
          turns b m built managed answers l some_endpoint all_up fits few in
      (sent, simp e, size ∙ ap (λ n. turns * n) (length-Opened m ts opt.connect opened))

  -- When one run of t_pubsub_thr listens on the endpoints that another connects to, and its handlers get
  -- a connection and then as many messages as the other sends in its turns, one to each endpoint in
  -- each, with connections and seconds anywhere between them, it has one monitoring task, and what
  -- this has printed and what is still counted are the messages sent. Both get through to their
  -- loops: their dials succeed within `patience` + 1 calls, they listen where they are told to, their
  -- managers can be built, and each has an endpoint. The transports take every message, the payload
  -- options are ones that Rust can allocate, and the turns and the messages are below 2^64.
  pub pubsub_meets :
      (patience : ℕ) (sender hearer : TPubsubOpt E File) (turns own_turns : ℕ)
      (others events : List TransportEvent) (a b : Builder) (m n : Manager)
      → builder lib sender.config sender.mode ≡ done a
      → builder lib hearer.config hearer.mode ≡ done b
      → build a ≡ some m
      → build b ≡ some n
      → Answers (opens m) (listens m) patience
      → Answers (opens n) (listens n) patience
      → AllListen (opens m) (listens m) sender.listen
      → AllListen (opens n) (listens n) hearer.listen
      → sender.connect ≡ hearer.listen
      → 0 < length sender.connect
      → ((t : ℕ) → up t ≡ true)
      → sender.payload < 2 ^ 63
      → hearer.payload < 2 ^ 63
      → turns < 2 ^ 64
      → own_turns < 2 ^ 64
      → messages_in events ≡ turns * length sender.connect
      → turns * length sender.connect < 2 ^ 64
      → (sent : List ℕ) × (own : Loop io lib up) × (heard : MySh) × (t_pubsub_main io lib up
            (patience + 1)
            sender
            turns
            others
          ≡ done (
              some (
                (
                  map (λ t. (t, thr_message io (name "test") (replicate sender.payload 0))) sent,
                  record { count = turns; printed = [] },
                ),
                run_transport tick_always others new_sh,
              )))
        × (t_pubsub_main io lib up (patience + 1) hearer own_turns (connected ∷ events)
            ≡ done (some (own, heard)))
        × (heard.monitors ≡ 1)
        × (heard.counter.count + sum heard.counter.printed ≡ length sent)
  pubsub_meets patience sender hearer turns own_turns others events a b m n pa pb qa qb ra rb la lb
        same some_endpoint all_up fits own_fits few own_few all small =
      let (sent, e, size) =
        runs patience sender turns others a m pa qa ra la (omega arith) all_up fits few in
      let served : length sender.connect ≡ length hearer.listen = ap length same in
      let (own_sent, f, own_size) =
        runs patience hearer own_turns (connected ∷ events) b n pb qb rb lb (omega (arith, served))
          all_up own_fits own_few in
      let (one, counted) =
        subscriber_counts tick_always tick_always-Keeps (connected ∷ events) (omega (arith, all)) in
      (sent, _, _, e, f, one ∙ ground arith, counted ∙ all ∙ sym size)
