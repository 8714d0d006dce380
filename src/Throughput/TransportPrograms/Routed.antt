-- ===== src/Throughput/TransportPrograms/Routed.antt =====
-- `main` of t_router_thr.rs in throughput/src/bin, and t_pub_thr.rs in front of it.
use zenoh_perf.Base.{
  ℕ, ◌+◌, ◌*◌, ◌^◌, ◌<◌, ◌≡◌, refl, ap, ◌∙◌, ◌≢◌, Bool, true, some, Option, List, [], ◌∷◌, map,
  arith, get_elem?, length, replicate, occurrences, occurrences-cons, occurrences-nil, Outcome,
  done, ◌>>=◌,
}
use zenoh_perf.Proto.{ZBufIo, router, id}
use zenoh_perf.Startup.Dial.{AllListen, listen_all-AllListen}
use zenoh_perf.Startup.Manager.{ManagerLib, Started, builder, some_endpoint, t_router_thr}
use zenoh_perf.Startup.Manager.Pairs.{AllOpen, open_all-AllOpen}
use zenoh_perf.Throughput.Counter.{sum}
use zenoh_perf.Throughput.Subscriber.{MySh}
use zenoh_perf.Throughput.Router.{SlabLib, RouterState, connect_all}
use zenoh_perf.Throughput.Pipeline.{pipeline, pipeline_counts}
use zenoh_perf.Throughput.Programs.{thr_message, pub_main_sent}
use zenoh_perf.Throughput.TransportPrograms.{TPubOpt, t_pub_main}

-- `struct Opt` of t_router_thr
pub record TRouterOpt (E F : Type 0) : Type 0 where
  pub listen : List E
  pub connect : List E
  pub config : Option F

module _ (slab : SlabLib) {E : Type 0} (lib : ManagerLib E ℕ) where
  open lib use {Manager, Builder, File, build, listens, opens}

  -- With the transports that have joined its table, opened or accepted, the newest first.
  unfoldable pub t_router_main :
      TRouterOpt E File → List ℕ → Outcome (Started Manager E ℕ × RouterState slab)
  unfolding t_router_thr connect_all
  t_router_main opt joined = do
    started ← t_router_thr lib opt.config opt.listen opt.connect
    done (started, connect_all slab joined)

  router_started :
      (opt : TRouterOpt E File) (b : Builder) (m : Manager) (ts : List ℕ)
      → builder lib opt.config router ≡ done b
      → build b ≡ some m
      → AllListen (opens m) (listens m) opt.listen
      → AllOpen lib m 0 opt.connect ts
      → 0 < length opt.listen + length opt.connect
      → t_router_thr lib opt.config opt.listen opt.connect
        ≡ done (record { manager = m; listening = opt.listen; opened = ts })
  unfolding t_router_thr some_endpoint
  router_started opt b m ts p q l o some_one = simp (
    given opt.listen opt.connect some_one,
    p,
    q,
    listen_all-AllListen (opens m) (listens m) opt.listen l,
    open_all-AllOpen lib m 0 opt.connect ts o,
  )
    where
      given : (es fs : List E) → 0 < length es + length fs → some_endpoint lib es fs ≡ done tt
      given [] [] h = absurd (omega arith)
      given [] (f ∷ fs) h = refl
      given (e ∷ es) fs h = refl

  -- t_router_thr listens and dials by its options, and t_pub_thr, in any mode, opens one transport to
  -- it. When the transports that join the router's table are those that it dialled and the one from
  -- t_pub_thr, in any order, a t_sub_thr that it has dialled once has printed or still counts exactly
  -- the turns of t_pub_thr, with one monitoring task, and any seconds in between. The router's own
  -- transport to t_pub_thr is another one, the managers can be built, listen and open the transports,
  -- the files, if any, can be read, the transport of t_pub_thr takes its messages, its payload option
  -- is one that Rust can allocate, and the turns are below 2^64.
  pub router_relays :
      (io : ZBufIo) (up : ℕ → Bool) (opt : TRouterOpt E File) (publ : TPubOpt E File)
      (b c : Builder) (m pub_manager : Manager) (e : E) (ts joined : List ℕ)
      (i index own link x turns : ℕ) (schedule : List Bool)
      → builder lib opt.config router ≡ done b
      → build b ≡ some m
      → AllListen (opens m) (listens m) opt.listen
      → AllOpen lib m 0 opt.connect ts
      → 0 < length opt.listen + length opt.connect
      → ((t : ℕ) → occurrences t joined ≡ occurrences t (own ∷ ts))
      → get_elem? (connect_all slab joined).handlers i ≡ some (index, own)
      → own ≢ x
      → occurrences x ts ≡ 1
      → publ.endpoint ≡ e ∷ []
      → builder lib publ.config publ.mode ≡ done c
      → build c ≡ some pub_manager
      → opens pub_manager 0 e ≡ some link
      → up link ≡ true
      → publ.payload < 2 ^ 63
      → turns < 2 ^ 64
      → (t_router_main opt joined
          ≡ done (
            record { manager = m; listening = opt.listen; opened = ts },
            connect_all slab joined,
          ))
        × (sent : List ℕ) × (t_pub_main io lib up publ turns
            ≡ done (
              map (λ t. (t, thr_message io (id 1) (replicate publ.payload 0))) sent,
              record { count = turns; printed = [] },
            ))
        × (occurrences link sent ≡ turns)
        × (sub : MySh) × (pipeline slab up turns
              (link ∷ [])
              (connect_all slab joined)
              link
              index
              x
              schedule
            ≡ done sub)
        × (sub.monitors ≡ 1)
        × (sub.counter.count + sum sub.counter.printed ≡ turns)
  unfolding t_router_main t_pub_main
  router_relays io up opt publ b c m pub_manager e ts joined i index own link x turns schedule p q l
        o some_one all at other once one pb pm dial takes fits few =
      let started = router_started opt b m ts p q l o some_one in
      let opened : AllOpen lib pub_manager 0 publ.endpoint (link ∷ []) = rw one (dial, tt) in
      let (sent, e, each, size) =
        pub_main_sent io lib up publ.config publ.mode publ.endpoint publ.payload turns c pub_manager
          (link ∷ []) pb pm opened (takes, tt) fits few in
      let on_link : occurrences link (link ∷ []) ≡ 1 =
        ground (arith, occurrences-cons link link [], occurrences-nil link) in
      let joined_once : occurrences x joined ≡ 1 =
        ground (arith, all x, occurrences-cons x own ts, once, other) in
      let product : turns * occurrences link (link ∷ []) * occurrences x joined ≡ turns =
        rw (on_link, joined_once) (omega arith) in
      let (sub, ran, one_task, counted) =
        pipeline_counts slab up turns (link ∷ []) joined i index own link x schedule (takes, tt) at
          other few (omega (arith, product)) in
      (
        simp started,
        sent,
        e,
        each link ∙ ap (λ n. turns * n) on_link ∙ omega arith,
        sub,
        ran,
        one_task,
        counted ∙ product,
      )
