-- ===== src/Throughput/Programs.antt =====
-- `main` of t_pub_thr.rs and of t_pubsub_thr.rs in throughput/src/bin, from the options to so many turns
-- of the loop. A transport is a number that names it; `up` says whether its `handle_message` succeeds.
use zenoh_perf.Base.{
  ℕ, zero, suc, ap, ◌∙◌, inl, inr, Option-cases, ◌+◌, ◌*◌, ◌^◌, ◌<◌, ◌≡◌, Bool, true, Option, none,
  some, List, [], ◌∷◌, map, arith, length, get_elem?, occurrences, Outcome, done, panic,
  unwrap_none, replicate, ◌>>=◌,
}
use zenoh_perf.Proto.{
  ZBufIo, WhatAmI, KeyExpr, name, id, data_body, ZenohMessage, data_channel, block,
}
use zenoh_perf.Latency.Report.{zeroed}
use zenoh_perf.Throughput.Counter.{Counter, fresh}
use zenoh_perf.Throughput.Publisher.{publish, published, AllUp}
use zenoh_perf.Startup.Dial.{Answers, AllListen, Opened, transports, transports-Opened}
use zenoh_perf.Startup.Manager.{ManagerLib, builder, open_all, t_pub_thr, t_pubsub_thr}
use zenoh_perf.Startup.Manager.Pairs.{AllOpen, open_all-AllOpen}

module _ (io : ZBufIo) where
  open io use {ZBuf, from}

  -- The message of every turn; the key is the number 1 in t_pub_thr, and "test" in t_pubsub_thr.
  unfoldable pub thr_message : KeyExpr → List ℕ → ZenohMessage ZBuf
  thr_message key zeros = record {
    key = key;
    body = data_body (from zeros) none;
    channel = data_channel;
    congestion_control = block;
  }

  module _ {E : Type 0} (lib : ManagerLib E ℕ) (up : ℕ → Bool) where
    open lib use {File, Manager, Builder, build, listens, opens}

    -- What the loop sends, with the transport of each message, and its counter.
    abbrev pub Loop : Type 0
    Loop = List (ℕ × ZenohMessage ZBuf) × Counter

    unfoldable pub thr_loop : KeyExpr → ℕ → ℕ → List ℕ → Outcome Loop
    unfolding zeroed thr_message
    thr_loop key payload turns transports = do
      zeros ← zeroed payload
      (sent, c) ← publish up turns transports fresh
      done (map (λ t. (t, thr_message key zeros)) sent, c)

    unfoldable pub t_pub_thr_main : Option File → WhatAmI → List E → ℕ → ℕ → Outcome Loop
    unfolding t_pub_thr thr_loop
    t_pub_thr_main path mode endpoint payload turns = do
      started ← t_pub_thr lib path mode endpoint
      thr_loop (id 1) payload turns started.opened

    -- `none` when a dial has used up its calls.
    unfoldable pub t_pubsub_thr_main :
        ℕ → Option File → WhatAmI → List E → List E → ℕ → ℕ → Outcome (Option Loop)
    unfolding t_pubsub_thr thr_loop
    t_pubsub_thr_main calls path mode listen connect payload turns = do
      started ← t_pubsub_thr lib calls path mode listen connect
      elim started [
        | none ↦ done none
        | some s ↦ do loop ← thr_loop (name "test") payload turns s.opened; done (some loop)
      ]

    thr_loop-AllUp :
        (key : KeyExpr) (payload turns : ℕ) (ts : List ℕ)
        → payload < 2 ^ 63
        → AllUp up ts
        → turns < 2 ^ 64
        → (sent : List ℕ) × (thr_loop key payload turns ts
            ≡ done (
              map (λ t. (t, thr_message key (replicate payload 0))) sent,
              record { count = turns; printed = [] },
            ))
          × ((t : ℕ) → occurrences t sent ≡ turns * occurrences t ts)
          × (length sent ≡ turns * length ts)
    unfolding thr_loop
    thr_loop-AllUp key payload turns ts fits all_up few =
        let (sent, e, each, size) = published up turns ts fresh all_up (omega arith) in
        (sent, ground (arith, e), each, size)

    -- When its endpoints open transports that take its messages, t_pub_thr sends its message to each
    -- of these, once for each time that it was opened and each turn, and counts the turns. The manager
    -- can be built, the payload option is one that Rust can allocate, and the turns are below 2^64.
    pub pub_main_sent :
        (path : Option File) (mode : WhatAmI) (endpoint : List E) (payload turns : ℕ) (b : Builder)
        (m : Manager) (ts : List ℕ)
        → builder lib path mode ≡ done b
        → build b ≡ some m
        → AllOpen lib m 0 endpoint ts
        → AllUp up ts
        → payload < 2 ^ 63
        → turns < 2 ^ 64
        → (sent : List ℕ) × (t_pub_thr_main path mode endpoint payload turns
            ≡ done (
              map (λ t. (t, thr_message (id 1) (replicate payload 0))) sent,
              record { count = turns; printed = [] },
            ))
          × ((t : ℕ) → occurrences t sent ≡ turns * occurrences t ts)
          × (length sent ≡ turns * length ts)
    unfolding t_pub_thr_main t_pub_thr
    pub_main_sent path mode endpoint payload turns b m ts built managed opened all_up fits few =
        let (sent, e, each, size) = thr_loop-AllUp (id 1) payload turns ts fits all_up few in
        (sent, simp (built, managed, open_all-AllOpen lib m 0 endpoint ts opened, e), each, size)

    open_all-refused :
        (m : Manager) (n i : ℕ) (endpoint : List E) (e : E)
        → get_elem? endpoint i ≡ some e
        → opens m (n + i) e ≡ none
        → open_all lib m n endpoint ≡ panic unwrap_none
    unfolding open_all
    open_all-refused m n i [] e at down = ground arith
    open_all-refused m n zero (f ∷ endpoint) e at down =
        let here : opens m n e ≡ none = ap (λ k. opens m k e) (omega arith) ∙ down in
        ground (arith, here)
    open_all-refused m n (suc i) (f ∷ endpoint) e at down =
        let later : opens m (n + 1 + i) e ≡ none = ap (λ k. opens m k e) (omega arith) ∙ down in
        let rest = open_all-refused m (n + 1) i endpoint e at later in
        elim (Option-cases (opens m n f)) [
          | inl refused ↦ simp refused
          | inr (t, opened) ↦ simp (opened, rest)
        ]

    -- One endpoint that cannot be reached, and t_pub_thr panics before it sends anything, whatever the
    -- others do.
    pub_main_refused :
        (path : Option File) (mode : WhatAmI) (endpoint : List E) (payload turns : ℕ) (b : Builder)
        (m : Manager) (i : ℕ) (e : E)
        → builder lib path mode ≡ done b
        → build b ≡ some m
        → get_elem? endpoint i ≡ some e
        → opens m i e ≡ none
        → t_pub_thr_main path mode endpoint payload turns ≡ panic unwrap_none
    unfolding t_pub_thr_main t_pub_thr
    pub_main_refused path mode endpoint payload turns b m i e built managed at down =
        let refused =
          open_all-refused m 0 i endpoint e at (ap (λ k. opens m k e) (omega arith) ∙ down) in
        simp (built, managed, refused)

    AllUp-all : ((t : ℕ) → up t ≡ true) → (ts : List ℕ) → AllUp up ts
    AllUp-all all_up [] = tt
    AllUp-all all_up (t ∷ ts) = (all_up t, AllUp-all all_up ts)

    -- With dials that succeed within `patience` + 1 calls and transports that take its messages,
    -- t_pubsub_thr opens a transport for each endpoint to connect to, in order, and sends its message
    -- to each, once for each time that it was opened and each turn. The manager can be built and
    -- listens where it is told to, and there is an endpoint.
    pub pubsub_main_sent :
        (patience : ℕ) (path : Option File) (mode : WhatAmI) (listen connect : List E)
        (payload turns : ℕ) (b : Builder) (m : Manager)
        → builder lib path mode ≡ done b
        → build b ≡ some m
        → Answers (opens m) (listens m) patience
        → AllListen (opens m) (listens m) listen
        → 0 < length listen + length connect
        → ((t : ℕ) → up t ≡ true)
        → payload < 2 ^ 63
        → turns < 2 ^ 64
        → (ts : List ℕ) × (sent : List ℕ) × Opened (opens m) (listens m) ts connect
          × (t_pubsub_thr_main (patience + 1) path mode listen connect payload turns
              ≡ done (
                  some (
                    map (λ t. (t, thr_message (name "test") (replicate payload 0))) sent,
                    record { count = turns; printed = [] },
                  )))
          × ((t : ℕ) → occurrences t sent ≡ turns * occurrences t ts)
          × (length sent ≡ turns * length ts)
    unfolding t_pubsub_thr_main t_pubsub_thr
    pubsub_main_sent patience path mode listen connect payload turns b m built managed answers l
          some_endpoint all_up fits few =
        let (ts, calls, dialled, bound, opened) =
          transports-Opened (opens m) (listens m) patience listen connect answers l some_endpoint in
        let (sent, e, each, size) =
          thr_loop-AllUp (name "test") payload turns ts fits (AllUp-all all_up ts) few in
        (ts, sent, opened, simp (built, managed, dialled, e), each, size)
