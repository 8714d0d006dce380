-- ===== src/Throughput/Pipeline.antt =====
-- t_pub_thr.rs, t_router_thr.rs and t_sub_thr.rs of throughput/src/bin run together: a publisher whose
-- transports are `links`, a router that is one of the other ends, and a subscriber behind the router.
use zenoh_perf.Base.{
  ℕ, zero, suc, ◌+◌, ◌*◌, ◌^◌, ◌<◌, ◌≡◌, refl, ◌∙◌, ◌≢◌, Bool, true, false, List, [], ◌∷◌, ◌++◌,
  some, arith, ◌==◌, if◌then◌else◌, Bool-cases, inl, inr, get_elem?, occurrences,
  occurrences-append, occurrences-nil, occurrences-cons, Outcome, done, ◌>>=◌,
}
use zenoh_perf.Throughput.Counter.{fresh, sum, tick, tick-Keeps}
use zenoh_perf.Throughput.Publisher.{publish, published, AllUp}
use zenoh_perf.Throughput.Router.{SlabLib, RouterState, handle_message, connect_all}
use zenoh_perf.Throughput.Router.Forwarding.{forwarded_to_others}
use zenoh_perf.Throughput.Subscriber.{
  MySh, new_sh, TransportEvent, connected, message, monitored, run_transport, messages_in,
  subscriber_counts,
}

-- What reaches a subscriber that so many messages are sent to, with seconds in between: `true` is a
-- second, `false` the next message, and behind the list come the messages that are left.
unfoldable pub spread : List Bool → ℕ → List TransportEvent
spread [] zero = []
spread [] (suc n) = message ∷ spread [] n
spread (true ∷ schedule) n = monitored ∷ spread schedule n
spread (false ∷ schedule) zero = spread schedule zero
spread (false ∷ schedule) (suc n) = message ∷ spread schedule n

messages_in-spread : (schedule : List Bool) (n : ℕ) → messages_in (spread schedule n) ≡ n
unfolding spread
messages_in-spread [] zero = refl
messages_in-spread [] (suc n) = omega (arith, messages_in-spread [] n)
messages_in-spread (true ∷ schedule) n = messages_in-spread schedule n
messages_in-spread (false ∷ schedule) zero = messages_in-spread schedule zero
messages_in-spread (false ∷ schedule) (suc n) = omega (arith, messages_in-spread schedule n)

-- A subscriber after one connection and so many messages, with any seconds in between.
pub received :
    (schedule : List Bool) (n : ℕ)
    → n < 2 ^ 64
    → let sub = run_transport tick (connected ∷ spread schedule n) new_sh in
      (sub.monitors ≡ 1) × (sub.counter.count + sum sub.counter.printed ≡ n)
received schedule n room =
    let size = messages_in-spread schedule n in
    let (one, counted) =
      subscriber_counts tick tick-Keeps (connected ∷ spread schedule n) (omega (arith, size)) in
    (one ∙ ground arith, omega (arith, counted, size))

module _ (lib : SlabLib) where
  -- The transports that the router sends to for the messages that it gets: those for `link`, which
  -- its handler `index` receives.
  unfoldable pub route_all : RouterState lib → ℕ → ℕ → List ℕ → List ℕ
  route_all s link index [] = []
  route_all s link index (t ∷ sent) =
      let rest = route_all s link index sent in
      if t == link then handle_message lib index s ++ rest else rest

  one_more :
      (s : RouterState lib) (link index x t : ℕ) (sent : List ℕ)
      → (t == link) ≡ true
      → occurrences x (route_all s link index sent)
        ≡ occurrences link sent * occurrences x (handle_message lib index s)
      → occurrences x (route_all s link index (t ∷ sent))
        ≡ occurrences link (t ∷ sent) * occurrences x (handle_message lib index s)
  unfolding route_all
  one_more s link index x t sent e rest =
      let one : occurrences link (t ∷ sent) ≡ suc (occurrences link sent) =
        ground (arith, occurrences-cons link t sent, e) in
      rw (one, e)
        (omega (
          arith,
          occurrences-append x (handle_message lib index s) (route_all s link index sent),
          rest,
        ))

  occurrences-route_all :
      (s : RouterState lib) (link index x : ℕ) (sent : List ℕ)
      → occurrences x (route_all s link index sent)
        ≡ occurrences link sent * occurrences x (handle_message lib index s)
  unfolding route_all
  occurrences-route_all s link index x [] = grind (arith, occurrences-nil x, occurrences-nil link)
  occurrences-route_all s link index x (t ∷ sent) =
      let rest = occurrences-route_all s link index x sent in
      elim (Bool-cases (t == link)) [
        | inl e ↦ one_more s link index x t sent e rest
        | inr e ↦ ground (arith, occurrences-cons link t sent, e, rest)
      ]

  routed :
      (ts : List ℕ) (i index own link x : ℕ) (sent : List ℕ) (n : ℕ)
      → get_elem? (connect_all lib ts).handlers i ≡ some (index, own)
      → own ≢ x
      → occurrences link sent ≡ n
      → occurrences x (route_all (connect_all lib ts) link index sent) ≡ n * occurrences x ts
  routed ts i index own link x sent n at other size =
      let reach : occurrences x (handle_message lib index (connect_all lib ts)) ≡ occurrences x ts =
        ground (arith, forwarded_to_others lib ts i index own at x, other) in
      cc (occurrences-route_all (connect_all lib ts) link index x sent, reach, size)

  -- So many turns of the publisher, and the subscriber at the router's transport `x` afterwards.
  unfoldable pub pipeline :
      (ℕ → Bool) → ℕ → List ℕ → RouterState lib → ℕ → ℕ → ℕ → List Bool → Outcome MySh
  unfolding route_all spread
  pipeline up turns links s link index x schedule = do
    (sent, c) ← publish up turns links fresh
    done (
        run_transport tick
          (connected ∷ spread schedule (occurrences x (route_all s link index sent))) new_sh)

  -- With any seconds in between, a subscriber has one monitoring task, and what this has printed and
  -- what is still counted add up to the publisher's turns, once for each time that the router is among
  -- the publisher's transports and the subscriber among the router's. The router's own transport to
  -- the publisher is another one, every transport of the publisher takes its messages, and the counts
  -- stay below 2^64.
  pub pipeline_counts :
      (up : ℕ → Bool) (turns : ℕ) (links ts : List ℕ) (i index own link x : ℕ)
      (schedule : List Bool)
      → AllUp up links
      → get_elem? (connect_all lib ts).handlers i ≡ some (index, own)
      → own ≢ x
      → turns < 2 ^ 64
      → turns * occurrences link links * occurrences x ts < 2 ^ 64
      → (sub : MySh) × (pipeline up turns links (connect_all lib ts) link index x schedule
          ≡ done sub)
        × (sub.monitors ≡ 1)
        × (sub.counter.count + sum sub.counter.printed
            ≡ turns * occurrences link links * occurrences x ts)
  unfolding pipeline
  pipeline_counts up turns links ts i index own link x schedule all_up at other few room =
      let s = connect_all lib ts in
      let (sent, e, each, size) = published up turns links fresh all_up (omega arith) in
      let total =
        routed ts i index own link x sent (turns * occurrences link links) at other (each link) in
      let (one, counted) =
        received schedule (occurrences x (route_all s link index sent))
          (omega (arith, total, room)) in
      (
        run_transport tick
            (connected ∷ spread schedule (occurrences x (route_all s link index sent))) new_sh,
        simp e,
        one,
        omega (arith, counted, total),
      )
