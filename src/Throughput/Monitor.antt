-- ===== src/Throughput/Monitor.antt =====
-- The task that prints the throughput: of t_sub_thr.rs ("session"), r_sub_thr.rs ("router") and
-- z_sub_thr.rs ("zenoh") in throughput/src/bin. `elapsed` is how long a second was, in micros.
use zenoh_perf.Base.{
  ℕ, ◌+◌, ◌%◌, ◌^◌, ◌<◌, ◌≡◌, refl, String, List, [], ◌∷◌, arith, ltb, if◌then◌else◌,
}
use zenoh_perf.Throughput.Rate.{Float64, rate, rate_reversed}

-- The options that the lines repeat.
pub record Labels : Type 0 where
  pub scenario : String
  pub name : String
  pub payload : ℕ

-- "{stack},{scenario},throughput,{name},{payload},{rate}"
pub record RateLine : Type 0 where
  pub stack : String
  pub labels : Labels
  pub rate : ℕ

-- What reaches the counter and the task, in order.
pub data MonitorEvent : Type 0 where
  add : ℕ → MonitorEvent
  second : (elapsed : ℕ) → MonitorEvent

-- The counter's value, and the lines printed, the newest first.
pub record Monitored : Type 0 where
  pub count : ℕ
  pub lines : List RateLine

abbrev pub at_start : Monitored
at_start = record { count = 0; lines = [] }

module _ (float : Float64) where
  -- A turn of the loop: `let c = count.swap(0, …); if c > 0 { println!(…) }`
  unfoldable pub monitor : String → Labels → ℕ → Monitored → Monitored
  monitor stack labels elapsed s =
      if ltb 0 s.count
      then record {
        count = 0;
        lines =
            record { stack = stack; labels = labels; rate = rate float s.count elapsed } ∷ s.lines;
      }
      else record s { count = 0 }

  -- `MySH::new_unicast` of t_sub_thr, `main` of r_sub_thr, `measure` of z_sub_thr.
  abbrev pub t_sub_monitor : Labels → ℕ → Monitored → Monitored
  t_sub_monitor = monitor "session"

  abbrev pub r_sub_monitor : Labels → ℕ → Monitored → Monitored
  r_sub_monitor = monitor "router"

  abbrev pub z_sub_monitor : Labels → ℕ → Monitored → Monitored
  z_sub_monitor = monitor "zenoh"

  unfoldable pub run_monitor :
      (ℕ → Monitored → Monitored) → List MonitorEvent → Monitored → Monitored
  run_monitor on_second [] s = s
  run_monitor on_second (add n ∷ es) s =
      run_monitor on_second es (record s { count = (s.count + n) % 2 ^ 64 })
  run_monitor on_second (second elapsed ∷ es) s = run_monitor on_second es (on_second elapsed s)

  abbrev pub added : List MonitorEvent → ℕ
  added [] = 0
  added (add n ∷ es) = n + added es
  added (second elapsed ∷ es) = added es

  abbrev pub rates : List RateLine → ℕ
  rates [] = 0
  rates (l ∷ ls) = l.rate + rates ls

  -- Every second lasts its 10^6 micros.
  abbrev pub Exact : List MonitorEvent → Type 0
  Exact [] = Unit
  Exact (add n ∷ es) = Exact es
  Exact (second elapsed ∷ es) = (elapsed ≡ 1000000) × Exact es

  rate-exact : (c elapsed : ℕ) → c < 2 ^ 53 → elapsed ≡ 1000000 → rate float c elapsed ≡ c
  rate-exact c elapsed small e =
      let r =
        rate_reversed float c elapsed elapsed small (omega (arith, e)) (omega (arith, e))
          (omega (arith, e)) in
      omega (arith, r)

  -- A second of exactly a second reports the count.
  pub monitor-exact :
      (stack : String) (labels : Labels) (n : ℕ)
      → 0 < n
      → n < 2 ^ 53
      → (monitor stack labels 1000000 (record { count = n; lines = [] })).lines
        ≡ record { stack = stack; labels = labels; rate = n } ∷ []
  unfolding monitor
  monitor-exact stack labels n some_count small = ground (arith, rate-exact n 1000000 small refl)

  monitor-total :
      (stack : String) (labels : Labels) (elapsed : ℕ) (s : Monitored)
      → s.count < 2 ^ 53
      → elapsed ≡ 1000000
      → ((monitor stack labels elapsed s).count ≡ 0)
        × (rates (monitor stack labels elapsed s).lines ≡ s.count + rates s.lines)
  unfolding monitor
  monitor-total stack labels elapsed s small e =
      (ground arith, ground (arith, rate-exact s.count elapsed small e))

  run_monitor-total :
      (stack : String) (labels : Labels) (es : List MonitorEvent) (s : Monitored)
      → Exact es
      → s.count + added es < 2 ^ 53
      → (run_monitor (monitor stack labels) es s).count
          + rates (run_monitor (monitor stack labels) es s).lines
        ≡ s.count + rates s.lines + added es
  unfolding run_monitor
  run_monitor-total stack labels [] s exact few = omega arith
  run_monitor-total stack labels (add n ∷ es) s exact few = omega (
    arith,
    run_monitor-total stack labels es (record s { count = (s.count + n) % 2 ^ 64 }) exact
        (omega arith),
  )
  run_monitor-total stack labels (second elapsed ∷ es) s exact few =
      let step = monitor-total stack labels elapsed s (omega arith) exact.0 in
      omega (
        arith,
        step,
        run_monitor-total stack labels es (monitor stack labels elapsed s) exact.1
            (omega (arith, step)),
      )

  -- When the seconds of a monitor last exactly a second each, the rates that it has printed and what
  -- is still counted add up to all that was added, however additions and seconds follow each other,
  -- if that is below 2^53. This holds of the three programs.
  pub rates_conserved :
      (stack : String) (labels : Labels) (es : List MonitorEvent)
      → Exact es
      → added es < 2 ^ 53
      → (run_monitor (monitor stack labels) es at_start).count
          + rates (run_monitor (monitor stack labels) es at_start).lines
        ≡ added es
  rates_conserved stack labels es exact few =
      omega (arith, run_monitor-total stack labels es at_start exact (omega arith))
