-- ===== src/Query/Report.antt =====
-- The lines that the programs of the query throughput print every second, in query/src/bin: from what
-- their task has taken from `rtt` and `counter`, as in Query/Rates.
use native.Mathlib.Nat.{le-mul_of_pos_right}
use zenoh_perf.Base.{
  ℕ, ◌*◌, ◌^◌, ◌≤◌, ◌<◌, ◌≡◌, ap, ◌∙◌, String, Option, none, some, List, [], ◌∷◌, arith, ltb,
  if◌then◌else◌, length,
}
use zenoh_perf.Throughput.Counter.{sum}
use zenoh_perf.Throughput.Monitor.{Labels}
use zenoh_perf.Throughput.Rate.{Float64, rate, rate_reversed}

-- "{stack},{scenario},query.throughput,{name},{payload},{rate},{average}"
pub record ReportLine : Type 0 where
  pub stack : String
  pub labels : Labels
  pub rate : ℕ
  pub average : ℕ

module _ (float : Float64) where
  open float use {F, AtMost, of_nat, div, floor}

  -- `(r as f64 / c as f64).floor() as usize`
  unfoldable pub average : ℕ → ℕ → ℕ
  average r c = floor (div (of_nat r) (of_nat c))

  -- `if c > 0 { println!(…) }`, with the micros `r` and the turns `c` of a second.
  unfoldable pub report : String → Labels → ℕ → ℕ → ℕ → Option ReportLine
  unfolding average
  report stack labels elapsed r c =
      if ltb 0 c
      then some (record {
        stack = stack;
        labels = labels;
        rate = rate float c elapsed;
        average = average r c;
      })
      else none

  -- The tasks of t_query_thr, r_query_thr, z_query_thr and zn_query_thr.
  abbrev pub t_report : Labels → ℕ → ℕ → ℕ → Option ReportLine
  t_report = report "session"

  abbrev pub r_report : Labels → ℕ → ℕ → ℕ → Option ReportLine
  r_report = report "router"

  abbrev pub z_report : Labels → ℕ → ℕ → ℕ → Option ReportLine
  z_report = report "zenoh"

  abbrev pub zn_report : Labels → ℕ → ℕ → ℕ → Option ReportLine
  zn_report = report "zenoh-net"

  floor_quotient : (m c : ℕ) → 0 < c → m * c < 2 ^ 53 → floor (div (of_nat (m * c)) (of_nat c)) ≡ m
  floor_quotient m c some_turn exact =
      let m_small : m ≤ m * c = le-mul_of_pos_right m some_turn in
      ap floor (float.div_exact m c some_turn exact) ∙ float.floor-of_nat m (omega (arith, m_small))

  average_bounds :
      (lo hi r c : ℕ)
      → 0 < c
      → lo * c ≤ r
      → r ≤ hi * c
      → hi * c < 2 ^ 53
      → (lo ≤ average r c) × (average r c ≤ hi)
  unfolding average
  average_bounds lo hi r c some_turn least most exact =
      let least_floor : floor (div (of_nat (lo * c)) (of_nat c)) ≡ lo =
        floor_quotient lo c some_turn (omega arith) in
      let most_floor : floor (div (of_nat (hi * c)) (of_nat c)) ≡ hi =
        floor_quotient hi c some_turn exact in
      let low : floor (div (of_nat (lo * c)) (of_nat c)) ≤ floor (div (of_nat r) (of_nat c)) =
        float.floor_mono (div (of_nat (lo * c)) (of_nat c)) (div (of_nat r) (of_nat c)) (
          float.div_mono (of_nat (lo * c)) (of_nat r) c some_turn
            (float.of_nat_mono (lo * c) r least)) in
      let high : floor (div (of_nat r) (of_nat c)) ≤ floor (div (of_nat (hi * c)) (of_nat c)) =
        float.floor_mono (div (of_nat r) (of_nat c)) (div (of_nat (hi * c)) (of_nat c)) (
          float.div_mono (of_nat r) (of_nat (hi * c)) c some_turn
            (float.of_nat_mono r (hi * c) most)) in
      (omega (arith, least_floor, low), omega (arith, most_floor, high))

  abbrev pub AllBetween : ℕ → ℕ → List ℕ → Type 0
  AllBetween lo hi [] = Unit
  AllBetween lo hi (m ∷ ms) = ((lo ≤ m) × (m ≤ hi)) × AllBetween lo hi ms

  pub sum-AllBetween :
      (lo hi : ℕ) (ms : List ℕ)
      → AllBetween lo hi ms
      → (lo * length ms ≤ sum ms) × (sum ms ≤ hi * length ms)
  sum-AllBetween lo hi [] h = (omega arith, omega arith)
  sum-AllBetween lo hi (m ∷ ms) h =
      let rest = sum-AllBetween lo hi ms h.1 in (grind (arith, rest, h.0), grind (arith, rest, h.0))

  -- When the task takes the micros and the number of the same turns, at least one, after exactly a
  -- second, it prints a line with their number, and with an average that no bounds of these turns
  -- exclude: it lies between any `lo` and `hi` that the micros of each turn lie between. With no turn
  -- it prints nothing. The upper bound times the number is below 2^53.
  pub report_average :
      (stack : String) (labels : Labels) (lo hi m : ℕ) (ms : List ℕ)
      → AllBetween lo hi (m ∷ ms)
      → hi * length (m ∷ ms) < 2 ^ 53
      → length (m ∷ ms) < 2 ^ 53
      → (report stack labels 1000000 (sum (m ∷ ms)) (length (m ∷ ms))
          ≡ some (record {
            stack = stack;
            labels = labels;
            rate = length (m ∷ ms);
            average = average (sum (m ∷ ms)) (length (m ∷ ms));
          }))
        × (lo ≤ average (sum (m ∷ ms)) (length (m ∷ ms)))
        × (average (sum (m ∷ ms)) (length (m ∷ ms)) ≤ hi)
        × (report stack labels 1000000 0 0 ≡ none)
  unfolding report
  report_average stack labels lo hi m ms between exact few =
      let s = sum-AllBetween lo hi (m ∷ ms) between in
      let c : ℕ = length (m ∷ ms) in
      let bounds = average_bounds lo hi (sum (m ∷ ms)) c (omega arith) s.0 s.1 exact in
      let r = rate_reversed float c 1000000 1000000 few (omega arith) (omega arith) (omega arith) in
      let same : rate float c 1000000 ≡ c = omega (arith, r) in
      (ground (arith, same), bounds.0, bounds.1, ground arith)
