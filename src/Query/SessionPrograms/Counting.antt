-- ===== src/Query/SessionPrograms/Counting.antt =====
-- What query/src/bin/z_query_thr.rs and zn_query_thr.rs count and print of the turns of a second.
use zenoh_perf.Base.{
  ℕ, ◌+◌, ◌-◌, ◌*◌, ◌^◌, ◌≤◌, ◌<◌, ◌≡◌, refl, sym, ap, String, some, List, [], ◌∷◌, arith, length,
}
use zenoh_perf.Proto.{ZBufIo, client}
use zenoh_perf.Startup.Properties.{PropertiesLib, Placed, query-Placed, query_properties}
use zenoh_perf.Throughput.Counter.{sum}
use zenoh_perf.Throughput.Monitor.{Labels}
use zenoh_perf.Throughput.Rate.{Float64}
use zenoh_perf.Query.Report.{
  z_report, zn_report, average, report_average, AllBetween, sum-AllBetween,
}
use zenoh_perf.Query.Rates
use zenoh_perf.Query.Rates.{Rates, Loop, asking, add_rtt, add_one, Reach, start}
use zenoh_perf.Query.Session.{counting_turn}
use zenoh_perf.Query.SessionPrograms.{Turn, counting_turns, z_query_thr_main, zn_query_thr_main}

abbrev pub micros_of : {B : Type 0} → List (Turn B) → List ℕ
micros_of [] = []
micros_of (t ∷ turns) = (t.now - t.instant) ∷ micros_of turns

length-micros_of : {B : Type 0} (turns : List (Turn B)) → length (micros_of turns) ≡ length turns
length-micros_of [] = refl
length-micros_of (t ∷ turns) = omega (arith, length-micros_of turns)

counting_turn-sums :
    {B : Type 0} (replies : List B) (micros : ℕ) (s : Rates)
    → s.rtt + micros < 2 ^ 64
    → s.counter + 1 < 2 ^ 64
    → ((counting_turn replies micros s).rtt ≡ s.rtt + micros)
      × ((counting_turn replies micros s).counter ≡ s.counter + 1)
      × ((counting_turn replies micros s).loop ≡ asking)
unfolding counting_turn add_rtt add_one
counting_turn-sums [] micros s h k = (ground arith, ground arith, refl)
counting_turn-sums (r ∷ replies) micros s h k = counting_turn-sums replies micros s h k

counting_turns-sums :
    {B : Type 0} (turns : List (Turn B)) (s : Rates)
    → s.rtt + sum (micros_of turns) < 2 ^ 64
    → s.counter + length turns < 2 ^ 64
    → ((counting_turns turns s).rtt ≡ s.rtt + sum (micros_of turns))
      × ((counting_turns turns s).counter ≡ s.counter + length turns)
unfolding counting_turns
counting_turns-sums [] s h k = (omega arith, omega arith)
counting_turns-sums (t ∷ turns) s h k =
    let one = counting_turn-sums t.replies (t.now - t.instant) s (omega arith) (omega arith) in
    let rest =
      counting_turns-sums turns (counting_turn t.replies (t.now - t.instant) s)
        (omega (arith, one.0)) (omega (arith, one.1)) in
    (omega (arith, one.0, rest.0), omega (arith, one.1, rest.1))

module _ (io : ZBufIo) (lib : PropertiesLib) (float : Float64) where
  -- When z_query_thr has made some turns since it started, each of which took between `lo` and `hi`
  -- micros, and the first second lasts a second and ends between two turns, it prints a line with the
  -- number of the turns as its rate and an average between `lo` and `hi`; and so does zn_query_thr.
  -- Both have their locator as the one to connect to, in every mode. `hi` times the number of the
  -- turns is below 2^53, and so is that number.
  pub first_second :
      (mode locator : String) (labels : Labels) (lo hi : ℕ) (t : Turn io.ZBuf)
      (turns : List (Turn io.ZBuf))
      → AllBetween float lo hi (micros_of (t ∷ turns))
      → hi * length (t ∷ turns) < 2 ^ 53
      → length (t ∷ turns) < 2 ^ 53
      → (s : Rates) × (z_query_thr_main io lib mode locator (t ∷ turns)
          ≡ (query_properties lib mode locator, s))
        × (zn_query_thr_main io lib mode locator (t ∷ turns)
            ≡ (query_properties lib mode locator, s))
        × (z_report float labels 1000000 s.rtt s.counter
            ≡ some (record {
              stack = "zenoh";
              labels = labels;
              rate = length (t ∷ turns);
              average = average float (sum (micros_of (t ∷ turns))) (length (t ∷ turns));
            }))
        × (zn_report float labels 1000000 s.rtt s.counter
            ≡ some (record {
              stack = "zenoh-net";
              labels = labels;
              rate = length (t ∷ turns);
              average = average float (sum (micros_of (t ∷ turns))) (length (t ∷ turns));
            }))
        × (lo ≤ average float (sum (micros_of (t ∷ turns))) (length (t ∷ turns)))
        × (average float (sum (micros_of (t ∷ turns))) (length (t ∷ turns)) ≤ hi)
        × Placed lib client locator (query_properties lib mode locator)
  unfolding z_query_thr_main zn_query_thr_main
  first_second mode locator labels lo hi t turns between exact few =
      let ms : List ℕ = micros_of (t ∷ turns) in
      let n : length ms ≡ length (t ∷ turns) = length-micros_of (t ∷ turns) in
      let small : sum ms < 2 ^ 53 =
        omega (arith, sum-AllBetween float lo hi ms between, ap (λ k. hi * k) n, exact) in
      let s : Rates = counting_turns (t ∷ turns) Rates.at_start in
      let counted =
        counting_turns-sums (t ∷ turns) Rates.at_start (omega (arith, small)) (omega arith) in
      let micros : s.rtt ≡ sum ms = omega (arith, counted.0) in
      let many : s.counter ≡ length (t ∷ turns) = omega (arith, counted.1) in
      let printed = λ (stack : String).
        report_average float stack labels lo hi (t.now - t.instant) (micros_of turns) between
          (rw n exact) (rw n few) in
      (
        s,
        refl,
        refl,
        rw (micros, many) (rw (sym n) (printed "zenoh").0),
        rw (micros, many) (rw (sym n) (printed "zenoh-net").0),
        rw (sym n) (printed "zenoh").1,
        rw (sym n) (printed "zenoh").2,
        (query-Placed lib mode locator).1,
      )
