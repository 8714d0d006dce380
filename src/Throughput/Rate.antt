-- ===== src/Throughput/Rate.antt =====
-- The rate that a monitoring task prints: of t_sub_thr.rs, r_sub_thr.rs and z_sub_thr.rs in
-- throughput/src/bin, and of the programs that count queries in query/src/bin. The operations of `f64`
-- are the parameter `Float64`, with the laws of IEEE 754 that hold for values of counters and clocks:
-- integers below 2^53 are exact, and rounding keeps the order.
use zenoh_perf.Base.{ℕ, ◌*◌, ◌^◌, ◌≤◌, ◌<◌, ◌≡◌, arith}

pub record Float64 : Type 1 where
  pub F : Type 0
  pub AtMost : F → F → Type 0
  pub Positive : F → Type 0
  pub of_nat : ℕ → F
  pub div : F → F → F
  pub floor : F → ℕ
  pub div_mono :
      (x y : F) (b : ℕ) → 0 < b → AtMost x y → AtMost (div x (of_nat b)) (div y (of_nat b))
  pub div_anti :
      (a : ℕ) (x y : F) → Positive x → AtMost x y → AtMost (div (of_nat a) y) (div (of_nat a) x)
  pub div_self : (b : ℕ) → 0 < b → div (of_nat b) (of_nat b) ≡ of_nat 1
  pub div_one : (a : ℕ) → div (of_nat a) (of_nat 1) ≡ of_nat a
  pub div_exact : (m b : ℕ) → 0 < b → m * b < 2 ^ 53 → div (of_nat (m * b)) (of_nat b) ≡ of_nat m
  pub of_nat_mono : (a b : ℕ) → a ≤ b → AtMost (of_nat a) (of_nat b)
  pub Positive-of_nat : (a : ℕ) → 0 < a → Positive (of_nat a)
  pub Positive-div : (a b : ℕ) → 0 < a → 0 < b → Positive (div (of_nat a) (of_nat b))
  pub floor_mono : (x y : F) → AtMost x y → floor x ≤ floor y
  pub floor-of_nat : (n : ℕ) → n < 2 ^ 53 → floor (of_nat n) ≡ n

module _ (float : Float64) where
  open float use {F, AtMost, Positive, of_nat, div, floor}

  -- `let interval = 1_000_000.0 / elapsed`
  unfoldable pub interval : ℕ → F
  interval elapsed = div (of_nat 1000000) (of_nat elapsed)

  -- `(c as f64 / interval).floor() as usize`
  unfoldable pub rate : ℕ → ℕ → ℕ
  unfolding interval
  rate c elapsed = floor (div (of_nat c) (interval elapsed))

  interval_long : (elapsed : ℕ) → 1000000 ≤ elapsed → AtMost (interval elapsed) (of_nat 1)
  unfolding interval
  interval_long elapsed long = rw (float.div_self elapsed (omega arith)) at (
      float.div_mono (of_nat 1000000) (of_nat elapsed) elapsed (omega arith)
        (float.of_nat_mono 1000000 elapsed long))

  interval_short :
      (elapsed : ℕ) → 0 < elapsed → elapsed ≤ 1000000 → AtMost (of_nat 1) (interval elapsed)
  unfolding interval
  interval_short elapsed some_time short = rw (float.div_self elapsed some_time) at (
      float.div_mono (of_nat elapsed) (of_nat 1000000) elapsed some_time
        (float.of_nat_mono elapsed 1000000 short))

  -- The rate that is printed for a second is never below the count when the second took longer, and
  -- never above it when it took less. The count is below 2^53.
  pub rate_reversed :
      (c short long : ℕ)
      → c < 2 ^ 53
      → 0 < short
      → short ≤ 1000000
      → 1000000 ≤ long
      → (rate c short ≤ c) × (c ≤ rate c long)
  unfolding rate
  rate_reversed c short long exact some_time below above =
      let same = float.floor-of_nat c exact in
      let one = float.div_one c in
      let lower : AtMost (div (of_nat c) (interval short)) (div (of_nat c) (of_nat 1)) =
        float.div_anti c (of_nat 1) (interval short) (float.Positive-of_nat 1 (omega arith))
          (interval_short short some_time below) in
      let upper : AtMost (div (of_nat c) (of_nat 1)) (div (of_nat c) (interval long)) =
        float.div_anti c (interval long) (of_nat 1)
          (float.Positive-div 1000000 long (omega arith) (omega arith))
          (interval_long long above) in
      let low : floor (div (of_nat c) (interval short)) ≤ floor (of_nat c) =
        float.floor_mono (div (of_nat c) (interval short)) (of_nat c) (rw one at lower) in
      let high : floor (of_nat c) ≤ floor (div (of_nat c) (interval long)) =
        float.floor_mono (of_nat c) (div (of_nat c) (interval long)) (rw one at upper) in
      (omega (arith, same, low), omega (arith, same, high))
