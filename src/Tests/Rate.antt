-- ===== src/Tests/Rate.antt =====
-- A division on numbers that rounds up, which meets the laws of the floating point of the printed
-- rates, and the rates with it.
use native.Mathlib.Nat.{div-lt_iff_lt-mul, lt-div-mul-add, mul-le-mul, lt_of_mul-lt-mul_right}
use zenoh_perf.Base.{ℕ, ◌+◌, ◌-◌, ◌*◌, ◌/◌, ◌≤◌, ◌<◌, ◌≡◌, refl, ap, ◌∙◌, arith}
use zenoh_perf.Throughput.Rate.{Float64, rate, rate_reversed}

abbrev ceil : ℕ → ℕ → ℕ
ceil x y = (x + (y - 1)) / y

ceil_least : (x y k : ℕ) → 0 < y → x ≤ k * y → ceil x y ≤ k
ceil_least x y k h le =
    let below : ceil x y < k + 1 = (div-lt_iff_lt-mul h).1 (grind arith) in omega arith

ceil_covers : (x y : ℕ) → 0 < y → x ≤ ceil x y * y
ceil_covers x y h = omega (arith, lt-div-mul-add {a = x + (y - 1)} h)

pub ceil_mono : (x y b : ℕ) → 0 < b → x ≤ y → ceil x b ≤ ceil y b
ceil_mono x y b h k = ceil_least x b (ceil y b) h (omega (arith, ceil_covers y b h))

pub ceil_anti : (a x y : ℕ) → 0 < x → x ≤ y → ceil a y ≤ ceil a x
ceil_anti a x y h k =
    let wider : ceil a x * x ≤ ceil a x * y = mul-le-mul (omega arith) k in
    ceil_least a y (ceil a x) (omega arith) (omega (arith, ceil_covers a x h, wider))

pub ceil_positive : (a b : ℕ) → 0 < a → 0 < b → 0 < ceil a b
ceil_positive a b h k = lt_of_mul-lt-mul_right b (omega (arith, ceil_covers a b k))

pub ceil_exact : (m b : ℕ) → 0 < b → ceil (m * b) b ≡ m
ceil_exact m b h =
    let low = ceil_least (m * b) b m h (omega arith) in
    let high : m < ceil (m * b) b + 1 =
      lt_of_mul-lt-mul_right b (grind (arith, ceil_covers (m * b) b h)) in
    omega (arith, low, high)

pub ceil_self : (b : ℕ) → 0 < b → ceil b b ≡ 1
ceil_self b h = ap (λ x. ceil x b) (omega arith) ∙ ceil_exact 1 b h

pub ceil_one : (a : ℕ) → ceil a 1 ≡ a
ceil_one a = ap (λ x. ceil x 1) (omega arith) ∙ ceil_exact a 1 (omega arith)

abbrev pub ceil_floats : Float64
ceil_floats = record {
  F = ℕ;
  AtMost = λ x y. x ≤ y;
  Positive = λ x. 0 < x;
  of_nat = λ n. n;
  div = ceil;
  floor = λ n. n;
  div_mono = ceil_mono;
  div_anti = ceil_anti;
  div_self = ceil_self;
  div_one = ceil_one;
  div_exact = λ m b h k. ceil_exact m b h;
  of_nat_mono = λ a b h. h;
  Positive-of_nat = λ a h. h;
  Positive-div = ceil_positive;
  floor_mono = λ x y h. h;
  floor-of_nat = λ n h. refl;
}

rate_reversed_example : (rate ceil_floats 500 1000000 ≤ 500) × (500 ≤ rate ceil_floats 500 1200000)
rate_reversed_example =
    rate_reversed ceil_floats 500 1000000 1200000 (omega arith) (omega arith) (omega arith)
      (omega arith)
