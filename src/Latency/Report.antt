-- ===== src/Latency/Report.antt =====
-- The CSV line that the latency programs print, and the settings that it repeats.
use zenoh_perf.Base.{ℕ, String, Outcome, done, panic, capacity_overflow, List, ltb, ◌^◌, replicate}
use zenoh_perf.Base.{if◌then◌else◌}

-- The options that a handler copies into its lines. `interval` is the bit pattern of an `f64`,
-- which is only printed and slept for.
pub record Settings : Type 0 where
  pub scenario : String
  pub name : String
  pub interval : ℕ

-- "{stack},{scenario},{test},{name},{payload},{interval},{count},{micros}"
pub record Line : Type 0 where
  pub stack : String
  pub scenario : String
  pub test : String
  pub name : String
  pub payload : ℕ
  pub interval : ℕ
  pub count : ℕ
  pub micros : ℕ

abbrev pub line_of : String → String → Settings → ℕ → ℕ → ℕ → Line
line_of stack test s payload count micros = record {
  stack = stack;
  scenario = s.scenario;
  test = test;
  name = s.name;
  payload = payload;
  interval = s.interval;
  count = count;
  micros = micros;
}

-- `vec![0u8; n]`: Rust refuses more than `isize::MAX` bytes.
unfoldable pub zeroed : ℕ → Outcome (List ℕ)
zeroed n = if ltb n (2 ^ 63) then done (replicate n 0) else panic capacity_overflow
