-- ===== src/Duration.antt =====
-- `Duration::from_secs_f64(opt.interval)`, which the loops of latency/src/bin and overhead/src/bin
-- sleep for; `bits` is the bit pattern of the `f64`.
use zenoh_perf.Base.{
  ℕ, ◌*◌, ◌%◌, ◌^◌, Bool, ltb, ◌==◌, ◌&&◌, ◌||◌, ◌≡◌, true, Outcome, done, no_duration, require,
}

-- Whether `Duration::from_secs_f64` takes the `f64` with these bits: it is not negative, and below
-- 2^64, which leaves out the infinities and what is no number.
abbrev pub is_duration : ℕ → Bool
is_duration bits =
    (ltb bits (2 ^ 63) || (bits % 2 ^ 63 == 0)) && ltb (bits % 2 ^ 63) (1087 * 2 ^ 52)

unfoldable pub from_secs_f64 : ℕ → Outcome (Unit {0})
from_secs_f64 bits = require (is_duration bits) no_duration

pub from_secs_f64-lasts : (bits : ℕ) → is_duration bits ≡ true → from_secs_f64 bits ≡ done tt
unfolding from_secs_f64
from_secs_f64-lasts bits lasts = simp lasts
