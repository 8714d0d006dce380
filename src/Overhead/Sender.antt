-- ===== src/Overhead/Sender.antt =====
-- overhead/src/bin/zn_overhead.rs: writes messages until a total of bytes is reached.
use zenoh_perf.Duration.{is_duration, from_secs_f64, from_secs_f64-lasts}
use zenoh_perf.Base.{
  ◌>>◌, Bool-cases, inl, inr, ℕ, zero, suc, ◌+◌, ◌-◌, ◌*◌, ◌/◌, ◌%◌, ◌^◌, ◌≤◌, ◌<◌, ◌≡◌, refl, Bool,
  true, false, List, [], ◌∷◌, arith, ltb, ◌==◌, if◌then◌else◌, length, Outcome, done, panic,
  division_by_zero, String,
}

-- `struct Opt`; `interval` is the bit pattern of the `f64`.
pub record Opt : Type 0 where
  pub locator : String
  pub mode : String
  pub payload : ℕ
  pub print : Bool
  pub total : ℕ
  pub interval : ℕ

abbrev pub bytes_in_mb : ℕ
bytes_in_mb = 1048576

-- `(0usize..opt.payload).map(|i| (i % 10) as u8).collect()`
pattern_from : ℕ → ℕ → List ℕ
pattern_from i zero = []
pattern_from i (suc n) = (i % 10) ∷ pattern_from (i + 1) n

unfoldable pub payload_bytes : ℕ → List ℕ
unfolding pattern_from
payload_bytes payload = pattern_from 0 payload

length-pattern_from : (i n : ℕ) → length (pattern_from i n) ≡ n
unfolding pattern_from
length-pattern_from i zero = refl
length-pattern_from i (suc n) = omega (arith, length-pattern_from (i + 1) n)

pub length-payload_bytes : (payload : ℕ) → length (payload_bytes payload) ≡ payload
unfolding payload_bytes
length-payload_bytes payload = length-pattern_from 0 payload

-- `(opt.total * bytes_in_mb) / (opt.payload as u64)`, the product wrapping in a release build.
unfoldable pub rounds : Opt → Outcome ℕ
rounds opt =
    if opt.payload == 0
    then panic division_by_zero
    else done (opt.total * bytes_in_mb % 2 ^ 64 / opt.payload)

-- The loop's variables, the messages written to the session, and the shared counter.
pub record Sending : Type 0 where
  pub i : ℕ
  pub written : ℕ
  pub counter : ℕ

-- The body of the loop: with `print` it also counts.
unfoldable pub send_one : Bool → Sending → Sending
send_one true s = record {
  i = s.i + 1;
  written = s.written + 1;
  counter = (s.counter + 1) % 2 ^ 64;
}
send_one false s = record s { i = s.i + 1; written = s.written + 1 }

-- `while i < tot`, with fuel; `false` says that it ran out before the test failed. The sleep behind a
-- message panics for an interval that is no duration.
unfoldable pub send_loop : Bool → ℕ → ℕ → ℕ → Sending → Outcome (Bool × Sending)
unfolding send_one from_secs_f64
send_loop print interval zero tot s = done (if ltb s.i tot then false else true, s)
send_loop print interval (suc fuel) tot s =
    let more = send_loop print interval fuel tot (send_one print s) in
    if ltb s.i tot then (do from_secs_f64 interval; more) else done (true, s)

abbrev pub at_start : Sending
at_start = record { i = 0; written = 0; counter = 0 }

-- What is true after the loop has gone on from `s`.
pub record Sent (print : Bool) (tot : ℕ) (s : Sending) (r : Bool × Sending) : Type 0 where
  pub ended : r.0 ≡ true
  pub last : r.1.i ≡ tot
  pub all : r.1.written ≡ s.written + (tot - s.i)
  pub counted : r.1.counter ≡ (if print then s.counter + (tot - s.i) else s.counter)

send_loop-Sent :
    (print : Bool) (interval fuel tot : ℕ) (s : Sending)
    → is_duration interval ≡ true
    → s.i ≤ tot
    → tot ≤ s.i + fuel
    → s.counter + (tot - s.i) < 2 ^ 64
    → (r : Bool × Sending) × (send_loop print interval fuel tot s ≡ done r) × Sent print tot s r
unfolding send_loop
send_loop-Sent true interval zero tot s lasts le enough room =
    ((true, s), ground arith, ground arith)
send_loop-Sent false interval zero tot s lasts le enough room =
    ((true, s), ground arith, ground arith)
send_loop-Sent true interval (suc fuel) tot s lasts le enough room =
    elim (Bool-cases (ltb s.i tot)) [
      | inl more ↦
          let (r, e, sent) =
            send_loop-Sent true interval fuel tot (send_one true s) lasts (ground arith)
              (ground arith) (ground arith) in
          (
            r,
            simp (more, from_secs_f64-lasts interval lasts, e),
            record {
              ended = sent.ended;
              last = sent.last;
              all = ground (arith, sent.all);
              counted = ground (arith, sent.counted);
            },
          )
      | inr over ↦ ((true, s), simp over, ground (arith, over))
    ]
send_loop-Sent false interval (suc fuel) tot s lasts le enough room =
    elim (Bool-cases (ltb s.i tot)) [
      | inl more ↦
          let (r, e, sent) =
            send_loop-Sent false interval fuel tot (send_one false s) lasts (ground arith)
              (ground arith) (ground arith) in
          (
            r,
            simp (more, from_secs_f64-lasts interval lasts, e),
            record {
              ended = sent.ended;
              last = sent.last;
              all = ground (arith, sent.all);
              counted = ground (arith, sent.counted);
            },
          )
      | inr over ↦ ((true, s), simp over, ground (arith, over))
    ]

-- With a payload, a total whose product with 2^20 does not overflow and an interval that is a
-- duration, the loop ends after exactly
-- the computed number of messages, counts each when it prints and none otherwise, and what it wrote
-- is the total times 2^20 bytes, short by less than one payload.
pub total_written :
    (opt : Opt)
    → 0 < opt.payload
    → opt.total * bytes_in_mb < 2 ^ 64
    → is_duration opt.interval ≡ true
    → (tot : ℕ) × (r : Bool × Sending) × (rounds opt ≡ done tot)
      × (send_loop opt.print opt.interval tot tot at_start ≡ done r)
      × Sent opt.print tot at_start r
      × (tot * length (payload_bytes opt.payload) ≤ opt.total * bytes_in_mb)
      × (opt.total * bytes_in_mb < tot * length (payload_bytes opt.payload) + opt.payload)
unfolding rounds payload_bytes
total_written opt some_payload fits lasts =
    let tot : ℕ = opt.total * bytes_in_mb / opt.payload in
    let few : tot < 2 ^ 64 = grind arith in
    let the_floor : tot * opt.payload ≤ opt.total * bytes_in_mb = grind arith in
    let the_ceil : opt.total * bytes_in_mb < tot * opt.payload + opt.payload = grind arith in
    let size : length (pattern_from 0 opt.payload) ≡ opt.payload =
      length-pattern_from 0 opt.payload in
    let (r, ends, sent) =
      send_loop-Sent opt.print opt.interval tot tot at_start lasts (omega arith) (omega arith)
        (omega arith) in
    (tot, r, ground arith, ends, sent, rw (size) (the_floor), rw (size) (the_ceil))
