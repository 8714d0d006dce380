-- ===== src/Query/Rates.antt =====
-- The two counters of the programs that measure the throughput of queries, query/src/bin/t_query_thr.rs,
-- r_query_thr.rs, zn_query_thr.rs and z_query_thr.rs: the loop adds the micros of a turn to `rtt`, then
-- one to `counter`; a task takes both every second, `rtt` first. Each `fetch_add` and `swap` is a step.
use zenoh_perf.Base.{
  ℕ, ◌+◌, ◌%◌, ◌^◌, ◌<◌, ◌≡◌, refl, List, [], ◌∷◌, map, arith, ltb, if◌then◌else◌,
}
use zenoh_perf.Throughput.Counter.{sum}

-- Where the loop and the task stand: behind the first of their two operations, or not.
pub data Loop : Type 0 where
  asking : Loop
  owes_one : Loop

pub data Task : Type 0 where
  asleep : Task
  has_taken : (rtt : ℕ) → Task

-- `reports` has the pairs (r, c) that the task printed rates of, the newest first. `turns` and `micros`
-- are what the loop has done so far, and `dropped` what the task took for `rtt` and did not print.
pub record Rates : Type 0 where
  pub rtt : ℕ
  pub counter : ℕ
  pub loop : Loop
  pub task : Task
  pub reports : List (ℕ × ℕ)
  pub turns : ℕ
  pub micros : ℕ
  pub dropped : ℕ

abbrev pub at_start : Rates
at_start = record {
  rtt = 0;
  counter = 0;
  loop = asking;
  task = asleep;
  reports = [];
  turns = 0;
  micros = 0;
  dropped = 0;
}

-- rtt.fetch_add(now.elapsed().as_micros() as usize, …)
unfoldable pub add_rtt : ℕ → Rates → Rates
add_rtt m s = record s {
  rtt = (s.rtt + m) % 2 ^ 64;
  loop = owes_one;
  turns = s.turns + 1;
  micros = s.micros + m;
}

-- counter.fetch_add(1, …)
unfoldable pub add_one : Rates → Rates
add_one s = record s { counter = (s.counter + 1) % 2 ^ 64; loop = asking }

-- let r = c_rtt.swap(0, …)
unfoldable pub take_rtt : Rates → Rates
take_rtt s = record s { rtt = 0; task = has_taken s.rtt }

-- let c = c_counter.swap(0, …); if c > 0 { println!(…) }
unfoldable pub take_counter : ℕ → Rates → Rates
take_counter r s =
    if ltb 0 s.counter
    then record s { counter = 0; task = asleep; reports = (r, s.counter) ∷ s.reports }
    else record s { counter = 0; task = asleep; dropped = s.dropped + r }

pub data Step (s : Rates) : Rates → Type 0 where
  turn_ends : (m : ℕ) → s.loop ≡ asking → Step s (add_rtt m s)
  turn_counts : s.loop ≡ owes_one → Step s (add_one s)
  second : s.task ≡ asleep → Step s (take_rtt s)
  report : (r : ℕ) → s.task ≡ has_taken r → Step s (take_counter r s)

pub data Reach : Rates → Type 0 where
  start : Reach at_start
  later : {s t : Rates} → Reach s → Step s t → Reach t

abbrev pub owed : Loop → ℕ
owed asking = 0
owed owes_one = 1

abbrev pub taken : Task → ℕ
taken asleep = 0
taken (has_taken r) = r

-- As long as the loop has made fewer than 2^64 turns that took fewer than 2^64 micros.
pub record Conserved (s : Rates) : Type 0 where
  pub each_turn :
      s.turns < 2 ^ 64 → sum (map (λ p. p.1) s.reports) + s.counter + owed s.loop ≡ s.turns
  pub each_micro :
      s.micros < 2 ^ 64
      → sum (map (λ p. p.0) s.reports) + s.dropped + taken s.task + s.rtt ≡ s.micros

Step-Conserved : {s t : Rates} → Step s t → Conserved s → Conserved t
unfolding add_rtt add_one take_rtt take_counter
Step-Conserved (turn_ends m e) c = record {
  each_turn = λ h. ground (arith, c.each_turn);
  each_micro = λ h. ground (arith, c.each_micro);
}
Step-Conserved (turn_counts e) c = record {
  each_turn = λ h. ground (arith, c.each_turn);
  each_micro = λ h. ground (arith, c.each_micro);
}
Step-Conserved (second e) c = record {
  each_turn = λ h. ground (arith, c.each_turn);
  each_micro = λ h. ground (arith, c.each_micro);
}
Step-Conserved (report r e) c = record {
  each_turn = λ h. ground (arith, c.each_turn);
  each_micro = λ h. ground (arith, c.each_micro);
}

-- However the loop and the task interleave: each turn of the loop is reported once, stands in the
-- counter, or has still to be counted; and each of its micros is reported once, stands in the
-- counter, is in the task's hands, or was dropped. The loop has made fewer than 2^64 turns, of fewer
-- than 2^64 micros together.
pub turns_reported :
    (s : Rates)
    → Reach s
    → s.turns < 2 ^ 64
    → s.micros < 2 ^ 64
    → (sum (map (λ p. p.1) s.reports) + s.counter + owed s.loop ≡ s.turns)
      × (sum (map (λ p. p.0) s.reports) + s.dropped + taken s.task + s.rtt ≡ s.micros)
turns_reported s r few short = let c = conserved r in (c.each_turn few, c.each_micro short)
  where
    conserved : {t : Rates} → Reach t → Conserved t
    conserved start = record { each_turn = λ h. refl; each_micro = λ h. refl }
    conserved (later r' step) = Step-Conserved step (conserved r')

-- The two swaps are not one: a turn of any length can be reported with a time of 0 micros, and its
-- micros dropped, when a second falls between the two additions of the loop.
pub micros_dropped :
    (m : ℕ)
    → m < 2 ^ 64
    → (s : Rates) × Reach s × (s.reports ≡ (0, 1) ∷ []) × (s.turns ≡ 1) × (s.dropped ≡ m)
unfolding add_rtt add_one take_rtt take_counter
micros_dropped m h =
    let first : Rates = add_rtt m at_start in
    let asked = later start (turn_ends m refl) in
    let read = later (later asked (second refl)) (report _ refl) in
    let counted = later read (turn_counts refl) in
    (_, later (later counted (second refl)) (report _ refl), refl, refl, ground arith)
