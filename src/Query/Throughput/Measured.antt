-- ===== src/Query/Throughput/Measured.antt =====
-- The loop of t_query_thr.rs and r_query_thr.rs in query/src/bin together with their task: what a turn
-- reports goes to the two counters, which the task takes every second.
use zenoh_perf.Base.{
  ℕ, zero, suc, ◌+◌, ◌^◌, ◌≤◌, ◌<◌, ◌≡◌, refl, ap, ◌∙◌, sym, ◌⊎◌, ◌∷◌, map, arith, length,
  length-map,
}
use zenoh_perf.Throughput.Counter.{sum}
use zenoh_perf.Latency.Sequential
use zenoh_perf.Latency.Sequential.{PingTool, System, init}
use zenoh_perf.Latency.Sequential.Invariant.{down_from}
use zenoh_perf.Latency.Sequential.Safety.{lines_in_order}
use zenoh_perf.Query.Rates
use zenoh_perf.Query.Rates.{
  Rates, at_start, asking, owes_one, asleep, has_taken, owed, taken, add_rtt, add_one, take_rtt,
  take_counter, turns_reported,
}

module _ (tool : PingTool) (micros_of : tool.Printed → ℕ) where
  open tool use {Message, Printed}

  -- A step of the loop, its handler or the network that ends no turn, the first `fetch_add` at the end
  -- of a turn, the second one, and the two of the task. The loop goes on behind its second one only:
  -- what does not wait for it leaves the loop where it is.
  pub data Step (s : System Printed Message) (r : Rates)
      : System Printed Message → Rates → Type 0 where
    goes_on :
        {t : System Printed Message}
        → Sequential.Step tool s t
        → t.printed ≡ s.printed
        → (r.loop ≡ asking) ⊎ (t.todo ≡ s.todo)
        → Step s r t r
    ends_turn :
        {t : System Printed Message} (l : Printed)
        → Sequential.Step tool s t
        → t.printed ≡ l ∷ s.printed
        → r.loop ≡ asking
        → Step s r t (add_rtt (micros_of l) r)
    counts_turn : r.loop ≡ owes_one → Step s r s (add_one r)
    takes_rtt : r.task ≡ asleep → Step s r s (take_rtt r)
    reports : (m : ℕ) → r.task ≡ has_taken m → Step s r s (take_counter m r)

  -- Reachable in `n` steps.
  pub data Reach : ℕ → System Printed Message → Rates → Type 0 where
    start : Reach 0 init at_start
    later :
        {n n' : ℕ} {s t : System Printed Message} {r q : Rates}
        → Reach n s r
        → Step s r t q
        → n' ≡ n + 1
        → Reach n' t q

  -- The loop and the counters have done the same turns.
  record Joined (n : ℕ) (s : System Printed Message) (r : Rates) : Type 0 where
    pub steps : ℕ
    pub few : steps ≤ n
    pub looped : Sequential.Reach tool steps s
    pub counted : Rates.Reach r
    pub turns : r.turns ≡ length s.printed
    pub bounded : r.turns ≤ steps
    pub micros : r.micros ≡ sum (map micros_of s.printed)

  Step-Joined :
      {n : ℕ} {s t : System Printed Message} {r q : Rates}
      → Step s r t q
      → Joined n s r
      → Joined (n + 1) t q
  unfolding add_rtt add_one take_rtt take_counter
  Step-Joined (goes_on st e w) j = record {
    steps = j.steps + 1;
    few = (let few = j.few in omega arith);
    looped = Sequential.later j.looped st refl;
    counted = j.counted;
    turns = j.turns ∙ ap length (sym e);
    bounded = (let bounded = j.bounded in ground arith);
    micros = j.micros ∙ ap (λ ls. sum (map micros_of ls)) (sym e);
  }
  Step-Joined (ends_turn l st e w) j = record {
    steps = j.steps + 1;
    few = (let few = j.few in omega arith);
    looped = Sequential.later j.looped st refl;
    counted = Rates.later j.counted (Rates.turn_ends (micros_of l) w);
    turns = omega (arith, ap length e, j.turns);
    bounded = (let bounded = j.bounded in ground arith);
    micros = omega (arith, ap (λ ls. sum (map micros_of ls)) e, j.micros);
  }
  Step-Joined (counts_turn w) j = record {
    steps = j.steps;
    few = (let few = j.few in omega arith);
    looped = j.looped;
    counted = Rates.later j.counted (Rates.turn_counts w);
    turns = j.turns;
    bounded = (let bounded = j.bounded in ground arith);
    micros = j.micros;
  }
  Step-Joined (takes_rtt w) j = record {
    steps = j.steps;
    few = (let few = j.few in omega arith);
    looped = j.looped;
    counted = Rates.later j.counted (Rates.second w);
    turns = j.turns;
    bounded = (let bounded = j.bounded in ground arith);
    micros = j.micros;
  }
  Step-Joined (reports m w) j = record {
    steps = j.steps;
    few = (let few = j.few in omega arith);
    looped = j.looped;
    counted = Rates.later j.counted (Rates.report m w);
    turns = ground (arith, j.turns);
    bounded = (let bounded = j.bounded in ground arith);
    micros = ground (arith, j.micros);
  }

  Reach-Joined : {n : ℕ} {s : System Printed Message} {r : Rates} → Reach n s r → Joined n s r
  Reach-Joined start = record {
    steps = 0;
    few = omega arith;
    looped = Sequential.start;
    counted = Rates.start;
    turns = refl;
    bounded = omega arith;
    micros = refl;
  }
  Reach-Joined (later reached step e) = rw e (Step-Joined step (Reach-Joined reached))

  length-down_from : (n : ℕ) → length (down_from n) ≡ n
  length-down_from zero = refl
  length-down_from (suc n) = ap suc (length-down_from n)

  -- In every state of the loop and its task that is reachable in fewer than 2^64 steps, the loop has
  -- reported the answer to one query after the other, from number 0 on, up to the last one before the
  -- current query or up to the current one; and however the loop and the task interleave, each of them
  -- was printed once, stands in the counter, or has still to be counted, and each of their micros was
  -- printed once, stands in `rtt`, is in the task's hands, or was dropped. The micros are below 2^64.
  pub replies_counted :
      (n : ℕ) (s : System Printed Message) (r : Rates)
      → n < 2 ^ 64
      → sum (map micros_of s.printed) < 2 ^ 64
      → Reach n s r
      → (lines : ℕ) × (map tool.count_of s.printed ≡ down_from lines)
        × (s.count ≤ lines)
        × (lines ≤ s.count + 1)
        × (sum (map (λ p. p.1) r.reports) + r.counter + owed r.loop ≡ lines)
        × (sum (map (λ p. p.0) r.reports) + r.dropped + taken r.task + r.rtt
            ≡ sum (map micros_of s.printed))
  replies_counted n s r few short reached =
      let j = Reach-Joined reached in
      let steps_few : j.steps ≤ n = j.few in
      let bounded : r.turns ≤ j.steps = j.bounded in
      let (lines, order, least, most) = lines_in_order tool j.steps s (omega arith) j.looped in
      let printed : length s.printed ≡ lines =
        sym (length-map tool.count_of s.printed) ∙ ap length order ∙ length-down_from lines in
      let (turns, micros) = turns_reported r j.counted (omega arith) (omega (arith, j.micros)) in
      (lines, order, least, most, turns ∙ j.turns ∙ printed, micros ∙ j.micros)
