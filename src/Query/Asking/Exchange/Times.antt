-- ===== src/Query/Asking/Exchange/Times.antt =====
-- When the queries of a run of t_query or r_query were asked and its lines were printed.
use zenoh_perf.Base.{
  ℕ, ◌+◌, ◌^◌, ◌<◌, ◌≡◌, ap, ◌∙◌, sym, none, some, Option, List, [], ◌∷◌, arith, ◌==◌, length,
  if◌then◌else◌,
}
use mathlib.Core.Option.{some-injective}
use zenoh_perf.Query.Asking.{QueryTool, System, Reach, start, later}
use zenoh_perf.Query.Asking.Exchange.{
  Exchange, Event, hidden, asking, printing_at, Entry, stay, asks, replies, reports, event,
  Represents, init-Represents, start_of,
}
use zenoh_perf.Query.Asking.Exchange.Refinement.{refines_exchange}

abbrev pub ask_time : Event → (ℕ → Option ℕ) → ℕ → Option ℕ
ask_time (asking key now) asked k = if key == k then some now else asked k
ask_time hidden asked k = asked k
ask_time (printing_at now) asked k = asked k

abbrev pub print_times : Event → List ℕ → List ℕ
print_times (printing_at now) times = now ∷ times
print_times hidden times = times
print_times (asking key now) times = times

-- The time of the step of the run that put query `k` into the map.
abbrev pub asked_when :
    {tool : QueryTool} {n : ℕ} {s : System tool.Printed tool.Message}
    → Reach tool n s
    → ℕ
    → Option ℕ
asked_when start k = none
asked_when (later r step e) k = ask_time (event step) (asked_when r) k

-- The times of the steps of the run that printed, the last first.
abbrev pub printed_when :
    {tool : QueryTool} {n : ℕ} {s : System tool.Printed tool.Message} → Reach tool n s → List ℕ
printed_when start = []
printed_when (later r step e) = print_times (event step) (printed_when r)

-- Each line, the newest first, is that of its place among the lines, of the time when the query of
-- that number was asked and of the time when it was printed.
abbrev pub Timed : {P : Type 0} → (ℕ → ℕ → ℕ → P) → (ℕ → Option ℕ) → List P → List ℕ → Type 0
Timed line asked [] [] = Unit
Timed line asked [] (t ∷ times) = ⊥
Timed line asked (l ∷ lines) [] = ⊥
Timed line asked (l ∷ lines) (t ∷ times) =
    ((began : ℕ) × (asked (length lines) ≡ some began) × (l ≡ line (length lines) began t))
    × Timed line asked lines times

-- How many there are.
abbrev one_if : {A : Type 0} → Option A → ℕ
one_if none = 0
one_if (some a) = 1

none_never_some : {A : Type 0} {a : A} → ◌≡◌ {A = Option A} none (some a) → ⊥
none_never_some e = cc

module _ {P : Type 0} (line : ℕ → ℕ → ℕ → P) where
  -- A later query changes no time of an earlier one.
  Timed-later :
      (asked : ℕ → Option ℕ) (key now : ℕ) (lines : List P) (times : List ℕ)
      → length lines < key + 1
      → Timed line asked lines times
      → Timed line (ask_time (asking key now) asked) lines times
  Timed-later asked key now [] [] few h = tt
  Timed-later asked key now [] (t ∷ times) few h = absurd h
  Timed-later asked key now (l ∷ lines) [] few h = absurd h
  Timed-later asked key now (l ∷ lines) (t ∷ times) few ((began, at, same), rest) =
      ((began, ground (arith, at), same), Timed-later asked key now lines times (omega arith) rest)

  -- What the times of a run are to its exchange.
  record Kept (asked : ℕ → Option ℕ) (times : List ℕ) (c : Exchange P) : Type 0 where
    timed : Timed line asked c.lines times
    counts : c.asked ≡ length c.lines + one_if c.to_print + one_if c.open_since
    in_print : (k i : ℕ) → c.to_print ≡ some (k, i) → (k ≡ length c.lines) × (asked k ≡ some i)
    opened : (k i : ℕ) → c.open_since ≡ some i → c.asked ≡ k + 1 → asked k ≡ some i

  start-Kept : Kept (λ k. none) [] start_of
  start-Kept = record {
    timed = tt;
    counts = omega arith;
    in_print = λ k i e. absurd (none_never_some e);
    opened = λ k i e same. absurd (none_never_some e);
  }

  Entry-Kept :
      (asked : ℕ → Option ℕ) (times : List ℕ) (event : Event) (c c' : Exchange P)
      → Entry line c event c'
      → Kept asked times c
      → Kept (ask_time event asked) (print_times event times) c'
  Entry-Kept asked times event c c' entry kept = go entry
    where
      counts : c.asked ≡ length c.lines + one_if c.to_print + one_if c.open_since
      counts = kept.counts

      go :
          {event' : Event} {d : Exchange P}
          → Entry line c event' d
          → Kept (ask_time event' asked) (print_times event' times) d
      go (stay d same) = rw same kept
      go (asks key now n closed next more) =
          let none_open : one_if c.open_since ≡ 0 = ap one_if closed in
          record {
            timed = Timed-later asked key now c.lines times (omega arith) kept.timed;
            counts = omega arith;
            in_print = λ k i e.
                let one : one_if c.to_print ≡ 1 = ap one_if e in
                let (place, at) = kept.in_print k i e in (place, ground (arith, at));
            opened = λ k i e same. let this : key ≡ k = omega arith in ground (arith, e);
          }
      go (replies k began n is_open none_left same next) =
          let one_open : one_if c.open_since ≡ 1 = ap one_if is_open in
          let none_printing : one_if c.to_print ≡ 0 = ap one_if none_left in
          record {
            timed = kept.timed;
            counts = omega arith;
            in_print = λ j i e.
                let pair = some-injective _ _ e in
                let this : k ≡ j = ap (λ (p : ℕ × ℕ). p.0) pair in
                let since : began ≡ i = ap (λ (p : ℕ × ℕ). p.1) pair in
                let at = kept.opened k began is_open (omega arith) in
                (omega arith, cc (at, since, ap asked this));
            opened = λ j i e same. absurd (none_never_some e);
          }
      go (reports k began now left) =
          let one : one_if c.to_print ≡ 1 = ap one_if left in
          let (place, at) = kept.in_print k began left in
          record {
            timed =
                ((began, sym (ap asked place) ∙ at, ap (λ j. line j began now) place), kept.timed);
            counts = omega arith;
            in_print = λ j i e. absurd (none_never_some e);
            opened = kept.opened;
          }

-- In every run below 2^64 steps each line is that of its place, of the time when the step of the run
-- put its query into the map and of the time when the step of the run printed it.
pub Reach-Timed :
    (tool : QueryTool) {n : ℕ} {s : System tool.Printed tool.Message}
    → n < 2 ^ 64
    → (run : Reach tool n s) → Timed tool.line (asked_when run) s.printed (printed_when run)
Reach-Timed tool fits run =
    let (c, represents, kept) = Reach-Kept fits run in rw (sym represents.lines) kept.timed
  where
    Reach-Kept :
        {n : ℕ} {s : System tool.Printed tool.Message}
        → n < 2 ^ 64
        → (run' : Reach tool n s)
        → (c : Exchange tool.Printed) × Represents tool s c
          × Kept tool.line (asked_when run') (printed_when run') c
    Reach-Kept few start = (start_of, init-Represents tool, start-Kept tool.line)
    Reach-Kept few (later r step e) =
        let (c, before, kept) = Reach-Kept (omega arith) r in
        let (c', after, entry) = refines_exchange tool _ _ _ c (omega arith) r before step in
        (c', after, Entry-Kept tool.line _ _ (event step) c c' entry kept)
