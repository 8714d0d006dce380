-- ===== src/Throughput/Counter.antt =====
-- The shared `AtomicUsize` of the throughput programs, and the task that reads and resets it every
-- second. Handlers and tasks touch it by `fetch_add` and `swap` only, so what the threads do to it
-- is a sequence of such events.
use zenoh_perf.Base.{ℕ, ◌+◌, ◌%◌, ◌^◌, ◌<◌, ◌≡◌, List, [], ◌∷◌, arith, ltb, if◌then◌else◌}

-- `printed` has the counts that the task printed, the newest first.
pub record Counter : Type 0 where
  pub count : ℕ
  pub printed : List ℕ

abbrev pub fresh : Counter
fresh = record { count = 0; printed = [] }

-- `counter.fetch_add(n, Ordering::Relaxed)`
unfoldable pub fetch_add : ℕ → Counter → Counter
fetch_add n c = record c { count = (c.count + n) % 2 ^ 64 }

-- `let c = count.swap(0, …); if c > 0 { println!(…) }`
unfoldable pub tick : Counter → Counter
tick c =
    if ltb 0 c.count
    then record { count = 0; printed = c.count ∷ c.printed }
    else record c { count = 0 }

-- `let c = count.swap(0, …); println!(…)`, as t_pubsub_thr does for what it receives.
unfoldable pub tick_always : Counter → Counter
tick_always c = record { count = 0; printed = c.count ∷ c.printed }

pub data Event : Type 0 where
  add : ℕ → Event
  second : Event

-- The events in the order in which they reach the counter.
unfoldable pub run : (Counter → Counter) → List Event → Counter → Counter
unfolding fetch_add
run on_second [] c = c
run on_second (add n ∷ es) c = run on_second es (fetch_add n c)
run on_second (second ∷ es) c = run on_second es (on_second c)

abbrev pub added : List Event → ℕ
added [] = 0
added (add n ∷ es) = n + added es
added (second ∷ es) = added es

abbrev pub sum : List ℕ → ℕ
sum [] = 0
sum (x ∷ xs) = x + sum xs

-- A reader of the counter that prints what it takes, or takes nothing.
abbrev pub Keeps : (Counter → Counter) → Type 0
Keeps on_second =
    (c : Counter)
    → ((on_second c).count ≡ 0) × (sum (on_second c).printed ≡ c.count + sum c.printed)

pub tick-Keeps : Keeps tick
unfolding tick
tick-Keeps c = ground arith

pub tick_always-Keeps : Keeps tick_always
unfolding tick_always
tick_always-Keeps c = ground arith

run_from :
    (on_second : Counter → Counter)
    → Keeps on_second
    → (es : List Event) (c : Counter) → c.count + added es < 2 ^ 64
    → (run on_second es c).count + sum (run on_second es c).printed
      ≡ c.count + sum c.printed + added es
unfolding run
run_from on_second keeps [] c h = omega arith
run_from on_second keeps (add n ∷ es) c h =
    omega (arith, run_from on_second keeps es (fetch_add n c) (omega arith))
run_from on_second keeps (second ∷ es) c h =
    let k = keeps c in omega (arith, run_from on_second keeps es (on_second c) (omega (arith, k)))

-- Whatever the order of messages and readings, nothing is counted twice or dropped: what has been
-- printed and what still stands in the counter add up to what was added, if that is below 2^64.
-- This holds of every reading that prints what it takes.
pub counted_once :
    (on_second : Counter → Counter)
    → Keeps on_second
    → (es : List Event) → added es < 2 ^ 64
    → (run on_second es fresh).count + sum (run on_second es fresh).printed ≡ added es
counted_once on_second keeps es h = omega (arith, run_from on_second keeps es fresh (omega arith))
