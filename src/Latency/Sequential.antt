-- ===== src/Latency/Sequential.antt =====
-- The blocking programs as a system: the loop of `single` (t_ping.rs, r_ping.rs) or of `main`
-- (t_query_thr.rs, r_query_thr.rs), the handler of the answers, which runs on the receiving thread,
-- and the network with the answering program behind it, which answers a message at most once or
-- loses it. Both threads meet at a `Barrier::new(2)`.
pub mod Invariant
mod Network
pub mod Safety
pub mod Cycle
pub mod Completion
pub mod Stopping
use zenoh_perf.Base.{
  ℕ, ◌+◌, ◌-◌, ◌%◌, ◌^◌, ◌<◌, ◌≡◌, Bool, true, false, Option, none, some, List, [], ◌∷◌, ◌++◌,
  get_elem?, erase_at, Outcome, done, panic, unwrap_none,
}
use zenoh_perf.Pending
use zenoh_perf.Pending.{Pending}

pub data Action (M : Type 0) : Type 0 where
  insert_barrier : (key : ℕ) → Action M  -- a new barrier of two, and its clone into the map
  stamp : Action M  -- let now = Instant::now()
  send : M → Action M
  wait : Action M  -- barrier.wait()
  print : (key : ℕ) → Action M  -- what the loop reports of this turn
  sleep : (lasts : Bool) → Action M  -- task::sleep, of a duration if it `lasts`
  advance : Action M  -- count += 1

-- `barrier.wait()` returns only when the other thread waits too, and the program ends at a sleep whose
-- interval is no duration, by a panic; all else goes on at once.
abbrev pub blocks : {M : Type 0} → Action M → Bool
blocks wait = true
blocks (sleep false) = true
blocks a = false

-- What the handler does once it has decoded a count, up to its own `barrier.wait()`.
abbrev pub answer : ℕ → Pending ℕ → Outcome (ℕ × Pending ℕ)
answer count pending = elim (Pending.get count pending) [
  | none ↦ panic unwrap_none
  | some barrier ↦ done (barrier, Pending.remove count pending)
]

-- The end of a turn: the queries do not sleep, and the pings do, for a duration or not.
abbrev pub ending : {M : Type 0} → Option Bool → List (Action M)
ending none = advance ∷ []
ending (some lasts) = sleep lasts ∷ advance ∷ []

pub record PingTool : Type 1 where
  pub Message : Type 0
  pub Printed : Type 0
  pub sleeps : Option Bool
  pub make : ℕ → Message
  pub round : ℕ → List (Action Message)
  pub receive : Message → Pending ℕ → Outcome (ℕ × Pending ℕ)
  pub line : ℕ → ℕ → Printed
  pub count_of : Printed → ℕ
  pub line-count : (k micros : ℕ) → count_of (line k micros) ≡ k
  pub round-eq :
      (k : ℕ) → round k ≡ insert_barrier k ∷ stamp ∷ send (make k) ∷ wait ∷ print k ∷ ending sleeps
  pub receive-make : (k : ℕ) (p : Pending ℕ) → k < 2 ^ 64 → receive (make k) p ≡ answer k p

-- Barriers are numbered as they are made. `handler` is the barrier at which the handler waits.
pub record System (P M : Type 0) : Type 0 where
  pub count : ℕ
  pub todo : List (Action M)
  pub barrier : ℕ
  pub barriers : ℕ
  pub started : ℕ
  pub pending : Pending ℕ
  pub wire : List M
  pub handler : Option ℕ
  pub printed : List P
  pub lost : ℕ

abbrev pub init : {P M : Type 0} → System P M
init = record {
  count = 0;
  todo = [];
  barrier = 0;
  barriers = 0;
  started = 0;
  pending = Pending.empty;
  wire = [];
  handler = none;
  printed = [];
  lost = 0;
}

-- The first action of `todo`, at the time `now`; `line` makes the printed line.
abbrev pub exec :
    {P M : Type 0} → (ℕ → ℕ → P) → ℕ → Action M → List (Action M) → System P M → System P M
exec line now (insert_barrier key) rest s = record s {
  todo = rest;
  barrier = s.barriers;
  barriers = s.barriers + 1;
  pending = Pending.insert key s.barriers s.pending;
}
exec line now stamp rest s = record s { todo = rest; started = now }
exec line now (send m) rest s = record s { todo = rest; wire = s.wire ++ m ∷ [] }
exec line now wait rest s = record s { todo = rest }
exec line now (print key) rest s = record s {
  todo = rest;
  printed = line key (now - s.started) ∷ s.printed;
}
exec line now (sleep lasts) rest s = record s { todo = rest }
exec line now advance rest s = record s { todo = rest; count = (s.count + 1) % 2 ^ 64 }

module _ (tool : PingTool) where
  open tool use {Message, Printed, round, receive, line}

  pub data Step (s : System Printed Message) : System Printed Message → Type 0 where
    turn : s.todo ≡ [] → Step s (record s { todo = round s.count })
    act :
        (now : ℕ) (a : Action Message) (rest : List (Action Message))
        → s.todo ≡ a ∷ rest
        → blocks a ≡ false
        → Step s (exec line now a rest s)
    -- Both threads are at the same barrier: it lets them go.
    meet :
        (rest : List (Action Message))
        → s.todo ≡ wait ∷ rest
        → s.handler ≡ some s.barrier
        → Step s (record s { todo = rest; handler = none })
    deliver :
        (i : ℕ) (m : Message) (b : ℕ) (p : Pending ℕ)
        → get_elem? s.wire i ≡ some m
        → s.handler ≡ none
        → receive m s.pending ≡ done (b, p)
        → Step s (record s { wire = erase_at s.wire i; pending = p; handler = some b })
    lose :
        (i : ℕ) (m : Message)
        → get_elem? s.wire i ≡ some m
        → Step s (record s { wire = erase_at s.wire i; lost = s.lost + 1 })

  -- Reachable in `n` steps.
  pub data Reach : ℕ → System Printed Message → Type 0 where
    start : Reach 0 init
    later :
        {n n' : ℕ} {s t : System Printed Message} → Reach n s → Step s t → n' ≡ n + 1 → Reach n' t
