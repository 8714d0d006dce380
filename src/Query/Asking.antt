-- ===== src/Query/Asking.antt =====
-- The loops of query/src/bin/t_query.rs and r_query.rs as a system: the loop of `main`, the handler of
-- the replies, which runs on the receiving thread and prints behind the barrier, and the network with
-- the evaluating program behind it, which answers a query at most once or loses it. All turns use one
-- `Barrier::new(2)`.
pub mod Invariant
mod Network
pub mod Safety
pub mod Completion
pub mod Exchange
use zenoh_perf.Base.{
  ℕ, ◌+◌, ◌%◌, ◌^◌, ◌<◌, ◌≡◌, Bool, true, false, none, some, List, [], ◌∷◌, ◌++◌, get_elem?,
  erase_at, Outcome, done, panic, unwrap_none,
}
use zenoh_perf.Pending
use zenoh_perf.Pending.{Pending}

pub data Action (M : Type 0) : Type 0 where
  insert_query : (key : ℕ) → Action M  -- (Instant::now(), barrier.clone()) into the map
  send : M → Action M
  wait : Action M  -- barrier.wait()
  advance : Action M  -- count += 1

-- `barrier.wait()` returns only when the other thread waits too.
abbrev pub blocks : {M : Type 0} → Action M → Bool
blocks wait = true
blocks action = false

-- The barrier that is made before the loop.
abbrev pub the_barrier : ℕ
the_barrier = 0

-- What the handler does with a query id, up to its own `barrier.wait()`, and what it prints then.
abbrev pub answer :
    {P : Type 0} → (ℕ → ℕ → P) → ℕ → Pending (ℕ × ℕ) → Outcome (ℕ × (ℕ → P) × Pending (ℕ × ℕ))
answer line qid pending = elim (Pending.get qid pending) [
  | none ↦ panic unwrap_none
  | some (instant, barrier) ↦ done (barrier, line instant, Pending.remove qid pending)
]

-- What a query program brings: the body of its loop, its messages, and what its handler makes of the
-- answer to a message. A line has the number of its query.
pub record QueryTool : Type 1 where
  pub Message : Type 0
  pub Printed : Type 0
  pub ask : ℕ → Message
  pub round : ℕ → List (Action Message)
  pub receive : Message → Pending (ℕ × ℕ) → Outcome (ℕ × (ℕ → Printed) × Pending (ℕ × ℕ))
  pub line : ℕ → ℕ → ℕ → Printed
  pub number_of : Printed → ℕ
  pub number_of-line : (k instant now : ℕ) → number_of (line k instant now) ≡ k
  pub round-eq : (k : ℕ) → round k ≡ insert_query k ∷ send (ask k) ∷ wait ∷ advance ∷ []
  pub receive-ask :
      (k : ℕ) (p : Pending (ℕ × ℕ)) → k < 2 ^ 64 → receive (ask k) p ≡ answer (line k) k p

-- The handler: idle, at the barrier that it took from the map, or behind it. It holds the line.
pub data Handler (P : Type 0) : Type 0 where
  idle : Handler P
  held : (barrier : ℕ) → (line : ℕ → P) → Handler P
  released : (line : ℕ → P) → Handler P

pub record System (P M : Type 0) : Type 0 where
  pub count : ℕ
  pub todo : List (Action M)
  pub pending : Pending (ℕ × ℕ)
  pub wire : List M
  pub handler : Handler P
  pub printed : List P
  pub lost : ℕ

abbrev pub init : {P M : Type 0} → System P M
init = record {
  count = 0;
  todo = [];
  pending = Pending.empty;
  wire = [];
  handler = idle;
  printed = [];
  lost = 0;
}

-- The first action of `todo`, at the time `now`.
abbrev pub exec : {P M : Type 0} → ℕ → Action M → List (Action M) → System P M → System P M
exec now (insert_query key) rest s = record s {
  todo = rest;
  pending = Pending.insert key (now, the_barrier) s.pending;
}
exec now (send m) rest s = record s { todo = rest; wire = s.wire ++ m ∷ [] }
exec now wait rest s = record s { todo = rest }
exec now advance rest s = record s { todo = rest; count = (s.count + 1) % 2 ^ 64 }

module _ (tool : QueryTool) where
  open tool use {Message, Printed, round, receive}

  pub data Step (s : System Printed Message) : System Printed Message → Type 0 where
    turn : s.todo ≡ [] → Step s (record s { todo = round s.count })
    act :
        (now : ℕ) (a : Action Message) (rest : List (Action Message))
        → s.todo ≡ a ∷ rest
        → blocks a ≡ false
        → Step s (exec now a rest s)
    -- Both threads are at the barrier: it lets them go.
    meet :
        (rest : List (Action Message)) (line : ℕ → Printed)
        → s.todo ≡ wait ∷ rest
        → s.handler ≡ held the_barrier line
        → Step s (record s { todo = rest; handler = released line })
    print :
        (now : ℕ) (line : ℕ → Printed)
        → s.handler ≡ released line
        → Step s (record s { handler = idle; printed = line now ∷ s.printed })
    deliver :
        (i : ℕ) (m : Message) (b : ℕ) (line : ℕ → Printed) (p : Pending (ℕ × ℕ))
        → get_elem? s.wire i ≡ some m
        → s.handler ≡ idle
        → receive m s.pending ≡ done (b, line, p)
        → Step s (record s { wire = erase_at s.wire i; pending = p; handler = held b line })
    lose :
        (i : ℕ) (m : Message)
        → get_elem? s.wire i ≡ some m
        → Step s (record s { wire = erase_at s.wire i; lost = s.lost + 1 })

  -- Reachable in `n` steps.
  pub data Reach : ℕ → System Printed Message → Type 0 where
    start : Reach 0 init
    later :
        {n n' : ℕ} {s t : System Printed Message} → Reach n s → Step s t → n' ≡ n + 1 → Reach n' t
