-- ===== src/Latency/Parallel.antt =====
-- The non-blocking ping programs as a system: the sending loop of `parallel` (t_ping.rs, r_ping.rs,
-- z_ping.rs), the handler of the pongs, and the network with the pong program behind it, which
-- reflects each ping at most once, in any order, or loses it. The programs fill in `PingTool`.
pub mod Invariant
mod Network
pub mod Safety
pub mod Ledger
use zenoh_perf.Base.{
  ℕ, ◌+◌, ◌-◌, ◌%◌, ◌^◌, ◌<◌, ◌≡◌, Bool, true, false, Option, none, some, List, [], ◌∷◌, ◌++◌,
  get_elem?, erase_at, Outcome, done, panic, unwrap_none,
}
use zenoh_perf.Pending
use zenoh_perf.Pending.{Pending}
use zenoh_perf.Latency.Report.{Line}

-- What one statement of the loop does to the rest of the program.
pub data Action (M : Type 0) : Type 0 where
  insert_pending : (key : ℕ) → Action M  -- pending.lock().unwrap().insert(key, Instant::now())
  send : M → Action M
  sleep : (lasts : Bool) → Action M  -- task::sleep, of a duration if it `lasts`
  advance : Action M  -- count += 1

-- A sleep whose interval is no duration ends the program by a panic.
abbrev pub panics : {M : Type 0} → Action M → Bool
panics (sleep false) = true
panics a = false

-- What the handler does once it has decoded a count: it removes the entry, and panics without one.
abbrev pub answer : (ℕ → Line) → ℕ → ℕ → Pending ℕ → Outcome (Line × Pending ℕ)
answer line count now pending = elim (Pending.get count pending) [
  | none ↦ panic unwrap_none
  | some instant ↦ done (line (now - instant), Pending.remove count pending)
]

-- What a ping program brings: the body of its loop, its messages and its handler.
pub record PingTool : Type 1 where
  pub Message : Type 0
  pub lasts : Bool
  pub make : ℕ → Message
  pub round : ℕ → Outcome (List (Action Message))
  pub receive : Message → ℕ → Pending ℕ → Outcome (Line × Pending ℕ)
  pub line : ℕ → ℕ → Line
  pub line-count : (k micros : ℕ) → (line k micros).count ≡ k
  pub round-eq :
      (k : ℕ) → round k ≡ done (insert_pending k ∷ send (make k) ∷ sleep lasts ∷ advance ∷ [])
  pub receive-make :
      (k now : ℕ) (p : Pending ℕ) → k < 2 ^ 64 → receive (make k) now p ≡ answer (line k) k now p

-- `todo` is what is left of the current turn of the loop; `printed` has the newest line first.
pub record System (M : Type 0) : Type 0 where
  pub count : ℕ
  pub todo : List (Action M)
  pub pending : Pending ℕ
  pub wire : List M
  pub printed : List Line
  pub lost : ℕ

abbrev pub init : {M : Type 0} → System M
init = record { count = 0; todo = []; pending = Pending.empty; wire = []; printed = []; lost = 0 }

-- The first action of `todo`, at the time `now`.
abbrev pub exec : {M : Type 0} → ℕ → Action M → List (Action M) → System M → System M
exec now (insert_pending key) rest s = record s {
  todo = rest;
  pending = Pending.insert key now s.pending;
}
exec now (send m) rest s = record s { todo = rest; wire = s.wire ++ m ∷ [] }
exec now (sleep lasts) rest s = record s { todo = rest }
exec now advance rest s = record s { todo = rest; count = (s.count + 1) % 2 ^ 64 }

module _ (tool : PingTool) where
  open tool use {Message, round, receive}

  pub data Step (s : System Message) : System Message → Type 0 where
    turn :
        (acts : List (Action Message))
        → s.todo ≡ []
        → round s.count ≡ done acts
        → Step s (record s { todo = acts })
    act :
        (now : ℕ) (a : Action Message) (rest : List (Action Message))
        → s.todo ≡ a ∷ rest
        → panics a ≡ false
        → Step s (exec now a rest s)
    deliver :
        (now i : ℕ) (m : Message) (l : Line) (p : Pending ℕ)
        → get_elem? s.wire i ≡ some m
        → receive m now s.pending ≡ done (l, p)
        → Step s (record s { wire = erase_at s.wire i; pending = p; printed = l ∷ s.printed })
    lose :
        (i : ℕ) (m : Message)
        → get_elem? s.wire i ≡ some m
        → Step s (record s { wire = erase_at s.wire i; lost = s.lost + 1 })

  -- Reachable in `n` steps.
  pub data Reach : ℕ → System Message → Type 0 where
    start : Reach 0 init
    later : {n n' : ℕ} {s t : System Message} → Reach n s → Step s t → n' ≡ n + 1 → Reach n' t
