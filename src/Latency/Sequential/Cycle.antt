-- ===== src/Latency/Sequential/Cycle.antt =====
-- What a blocking program promises, without its loop, messages, barriers and network: turns one at a
-- time, with consecutive numbers. A turn begins, and ends by the line of the time since it began.
use zenoh_perf.Base.{
  ℕ, ◌+◌, ◌-◌, ◌%◌, ◌^◌, ◌<◌, ◌≡◌, refl, ap, ◌∙◌, sym, Bool, false, none, some, Option, List, [],
  ◌∷◌, arith,
}
use zenoh_perf.Latency.Sequential.{
  Action, insert_barrier, stamp, send, wait, print, sleep, advance, ending, blocks, PingTool,
  System, Step, turn, act, meet, deliver, lose, exec, Reach,
}
use zenoh_perf.Latency.Sequential.Invariant.{
  Inv, Phase, between, before_insert, before_stamp, before_send, waiting, before_print,
  before_sleep, before_advance,
}
use zenoh_perf.Latency.Sequential.Network.{Reach-Inv}

-- The number of the turn under way or of the next one, when the one under way began, and the lines,
-- the newest first.
pub record Cycle (P : Type 0) : Type 0 where
  pub number : ℕ
  pub since : Option ℕ
  pub lines : List P

-- What of a step there is to see: the clock is read at the beginning of a turn, or behind the barrier
-- for the line.
pub data Event : Type 0 where
  hidden : Event
  begins : (now : ℕ) → Event
  prints : (now : ℕ) → Event

-- What an event makes of the cycle.
pub data Entry {P : Type 0} (line : ℕ → ℕ → P) (c : Cycle P) : Event → Cycle P → Type 0 where
  stay : (c' : Cycle P) → c' ≡ c → Entry line c hidden c'
  begin :
      (now number : ℕ)
      → c.since ≡ none
      → number ≡ c.number
      → Entry line c (begins now) (record { number = number; since = some now; lines = c.lines })
  finish :
      (began now k number : ℕ) (since : Option ℕ)
      → c.since ≡ some began
      → k ≡ c.number
      → number ≡ k + 1
      → since ≡ none
      → Entry line c
          (prints now)
          (record { number = number; since = since; lines = line k (now - began) ∷ c.lines })

-- The number of the turn, from what is left of it; the count is increased behind the line.
abbrev pub number_at : {M : Type 0} → ℕ → List (Action M) → ℕ
number_at count [] = count
number_at count (insert_barrier key ∷ rest) = count
number_at count (stamp ∷ rest) = count
number_at count (send m ∷ rest) = count
number_at count (wait ∷ rest) = count
number_at count (print key ∷ rest) = count
number_at count (sleep lasts ∷ rest) = count + 1
number_at count (advance ∷ rest) = count + 1

-- The turn is under way between its stamp and its line.
abbrev pub since_at : {M : Type 0} → ℕ → List (Action M) → Option ℕ
since_at started [] = none
since_at started (insert_barrier key ∷ rest) = none
since_at started (stamp ∷ rest) = none
since_at started (send m ∷ rest) = some started
since_at started (wait ∷ rest) = some started
since_at started (print key ∷ rest) = some started
since_at started (sleep lasts ∷ rest) = none
since_at started (advance ∷ rest) = none

abbrev pub cycle : {P M : Type 0} → System P M → Cycle P
cycle s = record {
  number = number_at s.count s.todo;
  since = since_at s.started s.todo;
  lines = s.printed;
}

abbrev pub event_of : {M : Type 0} → ℕ → Action M → Event
event_of now stamp = begins now
event_of now (print key) = prints now
event_of now a = hidden

abbrev pub event :
    {tool : PingTool} {s t : System tool.Printed tool.Message} → Step tool s t → Event
event (act now a rest e free) = event_of now a
event step = hidden

-- The end of a turn is behind its line, whether it sleeps or not.
ended :
    (M : Type 0) (sleeps : Option Bool) (count started : ℕ)
    → (number_at count (ending {M = M} sleeps) ≡ count + 1)
      × (since_at started (ending {M = M} sleeps) ≡ none)
ended M none count started = (refl, refl)
ended M (some lasts) count started = (refl, refl)

module _ (tool : PingTool) {n : ℕ} {s : System tool.Printed tool.Message} (inv : Inv tool n s) where
  open tool use {Message, Printed, make, round, receive, line}
  open inv use {phase}

  same_cycle :
      (t : System Printed Message)
      → number_at t.count t.todo ≡ number_at s.count s.todo
      → since_at t.started t.todo ≡ since_at s.started s.todo
      → t.printed ≡ s.printed
      → Entry line (cycle s) hidden (cycle t)
  same_cycle t e b l = stay (cycle t) (λ i. record { number = e i; since = b i; lines = l i })

  -- Both are read off what is left of the turn.
  number_is :
      {todo : List (Action Message)} → s.todo ≡ todo → number_at s.count todo ≡ (cycle s).number
  number_is t = ap (number_at s.count) (sym t)

  since_is :
      {todo : List (Action Message)} → s.todo ≡ todo → since_at s.started todo ≡ (cycle s).since
  since_is t = ap (since_at s.started) (sym t)

  turn-Follows :
      s.todo ≡ [] → Entry line (cycle s) hidden (cycle (record s { todo = round s.count }))
  turn-Follows e =
      same_cycle (record s { todo = round s.count })
        (ap (number_at s.count) (tool.round-eq s.count) ∙ number_is e)
        (ap (since_at s.started) (tool.round-eq s.count) ∙ since_is e) refl

  act-Follows :
      (now : ℕ) (a : Action Message) (rest : List (Action Message))
      → n + 1 < 2 ^ 64
      → s.todo ≡ a ∷ rest
      → blocks a ≡ false
      → Entry line (cycle s) (event_of now a) (cycle (exec line now a rest s))
  act-Follows now a rest fits e free = go phase
    where
      go :
          Phase tool s inv.lines
          → Entry line (cycle s) (event_of now a) (cycle (exec line now a rest s))
      go (between t l i p) = absurd (cc)
      go (before_insert t l i p) =
          let h : a ≡ insert_barrier s.count = cc in
          let r : rest ≡ stamp ∷ send (make s.count) ∷ wait ∷ print s.count ∷ ending tool.sleeps =
            cc in
          rw (h, r)
            (same_cycle
              (exec line now (insert_barrier s.count)
                (stamp ∷ send (make s.count) ∷ wait ∷ print s.count ∷ ending tool.sleeps) s)
              (number_is t) (since_is t) refl)
      go (before_stamp t l i p) =
          let h : a ≡ stamp = cc in
          let r : rest ≡ send (make s.count) ∷ wait ∷ print s.count ∷ ending tool.sleeps = cc in
          rw (h, r) (begin now s.count (sym (since_is t)) (number_is t))
      go (before_send t l i p) =
          let h : a ≡ send (make s.count) = cc in
          let r : rest ≡ wait ∷ print s.count ∷ ending tool.sleeps = cc in
          rw (h, r)
            (same_cycle
              (exec line now (send (make s.count)) (wait ∷ print s.count ∷ ending tool.sleeps) s)
              (number_is t) (since_is t) refl)
      go (waiting t l w) = let h : a ≡ wait = cc in absurd (cc (free, ap blocks h))
      go (before_print t l i p) =
          let h : a ≡ print s.count = cc in
          let r : rest ≡ ending tool.sleeps = cc in
          let (next, over) = ended Message tool.sleeps s.count s.started in
          rw (h, r) (finish s.started now s.count _ _ (sym (since_is t)) (number_is t) next over)
      go (before_sleep lasts o t l i p) =
          let h : a ≡ sleep lasts = cc in
          let r : rest ≡ advance ∷ [] = cc in
          rw (h, r)
            (same_cycle (exec line now (sleep lasts) (advance ∷ []) s) (number_is t) (since_is t)
              refl)
      go (before_advance t l i p) =
          let h : a ≡ advance = cc in
          let r : rest ≡ [] = cc in
          let bounded = inv.bounded in
          let wrapped : (s.count + 1) % 2 ^ 64 ≡ s.count + 1 = omega arith in
          rw (h, r)
            (same_cycle (exec line now advance [] s) (wrapped ∙ number_is t) (since_is t) refl)

  meet-Follows :
      (rest : List (Action Message))
      → s.todo ≡ wait ∷ rest
      → Entry line (cycle s) hidden (cycle (record s { todo = rest; handler = none }))
  meet-Follows rest e =
      let r : rest ≡ print s.count ∷ ending tool.sleeps = behind_wait phase in
      same_cycle (record s { todo = rest; handler = none })
        (ap (number_at s.count) r ∙ number_is (e ∙ ap (λ acts. wait ∷ acts) r))
        (ap (since_at s.started) r ∙ since_is (e ∙ ap (λ acts. wait ∷ acts) r)) refl
    where
      behind_wait : Phase tool s inv.lines → rest ≡ print s.count ∷ ending tool.sleeps
      behind_wait (between t l i p) = absurd (cc)
      behind_wait (before_insert t l i p) = absurd (cc)
      behind_wait (before_stamp t l i p) = absurd (cc)
      behind_wait (before_send t l i p) = absurd (cc)
      behind_wait (waiting t l w) = cc
      behind_wait (before_print t l i p) = absurd (cc)
      behind_wait (before_sleep lasts o t l i p) = absurd (cc)
      behind_wait (before_advance t l i p) = absurd (cc)

-- In every state that is reachable in fewer than 2^64 - 1 steps, a step that reads the clock for a
-- turn begins the next turn at that time, when none is under way; a step that prints ends the turn
-- under way by its line, with its own number and the time from its beginning to that step; and each
-- other step of the program, of its handler or of the network leaves the cycle as it is: the loop,
-- its messages, its barriers and its handler refine the cycle.
pub refines_cycle :
    (tool : PingTool) (n : ℕ) (s t : System tool.Printed tool.Message)
    → n + 1 < 2 ^ 64
    → Reach tool n s
    → (step : Step tool s t) → Entry tool.line (cycle s) (event step) (cycle t)
refines_cycle tool n s t fits r step = go step
  where
    inv : Inv tool n s
    inv = Reach-Inv tool (omega arith) r

    go :
        {u : System tool.Printed tool.Message}
        → (step' : Step tool s u) → Entry tool.line (cycle s) (event step') (cycle u)
    go (turn e) = turn-Follows tool inv e
    go (act now a rest e free) = act-Follows tool inv now a rest fits e free
    go (meet rest e h) = meet-Follows tool inv rest e
    go (deliver i m b p e f h) = stay _ refl
    go (lose i m e) = stay _ refl
