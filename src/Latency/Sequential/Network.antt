-- ===== src/Latency/Sequential/Network.antt =====
-- The steps of the network and of the barrier in the blocking ping programs.
use zenoh_perf.Base.{
  ℕ, ◌+◌, ◌^◌, ◌<◌, ◌≡◌, refl, ap, ◌∙◌, none, some, List, [], ◌∷◌, arith, get_elem?, not_in_nil,
  only_one, erase_at, done,
}
use zenoh_perf.Pending
use zenoh_perf.Pending.{Pending, get-remove}
use zenoh_perf.Latency.Sequential.{
  Action, wait, print, ending, answer, PingTool, System, Step, turn, act, meet, deliver, lose,
  Reach, start, later,
}
use zenoh_perf.Latency.Sequential.Invariant.{
  Inv, Inv-init, Idle, Away, flying, answered, gone, Loaded, Phase, between, before_insert,
  before_stamp, before_send, waiting, before_print, before_sleep, before_advance, turn-Inv, act-Inv,
}

-- What is known while a ping is on the wire.
pub record InFlight (tool : PingTool) (s : System tool.Printed tool.Message) (lines : ℕ)
    : Type 0 where
  pub at_wait : s.todo ≡ wait ∷ print s.count ∷ ending tool.sleeps
  pub printed : lines ≡ s.count
  pub wired : s.wire ≡ tool.make s.count ∷ []
  pub free : s.handler ≡ none
  pub loaded : Loaded tool s

module _ (tool : PingTool) {n : ℕ} {s : System tool.Printed tool.Message} (inv : Inv tool n s) where
  open tool use {Message, Printed, make, receive, line}
  open inv use {lines, phase, bounded, in_order}

  pub in_flight : (i : ℕ) (m : Message) → get_elem? s.wire i ≡ some m → InFlight tool s lines
  in_flight i m e = go phase
    where
      none_there : Idle tool s → ⊥
      none_there j = not_in_nil s.wire i j.no_wire e

      away :
          s.todo ≡ wait ∷ print s.count ∷ ending tool.sleeps
          → lines ≡ s.count
          → Away tool s
          → InFlight tool s lines
      away t l (flying w h p) = record { at_wait = t; printed = l; wired = w; free = h; loaded = p }
      away t l (answered w h p) = absurd (not_in_nil s.wire i w e)
      away t l (gone j p x) = absurd (none_there j)

      go : Phase tool s lines → InFlight tool s lines
      go (between t l j p) = absurd (none_there j)
      go (before_insert t l j p) = absurd (none_there j)
      go (before_stamp t l j p) = absurd (none_there j)
      go (before_send t l j p) = absurd (none_there j)
      go (waiting t l w) = away t l w
      go (before_print t l j p) = absurd (none_there j)
      go (before_sleep lasts o t l j p) = absurd (none_there j)
      go (before_advance t l j p) = absurd (none_there j)

  answer-some :
      (k b : ℕ) (p : Pending ℕ)
      → Pending.get k p ≡ some b
      → answer k p ≡ done (b, Pending.remove k p)
  answer-some k b p h = ground arith

  -- The handler takes the barrier at which the loop waits.
  pub received :
      (i : ℕ) (m : Message)
      → n < 2 ^ 64
      → get_elem? s.wire i ≡ some m
      → receive m s.pending ≡ done (s.barrier, Pending.remove s.count s.pending)
  received i m fits e =
      let f = in_flight i m e in
      let made = (only_one s.wire i f.wired e).0 in
      ap (λ x. receive x s.pending) made
      ∙ tool.receive-make s.count s.pending (omega arith)
      ∙ answer-some s.count s.barrier s.pending (ground (arith, f.loaded s.count))

  deliver-Inv :
      (i : ℕ) (m : Message) (b : ℕ) (p : Pending ℕ)
      → n < 2 ^ 64
      → get_elem? s.wire i ≡ some m
      → receive m s.pending ≡ done (b, p)
      → Inv tool (n + 1) (record s { wire = erase_at s.wire i; pending = p; handler = some b })
  deliver-Inv i m b p fits e h =
      let f = in_flight i m e in
      let got = received i m fits e in
      let b_eq : s.barrier ≡ b = cc in
      let p_eq : Pending.remove s.count s.pending ≡ p = cc in
      rw (← p_eq, ← b_eq)
        (record {
          lines = lines;
          phase = waiting f.at_wait f.printed (
              answered (only_one s.wire i f.wired e).1 refl
                (λ k. ground (arith, f.loaded k, get-remove s.count k s.pending)));
          bounded = omega arith;
          in_order = in_order;
        })

  lose-Inv :
      (i : ℕ) (m : Message)
      → get_elem? s.wire i ≡ some m
      → Inv tool (n + 1) (record s { wire = erase_at s.wire i; lost = s.lost + 1 })
  lose-Inv i m e =
      let f = in_flight i m e in
      record {
        lines = lines;
        phase = waiting f.at_wait f.printed (
            gone (record { no_wire = (only_one s.wire i f.wired e).1; no_handler = f.free })
              f.loaded (omega arith));
        bounded = omega arith;
        in_order = in_order;
      }

  meet-Inv :
      (rest : List (Action Message))
      → s.todo ≡ wait ∷ rest
      → s.handler ≡ some s.barrier
      → Inv tool (n + 1) (record s { todo = rest; handler = none })
  meet-Inv rest e h = go phase
    where
      busy : Idle tool s → ⊥
      busy j = cc (h, j.no_handler)

      away :
          s.todo ≡ wait ∷ print s.count ∷ ending tool.sleeps
          → lines ≡ s.count
          → Away tool s
          → Inv tool (n + 1) (record s { todo = rest; handler = none })
      away t l (flying w x p) = absurd (cc)
      away t l (gone j p x) = absurd (busy j)
      away t l (answered w x p) = record {
        lines = lines;
        phase = before_print (cc) l (record { no_wire = w; no_handler = refl }) p;
        bounded = omega arith;
        in_order = in_order;
      }

      go : Phase tool s lines → Inv tool (n + 1) (record s { todo = rest; handler = none })
      go (between t l j p) = absurd (busy j)
      go (before_insert t l j p) = absurd (busy j)
      go (before_stamp t l j p) = absurd (busy j)
      go (before_send t l j p) = absurd (busy j)
      go (waiting t l w) = away t l w
      go (before_print t l j p) = absurd (busy j)
      go (before_sleep lasts o t l j p) = absurd (busy j)
      go (before_advance t l j p) = absurd (busy j)

pub Step-Inv :
    (tool : PingTool) {n : ℕ} {s t : System tool.Printed tool.Message}
    → n + 1 < 2 ^ 64
    → Step tool s t
    → Inv tool n s
    → Inv tool (n + 1) t
Step-Inv tool fits (turn e) inv = turn-Inv tool inv e
Step-Inv tool fits (act now a rest e free) inv = act-Inv tool inv now a rest fits e free
Step-Inv tool fits (meet rest e h) inv = meet-Inv tool inv rest e h
Step-Inv tool fits (deliver i m b p e f h) inv = deliver-Inv tool inv i m b p (omega arith) e h
Step-Inv tool fits (lose i m e) inv = lose-Inv tool inv i m e

pub Reach-Inv :
    (tool : PingTool) {n : ℕ} {s : System tool.Printed tool.Message}
    → n < 2 ^ 64
    → Reach tool n s
    → Inv tool n s
Reach-Inv tool fits start = Inv-init tool
Reach-Inv tool fits (later {n = m} r st e) =
    rw e (Step-Inv tool (omega arith) st (Reach-Inv tool (omega arith) r))
