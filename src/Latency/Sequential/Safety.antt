-- ===== src/Latency/Sequential/Safety.antt =====
-- What the blocking ping programs guarantee, whatever the network delays or loses.
use zenoh_perf.Base.{ℕ, ◌+◌, ◌^◌, ◌≤◌, ◌<◌, ◌≡◌, none, some, ◌∷◌, map, arith, get_elem?, done}
use zenoh_perf.Pending
use zenoh_perf.Pending.{Pending}
use zenoh_perf.Latency.Sequential.{wait, print, ending, PingTool, System, Reach}
use zenoh_perf.Latency.Sequential.Invariant.{
  Inv, Phase, between, before_insert, before_stamp, before_send, waiting, before_print,
  before_sleep, before_advance, down_from,
}
use zenoh_perf.Latency.Sequential.Network.{Reach-Inv, in_flight, received}

-- In every state that is reachable in fewer than 2^64 steps, when the network hands over a message,
-- the loop stands before its `barrier.wait()`, the handler is free, and the handler does not panic:
-- it takes from the map the very barrier at which the loop waits.
pub pong_meets_loop :
    (tool : PingTool) (n : ℕ) (s : System tool.Printed tool.Message)
    → n < 2 ^ 64
    → Reach tool n s
    → (i : ℕ) (m : tool.Message) → get_elem? s.wire i ≡ some m
    → (s.todo ≡ wait ∷ print s.count ∷ ending tool.sleeps)
      × (s.handler ≡ none)
      × (tool.receive m s.pending ≡ done (s.barrier, Pending.remove s.count s.pending))
pong_meets_loop tool n s fits r i m e =
    let inv = Reach-Inv tool fits r in
    let f = in_flight tool inv i m e in (f.at_wait, f.free, received tool inv i m fits e)

-- In every state that is reachable in fewer than 2^64 steps the lines were printed in the order of
-- the counts, one for each, from 0 up to the last one before the current count, or up to the current
-- count itself.
pub lines_in_order :
    (tool : PingTool) (n : ℕ) (s : System tool.Printed tool.Message)
    → n < 2 ^ 64
    → Reach tool n s
    → (lines : ℕ) × (map tool.count_of s.printed ≡ down_from lines)
      × (s.count ≤ lines)
      × (lines ≤ s.count + 1)
lines_in_order tool n s fits r =
    let inv = Reach-Inv tool fits r in
    (inv.lines, inv.in_order, (range inv inv.phase).0, (range inv inv.phase).1)
  where
    range :
        (inv : Inv tool n s)
        → Phase tool s inv.lines
        → (s.count ≤ inv.lines) × (inv.lines ≤ s.count + 1)
    range inv (between t l i p) = omega arith
    range inv (before_insert t l i p) = omega arith
    range inv (before_stamp t l i p) = omega arith
    range inv (before_send t l i p) = omega arith
    range inv (waiting t l w) = omega arith
    range inv (before_print t l i p) = omega arith
    range inv (before_sleep lasts o t l i p) = omega arith
    range inv (before_advance t l i p) = omega arith
