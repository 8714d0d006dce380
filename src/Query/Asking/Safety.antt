-- ===== src/Query/Asking/Safety.antt =====
-- What t_query and r_query guarantee, whatever the network delays or loses.
use zenoh_perf.Base.{ℕ, ◌+◌, ◌^◌, ◌≤◌, ◌<◌, ◌≡◌, some, [], ◌∷◌, map, arith, get_elem?, done}
use zenoh_perf.Pending
use zenoh_perf.Pending.{Pending}
use zenoh_perf.Latency.Sequential.Invariant.{down_from}
use zenoh_perf.Query.Asking.{wait, advance, the_barrier, QueryTool, System, Reach}
use zenoh_perf.Query.Asking.Invariant.{
  Inv, Loose, quiet, printing, Away, flying, answered, gone, Phase, between, before_insert,
  before_send, waiting, before_advance,
}
use zenoh_perf.Query.Asking.Network.{Reach-Inv, in_flight, received}

-- In every state that is reachable in fewer than 2^64 steps, when there is a query on the wire, the
-- loop stands before its `barrier.wait()`, and the handler of its answer does not panic: it finds the
-- entry of the current query, takes the barrier of the loop from it, holds a line with that query's
-- number, and leaves the map without that entry.
pub reply_meets_loop :
    (tool : QueryTool) (n : ℕ) (s : System tool.Printed tool.Message)
    → n < 2 ^ 64
    → Reach tool n s
    → (i : ℕ) (m : tool.Message) → get_elem? s.wire i ≡ some m
    → (since : ℕ) × (s.todo ≡ wait ∷ advance ∷ [])
      × (Pending.get s.count s.pending ≡ some (since, the_barrier))
      × (tool.receive m s.pending
          ≡ done (the_barrier, tool.line s.count since, Pending.remove s.count s.pending))
reply_meets_loop tool n s fits r i m e =
    let inv = Reach-Inv tool fits r in
    let f = in_flight tool inv i m e in
    (f.since, f.at_wait, ground (arith, f.loaded s.count), received tool inv i m fits e)

module _ (tool : QueryTool) {n : ℕ} {s : System tool.Printed tool.Message}
    (inv : Inv tool n s) where
  open tool use {Message, Printed, number_of}
  open inv use {met, phase}

  -- How many lines are printed, and between which bounds.
  abbrev PrintedSoFar : ℕ → Type 0
  PrintedSoFar m =
      (lines : ℕ) × (map number_of s.printed ≡ down_from lines) × (lines ≤ m) × (m ≤ lines + 1)

  Loose-bounded : {m : ℕ} → Loose tool s m → PrintedSoFar m
  Loose-bounded {m} (quiet h p) = (m, p, omega arith, omega arith)
  Loose-bounded (printing k shown e h c p) = (k, p, omega arith, omega arith)

  Away-bounded : {m : ℕ} → Away tool s m → PrintedSoFar m
  Away-bounded (flying i w l p) = Loose-bounded l
  Away-bounded {m} (answered w h p) = (m, h.so_far, omega arith, omega arith)
  Away-bounded (gone i w l p x) = Loose-bounded l

  Phase-bounded : {m : ℕ} → Phase tool s m → PrintedSoFar m × (s.count ≤ m) × (m ≤ s.count + 1)
  Phase-bounded (between t c w l p) = (Loose-bounded l, omega arith, omega arith)
  Phase-bounded (before_insert t c w l p) = (Loose-bounded l, omega arith, omega arith)
  Phase-bounded (before_send i t c w l p) = (Loose-bounded l, omega arith, omega arith)
  Phase-bounded (waiting t c a) = (Away-bounded a, omega arith, omega arith)
  Phase-bounded (before_advance t c w l p) = (Loose-bounded l, omega arith, omega arith)

-- In every state that is reachable in fewer than 2^64 steps the lines were printed in the order of
-- the queries, one for each from 0 on, and the handler is at most one line behind the loop: the lines
-- are those of the queries before the current one, but for the last of them at most, or also that of
-- the current one.
pub replies_in_order :
    (tool : QueryTool) (n : ℕ) (s : System tool.Printed tool.Message)
    → n < 2 ^ 64
    → Reach tool n s
    → (lines : ℕ) × (map tool.number_of s.printed ≡ down_from lines)
      × (s.count ≤ lines + 1)
      × (lines ≤ s.count + 1)
replies_in_order tool n s fits r =
    let inv = Reach-Inv tool fits r in
    let ((lines, order, most, least), low, high) = Phase-bounded tool inv inv.phase in
    (lines, order, omega arith, omega arith)
