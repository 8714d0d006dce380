-- ===== src/Query/Asking/Exchange/Refinement.antt =====
-- The steps of the handler and of the network in the exchange, and the refinement.
use zenoh_perf.Base.{
  ℕ, ◌+◌, ◌^◌, ◌<◌, ◌≡◌, refl, ap, none, some, ◌∷◌, arith, get_elem?, erase_at, done,
}
use zenoh_perf.Pending
use zenoh_perf.Pending.{Pending}
use zenoh_perf.Query.Asking.{
  the_barrier, idle, held, released, QueryTool, System, Step, turn, act, meet, print, deliver, lose,
  Reach, start, later,
}
use zenoh_perf.Query.Asking.Invariant.{Inv}
use zenoh_perf.Query.Asking.Network.{Reach-Inv, in_flight, received}
use zenoh_perf.Query.Asking.Exchange.{
  Exchange, Entry, hidden, printing_at, event, stay, reports, opens, Opened, closed, in_map,
  in_hand, Printing, resting, blocked, behind, Represents, init-Represents, start_of, Follows,
}
use zenoh_perf.Query.Asking.Exchange.Steps.{turn-Follows, act-Follows, meet-Follows}

module _ (tool : QueryTool) where
  open tool use {Message, Printed, ask, round, receive, line}

  module _ {n : ℕ} {s : System Printed Message} (inv : Inv tool n s) {c : Exchange Printed}
      (r : Represents tool s c) where
    open inv use {phase}

    print-Follows :
        (now : ℕ) (shown : ℕ → Printed)
        → s.handler ≡ released shown
        → Follows tool
            (printing_at now)
            (record s { handler = idle; printed = shown now ∷ s.printed })
            c
    print-Follows now shown h = go r.left
      where
        after : System Printed Message
        after = record s { handler = idle; printed = shown now ∷ s.printed }

        opened : Opened tool s c.open_since → Opened tool after c.open_since
        opened (closed o h' x) = closed o refl x
        opened (in_map i o h' p x) = in_map i o refl p x
        opened (in_hand i o h' x) = absurd (cc)

        go : Printing tool s.handler c.to_print → Follows tool (printing_at now) after c
        go (resting h' y) = absurd (cc)
        go (blocked b f h' y) = absurd (cc)
        go (behind k i h' y) =
            let same : line k i ≡ shown = cc in
            (
              record c { to_print = none; lines = line k i now ∷ c.lines },
              record {
                asked = r.asked;
                opened = opened r.opened;
                left = resting refl refl;
                lines = cc (ap (λ f. f now) same, r.lines);
              },
              reports k i now y,
            )

    deliver-Follows :
        (i : ℕ) (m : Message) (b : ℕ) (shown : ℕ → Printed) (p : Pending (ℕ × ℕ))
        → n < 2 ^ 64
        → get_elem? s.wire i ≡ some m
        → s.handler ≡ idle
        → receive m s.pending ≡ done (b, shown, p)
        → Follows tool hidden
            (record s { wire = erase_at s.wire i; pending = p; handler = held b shown })
            c
    deliver-Follows i m b shown p fits e free got = (
      c,
      record { asked = r.asked; opened = go r.opened; left = left r.left; lines = r.lines },
      stay _ refl,
    )
      where
        after : System Printed Message
        after = record s { wire = erase_at s.wire i; pending = p; handler = held b shown }

        left : Printing tool s.handler c.to_print → Printing tool after.handler c.to_print
        left (resting h y) = blocked b shown refl y
        left (blocked b' f h y) = blocked b shown refl y
        left (behind k j h y) = absurd (cc)

        go : Opened tool s c.open_since → Opened tool after c.open_since
        go (closed o h x) = absurd (cc (o, ap opens (in_flight tool inv i m e).at_wait))
        go (in_hand j o h x) = absurd (cc)
        go (in_map j o h q x) =
            let f = in_flight tool inv i m e in
            let taken = received tool inv i m fits e in
            let found : Pending.get s.count s.pending ≡ some (f.since, the_barrier) =
              ground (arith, f.loaded s.count) in
            let since : f.since ≡ j = cc in
            let barrier : the_barrier ≡ b = cc in
            let lines : line s.count f.since ≡ shown = cc in
            in_hand j o (cc (barrier, lines, ap (line s.count) since)) x

    lose-Follows :
        (i : ℕ) (m : Message)
        → get_elem? s.wire i ≡ some m
        → Follows tool hidden (record s { wire = erase_at s.wire i; lost = s.lost + 1 }) c
    lose-Follows i m e = (
      c,
      record { asked = r.asked; opened = go r.opened; left = r.left; lines = r.lines },
      stay _ refl,
    )
      where
        after : System Printed Message
        after = record s { wire = erase_at s.wire i; lost = s.lost + 1 }

        go : Opened tool s c.open_since → Opened tool after c.open_since
        go (closed o h x) = closed o h x
        go (in_map j o h q x) = in_map j o h q x
        go (in_hand j o h x) = in_hand j o h x

-- From a state that is reachable in fewer than 2^64 - 1 steps, and the exchange that it represents: a
-- step that puts a query into the map asks the query with the next number at the time of that step,
-- when none is open; a step that prints prints the line of the query that was replied to last, with
-- its own number, the time when it was asked and the time of that step; and each other step of the
-- program, of its handler or of the network leaves the exchange as it is, or replies to the open
-- query when every line is printed.
pub refines_exchange :
    (tool : QueryTool) (n : ℕ) (s t : System tool.Printed tool.Message) (c : Exchange tool.Printed)
    → n + 1 < 2 ^ 64
    → Reach tool n s
    → Represents tool s c
    → (step : Step tool s t)
    → (c' : Exchange tool.Printed) × Represents tool t c' × Entry tool.line c (event step) c'
refines_exchange tool n s t c fits reached r step = go step
  where
    inv : Inv tool n s
    inv = Reach-Inv tool (omega arith) reached

    go :
        {u : System tool.Printed tool.Message} (step' : Step tool s u)
        → Follows tool (event step') u c
    go (turn e) = turn-Follows tool inv r e
    go (act now a rest e free) = act-Follows tool inv r now a rest fits e free
    go (meet rest shown e h) = meet-Follows tool inv r rest shown e h
    go (print now shown h) = print-Follows tool inv r now shown h
    go (deliver i m b shown p e f h) = deliver-Follows tool inv r i m b shown p (omega arith) e f h
    go (lose i m e) = lose-Follows tool inv r i m e

-- Every reachable state represents an exchange.
pub Reach-represented :
    (tool : QueryTool) {n : ℕ} {s : System tool.Printed tool.Message}
    → n < 2 ^ 64
    → Reach tool n s
    → (c : Exchange tool.Printed) × Represents tool s c
Reach-represented tool fits start = (start_of, init-Represents tool)
Reach-represented tool fits (later r step e) =
    let (c, before) = Reach-represented tool (omega arith) r in
    let (c', after, entry) = refines_exchange tool _ _ _ c (omega arith) r before step in
    (c', after)
