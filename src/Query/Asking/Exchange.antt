-- ===== src/Query/Asking/Exchange.antt =====
-- What t_query and r_query promise, without their loop, messages, map, barrier and network: one query
-- at a time is open, and its line is printed behind its answer, when the next one may be open already.
mod Steps
pub mod Refinement
pub mod Times
use zenoh_perf.Base.{
  ℕ, ◌+◌, ◌%◌, ◌^◌, ◌<◌, ◌≡◌, refl, ap, ◌∙◌, sym, Bool, true, false, none, some, Option, List, [],
  ◌∷◌, arith, ◌⊎◌, inl, inr, get_elem?, erase_at, done,
}
use zenoh_perf.Pending
use zenoh_perf.Pending.{Pending, get-insert}
use zenoh_perf.Query.Asking.{
  Action, insert_query, send, wait, advance, blocks, the_barrier, Handler, idle, held, released,
  QueryTool, System, init, exec, Step, turn, act, meet, print, deliver, lose, Reach,
}
use zenoh_perf.Query.Asking.Invariant.{
  Inv, Loose, quiet, printing, Away, flying, answered, gone, Phase, between, before_insert,
  before_send, waiting, before_advance,
}
use zenoh_perf.Query.Asking.Network.{Reach-Inv, in_flight, received}

-- How many queries were asked, when the open one was, the number and the time of the answered one
-- whose line is not printed yet, and the lines, the newest first.
pub record Exchange (P : Type 0) : Type 0 where
  pub asked : ℕ
  pub open_since : Option ℕ
  pub to_print : Option (ℕ × ℕ)
  pub lines : List P

abbrev pub start_of : {P : Type 0} → Exchange P
start_of = record { asked = 0; open_since = none; to_print = none; lines = [] }

-- What of a step there is to see: a query is put into the map, or a line is printed, at a time.
pub data Event : Type 0 where
  hidden : Event
  asking : (key now : ℕ) → Event
  printing_at : (now : ℕ) → Event

-- What an event makes of the exchange.
pub data Entry {P : Type 0} (line : ℕ → ℕ → ℕ → P) (c : Exchange P)
    : Event → Exchange P → Type 0 where
  stay : (c' : Exchange P) → c' ≡ c → Entry line c hidden c'
  asks :
      (key now asked : ℕ)
      → c.open_since ≡ none
      → key ≡ c.asked
      → asked ≡ c.asked + 1
      → Entry line c
          (asking key now)
          (record { asked = asked; open_since = some now; to_print = c.to_print; lines = c.lines })
  replies :
      (k began asked : ℕ)
      → c.open_since ≡ some began
      → c.to_print ≡ none
      → asked ≡ c.asked
      → asked ≡ k + 1
      → Entry line c hidden
          (record { asked = asked; open_since = none; to_print = some (k, began); lines = c.lines })
  reports :
      (k began now : ℕ)
      → c.to_print ≡ some (k, began)
      → Entry line c
          (printing_at now)
          (record c { to_print = none; lines = line k began now ∷ c.lines })

abbrev pub event_of : {M : Type 0} → ℕ → Action M → Event
event_of now (insert_query key) = asking key now
event_of now a = hidden

abbrev pub event :
    {tool : QueryTool} {s t : System tool.Printed tool.Message} → Step tool s t → Event
event (act now a rest e free) = event_of now a
event (print now shown h) = printing_at now
event step = hidden

-- How many queries the loop has put into the map, from what is left of its turn.
abbrev pub asked_at : {M : Type 0} → ℕ → List (Action M) → ℕ
asked_at count [] = count
asked_at count (insert_query key ∷ rest) = count
asked_at count (send m ∷ rest) = count + 1
asked_at count (wait ∷ rest) = count + 1
asked_at count (advance ∷ rest) = count + 1

-- The loop has a query open from its entry in the map until the barrier lets it go.
abbrev pub opens : {M : Type 0} → List (Action M) → Bool
opens [] = false
opens (insert_query key ∷ rest) = false
opens (send m ∷ rest) = true
opens (wait ∷ rest) = true
opens (advance ∷ rest) = false

abbrev pub holds : {P : Type 0} → Handler P → Bool
holds idle = false
holds (held barrier line) = true
holds (released line) = false

module _ (tool : QueryTool) where
  open tool use {Message, Printed, ask, round, receive, line}

  -- Where the system keeps the time of the open query: in the map, or in the line of the handler.
  pub data Opened (s : System Printed Message) (since : Option ℕ) : Type 0 where
    closed : opens s.todo ≡ false → holds s.handler ≡ false → since ≡ none → Opened s since
    in_map :
        (i : ℕ)
        → opens s.todo ≡ true
        → holds s.handler ≡ false
        → Pending.get s.count s.pending ≡ some (i, the_barrier)
        → since ≡ some i
        → Opened s since
    in_hand :
        (i : ℕ)
        → opens s.todo ≡ true
        → s.handler ≡ held the_barrier (line s.count i)
        → since ≡ some i
        → Opened s since

  -- The handler behind the barrier has the answered query in its line.
  pub data Printing (h : Handler Printed) (left : Option (ℕ × ℕ)) : Type 0 where
    resting : h ≡ idle → left ≡ none → Printing h left
    blocked : (b : ℕ) (shown : ℕ → Printed) → h ≡ held b shown → left ≡ none → Printing h left
    behind : (k i : ℕ) → h ≡ released (line k i) → left ≡ some (k, i) → Printing h left

  pub record Represents (s : System Printed Message) (c : Exchange Printed) : Type 0 where
    pub asked : c.asked ≡ asked_at s.count s.todo
    pub opened : Opened s c.open_since
    pub left : Printing s.handler c.to_print
    pub lines : c.lines ≡ s.printed

  pub init-Represents : Represents init start_of
  init-Represents = record {
    asked = refl;
    opened = closed refl refl refl;
    left = resting refl refl;
    lines = refl;
  }

  -- The exchange goes on by the event.
  abbrev pub Follows : Event → System Printed Message → Exchange Printed → Type 0
  Follows event t c = (c' : Exchange Printed) × Represents t c' × Entry line c event c'
