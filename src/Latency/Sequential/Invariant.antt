-- ===== src/Latency/Sequential/Invariant.antt =====
-- What holds in every reachable state of the blocking ping programs.
use zenoh_perf.Base.{
  ℕ, zero, suc, ◌+◌, ◌-◌, ◌^◌, ◌≤◌, ◌<◌, ◌≡◌, refl, ap, ◌∙◌, Bool, false, Option, none, some, List,
  [], ◌∷◌, map, arith, ◌==◌, if◌then◌else◌,
}
use zenoh_perf.Pending
use zenoh_perf.Pending.{Pending, get-empty, get-insert, get-remove}
use zenoh_perf.Latency.Sequential.{
  Action, insert_barrier, stamp, send, wait, print, sleep, advance, ending, blocks, PingTool,
  System, init, exec,
}

-- `n - 1`, …, 1, 0.
abbrev pub down_from : ℕ → List ℕ
down_from zero = []
down_from (suc n) = n ∷ down_from n

module _ (tool : PingTool) where
  open tool use {Message, Printed, make, round, receive, line}

  abbrev pub Empty : System Printed Message → Type 0
  Empty s = (k : ℕ) → Pending.get k s.pending ≡ none

  abbrev pub Loaded : System Printed Message → Type 0
  Loaded s = (k : ℕ) → Pending.get k s.pending ≡ (if k == s.count then some s.barrier else none)

  -- No ping is under way and the handler is idle.
  pub record Idle (s : System Printed Message) : Type 0 where
    pub no_wire : s.wire ≡ []
    pub no_handler : s.handler ≡ none

  -- The current ping, once it is sent and until the barrier lets the loop go.
  pub data Away (s : System Printed Message) : Type 0 where
    flying : s.wire ≡ make s.count ∷ [] → s.handler ≡ none → Loaded s → Away s
    answered : s.wire ≡ [] → s.handler ≡ some s.barrier → Empty s → Away s
    gone : Idle s → Loaded s → 0 < s.lost → Away s

  -- Where the loop stands, and how many lines it has printed.
  pub data Phase (s : System Printed Message) (lines : ℕ) : Type 0 where
    between : s.todo ≡ [] → lines ≡ s.count → Idle s → Empty s → Phase s lines
    before_insert :
        s.todo
          ≡ insert_barrier s.count
            ∷ stamp
            ∷ send (make s.count)
            ∷ wait
            ∷ print s.count
            ∷ ending tool.sleeps
        → lines ≡ s.count
        → Idle s
        → Empty s
        → Phase s lines
    before_stamp :
        s.todo ≡ stamp ∷ send (make s.count) ∷ wait ∷ print s.count ∷ ending tool.sleeps
        → lines ≡ s.count
        → Idle s
        → Loaded s
        → Phase s lines
    before_send :
        s.todo ≡ send (make s.count) ∷ wait ∷ print s.count ∷ ending tool.sleeps
        → lines ≡ s.count
        → Idle s
        → Loaded s
        → Phase s lines
    waiting :
        s.todo ≡ wait ∷ print s.count ∷ ending tool.sleeps
        → lines ≡ s.count
        → Away s
        → Phase s lines
    before_print :
        s.todo ≡ print s.count ∷ ending tool.sleeps
        → lines ≡ s.count
        → Idle s
        → Empty s
        → Phase s lines
    before_sleep :
        (lasts : Bool)
        → tool.sleeps ≡ some lasts
        → s.todo ≡ sleep lasts ∷ advance ∷ []
        → lines ≡ s.count + 1
        → Idle s
        → Empty s
        → Phase s lines
    before_advance : s.todo ≡ advance ∷ [] → lines ≡ s.count + 1 → Idle s → Empty s → Phase s lines

  -- The end of a turn, whether it sleeps or not.
  ended :
      (sleeps : Option Bool) (s : System Printed Message) {lines : ℕ}
      → tool.sleeps ≡ sleeps
      → s.todo ≡ ending sleeps
      → lines ≡ s.count + 1
      → Idle s
      → Empty s
      → Phase s lines
  ended none s o t l i p = before_advance t l i p
  ended (some lasts) s o t l i p = before_sleep lasts o t l i p

  pub record Inv (n : ℕ) (s : System Printed Message) : Type 0 where
    pub lines : ℕ
    pub phase : Phase s lines
    pub bounded : s.count ≤ n
    pub in_order : map tool.count_of s.printed ≡ down_from lines

  pub Inv-init : Inv 0 init
  Inv-init = record {
    lines = 0;
    phase = between refl refl (record { no_wire = refl; no_handler = refl }) (λ k. get-empty k);
    bounded = omega arith;
    in_order = refl;
  }

  module _ {n : ℕ} {s : System Printed Message} (inv : Inv n s) where
    open inv use {lines, phase, bounded, in_order}

    pub turn-Inv : s.todo ≡ [] → Inv (n + 1) (record s { todo = round s.count })
    turn-Inv e = go phase
      where
        go : Phase s lines → Inv (n + 1) (record s { todo = round s.count })
        go (between t l i p) = record {
          lines = lines;
          phase =
              before_insert (tool.round-eq s.count) l
                (record { no_wire = i.no_wire; no_handler = i.no_handler }) p;
          bounded = omega arith;
          in_order = in_order;
        }
        go (before_insert t l i p) = absurd (cc)
        go (before_stamp t l i p) = absurd (cc)
        go (before_send t l i p) = absurd (cc)
        go (waiting t l w) = absurd (cc)
        go (before_print t l i p) = absurd (cc)
        go (before_sleep lasts o t l i p) = absurd (cc)
        go (before_advance t l i p) = absurd (cc)

    pub still :
        Idle s → (t : System Printed Message) → t.wire ≡ s.wire → t.handler ≡ s.handler → Idle t
    still i t e f = record { no_wire = e ∙ i.no_wire; no_handler = f ∙ i.no_handler }

    print-in_order :
        (now : ℕ)
        → lines ≡ s.count
        → map tool.count_of (line s.count (now - s.started) ∷ s.printed) ≡ down_from (suc s.count)
    print-in_order now e =
        let counted = tool.line-count s.count (now - s.started) in
        let shown : map tool.count_of s.printed ≡ down_from s.count = in_order ∙ ap down_from e in
        cc

    -- An action that does not block, in each phase where it can stand next.
    pub act-Inv :
        (now : ℕ) (a : Action Message) (rest : List (Action Message))
        → n + 1 < 2 ^ 64
        → s.todo ≡ a ∷ rest
        → blocks a ≡ false
        → Inv (n + 1) (exec line now a rest s)
    act-Inv now a rest fits e free = go phase
      where
        go : Phase s lines → Inv (n + 1) (exec line now a rest s)
        go (between t l i p) = absurd (cc)
        go (before_insert t l i p) =
            let h : a ≡ insert_barrier s.count = cc in
            let r : rest ≡ stamp ∷ send (make s.count) ∷ wait ∷ print s.count ∷ ending tool.sleeps =
              cc in
            rw (h, r)
              (record {
                lines = lines;
                phase =
                    before_stamp refl l (still i _ refl refl)
                      (λ k. ground (arith, p k, get-insert s.count k s.barriers s.pending));
                bounded = omega arith;
                in_order = in_order;
              })
        go (before_stamp t l i p) =
            let h : a ≡ stamp = cc in
            let r : rest ≡ send (make s.count) ∷ wait ∷ print s.count ∷ ending tool.sleeps = cc in
            rw (h, r)
              (record {
                lines = lines;
                phase = before_send refl l (still i _ refl refl) p;
                bounded = omega arith;
                in_order = in_order;
              })
        go (before_send t l i p) =
            let h : a ≡ send (make s.count) = cc in
            let r : rest ≡ wait ∷ print s.count ∷ ending tool.sleeps = cc in
            rw (h, r)
              (record {
                lines = lines;
                phase = waiting refl l (flying (rw i.no_wire) i.no_handler p);
                bounded = omega arith;
                in_order = in_order;
              })
        go (waiting t l w) = let h : a ≡ wait = cc in absurd (cc (free, ap blocks h))
        go (before_print t l i p) =
            let h : a ≡ print s.count = cc in
            let r : rest ≡ ending tool.sleeps = cc in
            rw (h, r)
              (record {
                lines = suc s.count;
                phase = ended tool.sleeps _ refl refl (omega arith) (still i _ refl refl) p;
                bounded = omega arith;
                in_order = print-in_order now l;
              })
        go (before_sleep lasts o t l i p) =
            let h : a ≡ sleep lasts = cc in
            let r : rest ≡ advance ∷ [] = cc in
            rw (h, r)
              (record {
                lines = lines;
                phase = before_advance refl l (still i _ refl refl) p;
                bounded = omega arith;
                in_order = in_order;
              })
        go (before_advance t l i p) =
            let h : a ≡ advance = cc in
            let r : rest ≡ [] = cc in
            rw (h, r)
              (record {
                lines = lines;
                phase = between refl (omega arith) (still i _ refl refl) p;
                bounded = omega arith;
                in_order = in_order;
              })
