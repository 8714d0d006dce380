-- ===== src/Query/Asking/Invariant.antt =====
-- What holds in every reachable state of t_query and r_query.
use zenoh_perf.Base.{
  ℕ, ◌+◌, ◌^◌, ◌<◌, ◌≤◌, ◌≡◌, refl, ap, ◌∙◌, false, none, some, List, [], ◌∷◌, map, arith, ◌==◌,
  if◌then◌else◌,
}
use zenoh_perf.Pending
use zenoh_perf.Pending.{Pending, get-empty, get-insert}
use zenoh_perf.Latency.Sequential.Invariant.{down_from}
use zenoh_perf.Query.Asking.{
  Action, insert_query, send, wait, advance, blocks, the_barrier, QueryTool, idle, held, released,
  System, init, exec,
}

module _ (tool : QueryTool) where
  open tool use {Message, Printed, ask, round, receive, line, number_of}

  abbrev pub Empty : System Printed Message → Type 0
  Empty s = (k : ℕ) → Pending.get k s.pending ≡ none

  -- The entry of the current query, put into the map at `since`.
  abbrev pub Loaded : System Printed Message → ℕ → Type 0
  Loaded s since =
      (k : ℕ) → Pending.get k s.pending ≡ (if k == s.count then some (since, the_barrier) else none)

  -- The handler does not stand at the barrier: after `met` meetings it is idle, or it has still to
  -- print the last line.
  pub data Loose (s : System Printed Message) (met : ℕ) : Type 0 where
    quiet : s.handler ≡ idle → map number_of s.printed ≡ down_from met → Loose s met
    printing :
        (k : ℕ) (shown : ℕ → Printed)
        → met ≡ k + 1
        → s.handler ≡ released shown
        → ((now : ℕ) → number_of (shown now) ≡ k)
        → map number_of s.printed ≡ down_from k
        → Loose s met

  -- The handler stands at the barrier, with the line of the current query.
  pub record Held (s : System Printed Message) (met : ℕ) : Type 0 where
    pub shown : ℕ → Printed
    pub at_barrier : s.handler ≡ held the_barrier shown
    pub numbered : (now : ℕ) → number_of (shown now) ≡ s.count
    pub so_far : map number_of s.printed ≡ down_from met

  -- The current query, once it is sent and until the barrier lets the loop go.
  pub data Away (s : System Printed Message) (met : ℕ) : Type 0 where
    flying : (since : ℕ) → s.wire ≡ ask s.count ∷ [] → Loose s met → Loaded s since → Away s met
    answered : s.wire ≡ [] → Held s met → Empty s → Away s met
    gone : (since : ℕ) → s.wire ≡ [] → Loose s met → Loaded s since → 0 < s.lost → Away s met

  -- Where the loop stands, and how often it has passed the barrier.
  pub data Phase (s : System Printed Message) (met : ℕ) : Type 0 where
    between : s.todo ≡ [] → met ≡ s.count → s.wire ≡ [] → Loose s met → Empty s → Phase s met
    before_insert :
        s.todo ≡ insert_query s.count ∷ send (ask s.count) ∷ wait ∷ advance ∷ []
        → met ≡ s.count
        → s.wire ≡ []
        → Loose s met
        → Empty s
        → Phase s met
    before_send :
        (since : ℕ)
        → s.todo ≡ send (ask s.count) ∷ wait ∷ advance ∷ []
        → met ≡ s.count
        → s.wire ≡ []
        → Loose s met
        → Loaded s since
        → Phase s met
    waiting : s.todo ≡ wait ∷ advance ∷ [] → met ≡ s.count → Away s met → Phase s met
    before_advance :
        s.todo ≡ advance ∷ []
        → met ≡ s.count + 1
        → s.wire ≡ []
        → Loose s met
        → Empty s
        → Phase s met

  pub record Inv (n : ℕ) (s : System Printed Message) : Type 0 where
    pub met : ℕ
    pub phase : Phase s met
    pub bounded : s.count ≤ n

  pub Inv-init : Inv 0 init
  Inv-init = record {
    met = 0;
    phase = between refl refl refl (quiet refl refl) (λ k. get-empty k);
    bounded = omega arith;
  }

  -- A step that leaves the handler and the lines alone.
  pub still :
      {s : System Printed Message} {met : ℕ}
      → Loose s met
      → (t : System Printed Message) → t.handler ≡ s.handler
      → t.printed ≡ s.printed
      → Loose t met
  still (quiet h p) t e f = quiet (e ∙ h) (ap (map number_of) f ∙ p)
  still (printing k shown m h c p) t e f = printing k shown m (e ∙ h) c (ap (map number_of) f ∙ p)

  module _ {n : ℕ} {s : System Printed Message} (inv : Inv n s) where
    open inv use {met, phase, bounded}

    pub turn-Inv : s.todo ≡ [] → Inv (n + 1) (record s { todo = round s.count })
    turn-Inv e = go phase
      where
        go : Phase s met → Inv (n + 1) (record s { todo = round s.count })
        go (between t m w l p) = record {
          met = met;
          phase = before_insert (tool.round-eq s.count) m w (still l _ refl refl) p;
          bounded = omega arith;
        }
        go (before_insert t m w l p) = absurd (cc)
        go (before_send i t m w l p) = absurd (cc)
        go (waiting t m a) = absurd (cc)
        go (before_advance t m w l p) = absurd (cc)

    -- An action that does not block, in each phase where it can stand next.
    pub act-Inv :
        (now : ℕ) (a : Action Message) (rest : List (Action Message))
        → n + 1 < 2 ^ 64
        → s.todo ≡ a ∷ rest
        → blocks a ≡ false
        → Inv (n + 1) (exec now a rest s)
    act-Inv now a rest fits e free = go phase
      where
        go : Phase s met → Inv (n + 1) (exec now a rest s)
        go (between t m w l p) = absurd (cc)
        go (before_insert t m w l p) =
            let h : a ≡ insert_query s.count = cc in
            let r : rest ≡ send (ask s.count) ∷ wait ∷ advance ∷ [] = cc in
            rw (h, r)
              (record {
                met = met;
                phase =
                    before_send now refl m w (still l _ refl refl)
                      (λ k. ground (arith, p k, get-insert s.count k (now, the_barrier) s.pending));
                bounded = omega arith;
              })
        go (before_send i t m w l p) =
            let h : a ≡ send (ask s.count) = cc in
            let r : rest ≡ wait ∷ advance ∷ [] = cc in
            rw (h, r)
              (record {
                met = met;
                phase = waiting refl m (flying i (rw w) (still l _ refl refl) p);
                bounded = omega arith;
              })
        go (waiting t m x) = let h : a ≡ wait = cc in absurd (cc (free, ap blocks h))
        go (before_advance t m w l p) =
            let h : a ≡ advance = cc in
            let r : rest ≡ [] = cc in
            rw (h, r)
              (record {
                met = met;
                phase = between refl (omega arith) w (still l _ refl refl) p;
                bounded = omega arith;
              })
