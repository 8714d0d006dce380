-- ===== src/Query/Asking/Exchange/Steps.antt =====
-- The steps of the loop and of the barrier, in the exchange of t_query and r_query.
use zenoh_perf.Base.{
  ℕ, ◌+◌, ◌%◌, ◌^◌, ◌<◌, ◌≡◌, refl, ap, ◌∙◌, sym, false, none, some, List, [], ◌∷◌, arith,
}
use zenoh_perf.Pending.{get-insert}
use zenoh_perf.Query.Asking.{
  Action, insert_query, send, wait, advance, blocks, the_barrier, held, released, QueryTool, System,
  exec,
}
use zenoh_perf.Query.Asking.Invariant.{
  Inv, Loose, quiet, printing, Phase, between, before_insert, before_send, waiting, before_advance,
}
use zenoh_perf.Query.Asking.Exchange.{
  Exchange, hidden, event_of, stay, asks, replies, asked_at, opens, holds, Opened, closed, in_map,
  in_hand, Printing, resting, blocked, behind, Represents, Follows,
}

module _ (tool : QueryTool) where
  open tool use {Message, Printed, ask, round, receive, line}

  Loose-holds : {s : System Printed Message} {met : ℕ} → Loose tool s met → holds s.handler ≡ false
  Loose-holds (quiet h p) = ap holds h
  Loose-holds (printing k shown m h c p) = ap holds h

  module _ {n : ℕ} {s : System Printed Message} (inv : Inv tool n s) {c : Exchange Printed}
      (r : Represents tool s c) where
    open inv use {phase}

    pub turn-Follows : s.todo ≡ [] → Follows tool hidden (record s { todo = round s.count }) c
    turn-Follows e = (
      c,
      record {
        asked =
            r.asked ∙ ap (asked_at s.count) e ∙ sym (ap (asked_at s.count) (tool.round-eq s.count));
        opened = go r.opened;
        left = r.left;
        lines = r.lines;
      },
      stay _ refl,
    )
      where
        go :
            Opened tool s c.open_since
            → Opened tool (record s { todo = round s.count }) c.open_since
        go (closed o h x) = closed (ap opens (tool.round-eq s.count)) h x
        go (in_map i o h p x) = absurd (cc (o, ap opens e))
        go (in_hand i o h x) = absurd (cc (o, ap opens e))

    pub act-Follows :
        (now : ℕ) (a : Action Message) (rest : List (Action Message))
        → n + 1 < 2 ^ 64
        → s.todo ≡ a ∷ rest
        → blocks a ≡ false
        → Follows tool (event_of now a) (exec now a rest s) c
    act-Follows now a rest fits e free = go phase
      where
        none_open : opens s.todo ≡ false → Opened tool s c.open_since → c.open_since ≡ none
        none_open o (closed o' h x) = x
        none_open o (in_map i o' h p x) = absurd (cc)
        none_open o (in_hand i o' h x) = absurd (cc)

        not_in_hand :
            (i : ℕ) → holds s.handler ≡ false → s.handler ≡ held the_barrier (line s.count i) → ⊥
        not_in_hand i h e' = cc (h, ap holds e')

        sent :
            holds s.handler ≡ false
            → s.todo ≡ send (ask s.count) ∷ wait ∷ advance ∷ []
            → Opened tool s c.open_since
            → Opened tool (exec now (send (ask s.count)) (wait ∷ advance ∷ []) s) c.open_since
        sent h' t (closed o h x) = absurd (cc (o, ap opens t))
        sent h' t (in_map i o h p x) = in_map i refl h p x
        sent h' t (in_hand i o h x) = absurd (not_in_hand i h' h)

        go : Phase tool s inv.met → Follows tool (event_of now a) (exec now a rest s) c
        go (between t m w l p) = absurd (cc)
        go (before_insert t m w l p) =
            let h : a ≡ insert_query s.count = cc in
            let r' : rest ≡ send (ask s.count) ∷ wait ∷ advance ∷ [] = cc in
            rw (h, r')
              (
                record {
                  asked = s.count + 1;
                  open_since = some now;
                  to_print = c.to_print;
                  lines = c.lines;
                },
                record {
                  asked = refl;
                  opened =
                      in_map now refl (Loose-holds l)
                        (ground (arith, get-insert s.count s.count (now, the_barrier) s.pending))
                        refl;
                  left = r.left;
                  lines = r.lines;
                },
                asks s.count now (s.count + 1) (none_open (ap opens t) r.opened)
                    (sym (r.asked ∙ ap (asked_at s.count) t))
                    (sym (ap (λ x. x + 1) (r.asked ∙ ap (asked_at s.count) t))),
              )
        go (before_send i t m w l p) =
            let h : a ≡ send (ask s.count) = cc in
            let r' : rest ≡ wait ∷ advance ∷ [] = cc in
            rw (h, r')
              (
                c,
                record {
                  asked = r.asked ∙ ap (asked_at s.count) t;
                  opened = sent (Loose-holds l) t r.opened;
                  left = r.left;
                  lines = r.lines;
                },
                stay _ refl,
              )
        go (waiting t m x) = let h : a ≡ wait = cc in absurd (cc (free, ap blocks h))
        go (before_advance t m w l p) =
            let h : a ≡ advance = cc in
            let r' : rest ≡ [] = cc in
            let bounded = inv.bounded in
            let wrapped : (s.count + 1) % 2 ^ 64 ≡ s.count + 1 = omega arith in
            rw (h, r')
              (
                c,
                record {
                  asked = r.asked ∙ ap (asked_at s.count) t ∙ sym wrapped;
                  opened = closed refl (Loose-holds l) (none_open (ap opens t) r.opened);
                  left = r.left;
                  lines = r.lines;
                },
                stay _ refl,
              )

    -- The reply is in the handler's hand, and the loop comes to its end of the turn.
    pub meet-Follows :
        (rest : List (Action Message)) (shown : ℕ → Printed)
        → s.todo ≡ wait ∷ rest
        → s.handler ≡ held the_barrier shown
        → Follows tool hidden (record s { todo = rest; handler = released shown }) c
    meet-Follows rest shown e h = go r.opened r.left
      where
        behind_wait : Phase tool s inv.met → rest ≡ advance ∷ []
        behind_wait (between t m w l p) = absurd (cc)
        behind_wait (before_insert t m w l p) = absurd (cc)
        behind_wait (before_send j t m w l p) = absurd (cc)
        behind_wait (waiting t m a) = cc
        behind_wait (before_advance t m w l p) = absurd (cc)

        go :
            Opened tool s c.open_since
            → Printing tool s.handler c.to_print
            → Follows tool hidden (record s { todo = rest; handler = released shown }) c
        go (closed o h' x) left = absurd (cc (h', ap holds h))
        go (in_map i o h' p x) left = absurd (cc (h', ap holds h))
        go (in_hand i o h' x) (resting h'' y) = absurd (cc)
        go (in_hand i o h' x) (behind k j h'' y) = absurd (cc)
        go (in_hand i o h' x) (blocked b f h'' y) =
            let same : shown ≡ line s.count i = cc in
            let behind_wait : rest ≡ advance ∷ [] = behind_wait phase in
            rw (behind_wait, same)
              (
                record {
                  asked = s.count + 1;
                  open_since = none;
                  to_print = some (s.count, i);
                  lines = c.lines;
                },
                record {
                  asked = refl;
                  opened = closed refl refl refl;
                  left = behind s.count i refl refl;
                  lines = r.lines;
                },
                replies s.count i (s.count + 1) x y (sym (r.asked ∙ ap (asked_at s.count) e)) refl,
              )
