-- ===== src/Query/Asking/Completion.antt =====
-- t_query and r_query get on: from every state some steps lead to the next line.
use zenoh_perf.Base.{
  ℕ, ◌+◌, ◌^◌, ◌≤◌, ◌<◌, ◌≡◌, refl, ap, ◌∙◌, sym, some, List, [], ◌∷◌, map, arith, inl, inr,
  get_elem?, length,
}
use zenoh_perf.Query.Asking.{
  Action, insert_query, send, wait, advance, Handler, idle, held, released, QueryTool, System, Step,
  turn, act, meet, print, deliver, Reach, later,
}
use zenoh_perf.Query.Asking.Invariant.{
  Inv, Loose, quiet, printing, Away, flying, answered, gone, Phase, between, before_insert,
  before_send, waiting, before_advance,
}
use zenoh_perf.Query.Asking.Network.{Reach-Inv, received}
use zenoh_perf.Query.Asking.Safety.{replies_in_order}
use zenoh_perf.Latency.Progress
use zenoh_perf.Latency.Progress.{gets_on, newest}

-- How many steps there are to the next line, by what is left of the turn, and by the handler.
distance : {P M : Type 0} → List (Action M) → Handler P → ℕ
distance todo (released line) = 1
distance todo (held b line) = 2
distance [] idle = 6
distance (insert_query key ∷ rest) idle = 5
distance (send m ∷ rest) idle = 4
distance (wait ∷ rest) idle = 3
distance (advance ∷ rest) idle = 7

distance-bounded : {P M : Type 0} (todo : List (Action M)) (h : Handler P) → distance todo h ≤ 7
unfolding distance
distance-bounded todo (released line) = omega arith
distance-bounded todo (held b line) = omega arith
distance-bounded [] idle = omega arith
distance-bounded (insert_query key ∷ rest) idle = omega arith
distance-bounded (send m ∷ rest) idle = omega arith
distance-bounded (wait ∷ rest) idle = omega arith
distance-bounded (advance ∷ rest) idle = omega arith

module _ (tool : QueryTool) where
  open tool use {Message, Printed, ask, round, number_of}

  to_go : System Printed Message → ℕ
  unfolding distance
  to_go s = distance s.todo s.handler

  to_go-at :
      (s : System Printed Message) (todo : List (Action Message)) (h : Handler Printed)
      → s.todo ≡ todo
      → s.handler ≡ h
      → to_go s ≡ distance todo h
  unfolding to_go
  to_go-at s todo h e k = ap (λ a. distance a s.handler) e ∙ ap (distance todo) k

  Whole : System Printed Message → Type 0
  Whole s = s.lost ≡ 0

  Nearer : System Printed Message → System Printed Message → Type 0
  unfolding to_go Whole
  Nearer = Progress.Nearer (Reach tool) Whole to_go (λ s. s.printed)

  abbrev Onward : System Printed Message → Type 0
  Onward s = (t : System Printed Message) × Step tool s t × (t.lost ≡ 0) × Nearer s t

  module _ {n : ℕ} {s : System Printed Message} (inv : Inv tool n s) where
    step_on : n < 2 ^ 64 → s.lost ≡ 0 → Onward s
    unfolding Nearer to_go distance
    step_on fits whole = go inv.phase
      where
        head_at : {w : List Message} {m : Message} → w ≡ m ∷ [] → get_elem? w 0 ≡ some m
        head_at e = ap (λ w. get_elem? w 0) e

        -- A handler that does not stand at the barrier has a line to print, or is idle.
        loosely : {q : ℕ} → Loose tool s q → (s.handler ≡ idle → Onward s) → Onward s
        loosely (quiet h p) then_on = then_on h
        loosely (printing k shown e h c p) then_on =
            (_, print 0 shown h, whole, inl (to_go-at s _ _ refl h, _, refl))

        away : s.todo ≡ wait ∷ advance ∷ [] → Away tool s inv.met → Onward s
        away t (flying i w l p) = loosely l (λ h. (
          _,
          deliver 0 _ _ _ _ (head_at w) h (received tool inv 0 _ fits (head_at w)),
          whole,
          inr (sym (to_go-at s _ _ t h), refl),
        ))
        away t (answered w h p) = (
          _,
          meet _ h.shown t h.at_barrier,
          whole,
          inr (sym (to_go-at s _ _ t h.at_barrier), refl),
        )
        away t (gone i w l p x) = absurd (omega arith)

        nearer :
            (todo rest : List (Action Message)) (h : s.handler ≡ idle)
            → s.todo ≡ todo
            → distance {P = Printed} rest idle + 1 ≡ distance {P = Printed} todo idle
            → distance rest s.handler + 1 ≡ distance s.todo s.handler
        nearer todo rest h t e = ap (λ x. distance rest x + 1) h ∙ e ∙ sym (to_go-at s _ _ t h)

        go : Phase tool s inv.met → Onward s
        go (between t c w l p) = loosely l (λ h. (
          _,
          turn t,
          whole,
          inr (
            nearer _ (round s.count) h t
                (ap (λ a. distance {P = Printed} a idle + 1) (tool.round-eq s.count)),
            refl,
          ),
        ))
        go (before_insert t c w l p) = loosely l (λ h. (
          _,
          act 0 _ _ t refl,
          whole,
          inr (nearer _ (send (ask s.count) ∷ wait ∷ advance ∷ []) h t refl, refl),
        ))
        go (before_send i t c w l p) =
            loosely l (λ h.
              (_, act 0 _ _ t refl, whole, inr (nearer _ (wait ∷ advance ∷ []) h t refl, refl)))
        go (waiting t c a) = away t a
        go (before_advance t c w l p) =
            loosely l (λ h. (_, act 0 _ _ t refl, whole, inr (nearer _ [] h t refl, refl)))

  -- No deadlock: in every state that is reachable in fewer than 2^64 steps and in which nothing was
  -- lost, the loop, the handler or the barrier can take a step, in which nothing is lost.
  pub query_no_deadlock :
      (n : ℕ) (s : System Printed Message)
      → n < 2 ^ 64
      → Reach tool n s
      → s.lost ≡ 0
      → (t : System Printed Message) × Step tool s t × (t.lost ≡ 0)
  query_no_deadlock n s fits r whole =
      let (t, step, kept, nearer) = step_on (Reach-Inv tool fits r) fits whole in (t, step, kept)

  -- The next step, as `Progress` takes it.
  onward :
      (n : ℕ) (s : System Printed Message)
      → n < 2 ^ 64
      → Reach tool n s
      → Whole s
      → (t : System Printed Message) × Reach tool (n + 1) t × Whole t × Nearer s t
  unfolding Whole
  onward n s fits r whole =
      let (t, step, kept, nearer) = step_on (Reach-Inv tool fits r) fits whole in
      (t, later r step refl, kept, nearer)

  -- From every state that is reachable in n steps, n + 7 < 2^64, and in which nothing was lost, at
  -- most seven steps in which nothing is lost lead to a state with one line more, whose number is the
  -- number of the lines before it.
  pub next_reply :
      (n : ℕ) (s : System Printed Message)
      → n + 7 < 2 ^ 64
      → Reach tool n s
      → s.lost ≡ 0
      → (m : ℕ) × (t : System Printed Message) × (l : Printed) × (m ≤ 7)
        × Reach tool (n + m) t
        × (t.lost ≡ 0)
        × (t.printed ≡ l ∷ s.printed)
        × (number_of l ≡ length s.printed)
  unfolding to_go Whole Nearer
  next_reply n s fits r whole =
      let near : to_go s ≤ 7 = distance-bounded s.todo s.handler in
      let (m, t, l, few, reached, kept, e) =
        gets_on (Reach tool) Whole to_go (λ u. u.printed) onward (to_go s) n s refl (omega arith) r
          whole in
      let (lines, shown, low, high) =
        replies_in_order tool (n + m) t (omega (arith, few)) reached in
      (
        m,
        t,
        l,
        omega (arith, few),
        reached,
        kept,
        e,
        newest number_of lines l s.printed (ap (map number_of) (sym e) ∙ shown),
      )
