-- ===== src/Latency/Sequential/Completion.antt =====
-- The blocking programs get on: from every state some steps lead to the next line.
use zenoh_perf.Base.{
  ℕ, ◌+◌, ◌^◌, ◌≤◌, ◌<◌, ◌≡◌, ◌≢◌, refl, true, false, ap, ◌∙◌, sym, none, some, Option, List, [],
  ◌∷◌, map, arith, inl, inr, get_elem?, length,
}
use zenoh_perf.Latency.Sequential.{
  Action, insert_barrier, stamp, send, wait, print, sleep, advance, ending, PingTool, System, Step,
  turn, act, meet, deliver, Reach, later,
}
use zenoh_perf.Latency.Sequential.Invariant.{
  Inv, Phase, Away, flying, answered, gone, between, before_insert, before_stamp, before_send,
  waiting, before_print, before_sleep, before_advance,
}
use zenoh_perf.Latency.Sequential.Network.{Reach-Inv, received}
use zenoh_perf.Latency.Progress
use zenoh_perf.Latency.Progress.{gets_on, newest}

-- How many steps there are to the next line, by what is left of the turn, and by the handler.
distance : {M : Type 0} → List (Action M) → Option ℕ → ℕ
distance [] h = 7
distance (insert_barrier key ∷ rest) h = 6
distance (stamp ∷ rest) h = 5
distance (send m ∷ rest) h = 4
distance (wait ∷ rest) none = 3
distance (wait ∷ rest) (some b) = 2
distance (print key ∷ rest) h = 1
distance (sleep lasts ∷ rest) h = 9
distance (advance ∷ rest) h = 8

distance-bounded : {M : Type 0} (todo : List (Action M)) (h : Option ℕ) → distance todo h ≤ 9
unfolding distance
distance-bounded [] h = omega arith
distance-bounded (insert_barrier key ∷ rest) h = omega arith
distance-bounded (stamp ∷ rest) h = omega arith
distance-bounded (send m ∷ rest) h = omega arith
distance-bounded (wait ∷ rest) none = omega arith
distance-bounded (wait ∷ rest) (some b) = omega arith
distance-bounded (print key ∷ rest) h = omega arith
distance-bounded (sleep lasts ∷ rest) h = omega arith
distance-bounded (advance ∷ rest) h = omega arith

module _ (tool : PingTool) where
  open tool use {Message, Printed, make, round, line}

  to_go : System Printed Message → ℕ
  unfolding distance
  to_go s = distance s.todo s.handler

  to_go-at :
      (s : System Printed Message) (todo : List (Action Message)) (h : Option ℕ)
      → s.todo ≡ todo
      → s.handler ≡ h
      → to_go s ≡ distance todo h
  unfolding to_go
  to_go-at s todo h e k = ap (λ a. distance a s.handler) e ∙ ap (distance todo) k

  Whole : System Printed Message → Type 0
  Whole s = s.lost ≡ 0

  Nearer : System Printed Message → System Printed Message → Type 0
  unfolding to_go Whole
  Nearer = Progress.Nearer (Reach tool) Whole to_go (λ s. s.printed)

  module _ {n : ℕ} {s : System Printed Message} (inv : Inv tool n s) where
    step_on :
        n < 2 ^ 64
        → tool.sleeps ≢ some false
        → s.lost ≡ 0
        → (t : System Printed Message) × Step tool s t × (t.lost ≡ 0) × Nearer s t
    unfolding Nearer to_go distance
    step_on fits lasting whole = go inv.phase
      where
        head_at : {w : List Message} {m : Message} → w ≡ m ∷ [] → get_elem? w 0 ≡ some m
        head_at e = ap (λ w. get_elem? w 0) e

        away :
            s.todo ≡ wait ∷ print s.count ∷ ending tool.sleeps
            → Away tool s
            → (t : System Printed Message) × Step tool s t × (t.lost ≡ 0) × Nearer s t
        away t (flying w h p) = (
          _,
          deliver 0 _ _ _ (head_at w) h (received tool inv 0 _ fits (head_at w)),
          whole,
          inr (ap (λ a. distance a (some s.barrier) + 1) t ∙ sym (to_go-at s _ _ t h), refl),
        )
        away t (answered w h p) = (_, meet _ t h, whole, inr (sym (to_go-at s _ _ t h), refl))
        away t (gone i p x) = absurd (omega arith)

        go :
            Phase tool s inv.lines
            → (t : System Printed Message) × Step tool s t × (t.lost ≡ 0) × Nearer s t
        go (between t l i p) = (
          _,
          turn t,
          whole,
          inr (
            ap (λ a. distance a s.handler + 1) (tool.round-eq s.count)
                ∙ sym (to_go-at s _ _ t refl),
            refl,
          ),
        )
        go (before_insert t l i p) =
            (_, act 0 _ _ t refl, whole, inr (sym (to_go-at s _ _ t refl), refl))
        go (before_stamp t l i p) =
            (_, act 0 _ _ t refl, whole, inr (sym (to_go-at s _ _ t refl), refl))
        go (before_send t l i p) = (
          _,
          act 0 _ _ t refl,
          whole,
          inr (
            ap (λ h. distance {M = Message} (wait ∷ print s.count ∷ ending tool.sleeps) h + 1)
                  i.no_handler
                ∙ sym (to_go-at s _ _ t refl),
            refl,
          ),
        )
        go (waiting t l w) = away t w
        go (before_print t l i p) =
            (_, act 0 _ _ t refl, whole, inl (to_go-at s _ _ t refl, _, refl))
        go (before_sleep false o t l i p) = absurd (lasting o)
        go (before_sleep true o t l i p) =
            (_, act 0 _ _ t refl, whole, inr (sym (to_go-at s _ _ t refl), refl))
        go (before_advance t l i p) =
            (_, act 0 _ _ t refl, whole, inr (sym (to_go-at s _ _ t refl), refl))

  -- No deadlock: unless the program sleeps for what is no duration, in every state that is reachable
  -- in fewer than 2^64 steps and in which nothing was lost, the loop, the handler or the barrier can take a step, in which nothing is lost.
  pub no_deadlock :
      (n : ℕ) (s : System Printed Message)
      → n < 2 ^ 64
      → tool.sleeps ≢ some false
      → Reach tool n s
      → s.lost ≡ 0
      → (t : System Printed Message) × Step tool s t × (t.lost ≡ 0)
  no_deadlock n s fits lasting r whole =
      let (t, step, kept, nearer) = step_on (Reach-Inv tool fits r) fits lasting whole in
      (t, step, kept)

  -- The next step, as `Progress` takes it.
  onward :
      tool.sleeps ≢ some false
      → (n : ℕ) (s : System Printed Message) → n < 2 ^ 64
      → Reach tool n s
      → Whole s
      → (t : System Printed Message) × Reach tool (n + 1) t × Whole t × Nearer s t
  unfolding Whole
  onward lasting n s fits r whole =
      let (t, step, kept, nearer) = step_on (Reach-Inv tool fits r) fits lasting whole in
      (t, later r step refl, kept, nearer)

  -- If the program does not sleep, or for a duration, then from every state that is reachable in n
  -- steps, n + 9 < 2^64, and in which nothing was lost, at most nine steps in which nothing is lost lead to a state with one line more, whose number is the
  -- number of the lines before it.
  pub next_line :
      (n : ℕ) (s : System Printed Message)
      → n + 9 < 2 ^ 64
      → tool.sleeps ≢ some false
      → Reach tool n s
      → s.lost ≡ 0
      → (m : ℕ) × (t : System Printed Message) × (l : Printed) × (m ≤ 9)
        × Reach tool (n + m) t
        × (t.lost ≡ 0)
        × (t.printed ≡ l ∷ s.printed)
        × (tool.count_of l ≡ length s.printed)
  unfolding to_go Whole Nearer
  next_line n s fits lasting r whole =
      let near : to_go s ≤ 9 = distance-bounded s.todo s.handler in
      let (m, t, l, few, reached, kept, e) =
        gets_on (Reach tool) Whole to_go (λ u. u.printed) (onward lasting) (to_go s) n s refl
          (omega arith) r whole in
      let inv = Reach-Inv tool (omega (arith, few)) reached in
      (
        m,
        t,
        l,
        omega (arith, few),
        reached,
        kept,
        e,
        newest tool.count_of inv.lines l s.printed (ap (map tool.count_of) (sym e) ∙ inv.in_order),
      )
