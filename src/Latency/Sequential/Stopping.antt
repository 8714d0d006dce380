-- ===== src/Latency/Sequential/Stopping.antt =====
-- A blocking ping whose interval is no duration, as r_ping.rs makes it in its loop: it ends at its first
-- sleep.
use zenoh_perf.Base.{
  ℕ, ◌^◌, ◌<◌, ◌≡◌, refl, ap, sym, ◌∙◌, Bool, true, false, some, List, [], ◌∷◌, map, arith, ◌⊎◌,
  inl, inr,
}
use mathlib.Core.Option.{some-injective}
use zenoh_perf.Latency.Sequential.{
  Action, insert_barrier, stamp, send, wait, print, sleep, advance, ending, blocks, PingTool,
  System, Step, turn, act, meet, deliver, lose, Reach, start, later, exec,
}
use zenoh_perf.Latency.Sequential.Invariant.{
  Inv, Phase, between, before_insert, before_stamp, before_send, waiting, before_print,
  before_sleep, before_advance, down_from,
}
use zenoh_perf.Latency.Sequential.Network.{Reach-Inv}

-- Whether the loop is behind its sleep.
abbrev past_sleep : {M : Type 0} → List (Action M) → Bool
past_sleep [] = false
past_sleep (advance ∷ rest) = true
past_sleep (_ ∷ rest) = false

module _ (tool : PingTool) (bad : tool.sleeps ≡ some false) where
  open tool use {Message, Printed, make, round, line}

  FirstTurn : System Printed Message → Type 0
  FirstTurn s = (s.count ≡ 0) × (past_sleep s.todo ≡ false)

  act-FirstTurn :
      {n : ℕ} {s : System Printed Message}
      → (inv : Inv tool n s) → FirstTurn s
      → (now : ℕ) (a : Action Message) (rest : List (Action Message)) → s.todo ≡ a ∷ rest
      → blocks a ≡ false
      → FirstTurn (exec line now a rest s)
  unfolding FirstTurn
  act-FirstTurn {s = s} inv first now a rest e free = go inv.phase
    where
      go : Phase tool s inv.lines → FirstTurn (exec line now a rest s)
      go (between t l i p) = absurd (cc)
      go (before_insert t l i p) =
          let h : a ≡ insert_barrier s.count = cc in
          let r : rest ≡ stamp ∷ send (make s.count) ∷ wait ∷ print s.count ∷ ending tool.sleeps =
            cc in
          rw (h, r) ((first.0, refl))
      go (before_stamp t l i p) =
          let h : a ≡ stamp = cc in
          let r : rest ≡ send (make s.count) ∷ wait ∷ print s.count ∷ ending tool.sleeps = cc in
          rw (h, r) ((first.0, refl))
      go (before_send t l i p) =
          let h : a ≡ send (make s.count) = cc in
          let r : rest ≡ wait ∷ print s.count ∷ ending tool.sleeps = cc in
          rw (h, r) ((first.0, refl))
      go (waiting t l w) = let h : a ≡ wait = cc in absurd (cc (free, ap blocks h))
      go (before_print t l i p) =
          let h : a ≡ print s.count = cc in
          let r : rest ≡ ending (some false) = cc (bad, t, e) in rw (h, r) ((first.0, refl))
      go (before_sleep lasts o t l i p) =
          let h : a ≡ sleep lasts = cc in
          let never : lasts ≡ false = some-injective _ _ (sym o ∙ bad) in
          let stops : blocks a ≡ true = ap blocks (h ∙ ap sleep never) in absurd (cc)
      go (before_advance t l i p) = absurd (cc (first.1, ap past_sleep t))

  Step-FirstTurn :
      {n : ℕ} {s t : System Printed Message}
      → Inv tool n s
      → FirstTurn s
      → Step tool s t
      → FirstTurn t
  unfolding FirstTurn
  Step-FirstTurn {s = s} inv first step = go step
    where
      go : {u : System Printed Message} → Step tool s u → FirstTurn u
      go (turn e) = (first.0, ap past_sleep (tool.round-eq s.count))
      go (act now a rest e free) = act-FirstTurn inv first now a rest e free
      go (meet rest e h) = (first.0, behind_wait rest e inv.phase)
        where
          behind_wait :
              (rest' : List (Action Message))
              → s.todo ≡ wait ∷ rest'
              → Phase tool s inv.lines
              → past_sleep rest' ≡ false
          behind_wait rest' e' (waiting t l w) =
              let r : rest' ≡ print s.count ∷ ending tool.sleeps = cc in ap past_sleep r
          behind_wait rest' e' (between t l i p) = absurd (cc)
          behind_wait rest' e' (before_insert t l i p) = absurd (cc)
          behind_wait rest' e' (before_stamp t l i p) = absurd (cc)
          behind_wait rest' e' (before_send t l i p) = absurd (cc)
          behind_wait rest' e' (before_print t l i p) = absurd (cc)
          behind_wait rest' e' (before_sleep lasts o t l i p) = absurd (cc)
          behind_wait rest' e' (before_advance t l i p) = absurd (cc)
      go (deliver i m b p e f h) = first
      go (lose i m e) = first

  Reach-FirstTurn : {n : ℕ} {s : System Printed Message} → n < 2 ^ 64 → Reach tool n s → FirstTurn s
  unfolding FirstTurn
  Reach-FirstTurn fits start = (refl, refl)
  Reach-FirstTurn fits (later r step e) =
      Step-FirstTurn (Reach-Inv tool (omega arith) r) (Reach-FirstTurn (omega arith) r) step

  no_line : (ls : List Printed) → map tool.count_of ls ≡ [] → ls ≡ []
  no_line [] e = refl
  no_line (l ∷ ls) e = absurd (cc)

  one_line :
      (ls : List Printed)
      → map tool.count_of ls ≡ 0 ∷ []
      → (l : Printed) × (ls ≡ l ∷ []) × (tool.count_of l ≡ 0)
  one_line [] e = absurd (cc)
  one_line (l ∷ ls) e = let rest = no_line ls (cc) in (l, ap (λ x. l ∷ x) rest, cc)

  -- If the interval of a blocking ping is no duration, then in every state that is reachable in fewer
  -- than 2^64 steps it has printed nothing, or one line, of the count 0, and stands at its first
  -- sleep, where it panics.
  pub stops_at_sleep :
      (n : ℕ) (s : System Printed Message)
      → n < 2 ^ 64
      → Reach tool n s
      → (s.printed ≡ [])
        ⊎ ((l : Printed) × (s.printed ≡ l ∷ [])
            × (tool.count_of l ≡ 0)
            × (s.todo ≡ sleep false ∷ advance ∷ []))
  unfolding FirstTurn
  stops_at_sleep n s fits r = go inv.phase
    where
      inv : Inv tool n s
      inv = Reach-Inv tool fits r

      first : FirstTurn s
      first = Reach-FirstTurn fits r

      nothing :
          inv.lines ≡ s.count
          → (s.printed ≡ [])
            ⊎ ((l : Printed) × (s.printed ≡ l ∷ [])
                × (tool.count_of l ≡ 0)
                × (s.todo ≡ sleep false ∷ advance ∷ []))
      nothing l = inl (no_line s.printed (inv.in_order ∙ ap down_from (l ∙ first.0)))

      go :
          Phase tool s inv.lines
          → (s.printed ≡ [])
            ⊎ ((l : Printed) × (s.printed ≡ l ∷ [])
                × (tool.count_of l ≡ 0)
                × (s.todo ≡ sleep false ∷ advance ∷ []))
      go (between t l i p) = nothing l
      go (before_insert t l i p) = nothing l
      go (before_stamp t l i p) = nothing l
      go (before_send t l i p) = nothing l
      go (waiting t l w) = nothing l
      go (before_print t l i p) = nothing l
      go (before_sleep lasts o t l i p) =
          let one : inv.lines ≡ 1 = omega (arith, first.0) in
          let (line', e, zeroth) = one_line s.printed (inv.in_order ∙ ap down_from one) in
          let never : lasts ≡ false = some-injective _ _ (sym o ∙ bad) in
          inr (line', e, zeroth, t ∙ ap (λ b. sleep b ∷ advance ∷ []) never)
      go (before_advance t l i p) = absurd (cc (first.1, ap past_sleep t))
