-- ===== src/Query/Asking/Network.antt =====
-- The steps of the network, of the handler and of the barrier in t_query and r_query.
use zenoh_perf.Base.{
  ℕ, suc, ◌+◌, ◌^◌, ◌<◌, ◌≡◌, refl, ap, ◌∙◌, sym, some, List, [], ◌∷◌, map, arith, get_elem?,
  erase_at, not_in_nil, only_one, done,
}
use zenoh_perf.Pending
use zenoh_perf.Pending.{Pending, get-remove}
use zenoh_perf.Latency.Sequential.Invariant.{down_from}
use zenoh_perf.Query.Asking.{
  Action, wait, advance, the_barrier, answer, QueryTool, idle, held, released, System, Step, turn,
  act, meet, print, deliver, lose, Reach, start, later,
}
use zenoh_perf.Query.Asking.Invariant.{
  Inv, Inv-init, Loaded, Loose, quiet, printing, Away, flying, answered, gone, Phase, between,
  before_insert, before_send, waiting, before_advance, still, turn-Inv, act-Inv,
}

-- What is known while a query is on the wire.
pub record InFlight (tool : QueryTool) (s : System tool.Printed tool.Message) (met : ℕ)
    : Type 0 where
  pub at_wait : s.todo ≡ wait ∷ advance ∷ []
  pub counted : met ≡ s.count
  pub wired : s.wire ≡ tool.ask s.count ∷ []
  pub loose : Loose tool s met
  pub since : ℕ
  pub loaded : Loaded tool s since

module _ (tool : QueryTool) {n : ℕ} {s : System tool.Printed tool.Message}
    (inv : Inv tool n s) where
  open tool use {Message, Printed, ask, receive, line, number_of}
  open inv use {met, phase, bounded}

  pub in_flight : (i : ℕ) (m : Message) → get_elem? s.wire i ≡ some m → InFlight tool s met
  in_flight i m e = go phase
    where
      none_there : s.wire ≡ [] → ⊥
      none_there w = not_in_nil s.wire i w e

      away : s.todo ≡ wait ∷ advance ∷ [] → met ≡ s.count → Away tool s met → InFlight tool s met
      away t c (flying i w l p) = record {
        at_wait = t;
        counted = c;
        wired = w;
        loose = l;
        since = i;
        loaded = p;
      }
      away t c (answered w h p) = absurd (none_there w)
      away t c (gone i w l p x) = absurd (none_there w)

      go : Phase tool s met → InFlight tool s met
      go (between t c w l p) = absurd (none_there w)
      go (before_insert t c w l p) = absurd (none_there w)
      go (before_send i t c w l p) = absurd (none_there w)
      go (waiting t c a) = away t c a
      go (before_advance t c w l p) = absurd (none_there w)

  answer-some :
      (k i b : ℕ) (p : Pending (ℕ × ℕ))
      → Pending.get k p ≡ some (i, b)
      → answer (line k) k p ≡ done (b, line k i, Pending.remove k p)
  answer-some k i b p h = ground arith

  -- The handler takes the barrier at which the loop waits, and the line of the current query.
  pub received :
      (i : ℕ) (m : Message)
      → n < 2 ^ 64
      → (e : get_elem? s.wire i ≡ some m)
      → receive m s.pending
        ≡ done (the_barrier, line s.count (in_flight i m e).since, Pending.remove s.count s.pending)
  received i m fits e =
      let f = in_flight i m e in
      let made = (only_one s.wire i f.wired e).0 in
      ap (λ x. receive x s.pending) made
      ∙ tool.receive-ask s.count s.pending (omega arith)
      ∙ answer-some s.count f.since the_barrier s.pending (ground (arith, f.loaded s.count))

  so_far : Loose tool s met → s.handler ≡ idle → map number_of s.printed ≡ down_from met
  so_far (quiet h p) e = p
  so_far (printing k shown m h c p) e = absurd (cc)

  deliver-Inv :
      (i : ℕ) (m : Message) (b : ℕ) (shown : ℕ → Printed) (p : Pending (ℕ × ℕ))
      → n < 2 ^ 64
      → get_elem? s.wire i ≡ some m
      → s.handler ≡ idle
      → receive m s.pending ≡ done (b, shown, p)
      → Inv tool
          (n + 1)
          (record s { wire = erase_at s.wire i; pending = p; handler = held b shown })
  deliver-Inv i m b shown p fits e free h =
      let f = in_flight i m e in
      let got = received i m fits e in
      let b_eq : the_barrier ≡ b = cc in
      let line_eq : line s.count f.since ≡ shown = cc in
      let p_eq : Pending.remove s.count s.pending ≡ p = cc in
      rw (← p_eq, ← b_eq, ← line_eq)
        (record {
          met = met;
          phase = waiting f.at_wait f.counted (
              answered (only_one s.wire i f.wired e).1
                (record {
                  shown = line s.count f.since;
                  at_barrier = refl;
                  numbered = λ now. tool.number_of-line s.count f.since now;
                  so_far = so_far f.loose free;
                })
                (λ k. ground (arith, f.loaded k, get-remove s.count k s.pending)));
          bounded = omega arith;
        })

  lose-Inv :
      (i : ℕ) (m : Message)
      → get_elem? s.wire i ≡ some m
      → Inv tool (n + 1) (record s { wire = erase_at s.wire i; lost = s.lost + 1 })
  lose-Inv i m e =
      let f = in_flight i m e in
      record {
        met = met;
        phase = waiting f.at_wait f.counted (
            gone f.since (only_one s.wire i f.wired e).1 (still tool f.loose _ refl refl) f.loaded
              (omega arith));
        bounded = omega arith;
      }

  not_held : {b : ℕ} {shown : ℕ → Printed} → Loose tool s met → s.handler ≡ held b shown → ⊥
  not_held (quiet h p) e = cc
  not_held (printing k shown m h c p) e = cc

  meet-Inv :
      (rest : List (Action Message)) (shown : ℕ → Printed)
      → s.todo ≡ wait ∷ rest
      → s.handler ≡ held the_barrier shown
      → Inv tool (n + 1) (record s { todo = rest; handler = released shown })
  meet-Inv rest shown e h = go phase
    where
      away :
          s.todo ≡ wait ∷ advance ∷ []
          → met ≡ s.count
          → Away tool s met
          → Inv tool (n + 1) (record s { todo = rest; handler = released shown })
      away t c (flying i w l p) = absurd (not_held l h)
      away t c (gone i w l p x) = absurd (not_held l h)
      away t c (answered w x p) =
          let same : x.shown ≡ shown = cc (x.at_barrier, h) in
          record {
            met = suc met;
            phase =
                before_advance (cc) (omega arith) w
                  (printing met shown (omega arith) refl
                    (λ now. ap (λ f. number_of (f now)) (sym same) ∙ x.numbered now ∙ sym c)
                    x.so_far)
                  p;
            bounded = omega arith;
          }

      go : Phase tool s met → Inv tool (n + 1) (record s { todo = rest; handler = released shown })
      go (between t c w l p) = absurd (not_held l h)
      go (before_insert t c w l p) = absurd (not_held l h)
      go (before_send i t c w l p) = absurd (not_held l h)
      go (waiting t c a) = away t c a
      go (before_advance t c w l p) = absurd (not_held l h)

  -- The handler prints the line of the last meeting.
  print-Inv :
      (now : ℕ) (shown : ℕ → Printed)
      → s.handler ≡ released shown
      → Inv tool (n + 1) (record s { handler = idle; printed = shown now ∷ s.printed })
  print-Inv now shown h = record { met = met; phase = go phase; bounded = omega arith }
    where
      after : System Printed Message
      after = record s { handler = idle; printed = shown now ∷ s.printed }

      loose : Loose tool s met → Loose tool after met
      loose (quiet e p) = absurd (cc)
      loose (printing k held_line m e c p) =
          let same : held_line ≡ shown = cc in
          let number : number_of (shown now) ≡ k = ap (λ f. number_of (f now)) (sym same) ∙ c now in
          let m' : met ≡ suc k = omega arith in quiet refl (cc (ap down_from m'))

      away : Away tool s met → Away tool after met
      away (flying i w l p) = flying i w (loose l) p
      away (gone i w l p x) = gone i w (loose l) p x
      away (answered w x p) = absurd (cc (x.at_barrier, h))

      go : Phase tool s met → Phase tool after met
      go (between t c w l p) = between t c w (loose l) p
      go (before_insert t c w l p) = before_insert t c w (loose l) p
      go (before_send i t c w l p) = before_send i t c w (loose l) p
      go (waiting t c a) = waiting t c (away a)
      go (before_advance t c w l p) = before_advance t c w (loose l) p

pub Step-Inv :
    (tool : QueryTool) {n : ℕ} {s t : System tool.Printed tool.Message}
    → n + 1 < 2 ^ 64
    → Step tool s t
    → Inv tool n s
    → Inv tool (n + 1) t
Step-Inv tool fits (turn e) inv = turn-Inv tool inv e
Step-Inv tool fits (act now a rest e free) inv = act-Inv tool inv now a rest fits e free
Step-Inv tool fits (meet rest shown e h) inv = meet-Inv tool inv rest shown e h
Step-Inv tool fits (print now shown h) inv = print-Inv tool inv now shown h
Step-Inv tool fits (deliver i m b shown p e f h) inv =
    deliver-Inv tool inv i m b shown p (omega arith) e f h
Step-Inv tool fits (lose i m e) inv = lose-Inv tool inv i m e

pub Reach-Inv :
    (tool : QueryTool) {n : ℕ} {s : System tool.Printed tool.Message}
    → n < 2 ^ 64
    → Reach tool n s
    → Inv tool n s
Reach-Inv tool fits start = Inv-init tool
Reach-Inv tool fits (later {n = m} r st e) =
    rw e (Step-Inv tool (omega arith) st (Reach-Inv tool (omega arith) r))
