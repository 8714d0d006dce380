-- ===== src/Latency/Parallel/Ledger.antt =====
-- What a non-blocking ping promises, without its loop, messages and network: a ledger of numbered
-- pings. One is opened at a time, with the next number; an open one is closed by the line of the time
-- since it was opened.
use zenoh_perf.Base.{
  ℕ, ◌+◌, ◌-◌, ◌%◌, ◌^◌, ◌<◌, ◌≡◌, refl, ap, ◌∙◌, sym, none, some, Option, List, [], ◌∷◌, arith,
  ◌==◌, if◌then◌else◌, get_elem?, erase_at, done,
}
use mathlib.Core.Path.{fun_ext}
use zenoh_perf.Pending
use zenoh_perf.Pending.{Pending, get-insert, get-remove}
use zenoh_perf.Latency.Report.{Line}
use zenoh_perf.Latency.Parallel.{
  Action, insert_pending, send, sleep, advance, PingTool, System, Step, turn, act, deliver, lose,
  exec, Reach,
}
use zenoh_perf.Latency.Parallel.Invariant.{
  Inv, Phase, between, before_insert, before_send, before_sleep, before_advance,
}
use zenoh_perf.Latency.Parallel.Network.{Reach-Inv, received}

-- The next number, when each open ping was opened, and the lines, the newest first.
pub record Ledger : Type 0 where
  pub next : ℕ
  pub opened : ℕ → Option ℕ
  pub lines : List Line

-- What of a step there is to see: a ping is put into the map, or a pong has come, at a time.
pub data Event : Type 0 where
  hidden : Event
  opens : (key now : ℕ) → Event
  closes : (now : ℕ) → Event

-- What an event makes of the ledger.
pub data Entry (line : ℕ → ℕ → Line) (l : Ledger) : Event → Ledger → Type 0 where
  stay : (l' : Ledger) → l' ≡ l → Entry line l hidden l'
  open_ping :
      (key now next : ℕ) (opened : ℕ → Option ℕ)
      → key ≡ l.next
      → next ≡ l.next + 1
      → opened ≡ (λ k. if l.next == k then some now else l.opened k)
      → Entry line l (opens key now) (record { next = next; opened = opened; lines = l.lines })
  close_ping :
      (k since now : ℕ) (opened : ℕ → Option ℕ)
      → l.opened k ≡ some since
      → opened ≡ (λ j. if k == j then none else l.opened j)
      → Entry line l
          (closes now)
          (record { next = l.next; opened = opened; lines = line k (now - since) ∷ l.lines })

-- The number of the next ping: the current count, until its entry is made.
abbrev pub next_number : {M : Type 0} → ℕ → List (Action M) → ℕ
next_number count [] = count
next_number count (insert_pending key ∷ rest) = count
next_number count (send m ∷ rest) = count + 1
next_number count (sleep lasts ∷ rest) = count + 1
next_number count (advance ∷ rest) = count + 1

abbrev pub ledger : {M : Type 0} → System M → Ledger
ledger s = record {
  next = next_number s.count s.todo;
  opened = λ k. Pending.get k s.pending;
  lines = s.printed;
}

abbrev pub event_of : {M : Type 0} → ℕ → Action M → Event
event_of now (insert_pending key) = opens key now
event_of now a = hidden

abbrev pub event : {tool : PingTool} {s t : System tool.Message} → Step tool s t → Event
event (act now a rest e runs) = event_of now a
event (deliver now i m l p e h) = closes now
event step = hidden

module _ (tool : PingTool) {n : ℕ} {s : System tool.Message} (inv : Inv tool n s) where
  open tool use {Message, make, round, receive, line}
  open inv use {phase}

  same_ledger :
      (t : System Message)
      → next_number t.count t.todo ≡ next_number s.count s.todo
      → t.pending ≡ s.pending
      → t.printed ≡ s.printed
      → Entry line (ledger s) hidden (ledger t)
  same_ledger t e p l =
      stay (ledger t) (λ i. record { next = e i; opened = λ k. Pending.get k (p i); lines = l i })

  turn-Follows :
      (acts : List (Action Message))
      → s.todo ≡ []
      → round s.count ≡ done acts
      → Entry line (ledger s) hidden (ledger (record s { todo = acts }))
  turn-Follows acts e d =
      let body : insert_pending s.count ∷ send (make s.count) ∷ sleep tool.lasts ∷ advance ∷ []
          ≡ acts =
        cc (d, tool.round-eq s.count) in
      same_ledger (record s { todo = acts })
        (ap (next_number s.count) (sym body) ∙ ap (next_number s.count) (sym e)) refl refl

  act-Follows :
      (now : ℕ) (a : Action Message) (rest : List (Action Message))
      → n + 1 < 2 ^ 64
      → s.todo ≡ a ∷ rest
      → Entry line (ledger s) (event_of now a) (ledger (exec now a rest s))
  act-Follows now a rest fits e = go phase
    where
      go :
          Phase tool s.count s.todo inv.inserted inv.sent
          → Entry line (ledger s) (event_of now a) (ledger (exec now a rest s))
      go (between t x y) = absurd (cc)
      go (before_insert t x y) =
          let h : a ≡ insert_pending s.count = cc in
          let r : rest ≡ send (make s.count) ∷ sleep tool.lasts ∷ advance ∷ [] = cc in
          let first : s.count ≡ next_number s.count s.todo = ap (next_number s.count) (sym t) in
          rw (h, r)
            (open_ping s.count now (s.count + 1) _ first (ap (λ c. c + 1) first) (
              fun_ext λ k.
                get-insert s.count k now s.pending
                ∙ ap (λ c. if c == k then some now else Pending.get k s.pending) first))
      go (before_send t x y) =
          let h : a ≡ send (make s.count) = cc in
          let r : rest ≡ sleep tool.lasts ∷ advance ∷ [] = cc in
          rw (h, r)
            (same_ledger (exec now (send (make s.count)) (sleep tool.lasts ∷ advance ∷ []) s)
              (ap (next_number s.count) (sym t)) refl refl)
      go (before_sleep t x y) =
          let h : a ≡ sleep tool.lasts = cc in
          let r : rest ≡ advance ∷ [] = cc in
          rw (h, r)
            (same_ledger (exec now (sleep tool.lasts) (advance ∷ []) s)
              (ap (next_number s.count) (sym t)) refl refl)
      go (before_advance t x y) =
          let h : a ≡ advance = cc in
          let r : rest ≡ [] = cc in
          let bounded = inv.bounded in
          let wrapped : (s.count + 1) % 2 ^ 64 ≡ s.count + 1 = omega arith in
          rw (h, r)
            (same_ledger (exec now advance [] s) (wrapped ∙ ap (next_number s.count) (sym t)) refl
              refl)

  deliver-Follows :
      (now i : ℕ) (m : Message) (l : Line) (p : Pending ℕ) (w : List Message)
      → n + 1 < 2 ^ 64
      → get_elem? s.wire i ≡ some m
      → receive m now s.pending ≡ done (l, p)
      → Entry line
          (ledger s)
          (closes now)
          (ledger (record s { wire = w; pending = p; printed = l ∷ s.printed }))
  deliver-Follows now i m l p w fits e h =
      let (k, t, waiting, at_key, got) = received tool inv now i m fits e in
      let line_eq : line k (now - t) ≡ l = cc in
      let p_eq : Pending.remove k s.pending ≡ p = cc in
      rw (← p_eq, ← line_eq) (close_ping k t now _ waiting (fun_ext λ j. get-remove k j s.pending))

-- In every state that is reachable in fewer than 2^64 - 1 steps, a step that puts a ping into the map
-- opens the ping with the next number at the time of that step; a step that handles a pong closes an
-- open ping by its line, with the time from its opening to that step; and each other step of the
-- program or of the network leaves the ledger as it is: the loop, its messages and its handler refine
-- the ledger.
pub refines_ledger :
    (tool : PingTool) (n : ℕ) (s t : System tool.Message)
    → n + 1 < 2 ^ 64
    → Reach tool n s
    → (step : Step tool s t) → Entry tool.line (ledger s) (event step) (ledger t)
refines_ledger tool n s t fits r step = go step
  where
    inv : Inv tool n s
    inv = Reach-Inv tool (omega arith) r

    go :
        {u : System tool.Message} (step' : Step tool s u)
        → Entry tool.line (ledger s) (event step') (ledger u)
    go (turn acts e d) = turn-Follows tool inv acts e d
    go (act now a rest e runs) = act-Follows tool inv now a rest fits e
    go (deliver now i m l p e h) = deliver-Follows tool inv now i m l p (erase_at s.wire i) fits e h
    go (lose i m e) = stay _ refl
