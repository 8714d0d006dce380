-- ===== src/Latency/Parallel/Invariant.antt =====
-- What holds in every reachable state of the non-blocking ping programs, step by step.
use zenoh_perf.Base.{
  ℕ, ◌+◌, ◌^◌, ◌≤◌, ◌<◌, ◌≡◌, refl, List, [], ◌∷◌, ◌++◌, map, arith, ltb, if◌then◌else◌, length,
  occurrences, occurrences-cons, occurrences-nil, occurrences-append, length-append, done,
}
use mathlib.Core.List.{map-append}
use zenoh_perf.Pending
use zenoh_perf.Pending.{Pending, presence, get-empty, get-insert, get-remove}
use zenoh_perf.Latency.Parallel.{
  Action, insert_pending, send, sleep, advance, PingTool, System, init, exec,
}

-- 1 for the counts that are below `n`.
abbrev pub below : ℕ → ℕ → ℕ
below k n = if ltb k n then 1 else 0

module _ (tool : PingTool) where
  open tool use {Message, make, round, receive, line}

  -- Where the loop stands: how many pings are in the map and how many on the wire.
  pub data Phase (count : ℕ) (todo : List (Action Message)) (inserted sent : ℕ) : Type 0 where
    between : todo ≡ [] → inserted ≡ count → sent ≡ count → Phase count todo inserted sent
    before_insert :
        todo ≡ insert_pending count ∷ send (make count) ∷ sleep tool.lasts ∷ advance ∷ []
        → inserted ≡ count
        → sent ≡ count
        → Phase count todo inserted sent
    before_send :
        todo ≡ send (make count) ∷ sleep tool.lasts ∷ advance ∷ []
        → inserted ≡ count + 1
        → sent ≡ count
        → Phase count todo inserted sent
    before_sleep :
        todo ≡ sleep tool.lasts ∷ advance ∷ []
        → inserted ≡ count + 1
        → sent ≡ count + 1
        → Phase count todo inserted sent
    before_advance :
        todo ≡ advance ∷ []
        → inserted ≡ count + 1
        → sent ≡ count + 1
        → Phase count todo inserted sent

  -- `keys` are the counts on the wire, `lost_keys` those that the network lost. Each sent count is on the wire, printed or lost, once; each
  -- inserted count is in the map until it is printed.
  pub record Inv (n : ℕ) (s : System Message) : Type 0 where
    pub inserted : ℕ
    pub sent : ℕ
    pub keys : List ℕ
    pub lost_keys : List ℕ
    pub phase : Phase s.count s.todo inserted sent
    pub bounded : s.count ≤ n
    pub on_wire : s.wire ≡ map make keys
    pub once :
        (k : ℕ)
        → occurrences k keys
            + occurrences k (map (λ l. l.count) s.printed)
            + occurrences k lost_keys
          ≡ below k sent
    pub held :
        (k : ℕ)
        → presence (Pending.get k s.pending) + occurrences k (map (λ l. l.count) s.printed)
          ≡ below k inserted
    pub lost_length : length lost_keys ≡ s.lost
    pub total : length keys + length s.printed + s.lost ≡ sent

  pub Inv-init : Inv 0 init
  Inv-init = record {
    inserted = 0;
    sent = 0;
    keys = [];
    lost_keys = [];
    lost_length = refl;
    phase = between refl refl refl;
    bounded = omega arith;
    on_wire = refl;
    once = λ k. ground (arith, occurrences-nil k);
    held = λ k. ground (arith, occurrences-nil k, get-empty {V = ℕ} k);
    total = omega arith;
  }

  module _ {n : ℕ} {s : System Message} (inv : Inv n s) where
    open inv use {
      inserted, sent, keys, lost_keys, lost_length, phase, bounded, on_wire, once, held, total,
    }

    -- Between two turns the loop takes its body for the current count.
    pub turn-Inv :
        (acts : List (Action Message))
        → s.todo ≡ []
        → round s.count ≡ done acts
        → Inv (n + 1) (record s { todo = acts })
    turn-Inv acts e d = record {
      inserted = inserted;
      sent = sent;
      keys = keys;
      lost_keys = lost_keys;
      lost_length = lost_length;
      phase = next phase;
      bounded = omega arith;
      on_wire = on_wire;
      once = once;
      held = held;
      total = total;
    }
      where
        next : Phase s.count s.todo inserted sent → Phase s.count acts inserted sent
        next (between t a b) = before_insert (cc (d, tool.round-eq s.count)) a b
        next (before_insert t a b) = absurd (cc (t, e))
        next (before_send t a b) = absurd (cc (t, e))
        next (before_sleep t a b) = absurd (cc (t, e))
        next (before_advance t a b) = absurd (cc (t, e))

    insert-Inv :
        (now : ℕ) (rest : List (Action Message))
        → rest ≡ send (make s.count) ∷ sleep tool.lasts ∷ advance ∷ []
        → inserted ≡ s.count
        → sent ≡ s.count
        → Inv (n + 1) (exec now (insert_pending s.count) rest s)
    insert-Inv now rest e a b = record {
      inserted = s.count + 1;
      sent = s.count;
      keys = keys;
      lost_keys = lost_keys;
      lost_length = lost_length;
      phase = before_send e refl refl;
      bounded = omega arith;
      on_wire = on_wire;
      once = λ k. ground (arith, once k);
      held = λ k. ground (arith, held k, once k, get-insert s.count k now s.pending);
      total = omega arith;
    }

    send-Inv :
        (now : ℕ) (rest : List (Action Message))
        → rest ≡ sleep tool.lasts ∷ advance ∷ []
        → inserted ≡ s.count + 1
        → sent ≡ s.count
        → Inv (n + 1) (exec now (send (make s.count)) rest s)
    send-Inv now rest e a b = record {
      inserted = inserted;
      sent = s.count + 1;
      keys = keys ++ s.count ∷ [];
      lost_keys = lost_keys;
      lost_length = lost_length;
      phase = before_sleep e a refl;
      bounded = omega arith;
      on_wire = rw (on_wire, map-append);
      once = λ k. ground (
        arith,
        once k,
        occurrences-append k keys (s.count ∷ []),
        occurrences-cons k s.count [],
        occurrences-nil k,
      );
      held = held;
      total = omega (arith, length-append keys (s.count ∷ []));
    }

    advance-Inv :
        (now : ℕ)
        → n + 1 < 2 ^ 64
        → inserted ≡ s.count + 1
        → sent ≡ s.count + 1
        → Inv (n + 1) (exec now advance [] s)
    advance-Inv now fits a b = record {
      inserted = inserted;
      sent = sent;
      keys = keys;
      lost_keys = lost_keys;
      lost_length = lost_length;
      phase = between refl (omega arith) (omega arith);
      bounded = omega arith;
      on_wire = on_wire;
      once = once;
      held = held;
      total = total;
    }

    -- The next action of the loop, whatever it is.
    pub act-Inv :
        (now : ℕ) (a : Action Message) (rest : List (Action Message))
        → n + 1 < 2 ^ 64
        → s.todo ≡ a ∷ rest
        → Inv (n + 1) (exec now a rest s)
    act-Inv now a rest fits e = go phase
      where
        tail_at : {b : Action Message} {u : List (Action Message)} → s.todo ≡ b ∷ u → rest ≡ u
        tail_at h = cc

        go : Phase s.count s.todo inserted sent → Inv (n + 1) (exec now a rest s)
        go (between t x y) = absurd (cc)
        go (before_insert t x y) =
            let h : a ≡ insert_pending s.count = cc in rw h (insert-Inv now rest (tail_at t) x y)
        go (before_send t x y) =
            let h : a ≡ send (make s.count) = cc in rw h (send-Inv now rest (tail_at t) x y)
        go (before_sleep t x y) =
            let h : a ≡ sleep tool.lasts = cc in
            rw h (record {
              inserted = inserted;
              sent = sent;
              keys = keys;
              lost_keys = lost_keys;
              lost_length = lost_length;
              phase = before_advance (tail_at t) x y;
              bounded = omega arith;
              on_wire = on_wire;
              once = once;
              held = held;
              total = total;
            })
        go (before_advance t x y) =
            let h : a ≡ advance = cc in
            let r : rest ≡ [] = cc in rw (h, r) (advance-Inv now fits x y)

    pub sent-le : sent ≤ s.count + 1
    sent-le = go phase
      where
        go : Phase s.count s.todo inserted sent → sent ≤ s.count + 1
        go (between t x y) = omega arith
        go (before_insert t x y) = omega arith
        go (before_send t x y) = omega arith
        go (before_sleep t x y) = omega arith
        go (before_advance t x y) = omega arith

    pub inserted-ge : sent ≤ inserted
    inserted-ge = go phase
      where
        go : Phase s.count s.todo inserted sent → sent ≤ inserted
        go (between t x y) = omega arith
        go (before_insert t x y) = omega arith
        go (before_send t x y) = omega arith
        go (before_sleep t x y) = omega arith
        go (before_advance t x y) = omega arith
