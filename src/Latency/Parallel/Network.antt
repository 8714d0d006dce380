-- ===== src/Latency/Parallel/Network.antt =====
-- The steps of the network in the non-blocking ping programs: a message on the wire is the ping of
-- a count that is in the map, so its pong is answered; and what holds in every reachable state.
use zenoh_perf.Base.{
  ℕ, ◌+◌, ◌-◌, ◌^◌, ◌<◌, ◌≡◌, ap, ◌∙◌, sym, none, some, List, ◌∷◌, map, arith, ◌⊎◌, get_elem?,
  erase_at, occurrences, occurrences-cons, occurrences-erase_at, erase_at-map, get_elem?-map,
  length-erase_at, done, Option-cases, inl, inr,
}
use zenoh_perf.Pending
use zenoh_perf.Pending.{Pending, presence, get-empty, get-insert, get-remove}
use zenoh_perf.Latency.Report.{Line}
use zenoh_perf.Latency.Parallel.{
  answer, PingTool, System, Step, turn, act, deliver, lose, Reach, start, later,
}
use zenoh_perf.Latency.Parallel.Invariant.{Inv, Inv-init, turn-Inv, act-Inv, sent-le, inserted-ge}

-- What is known of a message on the wire.
pub record Reflected (tool : PingTool) (s : System tool.Message) (keys : List ℕ) (i : ℕ)
    (m : tool.Message) : Type 0 where
  pub key : ℕ
  pub at_key : get_elem? keys i ≡ some key
  pub made : tool.make key ≡ m
  pub instant : ℕ
  pub waiting : Pending.get key s.pending ≡ some instant
  pub new : occurrences key (map (λ l. l.count) s.printed) ≡ 0
  pub fits : key < 2 ^ 64

answer-some :
    (line : ℕ → Line) (k t now : ℕ) (p : Pending ℕ)
    → Pending.get k p ≡ some t
    → answer line k now p ≡ done (line (now - t), Pending.remove k p)
answer-some line k t now p h = ground arith

answered :
    (tool : PingTool) (k t now : ℕ) (p : Pending ℕ) (m : tool.Message)
    → k < 2 ^ 64
    → tool.make k ≡ m
    → Pending.get k p ≡ some t
    → tool.receive m now p ≡ done (tool.line k (now - t), Pending.remove k p)
answered tool k t now p m fits made h =
    ap (λ x. tool.receive x now p) (sym made)
    ∙ tool.receive-make k now p fits
    ∙ answer-some (tool.line k) k t now p h

module _ (tool : PingTool) {n : ℕ} {s : System tool.Message} (inv : Inv tool n s) where
  open tool use {Message, make, receive, line}
  open inv use {inserted, sent, keys, lost_keys, lost_length, on_wire, once, held, total}

  reflected :
      (i : ℕ) (m : Message)
      → n + 1 < 2 ^ 64
      → get_elem? s.wire i ≡ some m
      → Reflected tool s keys i m
  reflected i m fits e =
      let (k, at_key, made) = get_elem?-map make keys i (rw on_wire at e) in
      find k at_key made (ground (arith, once k, occurrences-erase_at k k keys i at_key))
        (Option-cases (Pending.get k s.pending))
    where
      find :
          (k : ℕ)
          → get_elem? keys i ≡ some k
          → make k ≡ m
          → (k < sent) × (occurrences k (map (λ l. l.count) s.printed) ≡ 0)
          → (Pending.get k s.pending ≡ none) ⊎ ((t : ℕ) × (Pending.get k s.pending ≡ some t))
          → Reflected tool s keys i m
      find k a b c (inl h) = absurd (ground (arith, held k, inserted-ge tool inv))
      find k a b c (inr (t, h)) = record {
        key = k;
        at_key = a;
        made = b;
        instant = t;
        waiting = h;
        new = c.1;
        fits = omega (arith, sent-le tool inv, inv.bounded);
      }

  -- The handler answers it.
  pub received :
      (now i : ℕ) (m : Message)
      → n + 1 < 2 ^ 64
      → get_elem? s.wire i ≡ some m
      → (k t : ℕ) × (Pending.get k s.pending ≡ some t)
        × (get_elem? keys i ≡ some k)
        × (receive m now s.pending ≡ done (line k (now - t), Pending.remove k s.pending))
  received now i m fits e =
      let r = reflected i m fits e in
      (
        r.key,
        r.instant,
        r.waiting,
        r.at_key,
        answered tool r.key r.instant now s.pending m r.fits r.made r.waiting,
      )

  deliver-Inv :
      (now i : ℕ) (m : Message) (l : Line) (p : Pending ℕ)
      → n + 1 < 2 ^ 64
      → get_elem? s.wire i ≡ some m
      → receive m now s.pending ≡ done (l, p)
      → Inv tool
          (n + 1)
          (record s { wire = erase_at s.wire i; pending = p; printed = l ∷ s.printed })
  deliver-Inv now i m l p fits e h =
      let (k, t, waiting, at_key, answered) = received now i m fits e in
      let p_eq : p ≡ Pending.remove k s.pending = cc in
      let l_eq : l ≡ line k (now - t) = cc in
      let l_count : l.count ≡ k = rw l_eq (tool.line-count k (now - t)) in
      record {
        inserted = inserted;
        sent = sent;
        keys = erase_at keys i;
        lost_keys = lost_keys;
        lost_length = lost_length;
        phase = inv.phase;
        bounded = omega (arith, inv.bounded);
        on_wire = rw on_wire (erase_at-map make keys i);
        once = λ j. ground (
          arith,
          l_count,
          once j,
          occurrences-erase_at j k keys i at_key,
          occurrences-cons j l.count (map (λ (x : Line). x.count) s.printed),
        );
        held = λ j. rw p_eq (
            ground (
              arith,
              l_count,
              held j,
              waiting,
              get-remove k j s.pending,
              occurrences-cons j l.count (map (λ (x : Line). x.count) s.printed),
            ));
        total = omega (arith, total, length-erase_at keys i at_key);
      }

  lose-Inv :
      (i : ℕ) (m : Message)
      → get_elem? s.wire i ≡ some m
      → Inv tool (n + 1) (record s { wire = erase_at s.wire i; lost = s.lost + 1 })
  lose-Inv i m e =
      let (k, at_key, made) = get_elem?-map make keys i (rw on_wire at e) in
      record {
        inserted = inserted;
        sent = sent;
        keys = erase_at keys i;
        lost_keys = k ∷ lost_keys;
        lost_length = omega (arith, lost_length);
        phase = inv.phase;
        bounded = omega (arith, inv.bounded);
        on_wire = rw on_wire (erase_at-map make keys i);
        once = λ j.
            omega (
              arith,
              once j,
              occurrences-erase_at j k keys i at_key,
              occurrences-cons j k lost_keys,
            );
        held = held;
        total = omega (arith, total, length-erase_at keys i at_key);
      }

pub Step-Inv :
    (tool : PingTool) {n : ℕ} {s t : System tool.Message}
    → n + 1 < 2 ^ 64
    → Step tool s t
    → Inv tool n s
    → Inv tool (n + 1) t
Step-Inv tool fits (turn acts e d) inv = turn-Inv tool inv acts e d
Step-Inv tool fits (act now a rest e runs) inv = act-Inv tool inv now a rest fits e
Step-Inv tool fits (deliver now i m l p e h) inv = deliver-Inv tool inv now i m l p fits e h
Step-Inv tool fits (lose i m e) inv = lose-Inv tool inv i m e

pub Reach-Inv :
    (tool : PingTool) {n : ℕ} {s : System tool.Message} → n < 2 ^ 64 → Reach tool n s → Inv tool n s
Reach-Inv tool fits start = Inv-init tool
Reach-Inv tool fits (later {n = m} r st e) =
    rw e (Step-Inv tool (omega arith) st (Reach-Inv tool (omega arith) r))
