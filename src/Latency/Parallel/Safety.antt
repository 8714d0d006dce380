-- ===== src/Latency/Parallel/Safety.antt =====
-- What the non-blocking ping programs guarantee, whatever the order and the losses of the pongs.
use zenoh_perf.Base.{
  ℕ, ◌+◌, ◌-◌, ◌^◌, ◌≤◌, ◌<◌, ◌≡◌, refl, ap, Option, none, some, List, [], ◌∷◌, map, arith,
  get_elem?, length, occurrences, occurrences-nil, length-map, done,
}
use zenoh_perf.Pending
use zenoh_perf.Pending.{Pending, presence}
use zenoh_perf.Latency.Parallel.{PingTool, System, Reach}
use zenoh_perf.Latency.Parallel.Invariant.{
  Inv, Phase, below, between, before_insert, before_send, before_sleep, before_advance, sent-le,
}
use zenoh_perf.Latency.Parallel.Network.{Reach-Inv, received}

-- In every state that is reachable in fewer than 2^64 - 1 steps the handler answers each message on
-- the wire: it finds the entry of the count, prints that count with the time since the entry was
-- made, and removes the entry. It never panics.
pub pong_answered :
    (tool : PingTool) (n : ℕ) (s : System tool.Message)
    → n + 1 < 2 ^ 64
    → Reach tool n s
    → (now i : ℕ) (m : tool.Message) → get_elem? s.wire i ≡ some m
    → (k t : ℕ) × (Pending.get k s.pending ≡ some t)
      × (tool.receive m now s.pending ≡ done (tool.line k (now - t), Pending.remove k s.pending))
pong_answered tool n s fits r now i m e =
    let (k, t, waiting, at_key, h) =
      received tool (Reach-Inv tool (omega arith) r) now i m fits e in
    (k, t, waiting, h)

-- In every state that is reachable in fewer than 2^64 steps no count has been printed twice, and
-- only counts up to the current one have been printed.
pub printed_once :
    (tool : PingTool) (n : ℕ) (s : System tool.Message)
    → n < 2 ^ 64
    → Reach tool n s
    → (k : ℕ) → occurrences k (map (λ l. l.count) s.printed) ≤ below k (s.count + 1)
printed_once tool n s fits r k =
    let inv = Reach-Inv tool fits r in ground (arith, inv.once k, sent-le tool inv)

module _ (tool : PingTool) {n : ℕ} {s : System tool.Message} (inv : Inv tool n s) where
  open inv use {keys, lost_keys}

  at_rest : s.todo ≡ [] → (inv.inserted ≡ s.count) × (inv.sent ≡ s.count)
  at_rest e = go inv.phase
    where
      go :
          Phase tool s.count s.todo inv.inserted inv.sent
          → (inv.inserted ≡ s.count) × (inv.sent ≡ s.count)
      go (between t x y) = (x, y)
      go (before_insert t x y) = (x, y)
      go (before_send t x y) = absurd (cc)
      go (before_sleep t x y) = absurd (cc)
      go (before_advance t x y) = absurd (cc)

  no_keys : (xs : List ℕ) → length xs ≡ 0 → (k : ℕ) → occurrences k xs ≡ 0
  no_keys [] h k = occurrences-nil k
  no_keys (x ∷ xs) h k = absurd (omega arith)

  settled :
      s.todo ≡ []
      → s.wire ≡ []
      → s.lost ≡ 0
      → (k : ℕ)
      → (occurrences k (map (λ l. l.count) s.printed) ≡ below k s.count)
        × (Pending.get k s.pending ≡ none)
  settled e w l k =
      let rest = at_rest e in
      let no_wire : length keys ≡ 0 =
        omega (arith, length-map tool.make keys, ap length inv.on_wire, ap length w) in
      let printed : occurrences k (map (λ l. l.count) s.printed) ≡ below k s.count = ground (
        arith,
        inv.once k,
        no_keys keys no_wire k,
        no_keys lost_keys (omega (arith, inv.lost_length)) k,
      ) in
      (printed, absent (Pending.get k s.pending) (ground (arith, inv.held k)))
    where
      absent : (o : Option ℕ) → presence o ≡ 0 → o ≡ none
      absent none h = refl
      absent (some v) h = absurd (omega arith)

-- In every state that is reachable in fewer than 2^64 steps, between two turns of the loop, with no
-- message under way and none lost, every ping sent so far has been printed exactly once, nothing
-- else has been printed, and no entry is left.
pub all_answered :
    (tool : PingTool) (n : ℕ) (s : System tool.Message)
    → n < 2 ^ 64
    → Reach tool n s
    → s.todo ≡ []
    → s.wire ≡ []
    → s.lost ≡ 0
    → (k : ℕ)
    → (occurrences k (map (λ l. l.count) s.printed) ≡ below k s.count)
      × (Pending.get k s.pending ≡ none)
all_answered tool n s fits r = settled tool (Reach-Inv tool fits r)

-- In every state that is reachable in fewer than 2^64 steps, between two turns of the loop, the
-- number of pings sent is that of the pings under way, printed or lost.
pub pings_conserved :
    (tool : PingTool) (n : ℕ) (s : System tool.Message)
    → n < 2 ^ 64
    → Reach tool n s
    → s.todo ≡ []
    → length s.wire + length s.printed + s.lost ≡ s.count
pings_conserved tool n s fits r e =
    let inv = Reach-Inv tool fits r in
    omega
      (arith, inv.total, at_rest tool inv e, ap length inv.on_wire, length-map tool.make inv.keys)
