-- ===== src/Latency/Pong.antt =====
-- The pong programs: latency/src/bin/t_pong.rs, r_pong.rs and z_pong.rs.
use zenoh_perf.Base.{
  ℕ, ◌-◌, ◌^◌, ◌<◌, ◌≡◌, refl, sym, ◌∙◌, Bool, true, false, String, Option, none, some, List, [],
  ◌∷◌, ◌++◌, arith, Outcome, done, Panic, panic, multicast, ◌>>=◌,
}
use zenoh_perf.Pending
use zenoh_perf.Pending.{Pending, get-insert}
use zenoh_perf.Proto.{
  ZBufIo, ZenohMessage, KeyExpr, name, id, SendData, Call, decl_resource, decl_subscriber,
  send_data, targets,
}
use zenoh_perf.Latency.Report.{Settings, Line}
use zenoh_perf.Latency.Payload.{ping_bytes}
use zenoh_perf.Latency.Parallel.{answer}
use zenoh_perf.Latency.RPing.Parallel.{
  on_call, make_call, pong_line, on_send_data, on_send_data-make_call,
}
use zenoh_perf.Latency.Session.{Keys, set_up, set_up-Names, Names, Names-unique}
use zenoh_perf.Latency.ZPing
use zenoh_perf.Latency.ZPing.{single_keys, parallel_keys}

-- `MyMH::handle_message` of t_pong: what it sends to the peer.
unfoldable pub reflect : {B : Type 0} → ZenohMessage B → ZenohMessage B
reflect message = message

-- `MySH::new_multicast` of t_pong.
unfoldable pub new_multicast : {S : Type 0} → S → Outcome S
new_multicast sh = panic multicast

module _ {B : Type 0} where
  -- `LatencyPrimitives::send_data` of r_pong: what it calls, `tx_set` being whether `set_tx` was.
  unfoldable pub reply_calls : Bool → SendData B → Outcome (List (Call B))
  reply_calls false sent = panic Panic.unwrap_none
  reply_calls true sent = done (
      decl_resource 1 (name "/test/pong")
      ∷ send_data (record {
        key_expr = id 1;
        payload = sent.payload;
        channel = sent.channel;
        congestion_control = sent.congestion_control;
      })
      ∷ [])

  -- `LatencyPrimitives`: every other callback is empty.
  unfoldable pub pong_on_call : Bool → Call B → Outcome (List (Call B))
  unfolding reply_calls
  pong_on_call tx_set (send_data sent) = reply_calls tx_set sent
  pong_on_call tx_set call = done []

  -- What `main` of r_pong declares.
  abbrev pub pong_declarations : List (Call B)
  pong_declarations = decl_resource 2 (name "/test/ping") ∷ decl_subscriber (id 2) ∷ []

-- `struct Opt` of z_pong.
pub record Opt : Type 0 where
  pub endpoint : String
  pub mode : String
  pub use_expr : Bool
  pub declare_publication : Bool

-- What `main` of z_pong declares before its loop.
unfoldable pub pong_keys : ℕ → ℕ → Opt → Keys
unfolding set_up
pong_keys ping_id pong_id opt =
    set_up ping_id pong_id opt.use_expr opt.declare_publication "/test/ping" "/test/pong"

-- The loop of z_pong over the samples: what it puts, in order.
unfoldable pub pong_loop : {S : Type 0} → Keys → List S → List (KeyExpr × S)
pong_loop keys [] = []
pong_loop keys (sample ∷ samples) = (keys.target, sample) ∷ pong_loop keys samples

-- The callbacks of r_ping on a list of calls: the lines that it prints.
module _ (io : ZBufIo) where
  open io use {ZBuf, from, len}

  unfoldable pub on_calls :
      Settings → List (Call ZBuf) → ℕ → Pending ℕ → Outcome (List Line × Pending ℕ)
  on_calls rx [] now pending = done ([], pending)
  on_calls rx (call ∷ calls) now pending = do
    (line, left) ← on_call io rx call now pending
    (lines, left') ← on_calls rx calls now left
    elim line [ none ↦ done (lines, left') | some l ↦ done (l ∷ lines, left') ]

  -- r_pong's answer to a ping of r_ping is one pong, to /test/pong: r_ping prints one line for it, of that count,
  -- and takes its entry from the map; the declaration in front of it changes nothing. The router
  -- hands the calls of one program to the other, and r_pong's `tx` is set.
  pub r_pong_answers :
      (rx : Settings) (payload : List ℕ) (count now instant : ℕ) (before : Pending ℕ)
      → count < 2 ^ 64
      → (calls : List (Call ZBuf)) × (pong_on_call true (send_data (make_call io payload count))
          ≡ done calls)
        × (targets (pong_declarations ++ calls) ≡ some "/test/pong" ∷ [])
        × (on_calls rx calls now (Pending.insert count instant before)
            ≡ done (
              pong_line io rx (len (from (ping_bytes payload count))) count (now - instant) ∷ [],
              Pending.remove count (Pending.insert count instant before),
            ))
  r_pong_answers rx payload count now instant before h =
      let back : SendData ZBuf = record (make_call io payload count) { key_expr = id 1 } in
      let waiting : Pending ℕ = Pending.insert count instant before in
      let heard : on_send_data io rx back now waiting
          ≡ answer (pong_line io rx (len (from (ping_bytes payload count))) count) count now
              waiting =
        unfold on_send_data make_call in on_send_data-make_call io rx payload count now waiting h in
      (
        decl_resource 1 (name "/test/pong") ∷ send_data back ∷ [],
        unfold pong_on_call in refl,
        refl,
        unfold on_calls on_call in ground (arith, heard, get-insert count count instant before),
      )

-- z_ping without `--parallel` and z_pong subscribe to what the other one puts to, whatever the flags
-- of either, and whatever ids their sessions give to declared expressions.
pub z_pong_meets :
    (ping_table pong_table : ℕ → Option String) (a b c d : ℕ) (ping : ZPing.Opt) (pong : Opt)
    → (ping_table a ≡ some "/test/pong") × (ping_table b ≡ some "/test/ping")
    → (pong_table c ≡ some "/test/ping") × (pong_table d ≡ some "/test/pong")
    → (Names ping_table (single_keys a b ping).target "/test/ping")
      × (Names pong_table (pong_keys c d pong).subscribed "/test/ping")
      × (Names pong_table (pong_keys c d pong).target "/test/pong")
      × (Names ping_table (single_keys a b ping).subscribed "/test/pong")
unfolding single_keys pong_keys
z_pong_meets ping_table pong_table a b c d ping pong h k =
    let m =
      set_up-Names ping_table a b ping.use_expr ping.declare_publication "/test/pong" "/test/ping"
        h.0 h.1 in
    let n =
      set_up-Names pong_table c d pong.use_expr pong.declare_publication "/test/ping" "/test/pong"
        k.0 k.1 in
    (m.1, n.0, n.1, m.0)

-- z_ping with `--parallel` puts to no resource that z_pong subscribes to, whatever the flags and
-- ids: z_pong never receives its pings.
pub z_pong_misses :
    (ping_table pong_table : ℕ → Option String) (a b c d : ℕ) (ping : ZPing.Opt) (pong : Opt)
    → (ping_table a ≡ some "/test/z_pong") × (ping_table b ≡ some "/test/z_ping")
    → (pong_table c ≡ some "/test/ping") × (pong_table d ≡ some "/test/pong")
    → (resource : String)
    → ¬ (
        Names ping_table (parallel_keys a b ping).target resource
        × Names pong_table (pong_keys c d pong).subscribed resource)
unfolding parallel_keys pong_keys
z_pong_misses ping_table pong_table a b c d ping pong h k resource both =
    let m =
      set_up-Names ping_table a b ping.use_expr ping.declare_publication "/test/z_pong"
        "/test/z_ping" h.0 h.1 in
    let n =
      set_up-Names pong_table c d pong.use_expr pong.declare_publication "/test/ping" "/test/pong"
        k.0 k.1 in
    let put = Names-unique ping_table _ "/test/z_ping" resource m.1 both.0 in
    let heard = Names-unique pong_table _ "/test/ping" resource n.0 both.1 in
    let same : ◌≡◌ {A = String} "/test/z_ping" "/test/ping" = put ∙ sym heard in cc
