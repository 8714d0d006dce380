-- ===== src/Throughput/Sink/Udp/Serving.antt =====
-- The whole of `handle_client` of throughput/src/bin/t_sink_udp.rs: the handshake, the keep-alive task,
-- and the reading loop.
use zenoh_perf.Base.{
  ℕ, ◌^◌, ◌<◌, ◌≡◌, ◌≢◌, true, Bool, Option, none, some, List, [], ◌∷◌, ◌++◌, arith, replicate,
  Outcome, done, panic, wrong_peer, ◌>>=◌,
}
use zenoh_perf.Wire.{Codec, init_syn, init_ack, open_syn, open_ack, keep_alive}
use zenoh_perf.Throughput.Counter.{Counter, fresh}
use zenoh_perf.Throughput.Sink.Tcp.{cookie}
use zenoh_perf.Throughput.Sink.Udp.{
  Datagram, zsend, handshake, handshake_cases, read_loop, read_loop_peer, payload_of, AllFrom,
}

-- What the accepted peer was sent, and the counter; `none` while a datagram is still awaited.
pub record Served : Type 0 where
  pub sent : List (List ℕ)
  pub counter : Counter

module _ {Z : Type 0} (codec : Codec Z) where
  open codec use {write}

  -- The keep-alive task after so many seconds: one datagram a second, or a panic of its own that ends
  -- it alone.
  unfoldable pub keep_alives : ℕ → List (List ℕ)
  unfolding zsend
  keep_alives seconds = elim (zsend codec keep_alive) [
    | panic e ↦ []
    | done alive ↦ replicate seconds alive
  ]

  -- `handle_client` with a socket that takes what is sent, when so many seconds have passed and these
  -- datagrams have arrived.
  unfoldable pub handle_client : ℕ → List Datagram → ℕ → Outcome (Option Served)
  unfolding handshake read_loop keep_alives
  handle_client my_pid datagrams seconds = do
    accepted ← handshake codec my_pid true datagrams
    elim accepted [
      | none ↦ done none
      | some client ↦ do
        counter ← read_loop client.peer client.datagrams fresh
        done (some (record { sent = client.sent ++ keep_alives seconds; counter = counter }))
    ]

  -- A peer that sends an InitSyn, an OpenSyn and then any datagrams, with nobody else sending, is sent
  -- the two acknowledgements and a keep-alive for each second, and the bytes of all its later
  -- datagrams are counted; a datagram from elsewhere, at any place behind the InitSyn, ends the sink
  -- by a panic. The messages can be written, and the bytes are fewer than 2^64.
  pub peer_served :
      (my_pid : ℕ) (is_qos : Bool) (lease initial_sn addr a : ℕ)
      (syn opening ack opened alive bytes : List ℕ) (ds later : List Datagram) (seconds : ℕ)
      → write (init_syn is_qos) ≡ some syn
      → write (open_syn lease initial_sn) ≡ some opening
      → write (init_ack my_pid is_qos (cookie codec)) ≡ some ack
      → write (open_ack lease initial_sn) ≡ some opened
      → write keep_alive ≡ some alive
      → AllFrom addr ds
      → a ≢ addr
      → payload_of ds < 2 ^ 64
      → (handle_client my_pid ((addr, syn) ∷ (addr, opening) ∷ ds) seconds
          ≡ done (
              some (record {
                sent = (ack ∷ opened ∷ []) ++ replicate seconds alive;
                counter = record { count = payload_of ds; printed = [] };
              })))
        × (handle_client my_pid ((addr, syn) ∷ (addr, opening) ∷ (ds ++ (a, bytes) ∷ later)) seconds
            ≡ panic wrong_peer)
        × (handle_client my_pid ((addr, syn) ∷ (a, opening) ∷ ds) seconds ≡ panic wrong_peer)
  unfolding handle_client keep_alives
  peer_served my_pid q l sn addr a syn opening ack opened alive bytes ds later seconds w1 w2 w3 w4
        w5 from_peer foreign room =
      let hands = λ (b : ℕ) (rest : List Datagram).
        handshake_cases codec my_pid q l sn addr b syn opening ack opened rest w1 w2 w3 w4 in
      let counted = read_loop_peer addr a bytes ds later fresh from_peer foreign (omega arith) in
      (
        ground (arith, hands addr ds, w5, counted),
        ground (arith, hands addr (ds ++ (a, bytes) ∷ later), w5, counted),
        ground (arith, hands a ds, foreign),
      )
