-- ===== src/Throughput/Sink/Udp.antt =====
-- `handle_client` of throughput/src/bin/t_sink_udp.rs, over the datagrams that arrive: the number of
-- the sender's address, and the bytes.
pub mod Serving
use zenoh_perf.Base.{
  ℕ, ◌+◌, ◌^◌, ◌<◌, ◌≡◌, ◌≢◌, Bool, true, Option, none, some, List, [], ◌∷◌, ◌++◌, arith, length,
  ◌==◌, if◌then◌else◌, Outcome, done, panic, unwrap, unwrap_none, bare, wrong_peer, require, ◌>>=◌,
  ◌>>◌,
}
use mathlib.Core.List.{append-nil}
use zenoh_perf.Wire.{Codec, TransportBody, init_syn, init_ack, open_syn, open_ack}
use zenoh_perf.Throughput.Counter.{Counter, fetch_add}
use zenoh_perf.Throughput.Sink.Tcp.{init_syn_of, open_syn_of, cookie}

abbrev pub Datagram : Type 0
Datagram = ℕ × List ℕ

-- The peer that was accepted, the datagrams sent to it, and those that are still to come.
pub record Accepted : Type 0 where
  pub peer : ℕ
  pub sent : List (List ℕ)
  pub datagrams : List Datagram

-- `recv_from(..).unwrap()` with nothing more to come would wait: `none`.
abbrev pub recv_from : List Datagram → Option (Datagram × List Datagram)
recv_from [] = none
recv_from (d ∷ ds) = some (d, ds)

module _ {Z : Type 0} (codec : Codec Z) where
  open codec use {write, read}

  -- `zsend!`: the message alone.
  unfoldable pub zsend : TransportBody Z → Outcome (List ℕ)
  zsend msg = elim (write msg) [ none ↦ panic bare | some bytes ↦ done bytes ]

  -- `zrecv!` on one datagram.
  unfoldable pub zrecv : Datagram → Outcome (TransportBody Z × ℕ)
  zrecv (addr, bytes) = do message ← unwrap (read bytes).0; done (message, addr)

  -- The two exchanges; `none` says that a datagram is still awaited.
  unfoldable pub handshake : ℕ → Bool → List Datagram → Outcome (Option Accepted)
  unfolding zsend zrecv
  handshake my_pid up datagrams = elim (recv_from datagrams) [
    | none ↦ done none
    | some (d1, later) ↦ do
      (syn, addr) ← zrecv d1
      is_qos ← init_syn_of syn
      ack ← zsend (init_ack my_pid is_qos (cookie codec))
      require up unwrap_none
      elim (recv_from later) [
        | none ↦ done none
        | some (d2, rest) ↦ do
          (opening, a) ← zrecv d2
          require (a == addr) wrong_peer
          (lease, initial_sn) ← open_syn_of opening
          opened ← zsend (open_ack lease initial_sn)
          require up unwrap_none
          done (some (record { peer = addr; sent = ack ∷ opened ∷ []; datagrams = rest }))
      ]
  ]

  read_whole :
      (m : TransportBody Z) (bytes : List ℕ) → write m ≡ some bytes → read bytes ≡ (some m, [])
  read_whole m bytes w = rw append-nil at (codec.read-write m bytes [] w)

  -- When an InitSyn and an OpenSyn arrive from one address, that address is accepted and is sent the
  -- two acknowledgements with the values it asked for; when the OpenSyn comes from another address,
  -- the task panics. The link accepts what is sent.
  pub handshake_cases :
      (my_pid : ℕ) (is_qos : Bool) (lease initial_sn addr a : ℕ) (syn opening ack opened : List ℕ)
      (rest : List Datagram)
      → write (init_syn is_qos) ≡ some syn
      → write (open_syn lease initial_sn) ≡ some opening
      → write (init_ack my_pid is_qos (cookie codec)) ≡ some ack
      → write (open_ack lease initial_sn) ≡ some opened
      → handshake my_pid true ((addr, syn) ∷ (a, opening) ∷ rest) ≡ (
          if a == addr
          then done (some (record { peer = addr; sent = ack ∷ opened ∷ []; datagrams = rest }))
          else panic wrong_peer)
  handshake_cases my_pid q l sn addr a syn opening ack opened rest w1 w2 w3 w4 =
      unfold handshake in
      ground (arith, read_whole (init_syn q) syn w1, read_whole (open_syn l sn) opening w2, w3, w4)

-- The loop at the end of `handle_client`.
unfoldable pub read_loop : ℕ → List Datagram → Counter → Outcome Counter
unfolding fetch_add
read_loop peer [] c = done c
read_loop peer ((a, bytes) ∷ ds) c =
    let rest = read_loop peer ds (fetch_add (length bytes) c) in
    if a == peer then rest else panic wrong_peer

abbrev pub payload_of : List Datagram → ℕ
payload_of [] = 0
payload_of ((a, bytes) ∷ ds) = length bytes + payload_of ds

abbrev pub AllFrom : ℕ → List Datagram → Type 0
AllFrom peer [] = Unit
AllFrom peer ((a, bytes) ∷ ds) = (a ≡ peer) × AllFrom peer ds

-- As long as all datagrams come from the accepted peer, the counter grows by their bytes; the first
-- one from elsewhere ends the sink by a panic, whatever stands behind it.
pub read_loop_peer :
    (peer a : ℕ) (bytes : List ℕ) (ds later : List Datagram) (c : Counter)
    → AllFrom peer ds
    → a ≢ peer
    → c.count + payload_of ds < 2 ^ 64
    → (read_loop peer ds c ≡ done (record c { count = c.count + payload_of ds }))
      × (read_loop peer (ds ++ (a, bytes) ∷ later) c ≡ panic wrong_peer)
unfolding read_loop
read_loop_peer peer a bytes [] later c from_peer foreign room = (ground arith, ground arith)
read_loop_peer peer a bytes ((b, bs) ∷ ds) later c from_peer foreign room =
    let rest =
      read_loop_peer peer a bytes ds later (fetch_add (length bs) c) from_peer.1 foreign
        (omega arith) in
    (ground (arith, rest.0), ground (arith, rest.1))
