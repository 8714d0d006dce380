-- ===== src/Throughput/Sink/Tcp.antt =====
-- `handle_client` of throughput/src/bin/t_sink_tcp.rs. A stream is the bytes that arrive on it;
-- `up` says whether a `write_all` succeeds.
pub mod Serving
pub mod Accepting
use zenoh_perf.Base.{
  ℕ, ◌^◌, ◌≤◌, ◌<◌, ◌≡◌, ◌≢◌, refl, Bool, true, false, Option, none, some, List, [], ◌∷◌, ◌++◌,
  arith, length, replicate, Outcome, done, panic, unwrap_none, bare, require, ◌>>=◌, ◌>>◌,
}
use zenoh_perf.Bytes.{to_le_bytes}
use zenoh_perf.Wire.{
  Codec, TransportBody, init_syn, init_ack, open_syn, open_ack, keep_alive, frame, other,
}
use zenoh_perf.Wire.Frame.{zsend, zsend-eq, zrecv, zrecv_frame, refilled, length-refilled}
use zenoh_perf.Throughput.Counter.{Counter, fetch_add}

-- The client once it is served: what was sent to it, the buffer, and the rest of the stream.
pub record Client : Type 0 where
  pub sent : List ℕ
  pub buffer : List ℕ
  pub stream : List ℕ

module _ {Z : Type 0} where
  -- `TransportBody::InitSyn(InitSyn { is_qos, .. })`, or the panic of the other arm.
  abbrev pub init_syn_of : TransportBody Z → Outcome Bool
  init_syn_of (init_syn is_qos) = done is_qos
  init_syn_of message = panic bare

  abbrev pub open_syn_of : TransportBody Z → Outcome (ℕ × ℕ)
  open_syn_of (open_syn lease initial_sn) = done (lease, initial_sn)
  open_syn_of message = panic bare

module _ {Z : Type 0} (codec : Codec Z) where
  open codec use {write}

  abbrev pub cookie : List ℕ
  cookie = replicate 8 0

  -- The two exchanges at the start of `handle_client`.
  unfoldable pub handshake : ℕ → Bool → List ℕ → List ℕ → Outcome Client
  unfolding zsend zrecv
  handshake my_pid up stream buffer = do
    (syn, buffer1, stream1) ← zrecv codec stream buffer
    is_qos ← init_syn_of syn
    ack ← zsend codec (init_ack my_pid is_qos cookie)
    require up unwrap_none
    (opening, buffer2, stream2) ← zrecv codec stream1 buffer1
    (lease, initial_sn) ← open_syn_of opening
    opened ← zsend codec (open_ack lease initial_sn)
    require up unwrap_none
    done (record { sent = ack ++ opened; buffer = buffer2; stream = stream2 })

  abbrev pub framed : List ℕ → List ℕ
  framed body = to_le_bytes 2 (length body) ++ body

  -- A peer that sends an InitSyn and an OpenSyn, each framed and followed by anything, gets an
  -- InitAck with its own `is_qos` and an OpenAck with its own lease and sequence number, and the
  -- sink goes on with the rest of the stream. The four messages have fewer than 2^16 bytes, those
  -- received fit the buffer, and the link accepts what is sent.
  pub handshake_done :
      (my_pid : ℕ) (is_qos : Bool) (lease initial_sn : ℕ)
      (syn opening ack opened rest buffer : List ℕ)
      → write (init_syn is_qos) ≡ some syn
      → write (open_syn lease initial_sn) ≡ some opening
      → write (init_ack my_pid is_qos cookie) ≡ some ack
      → write (open_ack lease initial_sn) ≡ some opened
      → (length syn < 2 ^ 16)
        × (length opening < 2 ^ 16)
        × (length ack < 2 ^ 16)
        × (length opened < 2 ^ 16)
      → (2 ≤ length buffer) × (length syn ≤ length buffer) × (length opening ≤ length buffer)
      → handshake my_pid true
          (to_le_bytes 2 (length syn)
            ++ (syn ++ (to_le_bytes 2 (length opening) ++ (opening ++ rest))))
          buffer
        ≡ done (record {
          sent = framed ack ++ framed opened;
          buffer = refilled codec opening (refilled codec syn buffer);
          stream = rest;
        })
  handshake_done my_pid q l sn syn opening ack opened rest buffer w1 w2 w3 w4 small room =
      unfold handshake in
      let later : List ℕ = to_le_bytes 2 (length opening) ++ (opening ++ rest) in
      let kept = length-refilled codec syn buffer room.0 room.1 in
      ground (
        arith,
        zrecv_frame codec (init_syn q) syn later buffer w1 small.0 room.0 room.1,
        zsend-eq codec (init_ack my_pid q cookie) ack w3 small.2,
        zrecv_frame codec (open_syn l sn) opening rest (refilled codec syn buffer) w2 small.1
            (omega (arith, kept)) (omega (arith, kept, room.2)),
        zsend-eq codec (open_ack l sn) opened w4 small.3,
      )

  -- Any other first message ends the task by a panic. It has fewer than 2^16 bytes and fits the
  -- buffer.
  pub handshake_refused :
      (my_pid : ℕ) (m : TransportBody Z) (body rest buffer : List ℕ)
      → write m ≡ some body
      → ((q : Bool) → m ≢ init_syn q)
      → length body < 2 ^ 16
      → (2 ≤ length buffer) × (length body ≤ length buffer)
      → handshake my_pid true (to_le_bytes 2 (length body) ++ (body ++ rest)) buffer ≡ panic bare
  handshake_refused my_pid m body rest buffer w other_kind fits room =
      refused m other_kind (zrecv_frame codec m body rest buffer w fits room.0 room.1)
    where
      refused :
          (m' : TransportBody Z)
          → ((q : Bool) → m' ≢ init_syn q)
          → zrecv codec (to_le_bytes 2 (length body) ++ (body ++ rest)) buffer
            ≡ done (m', refilled codec body buffer, rest)
          → handshake my_pid true (to_le_bytes 2 (length body) ++ (body ++ rest)) buffer
            ≡ panic bare
      refused (init_syn q) never e = absurd (never q refl)
      refused (init_ack p q c) never e = unfold handshake in ground (arith, e)
      refused (open_syn l s) never e = unfold handshake in ground (arith, e)
      refused (open_ack l s) never e = unfold handshake in ground (arith, e)
      refused keep_alive never e = unfold handshake in ground (arith, e)
      refused (frame p) never e = unfold handshake in ground (arith, e)
      refused other never e = unfold handshake in ground (arith, e)

-- The loop at the end of `handle_client` over what `read` returns, `none` being an error: whether it
-- still runs, and the counter.
unfoldable pub read_loop : List (Option ℕ) → Counter → Bool × Counter
unfolding fetch_add
read_loop [] c = (true, c)
read_loop (none ∷ reads) c = (false, c)
read_loop (some n ∷ reads) c = read_loop reads (fetch_add n c)

-- The loop goes on for any number of reads of 0 bytes, which `read` returns each time once the peer
-- has closed the connection, and the counter, below 2^64, does not change.
pub read_loop_closed :
    (turns : ℕ) (c : Counter)
    → c.count < 2 ^ 64
    → read_loop (replicate turns (some 0)) c ≡ (true, c)
unfolding read_loop
read_loop_closed ℕ.zero c h = refl
read_loop_closed (ℕ.suc turns) c h = ground (arith, read_loop_closed turns (fetch_add 0 c))
