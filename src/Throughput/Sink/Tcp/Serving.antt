-- ===== src/Throughput/Sink/Tcp/Serving.antt =====
-- The whole of `handle_client` of throughput/src/bin/t_sink_tcp.rs: the handshake, the keep-alive task,
-- and the reading loop over a stream.
use zenoh_perf.Base.{
  ℕ, zero, suc, ◌+◌, ◌-◌, ◌^◌, ◌≤◌, ◌<◌, ◌≡◌, refl, ◌∙◌, Bool, true, some, List, [], ◌∷◌, ◌++◌,
  arith, leb, if◌then◌else◌, length, drop, length-drop, replicate, length-replicate, Outcome, done,
  panic, ◌>>=◌,
}
use zenoh_perf.Bytes.{to_le_bytes}
use zenoh_perf.Wire.{Codec, init_syn, init_ack, open_syn, open_ack, keep_alive}
use zenoh_perf.Wire.Frame.{zsend, zsend-eq, refilled, length-refilled}
use zenoh_perf.Throughput.Counter.{Counter, fresh, fetch_add}
use zenoh_perf.Throughput.Sink.Tcp.{handshake, handshake_done, framed, cookie}

-- `vec![0u8; 16_000_000]`
unfoldable pub buffer_size : ℕ
buffer_size = 16000000

buffer_size-big : 65536 ≤ buffer_size
unfolding buffer_size
buffer_size-big = omega arith

least : ℕ → ℕ → ℕ
least a b = if leb a b then a else b

-- The loop over `stream.read(&mut buffer)`: a read takes what the system has at hand, of a size that
-- it chooses, but no more than there is and than fits. What is left of the stream, and the counter.
unfoldable pub read_stream : ℕ → List ℕ → List ℕ → Counter → List ℕ × Counter
unfolding least fetch_add
read_stream room [] stream c = (stream, c)
read_stream room (size ∷ sizes) stream c =
    let n = least size (least room (length stream)) in
    read_stream room sizes (drop n stream) (fetch_add n c)

least_stream : (size room n : ℕ) → least size (least room n) ≤ n
unfolding least
least_stream size room n = ground arith

least_positive : (size room n : ℕ) → 0 < size → 0 < room → n ≤ least size (least room n) + (n - 1)
unfolding least
least_positive size room n h k = ground arith

fetch_add-below : (n : ℕ) (c : Counter) → c.count + n < 2 ^ 64 → (fetch_add n c).count ≡ c.count + n
unfolding fetch_add
fetch_add-below n c h = ground arith

-- However the bytes come in, each is counted once or still to come.
read_stream-conserved :
    (room : ℕ) (sizes stream : List ℕ) (c : Counter)
    → c.count + length stream < 2 ^ 64
    → (read_stream room sizes stream c).1.count + length (read_stream room sizes stream c).0
      ≡ c.count + length stream
unfolding read_stream
read_stream-conserved room [] stream c h = refl
read_stream-conserved room (size ∷ sizes) stream c h =
    let n : ℕ = least size (least room (length stream)) in
    let few : n ≤ length stream = least_stream size room (length stream) in
    let left : length (drop n stream) ≡ length stream - n = length-drop n stream in
    let added : (fetch_add n c).count ≡ c.count + n = fetch_add-below n c (omega arith) in
    omega (
      arith,
      few,
      left,
      added,
      read_stream-conserved room sizes (drop n stream) (fetch_add n c)
          (omega (arith, few, left, added)),
    )

-- Each read takes a byte, if there is one.
abbrev pub AllPositive : List ℕ → Type 0
AllPositive [] = Unit
AllPositive (size ∷ sizes) = (0 < size) × AllPositive sizes

read_stream-drained :
    (room : ℕ) (sizes stream : List ℕ) (c : Counter)
    → 0 < room
    → AllPositive sizes
    → length stream ≤ length sizes
    → length (read_stream room sizes stream c).0 ≡ 0
unfolding read_stream
read_stream-drained room [] stream c some_room positive enough = omega arith
read_stream-drained room (size ∷ sizes) stream c some_room positive enough =
    let n : ℕ = least size (least room (length stream)) in
    let fewer = least_positive size room (length stream) positive.0 some_room in
    read_stream-drained room sizes (drop n stream) (fetch_add n c) some_room positive.1
      (omega (arith, fewer, length-drop n stream))

-- What a client was sent, what is left of its stream, and the counter.
pub record Served : Type 0 where
  pub sent : List ℕ
  pub stream : List ℕ
  pub counter : Counter

pub repeated : ℕ → List ℕ → List ℕ
repeated zero bytes = []
repeated (suc n) bytes = bytes ++ repeated n bytes

module _ {Z : Type 0} (codec : Codec Z) where
  open codec use {write}

  -- The keep-alive task after so many seconds: one message a second, or a panic of its own that ends
  -- it alone.
  unfoldable pub keep_alives : ℕ → List ℕ
  unfolding zsend repeated
  keep_alives seconds = elim (zsend codec keep_alive) [
    | panic e ↦ []
    | done alive ↦ repeated seconds alive
  ]

  -- `handle_client` with a link that takes what is sent, when so many seconds have passed and the
  -- reads have had these sizes.
  unfoldable pub handle_client : ℕ → List ℕ → ℕ → List ℕ → Outcome Served
  unfolding handshake read_stream keep_alives
  handle_client my_pid stream seconds sizes = do
    client ← handshake codec my_pid true stream (replicate buffer_size 0)
    let (left, counter) = read_stream (length client.buffer) sizes client.stream fresh
    done (record { sent = client.sent ++ keep_alives seconds; stream = left; counter = counter })

  -- A peer that sends an InitSyn, an OpenSyn, and then any bytes is sent the two acknowledgements and
  -- a framed keep-alive for each second, and once there have been as many reads as bytes, whatever
  -- their sizes, every byte behind the handshake has been counted, once. The messages have fewer than
  -- 2^16 bytes, and the bytes are fewer than 2^64.
  pub client_served :
      (my_pid : ℕ) (is_qos : Bool) (lease initial_sn : ℕ)
      (syn opening ack opened alive rest sizes : List ℕ) (seconds : ℕ)
      → write (init_syn is_qos) ≡ some syn
      → write (open_syn lease initial_sn) ≡ some opening
      → write (init_ack my_pid is_qos (cookie codec)) ≡ some ack
      → write (open_ack lease initial_sn) ≡ some opened
      → write keep_alive ≡ some alive
      → (length syn < 2 ^ 16)
        × (length opening < 2 ^ 16)
        × (length ack < 2 ^ 16)
        × (length opened < 2 ^ 16)
        × (length alive < 2 ^ 16)
      → length rest < 2 ^ 64
      → AllPositive sizes
      → length rest ≤ length sizes
      → (served : Served) × (handle_client my_pid
            (to_le_bytes 2 (length syn)
              ++ (syn ++ (to_le_bytes 2 (length opening) ++ (opening ++ rest))))
            seconds
            sizes
          ≡ done served)
        × (served.sent
            ≡ (framed codec ack ++ framed codec opened) ++ repeated seconds (framed codec alive))
        × (served.counter.count ≡ length rest)
        × (length served.stream ≡ 0)
  unfolding handle_client keep_alives
  client_served my_pid q l sn syn opening ack opened alive rest sizes seconds w1 w2 w3 w4 w5 small
        few positive enough =
      let size : length (replicate {A = ℕ} buffer_size 0) ≡ buffer_size =
        length-replicate {A = ℕ} buffer_size 0 in
      let big = buffer_size-big in
      let buffer : List ℕ = refilled codec opening (refilled codec syn (replicate buffer_size 0)) in
      let hands =
        handshake_done codec my_pid q l sn syn opening ack opened rest (replicate buffer_size 0) w1
          w2 w3 w4 (small.0, small.1, small.2, small.3)
          (omega (arith, size, big), omega (arith, size, big), omega (arith, size, big)) in
      let once : length (refilled codec syn (replicate buffer_size 0)) ≡ buffer_size =
        length-refilled codec syn (replicate buffer_size 0) (omega (arith, size, big))
          (omega (arith, size, big))
        ∙ size in
      let kept : length buffer ≡ buffer_size =
        length-refilled codec opening (refilled codec syn (replicate buffer_size 0))
          (omega (arith, once, big)) (omega (arith, once, big))
        ∙ once in
      let conserved = read_stream-conserved (length buffer) sizes rest fresh (omega arith) in
      let drained =
        read_stream-drained (length buffer) sizes rest fresh (omega (arith, kept, big)) positive
          enough in
      let (left, counter) = read_stream (length buffer) sizes rest fresh in
      (
        record {
          sent = (framed codec ack ++ framed codec opened) ++ repeated seconds (framed codec alive);
          stream = left;
          counter = counter;
        },
        ground (arith, hands, zsend-eq codec keep_alive alive w5 small.4),
        refl,
        omega (arith, conserved, drained),
        drained,
      )
