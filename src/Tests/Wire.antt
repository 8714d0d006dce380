-- ===== src/Tests/Wire.antt =====
-- Messages on byte streams: the framing, the handshake of the sinks, and a capture.
use zenoh_perf.Base.{
  ℕ, ◌≡◌, refl, true, some, List, [], ◌∷◌, ◌++◌, arith, length, replicate, done, panic, wrong_peer,
}
use zenoh_perf.Bytes.{to_le_bytes, copy_from_slice}
use zenoh_perf.Wire.{TransportBody, messages, frame}
use zenoh_perf.Wire.Frame.{zsend, zrecv, zrecv-zsend}
use zenoh_perf.Throughput.Counter.{fresh}
use zenoh_perf.Throughput.Sink.Tcp
use zenoh_perf.Throughput.Sink.Tcp.{cookie, framed, read_loop_closed}
use zenoh_perf.Throughput.Sink.Tcp.Serving.{Served, handle_client, repeated, client_served}
use zenoh_perf.Throughput.Sink.Udp.Serving
use zenoh_perf.Throughput.Sink.Udp.Serving.{peer_served}
use zenoh_perf.Tests.Codec.{Message, codec, data_message, write, encode_frame, encode}

abbrev sent_frame : TransportBody Message
sent_frame = frame (messages (data_message 5 (1 ∷ 2 ∷ []) ∷ []))

abbrev sent_bytes : List ℕ
sent_bytes = 7 ∷ 5 ∷ 2 ∷ 1 ∷ 2 ∷ []

abbrev buffer : List ℕ
buffer = replicate 64 9

-- What `zsend!` puts on the wire.
framed_message : zsend codec sent_frame ≡ done (5 ∷ 0 ∷ sent_bytes)
unfolding zsend codec write encode_frame encode copy_from_slice to_le_bytes
framed_message = refl

zrecv-zsend_example :
    (frame buffer' : List ℕ) × (zsend codec sent_frame ≡ done frame)
    × (zrecv codec (frame ++ (3 ∷ [])) buffer ≡ done (sent_frame, buffer', 3 ∷ []))
    × (length buffer' ≡ length buffer)
unfolding codec write encode_frame encode
zrecv-zsend_example =
    zrecv-zsend codec sent_frame sent_bytes (3 ∷ []) buffer refl (omega arith) (omega arith)
      (omega arith)

abbrev syn : List ℕ
syn = 1 ∷ 1 ∷ []

abbrev opening : List ℕ
opening = 3 ∷ 10 ∷ 4 ∷ []

abbrev ack : List ℕ
ack = 2 ∷ 6 ∷ 1 ∷ 8 ∷ replicate 8 0

abbrev opened : List ℕ
opened = 4 ∷ 10 ∷ 4 ∷ []

-- Five bytes behind the handshake, read in chunks, with two seconds of keep-alives.
client_served_example :
    (served : Served) × (handle_client codec 6
        (to_le_bytes 2 (length syn)
          ++ (syn ++ (to_le_bytes 2 (length opening) ++ (opening ++ sent_bytes))))
        2
        (2 ∷ 1 ∷ 9 ∷ 1 ∷ 1 ∷ [])
      ≡ done served)
    × (served.sent
        ≡ (framed codec ack ++ framed codec opened) ++ repeated 2 (framed codec (5 ∷ [])))
    × (served.counter.count ≡ 5)
    × (length served.stream ≡ 0)
unfolding codec write encode_frame encode
client_served_example =
    client_served codec 6 true 10 4 syn opening ack opened (5 ∷ []) sent_bytes
      (2 ∷ 1 ∷ 9 ∷ 1 ∷ 1 ∷ []) 2 refl refl refl refl refl
      (omega arith, omega arith, omega arith, omega arith, omega arith) (omega arith)
      (omega arith, (omega arith, (omega arith, (omega arith, (omega arith, tt))))) (omega arith)

read_loop_closed_example : Tcp.read_loop (replicate 3 (some 0)) fresh ≡ (true, fresh)
read_loop_closed_example = read_loop_closed 3 fresh (omega arith)

peer_served_example :
    (Serving.handle_client codec 6 ((1, syn) ∷ (1, opening) ∷ (1, sent_bytes) ∷ []) 2
      ≡ done (
          some (record {
            sent = (ack ∷ opened ∷ []) ++ replicate 2 (5 ∷ []);
            counter = record { count = 5; printed = [] };
          })))
    × (Serving.handle_client codec 6
          ((1, syn) ∷ (1, opening) ∷ ((1, sent_bytes) ∷ []) ++ (2, opening) ∷ [])
          2
        ≡ panic wrong_peer)
    × (Serving.handle_client codec 6 ((1, syn) ∷ (2, opening) ∷ (1, sent_bytes) ∷ []) 2
        ≡ panic wrong_peer)
unfolding codec write encode_frame encode
peer_served_example =
    peer_served codec 6 true 10 4 1 2 syn opening ack opened (5 ∷ []) opening ((1, sent_bytes) ∷ [])
      [] 2 refl refl refl refl refl (refl, tt) (λ e. absurd (omega (arith, e))) (omega arith)
