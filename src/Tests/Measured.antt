-- ===== src/Tests/Measured.antt =====
-- A capture of zn_overhead's 32 messages, a frame each, and t_pub_delay's first two turns.
use zenoh_perf.Duration.{from_secs_f64}
use zenoh_perf.Base.{
  Bool, ℕ, zero, suc, ◌+◌, ◌^◌, ◌<◌, ◌≡◌, refl, ap, String, true, Option, some, List, [], ◌∷◌, ◌++◌,
  arith, length, replicate, length-append, done,
}
use mathlib.Core.List.{append-nil}
use zenoh_perf.Bytes.{to_le_bytes}
use zenoh_perf.Proto.{list_io}
use zenoh_perf.Wire.{TransportBody, messages, frame}
use zenoh_perf.Overhead.Capture.{Written, nothing, more, Framed, end, framed}
use zenoh_perf.Overhead.Analyze.{gather, main, all_messages}
use zenoh_perf.Overhead.Sender.{
  Opt, Sending, payload_bytes, length-payload_bytes, rounds, send_loop, at_start,
}
use zenoh_perf.Overhead.Measured.{data_of, overhead_measured}
use zenoh_perf.Tests.Codec.{Message, codec, data_message, write, encode_frame, encode}

abbrev options : Opt
options = record {
  locator = "tcp/127.0.0.1:7447";
  mode = "peer";
  payload = 32768;
  print = true;
  total = 1;
  interval = 0;
}

abbrev one_frame : List ℕ → List (TransportBody Message)
one_frame payload = frame (messages (data_message 1 payload ∷ [])) ∷ []

abbrev frame_bytes : List ℕ → List ℕ
frame_bytes payload = (7 ∷ 1 ∷ length payload ∷ payload) ++ []

abbrev frames : List ℕ → ℕ → List (TransportBody Message)
frames payload zero = []
frames payload (suc n) = one_frame payload ++ frames payload n

frames_bytes : List ℕ → ℕ → List ℕ
frames_bytes payload zero = []
frames_bytes payload (suc n) =
    to_le_bytes 2 (length (frame_bytes payload)) ++ (frame_bytes payload ++ frames_bytes payload n)

one_Written : (payload : List ℕ) → Written codec (one_frame payload) (frame_bytes payload)
unfolding codec write encode_frame encode
one_Written payload =
    more (frame (messages (data_message 1 payload ∷ []))) (7 ∷ 1 ∷ length payload ∷ payload) refl
      nothing

frames-Framed :
    (payload : List ℕ) (n : ℕ)
    → length payload < 2 ^ 15 + 1
    → Framed codec [] (frames payload n) (frames_bytes payload n)
unfolding frames_bytes
frames-Framed payload zero h = end
frames-Framed payload (suc n) h =
    framed (frame_bytes payload) (one_Written payload)
      (omega (arith, length-append (7 ∷ 1 ∷ length payload ∷ payload) []))
      (frames-Framed payload n h)

data_of-frames :
    (payload : List ℕ) (n : ℕ)
    → data_of list_io (all_messages (frames payload n)) ≡ replicate n payload
data_of-frames payload zero = refl
data_of-frames payload (suc n) = ap (λ ps. payload ∷ ps) (data_of-frames payload n)

abbrev sent : List ℕ
sent = payload_bytes 32768

decode_packet : String → Option (List ℕ)
decode_packet hex = some (frames_bytes sent 32)

abbrev packets : List (Option (List String))
packets = some ("0380" ∷ []) ∷ []

packets_gathered : gather decode_packet packets ≡ done (frames_bytes sent 32)
unfolding gather decode_packet
packets_gathered = ap done (append-nil (frames_bytes sent 32))

computed : rounds options ≡ done 32
unfolding rounds
computed = refl

written_sent : data_of list_io (all_messages (frames sent 32)) ≡ replicate 32 sent
written_sent = data_of-frames sent 32

abbrev stopped : Bool × Sending
stopped = (true, record { i = 32; written = 32; counter = 32 })

all_sent : send_loop true 0 32 32 at_start ≡ done stopped
unfolding send_loop from_secs_f64
all_sent = refl

overhead_measured_example :
    main list_io codec decode_packet packets
    ≡ some (
        done (record {
          size = length (frames_bytes sent 32);
          transport_messages = 32;
          zenoh_messages = 32;
          data_messages = 32;
          total_payload = 1048576;
          per_message = 32768;
        }))
overhead_measured_example =
    overhead_measured list_io options 32 stopped codec decode_packet packets (frames_bytes sent 32)
      [] (frames sent 32) (omega arith) (omega arith) (omega arith) refl computed all_sent
      packets_gathered (frames-Framed sent 32 (omega (arith, length-payload_bytes 32768)))
      (omega arith) written_sent
