-- ===== src/Tests/Overhead.antt =====
-- The overhead programs on a capture of two frames, and on small options.
use zenoh_perf.Base.{
  ℕ, ◌≡◌, refl, String, true, Option, none, some, List, [], ◌∷◌, ◌++◌, arith, length, panic,
  unwrap_none,
}
use zenoh_perf.Bytes.{to_le_bytes}
use zenoh_perf.Proto.{list_io}
use zenoh_perf.Wire.{TransportBody, messages, keep_alive, frame}
use zenoh_perf.Overhead.Capture.{
  read_transport_messages, Written, nothing, more, Framed, end, framed, capture_cut,
}
use zenoh_perf.Overhead.Analyze.{gather, main, expected, main_totals}
use zenoh_perf.Overhead.Sender.{Opt}
use zenoh_perf.Tests.Codec.{Message, codec, data_message, write, encode_frame, encode}

abbrev data_frame : TransportBody Message
data_frame = frame (messages (data_message 5 (1 ∷ 2 ∷ []) ∷ []))

abbrev data_bytes : List ℕ
data_bytes = 7 ∷ 5 ∷ 2 ∷ 1 ∷ 2 ∷ []

abbrev alive_bytes : List ℕ
alive_bytes = 5 ∷ []

-- A keep-alive and a data message in one frame, and another keep-alive in a second one.
abbrev first_body : List ℕ
first_body = alive_bytes ++ (data_bytes ++ [])

abbrev captured : List ℕ → List ℕ
captured last =
    to_le_bytes 2 6 ++ (first_body ++ (to_le_bytes 2 1 ++ ((alive_bytes ++ []) ++ last)))

abbrev sent_messages : List (TransportBody Message)
sent_messages = (keep_alive ∷ data_frame ∷ []) ++ ((keep_alive ∷ []) ++ [])

first_Written : Written codec (keep_alive ∷ data_frame ∷ []) first_body
unfolding codec write encode_frame encode
first_Written = more keep_alive alive_bytes refl (more data_frame data_bytes refl nothing)

second_Written : Written codec (keep_alive ∷ []) (alive_bytes ++ [])
unfolding codec write
second_Written = more keep_alive alive_bytes refl nothing

captured-Framed : (last : List ℕ) → Framed codec last sent_messages (captured last)
captured-Framed last =
    framed first_body first_Written (omega arith)
      (framed (alive_bytes ++ []) second_Written (omega arith) end)

capture_cut_example :
    read_transport_messages codec (captured (to_le_bytes 2 4 ++ (7 ∷ [])))
    ≡ some (panic unwrap_none)
capture_cut_example =
    capture_cut codec 4 (7 ∷ []) (captured (to_le_bytes 2 4 ++ (7 ∷ []))) sent_messages
      (omega arith) (omega arith) (captured-Framed (to_le_bytes 2 4 ++ (7 ∷ [])))

-- A packet that carries the capture, and one that carries nothing.
decode_packet : String → Option (List ℕ)
decode_packet hex = some (captured [])

abbrev packets : List (Option (List String))
packets = none ∷ some ("060005070502010201000005" ∷ []) ∷ []

main_totals_example :
    main list_io codec decode_packet packets
    ≡ some (expected list_io (length (captured [])) sent_messages)
unfolding gather decode_packet to_le_bytes
main_totals_example =
    main_totals list_io codec decode_packet packets (captured []) [] sent_messages refl
      (captured-Framed []) (omega arith)

abbrev options : Opt
options = record {
  locator = "tcp/127.0.0.1:7447";
  mode = "peer";
  payload = 600000;
  print = true;
  total = 1;
  interval = 0;
}
