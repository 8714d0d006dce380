-- ===== src/Overhead/Analyze.antt =====
-- overhead/src/bin/zn_analyze.rs but for its framing: from packets to totals. Parsing the JSON is
-- serde's, decoding hexadecimal is the crate hex's: the packets come parsed, `decode` is a parameter.
use zenoh_perf.Base.{
  ℕ, ◌+◌, ◌/◌, ◌<◌, ◌≡◌, refl, ◌∙◌, sym, String, Option, none, some, List, [], ◌∷◌, ◌++◌, arith,
  ◌==◌, if◌then◌else◌, length, Outcome, done, Panic, panic, unwrap, division_by_zero, ◌>>=◌,
}
use mathlib.Core.List.{append_assoc, append-nil}
use zenoh_perf.Proto.{ZBufIo, ZenohBody, data_body, query_body, other_body, ZenohMessage}
use zenoh_perf.Wire.{
  Codec, TransportBody, messages, fragment, frame, init_syn, init_ack, open_syn, open_ack,
  keep_alive, other,
}
use zenoh_perf.Overhead.Capture.{read_transport_messages, Framed, capture_read}

-- `PcapLayers.tcp_payload` of each packet, in order; `first().unwrap()` of it is decoded.
unfoldable pub gather : (String → Option (List ℕ)) → List (Option (List String)) → Outcome (List ℕ)
gather decode [] = done []
gather decode (none ∷ pkts) = gather decode pkts
gather decode (some [] ∷ pkts) = panic Panic.unwrap_none
gather decode (some (p ∷ ps) ∷ pkts) = do
  d ← unwrap (decode p)
  later ← gather decode pkts
  done (d ++ later)

module _ {Z : Type 0} where
  collect : List Z → List (TransportBody Z) → List Z
  collect found [] = found
  collect found (frame (messages msgs) ∷ rest) = collect (found ++ msgs) rest
  collect found (body ∷ rest) = collect found rest

  -- The messages of the frames that are not fragments.
  unfoldable pub read_zenoh_messages : List (TransportBody Z) → List Z
  unfolding collect
  read_zenoh_messages transport = collect [] transport

  -- The messages of one transport message.
  abbrev pub messages_of : TransportBody Z → List Z
  messages_of (frame (messages msgs)) = msgs
  messages_of body = []

  abbrev pub all_messages : List (TransportBody Z) → List Z
  all_messages [] = []
  all_messages (m ∷ ms) = messages_of m ++ all_messages ms

  collect-eq :
      (found : List Z) (ms : List (TransportBody Z)) → collect found ms ≡ found ++ all_messages ms
  unfolding collect
  collect-eq found [] = sym (append-nil found)
  collect-eq found (frame (messages msgs) ∷ ms) =
      collect-eq (found ++ msgs) ms ∙ append_assoc found msgs (all_messages ms)
  collect-eq found (frame fragment ∷ ms) = collect-eq found ms
  collect-eq found (init_syn q ∷ ms) = collect-eq found ms
  collect-eq found (init_ack p q c ∷ ms) = collect-eq found ms
  collect-eq found (open_syn l s ∷ ms) = collect-eq found ms
  collect-eq found (open_ack l s ∷ ms) = collect-eq found ms
  collect-eq found (keep_alive ∷ ms) = collect-eq found ms
  collect-eq found (other ∷ ms) = collect-eq found ms

  pub read_zenoh_messages-eq :
      (ms : List (TransportBody Z)) → read_zenoh_messages ms ≡ all_messages ms
  unfolding read_zenoh_messages
  read_zenoh_messages-eq ms = collect-eq [] ms

-- What `main` prints.
pub record Totals : Type 0 where
  pub size : ℕ
  pub transport_messages : ℕ
  pub zenoh_messages : ℕ
  pub data_messages : ℕ
  pub total_payload : ℕ
  pub per_message : ℕ

module _ (io : ZBufIo) where
  open io use {ZBuf, len}

  -- The loop over the zenoh messages: `data_count` and `payload_size`.
  unfoldable pub tally : ℕ → ℕ → List (ZenohMessage ZBuf) → ℕ × ℕ
  tally data_count payload_size [] = (data_count, payload_size)
  tally data_count payload_size (m ∷ ms) = elim m.body [
    | data_body payload rc ↦ tally (data_count + 1) (payload_size + len payload) ms
    | query_body qid ↦ tally data_count payload_size ms
    | other_body ↦ tally data_count payload_size ms
  ]

  -- The part of `main` after the transport messages are read, over `size` captured bytes.
  unfoldable pub totals : ℕ → List (TransportBody (ZenohMessage ZBuf)) → Outcome Totals
  unfolding tally
  totals size transport =
      let zenoh = read_zenoh_messages transport in
      let (data_count, payload_size) = tally 0 0 zenoh in
      if data_count == 0
      then panic division_by_zero
      else done (record {
        size = size;
        transport_messages = length transport;
        zenoh_messages = length zenoh;
        data_messages = data_count;
        total_payload = payload_size;
        per_message = payload_size / data_count;
      })

  -- `main` on the parsed packets; `none` is the fuel of the capture.
  unfoldable pub main :
      Codec (ZenohMessage ZBuf)
      → (String → Option (List ℕ))
      → List (Option (List String))
      → Option (Outcome Totals)
  unfolding gather read_transport_messages totals
  main codec decode pkts = elim (gather decode pkts) [
    | panic e ↦ some (panic e)
    | done zenoh_data ↦ elim (read_transport_messages codec zenoh_data) [
      | none ↦ none
      | some (panic e) ↦ some (panic e)
      | some (done transport) ↦ some (totals (length zenoh_data) transport)
    ]
  ]

  -- The payload sizes of the data messages.
  abbrev pub payload_sizes : List (ZenohMessage ZBuf) → List ℕ
  payload_sizes [] = []
  payload_sizes (m ∷ ms) = elim m.body [
    | data_body payload rc ↦ len payload ∷ payload_sizes ms
    | query_body qid ↦ payload_sizes ms
    | other_body ↦ payload_sizes ms
  ]

  abbrev pub sum : List ℕ → ℕ
  sum [] = 0
  sum (x ∷ xs) = x + sum xs

  abbrev Counts : ℕ → ℕ → List (ZenohMessage ZBuf) → Type 0
  Counts c p ms =
      ((tally c p ms).0 ≡ c + length (payload_sizes ms))
      × ((tally c p ms).1 ≡ p + sum (payload_sizes ms))

  tally_step :
      (c p : ℕ) (m : ZenohMessage ZBuf) (ms : List (ZenohMessage ZBuf)) (b : ZenohBody ZBuf)
      → m.body ≡ b
      → ((c p : ℕ) → Counts c p ms)
      → Counts c p (m ∷ ms)
  unfolding tally
  tally_step c p m ms (data_body payload rc) e ih = ground (arith, e, ih (c + 1) (p + len payload))
  tally_step c p m ms (query_body qid) e ih = ground (arith, e, ih c p)
  tally_step c p m ms other_body e ih = ground (arith, e, ih c p)

  tally-eq : (ms : List (ZenohMessage ZBuf)) (c p : ℕ) → Counts c p ms
  tally-eq [] c p = unfold tally in omega arith
  tally-eq (m ∷ ms) c p = tally_step c p m ms m.body refl (tally-eq ms)

  -- The totals of a capture, from the messages of its frames alone.
  abbrev pub expected : ℕ → List (TransportBody (ZenohMessage ZBuf)) → Outcome Totals
  expected size transport =
      let zenoh = all_messages transport in
      let sizes = payload_sizes zenoh in
      if length sizes == 0
      then panic division_by_zero
      else done (record {
        size = size;
        transport_messages = length transport;
        zenoh_messages = length zenoh;
        data_messages = length sizes;
        total_payload = sum sizes;
        per_message = sum sizes / length sizes;
      })

  pub totals-eq :
      (size : ℕ) (transport : List (TransportBody (ZenohMessage ZBuf)))
      → totals size transport ≡ expected size transport
  unfolding totals
  totals-eq size transport =
      ground (arith, read_zenoh_messages-eq transport, tally-eq (read_zenoh_messages transport) 0 0)

  -- The program ends on every capture whose packets decode to whole frames of messages, whatever
  -- the packets' boundaries: it prints the number of messages of each kind, the sum of the payloads
  -- of the data messages and their average, rounded down, and panics exactly if there is none.
  pub main_totals :
      (codec : Codec (ZenohMessage ZBuf)) (decode : String → Option (List ℕ))
      (pkts : List (Option (List String))) (bytes last : List ℕ)
      (transport : List (TransportBody (ZenohMessage ZBuf)))
      → gather decode pkts ≡ done bytes
      → Framed codec last transport bytes
      → length last < 2
      → main codec decode pkts ≡ some (expected (length bytes) transport)
  unfolding main
  main_totals codec decode pkts bytes last transport g f short = ground (
    arith,
    g,
    capture_read codec last bytes transport f short,
    totals-eq (length bytes) transport,
  )
