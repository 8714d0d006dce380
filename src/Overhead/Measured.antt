-- ===== src/Overhead/Measured.antt =====
-- overhead/src/bin/zn_overhead.rs and zn_analyze.rs together: what the one reports on a capture of
-- what the other has written.
use zenoh_perf.Duration.{is_duration}
use zenoh_perf.Base.{
  Bool, true, ◌∙◌, ℕ, zero, suc, ◌*◌, ◌/◌, ◌^◌, ◌≤◌, ◌<◌, ◌≡◌, refl, ap, ◌∙◌, String, Option, some,
  List, [], ◌∷◌, map, arith, length, replicate, length-replicate, done,
}
use native.Mathlib.Nat.{mul-div_cancel_left}
use zenoh_perf.Proto.{ZBufIo, ZenohBody, data_body, query_body, other_body, ZenohMessage}
use zenoh_perf.Wire.{Codec, TransportBody}
use zenoh_perf.Overhead.Capture.{Framed}
use zenoh_perf.Overhead.Sender.{
  Opt, Sending, bytes_in_mb, payload_bytes, rounds, send_loop, at_start, total_written,
  length-payload_bytes,
}
use zenoh_perf.Overhead.Analyze.{
  gather, main, main_totals, all_messages, payload_sizes, sum, expected,
}

sum-replicate : (io : ZBufIo) (n size : ℕ) → sum io (replicate n size) ≡ n * size
sum-replicate io zero size = omega arith
sum-replicate io (suc n) size = omega (arith, sum-replicate io n size)

some_factor : (n m : ℕ) → 0 < n * m → 0 < n
some_factor zero m h = absurd (omega arith)
some_factor (suc n) m h = omega arith

module _ (io : ZBufIo) where
  open io use {ZBuf, from, len, len-from}

  -- The payloads of the data messages; the others are declarations and the like.
  abbrev pub data_of : List (ZenohMessage ZBuf) → List ZBuf
  data_of [] = []
  data_of (m ∷ ms) = elim m.body [
    | data_body payload rc ↦ payload ∷ data_of ms
    | query_body qid ↦ data_of ms
    | other_body ↦ data_of ms
  ]

  sizes_step :
      (m : ZenohMessage ZBuf) (ms : List (ZenohMessage ZBuf)) (b : ZenohBody ZBuf)
      → m.body ≡ b
      → payload_sizes io ms ≡ map len (data_of ms)
      → payload_sizes io (m ∷ ms) ≡ map len (data_of (m ∷ ms))
  sizes_step m ms (data_body payload rc) e rest = ground (arith, e, rest)
  sizes_step m ms (query_body qid) e rest = ground (arith, e, rest)
  sizes_step m ms other_body e rest = ground (arith, e, rest)

  payload_sizes-eq : (ms : List (ZenohMessage ZBuf)) → payload_sizes io ms ≡ map len (data_of ms)
  payload_sizes-eq [] = refl
  payload_sizes-eq (m ∷ ms) = sizes_step m ms m.body refl (payload_sizes-eq ms)

  map_len-replicate :
      (n : ℕ) (bytes : List ℕ) → map len (replicate n (from bytes)) ≡ replicate n (length bytes)
  map_len-replicate zero bytes = refl
  map_len-replicate (suc n) bytes = cc (len-from bytes, map_len-replicate n bytes)

  analyzed :
      (size n payload : ℕ) (transport : List (TransportBody (ZenohMessage ZBuf)))
      → 0 < n
      → 0 < payload
      → payload_sizes io (all_messages transport) ≡ replicate n payload
      → expected io size transport
        ≡ done (record {
          size = size;
          transport_messages = length transport;
          zenoh_messages = length (all_messages transport);
          data_messages = n;
          total_payload = n * payload;
          per_message = payload;
        })
  analyzed size n payload transport some_message some_payload sizes =
      let each : n * payload / n ≡ payload = mul-div_cancel_left payload some_message in
      ground (arith, sizes, length-replicate {A = ℕ} n payload, sum-replicate io n payload, each)

  -- When a capture has whole frames, and their data messages are those that zn_overhead has written
  -- by the end of its loop, zn_analyze reports as many data messages as zn_overhead has computed, that
  -- many times the payload option in total, and the payload option for each. The total is at least
  -- one payload, and does not overflow, and the interval is a duration.
  pub overhead_measured :
      (opt : Opt) (tot : ℕ) (stopped : Bool × Sending) (codec : Codec (ZenohMessage ZBuf))
      (decode : String → Option (List ℕ)) (pkts : List (Option (List String))) (bytes last : List ℕ)
      (transport : List (TransportBody (ZenohMessage ZBuf)))
      → 0 < opt.payload
      → opt.payload ≤ opt.total * bytes_in_mb
      → opt.total * bytes_in_mb < 2 ^ 64
      → is_duration opt.interval ≡ true
      → rounds opt ≡ done tot
      → send_loop opt.print opt.interval tot tot at_start ≡ done stopped
      → gather decode pkts ≡ done bytes
      → Framed codec last transport bytes
      → length last < 2
      → data_of (all_messages transport)
        ≡ replicate stopped.1.written (from (payload_bytes opt.payload))
      → main io codec decode pkts
        ≡ some (
            done (record {
              size = length bytes;
              transport_messages = length transport;
              zenoh_messages = length (all_messages transport);
              data_messages = tot;
              total_payload = tot * opt.payload;
              per_message = opt.payload;
            }))
  overhead_measured opt tot stopped codec decode pkts bytes last transport some_payload one fits
        lasts r ends g f short written =
      let (tot', stopped', e, ends', sent, floor, ceil) =
        total_written opt some_payload fits lasts in
      let same : tot ≡ tot' = cc in
      let same_stop : stopped ≡ stopped' = cc in
      let all : stopped.1.written ≡ tot =
        ap (λ (p : Bool × Sending). p.1.written) same_stop ∙ omega (arith, sent.all, same) in
      let some_message : 0 < tot =
        rw same (some_factor tot' (length (payload_bytes opt.payload)) (omega arith)) in
      let sizes : payload_sizes io (all_messages transport) ≡ replicate tot opt.payload =
        payload_sizes-eq (all_messages transport)
        ∙ cc (
          written,
          all,
          map_len-replicate tot (payload_bytes opt.payload),
          length-payload_bytes opt.payload,
        ) in
      main_totals io codec decode pkts bytes last transport g f short
      ∙ ap some (analyzed (length bytes) tot opt.payload transport some_message some_payload sizes)
