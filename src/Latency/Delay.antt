-- ===== src/Latency/Delay.antt =====
-- latency/src/bin/t_pub_delay.rs and t_sub_delay.rs: the publisher stamps its messages with the
-- system time, and the subscriber prints how long they took.
pub mod Turns
use zenoh_perf.Base.{
  ℕ, ◌+◌, ◌-◌, ◌%◌, ◌^◌, ◌≤◌, ◌<◌, ◌≡◌, none, some, List, ◌++◌, arith, ltb, if◌then◌else◌, length,
  drop, replicate, drop-replicate, length-replicate, drop-append_add, drop-append, take-append,
  length-append, Outcome, done, panic, fill_buffer, invalid_message, short_payload, ◌>>=◌,
}
use zenoh_perf.Bytes.{
  to_le_bytes, from_le_bytes, copy_from_slice, length-to_le_bytes, from_le_bytes-to_le_bytes,
}
use zenoh_perf.Proto.{
  ZBufIo, ZenohBody, data_body, query_body, other_body, ZenohMessage, KeyExpr, data_channel, block,
}
use zenoh_perf.Latency.Report.{zeroed}

-- The payload of one turn of the loop of t_pub_delay: a u64 count, then the u128 nanoseconds `now`.
unfoldable pub stamped_payload : ℕ → ℕ → ℕ → Outcome (List ℕ)
unfolding zeroed copy_from_slice
stamped_payload size count now = if ltb size 24 then panic short_payload else do
  payload ← zeroed size
  counted ← copy_from_slice 0 (to_le_bytes 8 count) payload
  copy_from_slice 8 (to_le_bytes 16 now) counted

second_copy :
    (count now : ℕ) (tail : List ℕ)
    → 16 ≤ length tail
    → copy_from_slice 8 (to_le_bytes 16 now) (to_le_bytes 8 count ++ tail)
      ≡ done (to_le_bytes 8 count ++ (to_le_bytes 16 now ++ drop 16 tail))
unfolding copy_from_slice
second_copy count now tail h =
    let c : List ℕ = to_le_bytes 8 count in
    ground (
      arith,
      length-to_le_bytes 8 count,
      length-to_le_bytes 16 now,
      length-append c tail,
      take-append c tail 8 (length-to_le_bytes 8 count),
      drop-append_add c tail 8 16 (length-to_le_bytes 8 count),
    )

first_copy :
    (size count : ℕ)
    → 8 ≤ size
    → copy_from_slice 0 (to_le_bytes 8 count) (replicate size 0)
      ≡ done (to_le_bytes 8 count ++ replicate (size - 8) 0)
unfolding copy_from_slice
first_copy size count h = ground (
  arith,
  drop-replicate {A = ℕ} 8 size 0,
  length-to_le_bytes 8 count,
  length-replicate {A = ℕ} size 0,
)

-- The payload is the count, the time and zeros up to the size asked for; a size below 24 panics.
pub stamped_payload_cases :
    (size count now : ℕ)
    → size < 2 ^ 63
    → stamped_payload size count now ≡ (
        if ltb size 24
        then panic short_payload
        else done (to_le_bytes 8 count ++ (to_le_bytes 16 now ++ replicate (size - 24) 0)))
unfolding stamped_payload
stamped_payload_cases size count now h = ground (
  arith,
  first_copy size count,
  second_copy count now (replicate (size - 8) 0),
  length-replicate {A = ℕ} (size - 8) 0,
  drop-replicate {A = ℕ} 16 (size - 8) 0,
)

module _ (io : ZBufIo) where
  open io use {ZBuf, from, len, reader_exact, reader_exact-from, len-from}

  -- The message of one turn of the loop of t_pub_delay.
  unfoldable pub stamped_message : ℕ → ℕ → ℕ → Outcome (ZenohMessage ZBuf)
  unfolding stamped_payload
  stamped_message size count now = do
    payload ← stamped_payload size count now
    done (record {
      key = KeyExpr.name "/test/ping";
      body = data_body (from payload) none;
      channel = data_channel;
      congestion_control = block;
    })

  -- "{} bytes: seq={} time={:?}", the time in nanoseconds.
  pub record DelayLine : Type 0 where
    pub bytes : ℕ
    pub seq : ℕ
    pub time : ℕ

  -- `(now_sub - now_pub) as u64`: the u128 subtraction wraps in a release build.
  abbrev pub delay : ℕ → ℕ → ℕ
  delay now_sub now_pub = (now_sub + 2 ^ 128 - now_pub) % 2 ^ 128 % 2 ^ 64

  -- `MyMH::handle_message` of t_sub_delay at the system time `now_sub`.
  unfoldable pub handle_message : ZenohBody ZBuf → ℕ → Outcome DelayLine
  handle_message (data_body payload reply_context) now_sub = elim (reader_exact 8 payload) [
    | none ↦ panic fill_buffer
    | some (count_bytes, rest) ↦ elim (reader_exact 16 rest) [
      | none ↦ panic fill_buffer
      | some (now_bytes, rest') ↦ done (record {
        bytes = len payload;
        seq = from_le_bytes count_bytes;
        time = delay now_sub (from_le_bytes now_bytes);
      })
    ]
  ]
  handle_message (query_body qid) now_sub = panic invalid_message
  handle_message other_body now_sub = panic invalid_message

  read_front :
      (n : ℕ) (front rest : List ℕ)
      → length front ≡ n
      → reader_exact n (from (front ++ rest)) ≡ some (front, from rest)
  read_front n front rest h =
      rw (reader_exact-from, take-append front rest n h, drop-append front rest n h)
        (ground (arith, length-append front rest))

  handled :
      (count now now_sub : ℕ) (rest : List ℕ)
      → count < 2 ^ 64
      → now < 2 ^ 128
      → handle_message
          (data_body (from (to_le_bytes 8 count ++ (to_le_bytes 16 now ++ rest))) none)
          now_sub
        ≡ done (record { bytes = 24 + length rest; seq = count; time = delay now_sub now })
  unfolding handle_message
  handled count now now_sub rest hc hn =
      let c : List ℕ = to_le_bytes 8 count in
      let t : List ℕ = to_le_bytes 16 now in
      ground (
        arith,
        read_front 8 c (t ++ rest) (length-to_le_bytes 8 count),
        read_front 16 t rest (length-to_le_bytes 16 now),
        from_le_bytes-to_le_bytes 8 count hc,
        from_le_bytes-to_le_bytes 16 now hn,
        len-from (c ++ (t ++ rest)),
        length-append c (t ++ rest),
        length-append t rest,
        length-to_le_bytes 8 count,
        length-to_le_bytes 16 now,
      )

  -- The subscriber's handler on what the publisher sent.
  abbrev pub received : ℕ → ℕ → ℕ → ℕ → Outcome DelayLine
  received size count now now_sub = do
    message ← stamped_message size count now
    handle_message message.body now_sub

  received_lem :
      (size count now now_sub : ℕ)
      → 24 ≤ size
      → size < 2 ^ 63
      → count < 2 ^ 64
      → now < 2 ^ 128
      → received size count now now_sub
        ≡ done (record { bytes = size; seq = count; time = delay now_sub now })
  unfolding stamped_message
  received_lem size count now now_sub lo hi hc hn = ground (
    arith,
    stamped_payload_cases size count now hi,
    handled count now now_sub (replicate (size - 24) 0) hc hn,
    length-replicate {A = ℕ} (size - 24) 0,
  )

  -- With clocks that agree, and a delay below 2^64 ns, the subscriber prints the size, the count
  -- and the exact delay of the message that was published.
  pub delay_exact :
      (size count now now_sub : ℕ)
      → 24 ≤ size
      → size < 2 ^ 63
      → count < 2 ^ 64
      → now ≤ now_sub
      → now_sub < 2 ^ 128
      → now_sub < now + 2 ^ 64
      → received size count now now_sub
        ≡ done (record { bytes = size; seq = count; time = now_sub - now })
  delay_exact size count now now_sub lo hi hc le hs fits =
      ground (arith, received_lem size count now now_sub lo hi hc)

  -- When the publisher's clock is ahead of the subscriber's, by up to 2^63 ns, the printed time is
  -- not small: it is 2^64 ns less the clock difference.
  pub delay_skewed :
      (size count now now_sub : ℕ)
      → 24 ≤ size
      → size < 2 ^ 63
      → count < 2 ^ 64
      → now < 2 ^ 128
      → now_sub < now
      → now ≤ now_sub + 2 ^ 63
      → received size count now now_sub
        ≡ done (record { bytes = size; seq = count; time = 2 ^ 64 - (now - now_sub) })
  delay_skewed size count now now_sub lo hi hc hn ahead fits =
      ground (arith, received_lem size count now now_sub lo hi hc hn)
