-- ===== src/Latency/Payload.antt =====
-- The payload of a ping: the count in 8 bytes, then zeros.
use zenoh_perf.Base.{
  ℕ, ◌+◌, ◌-◌, ◌%◌, ◌^◌, ◌<◌, ◌≡◌, some, List, ◌++◌, arith, leb, if◌then◌else◌, length, replicate,
  length-append, length-replicate, take-append, drop-append, Outcome, done, panic,
  capacity_overflow,
}
use zenoh_perf.Bytes.{to_le_bytes, from_le_bytes, length-to_le_bytes, from_le_bytes-to_le_bytes}
use zenoh_perf.Proto.{ZBufIo}
use zenoh_perf.Latency.Report.{zeroed}

-- `usize` subtraction in a release build wraps around.
abbrev pub usize_sub : ℕ → ℕ → ℕ
usize_sub a b = (a + 2 ^ 64 - b) % 2 ^ 64

-- `vec![0u8; opt.payload - 8]`, made before the loop.
unfoldable pub tail_payload : ℕ → Outcome (List ℕ)
unfolding zeroed
tail_payload payload = zeroed (usize_sub payload 8)

-- The bytes that the loop writes: `count.to_le_bytes()`, then the zeros.
unfoldable pub ping_bytes : List ℕ → ℕ → List ℕ
ping_bytes tail count = to_le_bytes 8 count ++ tail

-- A payload option of 8 bytes or more, within Rust's limit, gives messages of exactly that size; a
-- smaller one ends the program before its first message.
pub tail_payload_cases :
    (payload : ℕ)
    → payload < 2 ^ 63
    → tail_payload payload
      ≡ (if leb 8 payload then done (replicate (payload - 8) 0) else panic capacity_overflow)
unfolding tail_payload
tail_payload_cases payload h = ground arith

pub length-ping_bytes :
    (payload count : ℕ) (tail : List ℕ)
    → payload < 2 ^ 63
    → tail_payload payload ≡ done tail
    → length (ping_bytes tail count) ≡ payload
unfolding ping_bytes
length-ping_bytes payload count tail h e = ground (
  arith,
  tail_payload_cases payload h,
  e,
  length-append (to_le_bytes 8 count) tail,
  length-to_le_bytes 8 count,
  length-replicate {A = ℕ} (payload - 8) 0,
)

module _ (io : ZBufIo) where
  open io use {ZBuf, from, len, reader_exact, reader_exact-from, len-from}

  -- The reader gives back the count that stands in front, and what follows it.
  pub read_count :
      (count : ℕ) (rest : List ℕ)
      → count < 2 ^ 64
      → (bytes : List ℕ) × (reader_exact 8 (from (to_le_bytes 8 count ++ rest))
          ≡ some (bytes, from rest))
        × (from_le_bytes bytes ≡ count)
  read_count count rest h = (
    to_le_bytes 8 count,
    rw
        (
          reader_exact-from,
          take-append (to_le_bytes 8 count) rest 8 (length-to_le_bytes 8 count),
          drop-append (to_le_bytes 8 count) rest 8 (length-to_le_bytes 8 count),
        )
        (ground (arith, length-append (to_le_bytes 8 count) rest, length-to_le_bytes 8 count)),
    from_le_bytes-to_le_bytes 8 count h,
  )
