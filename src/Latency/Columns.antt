-- ===== src/Latency/Columns.antt =====
-- The payload column of the lines of t_ping.rs, against its option `--payload`.
use zenoh_perf.Base.{
  ℕ, ◌+◌, ◌-◌, ◌^◌, ◌≤◌, ◌<◌, ◌≡◌, refl, List, arith, replicate, length-replicate, done,
}
use zenoh_perf.Proto.{ZBufIo}
use zenoh_perf.Latency.Payload.{tail_payload, tail_payload_cases, ping_bytes, length-ping_bytes}
use zenoh_perf.Latency.TPing
use zenoh_perf.Latency.TPing.Parallel.{parallel}
use zenoh_perf.Latency.TPing.Single.{single, single_line}

module _ (io : ZBufIo) where
  open io use {from, len-from}

  -- With a payload option from 8 up to Rust's limit both modes of t_ping reach their loop. The lines
  -- of the non-blocking mode report the option, those of the blocking one report 8 bytes less.
  pub payload_columns :
      (opt : TPing.Opt)
      → 8 ≤ opt.payload
      → opt.payload < 2 ^ 63
      → (zeros : List ℕ) × (parallel io opt
          ≡ done (TPing.Parallel.tool io (TPing.settings opt) zeros))
        × (single io opt ≡ done (TPing.Single.tool io (TPing.settings opt) zeros))
        × ((count micros : ℕ)
            → ((TPing.Parallel.tool io (TPing.settings opt) zeros).line count micros).payload
              ≡ opt.payload)
        × ((count micros : ℕ)
            → ((TPing.Single.tool io (TPing.settings opt) zeros).line count micros).payload + 8
              ≡ opt.payload)
  payload_columns opt lo hi =
      let zeros : List ℕ = replicate (opt.payload - 8) 0 in
      let made : tail_payload opt.payload ≡ done zeros =
        ground (arith, tail_payload_cases opt.payload hi) in
      (
        zeros,
        unfold parallel in rw made refl,
        unfold single in rw made refl,
        λ count micros.
            rw
              (len-from (ping_bytes zeros count), length-ping_bytes opt.payload count zeros hi made)
              refl,
        λ count micros.
            unfold single_line in omega (arith, length-replicate {A = ℕ} (opt.payload - 8) 0),
      )
