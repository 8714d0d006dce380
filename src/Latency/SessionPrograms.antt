-- ===== src/Latency/SessionPrograms.antt =====
-- `main` of z_ping.rs and of z_pong.rs in latency/src/bin, from the options on, and the loop of
-- z_ping's `single` for a number of turns. The session is zenoh's; `chars` are the code points of a
-- text, and the ids are what the sessions return for declared expressions. The sleep behind a
-- line panics for an interval that is no duration.
use zenoh_perf.Base.{
  ℕ, ◌+◌, ◌^◌, ◌≤◌, ◌<◌, ◌≡◌, refl, ap, ◌∙◌, true, false, String, Option, none, some, List, [], ◌∷◌,
  ◌++◌, arith, if◌then◌else◌, Outcome, done, ◌>>=◌, ◌>>◌, zero, suc, length, get_elem?,
}
use zenoh_perf.Duration.{is_duration, from_secs_f64, from_secs_f64-lasts}
use zenoh_perf.Proto.{ZBufIo, WhatAmI, peer}
use zenoh_perf.Startup.{Config, session_mode, supported, parse_all, z_ping_config, z_pong_config}
use zenoh_perf.Startup.Meeting.{join, NoComma, NoCommas, split-join}
use zenoh_perf.Latency.Report.{Line}
use zenoh_perf.Latency.Session.{Keys, Names}
use zenoh_perf.Latency.ZPing
use zenoh_perf.Latency.ZPing.{
  parallel_keys, single_keys, single_round, single_round_reflected, ping, pong_line, settings,
}
use zenoh_perf.Latency.Pong
use zenoh_perf.Latency.Pong.{pong_keys, pong_loop, z_pong_meets}

module _ (io : ZBufIo) where
  open io use {ZBuf}

  -- The loop of `single` for a number of turns from a count on, `elapsed` from each put to its line:
  -- what is put, and what is printed.
  unfoldable pub single_loop :
      ZPing.Opt → (ZBuf → Option ZBuf) → (ℕ → ℕ) → ℕ → ℕ → Outcome (List (ZBuf × Line))
  unfolding single_round from_secs_f64
  single_loop opt yields elapsed zero count = done []
  single_loop opt yields elapsed (suc turns) count = do
    turn ← single_round io opt yields count (elapsed count)
    from_secs_f64 opt.interval
    rest ← single_loop opt yields elapsed turns (count + 1)
    done (turn ∷ rest)

  -- What z_pong's loop puts for one sample.
  unfoldable pub answer_of : Keys → ZBuf → Option ZBuf
  unfolding pong_loop
  answer_of keys sample = elim (pong_loop keys (sample ∷ [])) [
    | [] ↦ none
    | (key, answer) ∷ rest ↦ some answer
  ]

  abbrev turn_of : ZPing.Opt → (ℕ → ℕ) → ℕ → ZBuf × Line
  turn_of opt elapsed count = (
    ping io opt.payload count,
    pong_line io "latency.sequential" (settings opt) opt.payload count (elapsed count),
  )

  abbrev turns_of : ZPing.Opt → (ℕ → ℕ) → ℕ → ℕ → List (ZBuf × Line)
  turns_of opt elapsed zero count = []
  turns_of opt elapsed (suc turns) count =
      turn_of opt elapsed count ∷ turns_of opt elapsed turns (count + 1)

  length-turns_of :
      (opt : ZPing.Opt) (elapsed : ℕ → ℕ) (turns count : ℕ)
      → length (turns_of opt elapsed turns count) ≡ turns
  length-turns_of opt elapsed zero count = refl
  length-turns_of opt elapsed (suc turns) count =
      ground (arith, length-turns_of opt elapsed turns (count + 1))

  get_elem-turns_of :
      (opt : ZPing.Opt) (elapsed : ℕ → ℕ) (turns count i : ℕ)
      → i < turns
      → get_elem? (turns_of opt elapsed turns count) i ≡ some (turn_of opt elapsed (count + i))
  get_elem-turns_of opt elapsed zero count i h = ground arith
  get_elem-turns_of opt elapsed (suc turns) count zero h =
      ap (λ k. some (turn_of opt elapsed k)) (omega arith)
  get_elem-turns_of opt elapsed (suc turns) count (suc i) h =
      get_elem-turns_of opt elapsed turns (count + 1) i (omega arith)
      ∙ ap (λ k. some (turn_of opt elapsed k)) (omega arith)

  single_loop-answer_of :
      (opt : ZPing.Opt) (keys : Keys) (elapsed : ℕ → ℕ) (turns count : ℕ)
      → 8 ≤ opt.payload
      → opt.payload < 2 ^ 63
      → count + turns ≤ 2 ^ 64
      → is_duration opt.interval ≡ true
      → single_loop opt (answer_of keys) elapsed turns count
        ≡ done (turns_of opt elapsed turns count)
  unfolding single_loop answer_of pong_loop
  single_loop-answer_of opt keys elapsed zero count lo hi few lasts = refl
  single_loop-answer_of opt keys elapsed (suc turns) count lo hi few lasts = simp (
    single_round_reflected io opt count (elapsed count) lo hi (omega arith),
    from_secs_f64-lasts opt.interval lasts,
    single_loop-answer_of opt keys elapsed turns (count + 1) lo hi (omega arith) lasts,
  )

module _ {E : Type 0} (chars : String → List ℕ) (parse : List ℕ → Option E)
    (default : Config E) where
  -- z_ping up to its loop.
  unfoldable pub z_ping_start : ℕ → ℕ → ZPing.Opt → Outcome (Config E × Keys)
  unfolding z_ping_config parallel_keys single_keys
  z_ping_start pong_id ping_id opt = do
    config ←
        z_ping_config parse default opt.mode
          (elim opt.endpoint [ none ↦ none | some text ↦ some (chars text) ])
    done (
      config,
      if opt.parallel then parallel_keys pong_id ping_id opt else single_keys pong_id ping_id opt,
    )

  -- z_pong up to its loop.
  unfoldable pub z_pong_start : ℕ → ℕ → Pong.Opt → Outcome (Config E × Keys)
  unfolding z_pong_config pong_keys
  z_pong_start ping_id pong_id opt = do
    config ← z_pong_config parse default opt.mode (chars opt.endpoint)
    done (config, pong_keys ping_id pong_id opt)

  -- With the same option of endpoints, z_pong as a peer listens on those that z_ping connects to in
  -- each of its modes, and without `--parallel` each subscribes to what the other puts to, by whatever
  -- flags. In any number of turns, when the subscriber of z_ping yields what z_pong puts for a ping,
  -- z_ping prints one line for each: the line of turn i has the payload option, the count i and the
  -- time of that turn. The endpoints have no comma and parse, the payload option is from 8 up to
  -- Rust's limit, the turns are at most 2^64,
  -- and the interval is a duration.
  pub z_pong_serves_z_ping :
      (io : ZBufIo) (ping_table pong_table : ℕ → Option String) (a b c d : ℕ) (opt : ZPing.Opt)
      (pong : Pong.Opt) (v : WhatAmI) (piece : List ℕ) (pieces : List (List ℕ)) (es : List E)
      (elapsed : ℕ → ℕ) (turns i : ℕ)
      → (ping_table a ≡ some "/test/pong") × (ping_table b ≡ some "/test/ping")
      → (pong_table c ≡ some "/test/ping") × (pong_table d ≡ some "/test/pong")
      → opt.parallel ≡ false
      → session_mode pong.mode ≡ some peer
      → session_mode opt.mode ≡ some v
      → opt.endpoint ≡ some pong.endpoint
      → chars pong.endpoint ≡ join piece pieces
      → NoComma piece
      → NoCommas pieces
      → parse_all parse default (piece ∷ pieces) ≡ done es
      → 8 ≤ opt.payload
      → opt.payload < 2 ^ 63
      → turns ≤ 2 ^ 64
      → i < turns
      → is_duration opt.interval ≡ true
      → (asked : Keys) × (answered : Keys) × (run : List (io.ZBuf × Line)) × (z_ping_start a b opt
          ≡ done (
            record default {
              mode = some v;
              multicast = some false;
              connect = default.connect ++ es;
            },
            asked,
          ))
        × (z_pong_start c d pong
            ≡ done (
              record default {
                mode = some peer;
                multicast = some false;
                listen = default.listen ++ es;
              },
              answered,
            ))
        × Names ping_table asked.target "/test/ping"
        × Names pong_table answered.subscribed "/test/ping"
        × Names pong_table answered.target "/test/pong"
        × Names ping_table asked.subscribed "/test/pong"
        × (single_loop io opt (answer_of io answered) elapsed turns 0 ≡ done run)
        × (length run ≡ turns)
        × (get_elem? run i
            ≡ some (
              ping io opt.payload i,
              pong_line io "latency.sequential" (settings opt) opt.payload i (elapsed i),
            ))
  unfolding z_ping_start z_pong_start z_ping_config z_pong_config supported
  z_pong_serves_z_ping io ping_table pong_table a b c d opt pong v piece pieces es elapsed turns i
        pt qt alone pm qm same text h hs parsed lo hi few within lasts =
      let (put, heard, back, seen) = z_pong_meets ping_table pong_table a b c d opt pong pt qt in
      (
        single_keys a b opt,
        pong_keys c d pong,
        turns_of io opt elapsed turns 0,
        simp (same, qm, text, split-join piece pieces h hs, parsed, alone),
        simp (pm, text, split-join piece pieces h hs, parsed),
        put,
        heard,
        back,
        seen,
        single_loop-answer_of io opt (pong_keys c d pong) elapsed turns 0 lo hi (omega arith) lasts,
        length-turns_of io opt elapsed turns 0,
        get_elem-turns_of io opt elapsed turns 0 i within
            ∙ ap (λ k. some (turn_of io opt elapsed k)) (omega arith),
      )
