-- ===== src/Throughput/Sink/Tcp/Accepting.antt =====
-- `run` of throughput/src/bin/t_sink_tcp.rs: a task for each connection.
use zenoh_perf.Base.{ℕ, ◌≡◌, refl, ap, Option, none, some, List, [], ◌∷◌, ◌++◌, map, Outcome}
use zenoh_perf.Wire.{Codec}
use zenoh_perf.Throughput.Sink.Tcp.Serving.{Served, handle_client}

-- What a connection brings: the id that is drawn for it, its stream, and the seconds and the sizes of
-- the reads that it lives to see.
pub record Connection : Type 0 where
  pub my_pid : ℕ
  pub stream : List ℕ
  pub seconds : ℕ
  pub sizes : List ℕ

module _ {Z : Type 0} (codec : Codec Z) where
  -- `let _ = handle_client(stream).await`
  unfoldable pub serve : Connection → Outcome Served
  unfolding handle_client
  serve c = handle_client codec c.my_pid c.stream c.seconds c.sizes

  -- The loop over `incoming`; `none` is an error of a connection, which ends it by `?`. The result has
  -- how each task that was spawned came out.
  unfoldable pub run : List (Option Connection) → List (Outcome Served)
  unfolding serve
  run [] = []
  run (none ∷ incoming) = []
  run (some c ∷ incoming) = serve c ∷ run incoming

  -- Each connection before the first error is served by itself, whatever becomes of the others, and
  -- none behind it.
  pub run_until :
      (cs : List Connection) (later : List (Option Connection))
      → run (map some cs ++ none ∷ later) ≡ map serve cs
  unfolding run
  run_until [] later = refl
  run_until (c ∷ cs) later = ap (λ rs. serve c ∷ rs) (run_until cs later)
