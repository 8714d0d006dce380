-- ===== src/Query/RouterPrograms.antt =====
-- `main` of r_eval.rs and r_query.rs in query/src/bin, from the options on. The runtime is zenoh's: it
-- hands over the calls on the primitives of both. In a turn of r_query the callbacks come to the
-- barrier before the loop goes on, as in Query/Asking, where the two are threads.
use zenoh_perf.Base.{
  ℕ, ◌+◌, ◌%◌, ◌^◌, ◌<◌, ◌≡◌, refl, Bool, true, false, String, none, some, List, [], ◌∷◌, arith,
  length, Outcome, done, ◌>>=◌,
}
use zenoh_perf.Pending
use zenoh_perf.Pending.{Pending}
use zenoh_perf.Proto.{ZBufIo, WhatAmI, client, Call}
use zenoh_perf.Startup.{router_mode}
use zenoh_perf.Startup.Properties.{
  PropertiesLib, r_eval_properties, query_properties, Settled, Placed, query_finds_eval,
}
use zenoh_perf.Query.{Asker, QueryLine, query_line}
use zenoh_perf.Query.Router.{
  eval_on_call, eval_declarations, query_call, first_line, r_eval_answers,
}
use zenoh_perf.Query.SessionPrograms.{Turn, numbered}

-- `EvalPrimitives`; `tx` says whether its `Option` is set.
pub record EvalPrimitives : Type 0 where
  pub tx : Bool
  pub payload : ℕ

-- `EvalPrimitives::new`
unfoldable pub new : ℕ → EvalPrimitives
new payload = record { tx = false; payload = payload }

-- `EvalPrimitives::set_tx`
unfoldable pub set_tx : EvalPrimitives → EvalPrimitives
set_tx rx = record rx { tx = true }

-- What r_eval has declared, and what it has sent for each call on its primitives.
pub record Evaluating (P B : Type 0) : Type 0 where
  pub config : P
  pub declared : List (Call B)
  pub answers : List (List (Call B))

module _ (io : ZBufIo) where
  open io use {ZBuf}

  unfoldable pub eval_on_calls :
      EvalPrimitives → List (Call ZBuf) → Outcome (List (List (Call ZBuf)))
  unfolding eval_on_call
  eval_on_calls rx [] = done []
  eval_on_calls rx (call ∷ calls) = do
    answer ← eval_on_call io rx.tx rx.payload call
    answers ← eval_on_calls rx calls
    done (answer ∷ answers)

  -- The loop of `main` of r_query, from a count on, with its one barrier, 0: the lines until a turn
  -- whose calls let nobody come to the barrier, which the loop does not leave.
  unfoldable pub r_query_turns :
      Asker → ℕ → Pending (ℕ × ℕ) → List (Turn (Call ZBuf)) → Outcome (List QueryLine)
  unfolding first_line
  r_query_turns rx count pending [] = done []
  r_query_turns rx count pending (t ∷ turns) = do
    (waits, left) ← first_line io rx t.replies (Pending.insert count (t.instant, 0) pending)
    elim waits [
      | none ↦ done []
      | some (barrier, line) ↦ do
        lines ← r_query_turns rx ((count + 1) % 2 ^ 64) left turns
        done (line t.now ∷ lines)
    ]

  -- The queries of the turns from `count` on, one for each of these times.
  abbrev pub queries : ℕ → List (ℕ × ℕ) → List (Call ZBuf)
  queries count [] = []
  queries count (t ∷ times) = query_call io count ∷ queries (count + 1) times

  -- The turns when each query has one answer.
  abbrev pub answered_by : List (List (Call ZBuf)) → List (ℕ × ℕ) → List (Turn (Call ZBuf))
  answered_by [] times = []
  answered_by (a ∷ answers) [] = []
  answered_by (a ∷ answers) ((instant, now) ∷ times) =
      record { replies = a; instant = instant; now = now } ∷ answered_by answers times

  turn-line :
      (rx : Asker) (count instant now : ℕ) (before left : Pending (ℕ × ℕ))
      (calls : List (Call ZBuf)) (turns : List (Turn (Call ZBuf))) (barrier : ℕ)
      (line : ℕ → QueryLine) (lines : List QueryLine)
      → count + 1 < 2 ^ 64
      → first_line io rx calls (Pending.insert count (instant, 0) before)
        ≡ done (some (barrier, line), left)
      → r_query_turns rx (count + 1) left turns ≡ done lines
      → r_query_turns rx count before
          (record { replies = calls; instant = instant; now = now } ∷ turns)
        ≡ done (line now ∷ lines)
  unfolding r_query_turns
  turn-line rx count instant now before left calls turns barrier line lines few first rest =
      let next : (count + 1) % 2 ^ 64 ≡ count + 1 = omega arith in simp (first, next, rest)

  turns-numbered :
      (rx : Asker) (payload count : ℕ) (times : List (ℕ × ℕ)) (before : Pending (ℕ × ℕ))
      → payload < 2 ^ 63
      → count + length times < 2 ^ 64
      → (answers : List (List (Call ZBuf))) × (eval_on_calls
            (record { tx = true; payload = payload })
            (queries count times)
          ≡ done answers)
        × (r_query_turns rx count before (answered_by answers times)
            ≡ done (numbered "router" rx payload count times))
  unfolding eval_on_calls r_query_turns
  turns-numbered rx payload count [] before fits few = ([], refl, refl)
  turns-numbered rx payload count ((instant, now) ∷ times) before fits few =
      let (calls, left, answer, line, kept) =
        r_eval_answers io rx payload count instant 0 before fits in
      let (answers, rest, lines) =
        turns-numbered rx payload (count + 1) times left fits (omega arith) in
      (
        calls ∷ answers,
        simp (answer, rest),
        turn-line rx count instant now before left calls (answered_by answers times) 0
            (query_line "router" rx payload count instant)
            (numbered "router" rx payload (count + 1) times) (omega arith) line lines,
      )

  module _ (lib : PropertiesLib) where
    open lib use {Properties}

    -- `main` of r_eval when these calls have been made on its primitives.
    unfoldable pub r_eval_main :
        String → String → ℕ → List (Call ZBuf) → Outcome (Evaluating Properties ZBuf)
    unfolding r_eval_properties new set_tx eval_on_calls
    r_eval_main mode locator payload calls = do
      config ← r_eval_properties lib mode locator
      answers ← eval_on_calls (set_tx (new payload)) calls
      done (record { config = config; declared = eval_declarations io; answers = answers })

    unfoldable pub r_query_main :
        String → String → Asker → List (Turn (Call ZBuf)) → Outcome (Properties × List QueryLine)
    unfolding query_properties r_query_turns
    r_query_main mode locator rx turns = do
      lines ← r_query_turns rx 0 Pending.empty turns
      done (query_properties lib mode locator, lines)

    -- With the same option of a locator, r_eval as a peer or a router has it as the one to listen on,
    -- and r_query has it as the one to connect to, in every mode; both have set their own mode, and
    -- neither scouts. When the calls of each turn of r_query are r_eval's answer to its query, r_query
    -- prints a line for each turn: the first has the number 0, each next one the next number, and all
    -- have r_eval's payload option and the time of their own turn. The mode of r_eval is one of its
    -- three, its payload option is one that Rust can allocate, and the turns are fewer than 2^64.
    pub r_query_answered :
        (eval_mode query_mode locator : String) (w : WhatAmI) (rx : Asker) (payload : ℕ)
        (times : List (ℕ × ℕ))
        → router_mode eval_mode ≡ some w
        → payload < 2 ^ 63
        → length times < 2 ^ 64
        → (e : Evaluating Properties ZBuf) × (connects : Properties) × (r_eval_main eval_mode
              locator payload
              (queries 0 times)
            ≡ done e)
          × (r_query_main query_mode locator rx (answered_by e.answers times)
              ≡ done (connects, numbered "router" rx payload 0 times))
          × Settled lib eval_mode e.config
          × Placed lib w locator e.config
          × Settled lib query_mode connects
          × Placed lib client locator connects
    unfolding r_eval_main r_query_main new set_tx
    r_query_answered eval_mode query_mode locator w rx payload times m fits few =
        let (config, started, settled, placed, asks, dials) =
          query_finds_eval lib eval_mode query_mode locator w m in
        let (answers, sent, lines) =
          turns-numbered rx payload 0 times Pending.empty fits (omega arith) in
        (
          record { config = config; declared = eval_declarations io; answers = answers },
          query_properties lib query_mode locator,
          simp (started, sent),
          simp lines,
          settled,
          placed,
          asks,
          dials,
        )
