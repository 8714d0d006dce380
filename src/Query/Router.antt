-- ===== src/Query/Router.antt =====
-- The query programs over zenoh's router: query/src/bin/r_eval.rs replies, r_query.rs and
-- r_query_thr.rs ask, all by the callbacks of `Primitives`.
use zenoh_perf.Base.{
  ℕ, ◌^◌, ◌<◌, ◌≡◌, Bool, true, Option, none, some, List, [], ◌∷◌, arith, ◌==◌, if◌then◌else◌,
  replicate, length-replicate, Outcome, done, unwrap_none, unwrap, require, ◌>>=◌, ◌>>◌,
}
use zenoh_perf.Pending
use zenoh_perf.Pending.{Pending, get-insert, get-remove}
use zenoh_perf.Proto.{
  ZBufIo, KeyExpr, Call, decl_queryable, send_query, send_reply_data, send_reply_final,
}
use zenoh_perf.Latency.Report.{zeroed}
use zenoh_perf.Query.{Asker, QueryLine, query_line}

module _ (io : ZBufIo) where
  open io use {ZBuf, from, len, len-from}

  -- `EvalPrimitives::send_query`: the calls of the task that it spawns; `tx_set` says whether
  -- `set_tx` was called.
  unfoldable pub eval_calls : Bool → ℕ → KeyExpr → ℕ → Outcome (List (Call ZBuf))
  unfolding zeroed
  eval_calls tx_set payload key qid = do
    zeros ← zeroed payload
    require tx_set unwrap_none
    done (send_reply_data qid key (from zeros) ∷ send_reply_final qid ∷ [])

  -- `EvalPrimitives`: every other callback is empty.
  unfoldable pub eval_on_call : Bool → ℕ → Call ZBuf → Outcome (List (Call ZBuf))
  unfolding eval_calls
  eval_on_call tx_set payload (send_query key qid) = eval_calls tx_set payload key qid
  eval_on_call tx_set payload call = done []

  -- What `main` of r_eval declares.
  abbrev pub eval_declarations : List (Call ZBuf)
  eval_declarations = decl_queryable (KeyExpr.name "/test/query") ∷ []

  -- The query of the turn `count` of the loops of r_query and r_query_thr.
  unfoldable pub query_call : ℕ → Call ZBuf
  query_call count = send_query (KeyExpr.name "/test/query") count

  -- `QueryPrimitives` of r_query_thr: the barrier that a callback waits at, if it does.
  unfoldable pub on_call : Call ZBuf → Pending ℕ → Outcome (Option ℕ × Pending ℕ)
  on_call (send_reply_data qid key payload) pending = do
    barrier ← unwrap (Pending.get qid pending)
    done (some barrier, Pending.remove qid pending)
  on_call call pending = done (none, pending)

  -- `QueryPrimitives` of r_query: the barrier that a callback waits at, if it does, and the line that
  -- it prints behind it, by the time then.
  unfoldable pub print_on_call :
      Asker → Call ZBuf → Pending (ℕ × ℕ) → Outcome (Option (ℕ × (ℕ → QueryLine)) × Pending (ℕ × ℕ))
  print_on_call rx (send_reply_data qid key payload) pending = do
    (instant, barrier) ← unwrap (Pending.get qid pending)
    done (
      some (barrier, query_line "router" rx (len payload) qid instant),
      Pending.remove qid pending,
    )
  print_on_call rx call pending = done (none, pending)

  -- The calls of one task, up to the first that waits.
  unfoldable pub first_wait : List (Call ZBuf) → Pending ℕ → Outcome (Option ℕ × Pending ℕ)
  unfolding on_call
  first_wait [] pending = done (none, pending)
  first_wait (call ∷ calls) pending = do
    (waits, left) ← on_call call pending
    elim waits [ none ↦ first_wait calls left | some barrier ↦ done (some barrier, left) ]

  unfoldable pub first_line :
      Asker
      → List (Call ZBuf)
      → Pending (ℕ × ℕ)
      → Outcome (Option (ℕ × (ℕ → QueryLine)) × Pending (ℕ × ℕ))
  unfolding print_on_call
  first_line rx [] pending = done (none, pending)
  first_line rx (call ∷ calls) pending = do
    (waits, left) ← print_on_call rx call pending
    elim waits [ none ↦ first_line rx calls left | some w ↦ done (some w, left) ]

  pub eval_query :
      (payload count : ℕ)
      → payload < 2 ^ 63
      → eval_on_call true payload (query_call count)
        ≡ done (
            send_reply_data count (KeyExpr.name "/test/query") (from (replicate payload 0))
            ∷ send_reply_final count
            ∷ [])
  unfolding eval_on_call query_call
  eval_query payload count fits = ground arith

  -- r_eval's answer to a query of r_query makes r_query wait at the barrier that stands in the map
  -- for that query, and then print one line, with the payload option of r_eval and the time from when
  -- the query was put into the map to the printing; the entry is taken and the others stay. r_eval's `tx` is set, and
  -- its payload option is one that Rust can allocate.
  pub r_eval_answers :
      (rx : Asker) (payload count instant barrier : ℕ) (before : Pending (ℕ × ℕ))
      → payload < 2 ^ 63
      → (calls : List (Call ZBuf)) × (left : Pending (ℕ × ℕ)) × (eval_on_call true payload
            (query_call count)
          ≡ done calls)
        × (first_line rx calls (Pending.insert count (instant, barrier) before)
            ≡ done (some (barrier, query_line "router" rx payload count instant), left))
        × ((k : ℕ) → Pending.get k left ≡ (if count == k then none else Pending.get k before))
  unfolding first_line
  r_eval_answers rx payload count instant barrier before fits =
      let waiting : Pending (ℕ × ℕ) = Pending.insert count (instant, barrier) before in
      (
        send_reply_data count (KeyExpr.name "/test/query") (from (replicate payload 0))
            ∷ send_reply_final count
            ∷ [],
        Pending.remove count waiting,
        eval_query payload count fits,
        ground (
          arith,
          get-insert count count (instant, barrier) before,
          len-from (replicate payload 0),
          length-replicate {A = ℕ} payload 0,
        ),
        λ k.
            ground
              (arith, get-remove count k waiting, get-insert count k (instant, barrier) before),
      )
