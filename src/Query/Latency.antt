-- ===== src/Query/Latency.antt =====
-- The loops of query/src/bin/t_query.rs and r_query.rs, with the evaluating program behind the
-- network. Both fill the system of `Asking`.
use zenoh_perf.Base.{
  ℕ, ◌^◌, ◌<◌, ◌≡◌, refl, true, List, [], ◌∷◌, arith, Outcome, done, unwrap, replicate,
  length-replicate, ◌>>=◌,
}
use zenoh_perf.Pending.{Pending}
use zenoh_perf.Proto.{ZBufIo, ZenohBody, KeyExpr, Call}
use zenoh_perf.Query.{Asker, QueryLine, query_line, make_query, eval_message, print_reply}
use zenoh_perf.Query.Router.{query_call, eval_on_call, eval_query, first_line}
use zenoh_perf.Query.Asking.{Action, insert_query, send, wait, advance, answer, QueryTool}

-- One turn of either loop, with the query `ask`.
unfoldable pub asking_round : {M : Type 0} → (ℕ → M) → ℕ → List (Action M)
asking_round ask count = insert_query count ∷ send (ask count) ∷ wait ∷ advance ∷ []

pub asking_round-eq :
    {M : Type 0} (ask : ℕ → M) (k : ℕ)
    → asking_round ask k ≡ insert_query k ∷ send (ask k) ∷ wait ∷ advance ∷ []
unfolding asking_round
asking_round-eq ask k = refl

module _ (io : ZBufIo) where
  open io use {ZBuf, from, len-from}

  -- t_query's handler on t_eval's reply to a query.
  unfoldable pub t_reply :
      Asker
      → ℕ
      → KeyExpr × ZenohBody ZBuf
      → Pending (ℕ × ℕ)
      → Outcome (ℕ × (ℕ → QueryLine) × Pending (ℕ × ℕ))
  unfolding eval_message print_reply
  t_reply mh payload query pending = do
    reply ← eval_message io payload query.1
    print_reply io mh reply.body pending

  pub t_reply-make_query :
      (mh : Asker) (payload : ℕ)
      → payload < 2 ^ 63
      → (k : ℕ) (p : Pending (ℕ × ℕ)) → k < 2 ^ 64
      → t_reply mh payload (make_query io k) p ≡ answer (query_line "session" mh payload k) k p
  unfolding t_reply make_query
  t_reply-make_query mh payload fits k p h =
      ground (arith, len-from (replicate payload 0), length-replicate {A = ℕ} payload 0)

  -- t_query against t_eval with a payload option that Rust can allocate.
  abbrev pub t_query : Asker → (payload : ℕ) → payload < 2 ^ 63 → QueryTool
  t_query mh payload fits = record {
    Message = KeyExpr × ZenohBody ZBuf;
    Printed = QueryLine;
    ask = make_query io;
    round = asking_round (make_query io);
    receive = t_reply mh payload;
    line = query_line "session" mh payload;
    number_of = λ l. l.qid;
    number_of-line = λ k instant now. refl;
    round-eq = asking_round-eq (make_query io);
    receive-ask = t_reply-make_query mh payload fits;
  }

  -- r_query's callbacks on r_eval's answer to a query.
  unfoldable pub r_reply :
      Asker → ℕ → Call ZBuf → Pending (ℕ × ℕ) → Outcome (ℕ × (ℕ → QueryLine) × Pending (ℕ × ℕ))
  unfolding first_line
  r_reply rx payload query pending = do
    calls ← eval_on_call io true payload query
    (waits, left) ← first_line io rx calls pending
    (barrier, line) ← unwrap waits
    done (barrier, line, left)

  pub r_reply-query_call :
      (rx : Asker) (payload : ℕ)
      → payload < 2 ^ 63
      → (k : ℕ) (p : Pending (ℕ × ℕ)) → k < 2 ^ 64
      → r_reply rx payload (query_call io k) p ≡ answer (query_line "router" rx payload k) k p
  unfolding r_reply
  r_reply-query_call rx payload fits k p h = ground (
    arith,
    eval_query io payload k,
    len-from (replicate payload 0),
    length-replicate {A = ℕ} payload 0,
  )

  -- r_query against r_eval with a payload option that Rust can allocate.
  abbrev pub r_query : Asker → (payload : ℕ) → payload < 2 ^ 63 → QueryTool
  r_query rx payload fits = record {
    Message = Call ZBuf;
    Printed = QueryLine;
    ask = query_call io;
    round = asking_round (query_call io);
    receive = r_reply rx payload;
    line = query_line "router" rx payload;
    number_of = λ l. l.qid;
    number_of-line = λ k instant now. refl;
    round-eq = asking_round-eq (query_call io);
    receive-ask = r_reply-query_call rx payload fits;
  }
