-- ===== src/Query/TransportPrograms/Asked.antt =====
-- What t_query prints of the replies of t_eval, from the options of both.
use zenoh_perf.Base.{ℕ, ◌+◌, ◌^◌, ◌≤◌, ◌<◌, ◌≡◌, ap, ◌∙◌, true, some, map, done}
use zenoh_perf.Proto.{ZBufIo, WhatAmI}
use zenoh_perf.Startup.Manager.{ManagerLib, builder, t_eval}
use zenoh_perf.Startup.Manager.Pairs.{server, dialler, eval_query}
use zenoh_perf.Latency.Sequential.Invariant.{down_from}
use zenoh_perf.Query.{QueryLine, query_line}
use zenoh_perf.Query.Latency.{t_query}
use zenoh_perf.Query.Asking.{System, Reach}
use zenoh_perf.Query.Asking.Safety.{replies_in_order}
use zenoh_perf.Query.Asking.Exchange.Times.{Timed, asked_when, printed_when, Reach-Timed}
use zenoh_perf.Query.TransportPrograms.{EvalOpt, QueryOpt, asker_of, t_eval_main, t_query_main}

module _ {E T : Type 0} (lib : ManagerLib E T) (io : ZBufIo) where
  open lib use {Builder, parse_mode, create, listens, opens}

  -- With the same locator, t_eval as a peer listens where t_query dials in any mode, and otherwise
  -- dials it too. Then, in every state of their loop that is reachable in fewer than 2^64 steps,
  -- t_query has printed one line for each query in order, from number 0 on and at most one behind
  -- its loop or ahead of it: a line has the scenario and the name of t_query, the payload option of
  -- t_eval, and the time from the step that put its query into the map to the step that printed it.
  -- The modes parse, the configuration files, if
  -- any, can be read, the calls on the managers succeed, and the payload option is one that Rust can
  -- allocate.
  pub query_lines :
      (evals : EvalOpt E lib.File) (opt : QueryOpt E lib.File) (w v : WhatAmI) (a b : Builder)
      (t u : T) (fits : evals.payload < 2 ^ 63)
      → evals.locator ≡ opt.locator
      → parse_mode evals.mode ≡ some w
      → parse_mode opt.mode ≡ some v
      → builder lib evals.config w ≡ done a
      → builder lib opt.config v ≡ done b
      → listens (create a) opt.locator ≡ true
      → opens (create a) 0 opt.locator ≡ some t
      → opens (create b) 0 opt.locator ≡ some u
      → (n : ℕ) (s : System QueryLine (t_query io (asker_of opt) evals.payload fits).Message)
      → n < 2 ^ 64
      → (run : Reach (t_query io (asker_of opt) evals.payload fits) n s)
      → (t_eval_main lib evals
          ≡ done (server lib (create a) w opt.locator t, record { payload = evals.payload }))
        × (t_query_main lib opt ≡ done (dialler lib (create b) opt.locator u, asker_of opt))
        × (lines : ℕ) × (map (λ (l : QueryLine). l.qid) s.printed ≡ down_from lines)
        × (s.count ≤ lines + 1)
        × (lines ≤ s.count + 1)
        × Timed
            (query_line "session" (asker_of opt) evals.payload)
            (asked_when run)
            s.printed
            (printed_when run)
  unfolding t_eval_main t_query_main
  query_lines evals opt w v a b t u fits same em qm ea qb l o r n s few run =
      let (served, dialled) =
        eval_query lib evals.config opt.config evals.mode opt.mode opt.locator w v a b t u em qm ea
          qb l o r in
      let tool = t_query io (asker_of opt) evals.payload fits in
      let (lines, order, behind, ahead) = replies_in_order tool n s few run in
      (
        simp (ap (λ e. t_eval lib evals.config evals.mode e) same ∙ served),
        simp dialled,
        lines,
        order,
        behind,
        ahead,
        Reach-Timed tool few run,
      )
