-- ===== src/Query/TransportPrograms/Counted.antt =====
-- What t_query_thr counts of the replies of t_eval, from the options of both.
use zenoh_perf.Base.{ℕ, ◌+◌, ◌^◌, ◌≤◌, ◌<◌, ◌≡◌, ap, ◌∙◌, true, some, map, done}
use zenoh_perf.Proto.{ZBufIo, WhatAmI}
use zenoh_perf.Startup.Manager
use zenoh_perf.Startup.Manager.{ManagerLib, Started, builder, t_eval}
use zenoh_perf.Startup.Manager.Pairs.{server, dialler, eval_query}
use zenoh_perf.Latency.Sequential.{System}
use zenoh_perf.Latency.Sequential.Invariant.{down_from}
use zenoh_perf.Throughput.Counter.{sum}
use zenoh_perf.Query.Throughput.{Turn, t_query_thr}
use zenoh_perf.Query.Throughput.Measured.{Reach, replies_counted}
use zenoh_perf.Query.Rates.{Rates, at_start, owed, taken}
use zenoh_perf.Query.TransportPrograms.{
  EvalOpt, QueryThrOpt, thr_labels, t_eval_main, t_query_thr_main,
}

module _ {E T : Type 0} (lib : ManagerLib E T) (io : ZBufIo) where
  open lib use {Builder, parse_mode, create, listens, opens}

  -- With the same locator, t_eval as a peer listens where t_query_thr dials in any mode, and otherwise
  -- dials it too. Then, in every state of the loop and the task of t_query_thr that is reachable in
  -- fewer than 2^64 steps, the replies to one query after the other were counted, from number 0 on up to
  -- the one before the current query or the current one; however the loop and the task interleave,
  -- each was printed once, stands in the counter, or has still to be counted, and each of their micros
  -- was printed once, stands in `rtt`, is in the task's hands, or was dropped. The modes parse, the
  -- configuration files, if any, can be read, the calls on the managers succeed, the payload option of
  -- t_eval is one that Rust can allocate, and the micros are below 2^64.
  pub query_thr_counted :
      (evals : EvalOpt E lib.File) (opt : QueryThrOpt E lib.File) (w v : WhatAmI) (a b : Builder)
      (t u : T) (fits : evals.payload < 2 ^ 63)
      → evals.locator ≡ opt.locator
      → parse_mode evals.mode ≡ some w
      → parse_mode opt.mode ≡ some v
      → builder lib evals.config w ≡ done a
      → builder lib opt.config v ≡ done b
      → listens (create a) opt.locator ≡ true
      → opens (create a) 0 opt.locator ≡ some t
      → opens (create b) 0 opt.locator ≡ some u
      → (n : ℕ) (s : System Turn (t_query_thr io evals.payload fits).Message) (r : Rates)
      → n < 2 ^ 64
      → sum (map (λ (turn : Turn). turn.1) s.printed) < 2 ^ 64
      → Reach (t_query_thr io evals.payload fits) (λ turn. turn.1) n s r
      → (t_eval_main lib evals
          ≡ done (server lib (create a) w opt.locator t, record { payload = evals.payload }))
        × (t_query_thr_main lib opt
            ≡ done (dialler lib (create b) opt.locator u, thr_labels opt, at_start))
        × (lines : ℕ) × (map (λ (turn : Turn). turn.0) s.printed ≡ down_from lines)
        × (s.count ≤ lines)
        × (lines ≤ s.count + 1)
        × (sum (map (λ p. p.1) r.reports) + r.counter + owed r.loop ≡ lines)
        × (sum (map (λ p. p.0) r.reports) + r.dropped + taken r.task + r.rtt
            ≡ sum (map (λ (turn : Turn). turn.1) s.printed))
  unfolding t_eval_main t_query_thr_main Manager.t_query_thr
  query_thr_counted evals opt w v a b t u fits same em qm ea qb l o d n s r few short reached =
      let (served, dialled) =
        eval_query lib evals.config opt.config evals.mode opt.mode opt.locator w v a b t u em qm ea
          qb l o d in
      let (lines, order, least, most, turns, micros) =
        replies_counted (t_query_thr io evals.payload fits) (λ turn. turn.1) n s r few short
          reached in
      (
        simp (ap (λ e. t_eval lib evals.config evals.mode e) same ∙ served),
        simp (qm, qb, d),
        lines,
        order,
        least,
        most,
        turns,
        micros,
      )
