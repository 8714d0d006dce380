-- ===== src/Query/TransportPrograms.antt =====
-- `main` of t_eval.rs, t_query.rs and t_query_thr.rs in query/src/bin, from their `Opt` on; their loops
-- are those of Query/Latency and Query/Throughput.
pub mod Asked
pub mod Counted
use zenoh_perf.Base.{ℕ, String, Option, Outcome, done, ◌>>=◌}
use zenoh_perf.Startup.Manager
use zenoh_perf.Startup.Manager.{ManagerLib, Started}
use zenoh_perf.Throughput.Monitor.{Labels}
use zenoh_perf.Query.{Asker}
use zenoh_perf.Query.Rates
use zenoh_perf.Query.Rates.{Rates}

-- `struct Opt` of t_eval; structopt has read the locator and the path of its file.
pub record EvalOpt (E F : Type 0) : Type 0 where
  pub locator : E
  pub mode : String
  pub payload : ℕ
  pub config : Option F

-- `struct Opt` of t_query
pub record QueryOpt (E F : Type 0) : Type 0 where
  pub locator : E
  pub mode : String
  pub name : String
  pub scenario : String
  pub config : Option F

-- `struct Opt` of t_query_thr
pub record QueryThrOpt (E F : Type 0) : Type 0 where
  pub locator : E
  pub mode : String
  pub name : String
  pub scenario : String
  pub payload : ℕ
  pub config : Option F

-- `MySH` of t_eval.
pub record Evaluator : Type 0 where
  pub payload : ℕ

-- `MySH::new(opt.payload)`
unfoldable pub new_evaluator : {E F : Type 0} → EvalOpt E F → Evaluator
new_evaluator opt = record { payload = opt.payload }

-- `MySH::new_unicast` of t_eval: the handler of a transport, with the payload of `MySH`.
unfoldable pub accept : {T : Type 0} → Evaluator → T → T × Evaluator
accept sh transport = (transport, record { payload = sh.payload })

-- `MySH::new(opt.scenario.clone(), opt.name.clone(), …)` of t_query
unfoldable pub asker_of : {E F : Type 0} → QueryOpt E F → Asker
asker_of opt = record { scenario = opt.scenario; name = opt.name }

-- What the task of t_query_thr repeats.
unfoldable pub thr_labels : {E F : Type 0} → QueryThrOpt E F → Labels
thr_labels opt = record { scenario = opt.scenario; name = opt.name; payload = opt.payload }

module _ {E T : Type 0} (lib : ManagerLib E T) where
  open lib use {File}

  -- Up to its wait.
  unfoldable pub t_eval_main : EvalOpt E File → Outcome (Started lib.Manager E T × Evaluator)
  unfolding Manager.t_eval new_evaluator
  t_eval_main opt = do
    started ← Manager.t_eval lib opt.config opt.mode opt.locator
    done (started, new_evaluator opt)

  -- Up to its loop.
  unfoldable pub t_query_main : QueryOpt E File → Outcome (Started lib.Manager E T × Asker)
  unfolding Manager.t_query asker_of
  t_query_main opt = do
    started ← Manager.t_query lib opt.config opt.mode opt.locator
    done (started, asker_of opt)

  -- Up to its loop and its task, which share two counters.
  unfoldable pub t_query_thr_main :
      QueryThrOpt E File → Outcome (Started lib.Manager E T × Labels × Rates)
  unfolding Manager.t_query_thr thr_labels
  t_query_thr_main opt = do
    started ← Manager.t_query_thr lib opt.config opt.mode opt.locator
    done (started, thr_labels opt, Rates.at_start)
