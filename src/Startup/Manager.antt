-- ===== src/Startup/Manager.antt =====
-- How the programs over the transport layer get their transports from their options, in latency/src/bin,
-- query/src/bin and throughput/src/bin. zenoh's manager and its builder are the parameter `ManagerLib`:
-- what a call comes to, by the manager and, for a dial, by the number of the call.
pub mod Pairs
use zenoh_perf.Base.{
  ℕ, ◌+◌, Bool, true, false, String, Option, none, some, List, [], ◌∷◌, Outcome, done, panic,
  unwrap, unwrap_none, no_endpoint, require, ◌>>=◌, ◌>>◌,
}
use zenoh_perf.Proto.{WhatAmI, router, peer, client}
use zenoh_perf.Startup.Dial.{listen_all, transports}

pub record ManagerLib (E T : Type 0) : Type 1 where
  pub File : Type 0
  pub Config : Type 0
  pub Builder : Type 0
  pub Manager : Type 0
  pub parse_mode : String → Option WhatAmI
  pub parse : String → Option E
  pub from_file : File → Option Config
  pub from_config : Config → Option Builder
  pub whatami : WhatAmI → Builder
  pub build : Builder → Option Manager
  pub create : Builder → Manager
  pub listens : Manager → E → Bool
  pub opens : Manager → ℕ → E → Option T

-- The manager, the endpoints that it listens on, and the transports that were opened, in order.
pub record Started (M E T : Type 0) : Type 0 where
  pub manager : M
  pub listening : List E
  pub opened : List T

module _ {E T : Type 0} (lib : ManagerLib E T) where
  open lib use {
    File, Config, Builder, Manager, parse_mode, parse, from_file, from_config, whatami, build,
    create, listens, opens,
  }

  abbrev pub Start : Type 0
  Start = Outcome (Started Manager E T)

  -- `match config { Some(path) => …from_config(…), None => …whatami(mode) }`
  unfoldable pub builder : Option File → WhatAmI → Outcome Builder
  builder none mode = done (whatami mode)
  builder (some path) mode = do config ← unwrap (from_file path); unwrap (from_config config)

  -- `if whatami == WhatAmI::Peer { …add_listener… } else { …open_transport… }`
  unfoldable pub listen_or_open : Manager → WhatAmI → E → Start
  listen_or_open m peer e = do
    require (listens m e) unwrap_none
    done (record { manager = m; listening = e ∷ []; opened = [] })
  listen_or_open m mode e = do
    t ← unwrap (opens m 0 e)
    done (record { manager = m; listening = []; opened = t ∷ [] })

  -- `for e in endpoint { … manager.open_transport_unicast(e)… }`, from the n-th call on.
  unfoldable pub open_all : Manager → ℕ → List E → Outcome (List T)
  open_all m n [] = done []
  open_all m n (e ∷ es) = do t ← unwrap (opens m n e); ts ← open_all m (n + 1) es; done (t ∷ ts)

  -- `main` of t_pong.rs, up to its wait, by the mode and the endpoint.
  unfoldable pub t_pong : String → String → Start
  unfolding listen_or_open
  t_pong mode endpoint = do
    w ← unwrap (parse_mode mode)
    m ← unwrap (build (whatami w))
    e ← unwrap (parse endpoint)
    listen_or_open m w e

  -- `main` of t_sub_delay.rs
  unfoldable pub t_sub_delay : String → String → Start
  unfolding listen_or_open
  t_sub_delay mode endpoint = do
    w ← unwrap (parse_mode mode)
    m ← unwrap (build (whatami w))
    e ← unwrap (parse endpoint)
    listen_or_open m w e

  -- `main` of t_ping.rs, and `single` and `parallel` up to their loops.
  unfoldable pub t_ping : String → String → Start
  t_ping mode endpoint = do
    w ← unwrap (parse_mode mode)
    m ← unwrap (build (whatami w))
    e ← unwrap (parse endpoint)
    t ← unwrap (opens m 0 e)
    done (record { manager = m; listening = []; opened = t ∷ [] })

  -- `main` of t_pub_delay.rs up to its loop.
  unfoldable pub t_pub_delay : String → String → Start
  t_pub_delay mode endpoint = do
    w ← unwrap (parse_mode mode)
    m ← unwrap (build (whatami w))
    e ← unwrap (parse endpoint)
    t ← unwrap (opens m 0 e)
    done (record { manager = m; listening = []; opened = t ∷ [] })

  -- `main` of t_sub_thr.rs: without a file the manager is a router's, whatever the mode.
  unfoldable pub t_sub_thr : Option File → WhatAmI → List E → Start
  unfolding builder open_all listen_all
  t_sub_thr path peer endpoint = do
    b ← builder path router
    m ← unwrap (build b)
    listen_all (opens m) (listens m) endpoint
    done (record { manager = m; listening = endpoint; opened = [] })
  t_sub_thr path mode endpoint = do
    b ← builder path router
    m ← unwrap (build b)
    ts ← open_all m 0 endpoint
    done (record { manager = m; listening = []; opened = ts })

  -- `main` of t_pub_thr.rs up to its messages.
  unfoldable pub t_pub_thr : Option File → WhatAmI → List E → Start
  unfolding builder open_all
  t_pub_thr path mode endpoint = do
    b ← builder path mode
    m ← unwrap (build b)
    ts ← open_all m 0 endpoint
    done (record { manager = m; listening = []; opened = ts })

  -- `if listen.is_empty() && connect.is_empty() { panic }`
  unfoldable pub some_endpoint : List E → List E → Outcome (Unit {0})
  some_endpoint [] [] = panic no_endpoint
  some_endpoint listen connect = done tt

  -- `main` of t_router_thr.rs
  unfoldable pub t_router_thr : Option File → List E → List E → Start
  unfolding builder open_all some_endpoint listen_all
  t_router_thr path listen connect = do
    some_endpoint listen connect
    b ← builder path router
    m ← unwrap (build b)
    listen_all (opens m) (listens m) listen
    ts ← open_all m 0 connect
    done (record { manager = m; listening = listen; opened = ts })

  -- `main` of t_pubsub_thr.rs up to its loop, with so many calls for each dial; `none` when one has
  -- used them up. The manager is built before the endpoints are looked at.
  unfoldable pub t_pubsub_thr :
      ℕ → Option File → WhatAmI → List E → List E → Outcome (Option (Started Manager E T))
  unfolding builder transports
  t_pubsub_thr calls path mode listen connect = do
    b ← builder path mode
    m ← unwrap (build b)
    dialled ← transports (opens m) (listens m) calls listen connect
    done (elim dialled [
      | none ↦ none
      | some (ts, n) ↦ some (record { manager = m; listening = listen; opened = ts })
    ])

  -- `main` of t_eval.rs; clap has parsed the locator.
  unfoldable pub t_eval : Option File → String → E → Start
  unfolding builder listen_or_open
  t_eval path mode locator = do
    w ← unwrap (parse_mode mode)
    b ← builder path w
    listen_or_open (create b) w locator

  -- `main` of t_query.rs up to its loop.
  unfoldable pub t_query : Option File → String → E → Start
  unfolding builder
  t_query path mode locator = do
    w ← unwrap (parse_mode mode)
    b ← builder path w
    t ← unwrap (opens (create b) 0 locator)
    done (record { manager = create b; listening = []; opened = t ∷ [] })

  -- `main` of t_query_thr.rs up to its tasks and its loop.
  unfoldable pub t_query_thr : Option File → String → E → Start
  unfolding builder
  t_query_thr path mode locator = do
    w ← unwrap (parse_mode mode)
    b ← builder path w
    t ← unwrap (opens (create b) 0 locator)
    done (record { manager = create b; listening = []; opened = t ∷ [] })
