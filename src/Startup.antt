-- ===== src/Startup.antt =====
-- What the programs over router and session write into zenoh's `Config` before they open a runtime
-- or a session. Texts that they take apart are lists of characters, by code point; `Config` has the
-- settings that the programs touch.
pub mod Dial
pub mod Manager
pub mod Meeting
pub mod Properties
use text.Mathlib.Text.{◌==◌ as str_eq}
use zenoh_perf.Base.{
  ℕ, Bool, true, false, String, Option, none, some, List, [], ◌∷◌, ◌++◌, ◌==◌, if◌then◌else◌,
  Outcome, done, panic, unwrap, unsupported_mode, ◌>>=◌,
}
use zenoh_perf.Proto.{WhatAmI, router, peer, client}

pub record Config (E : Type 0) : Type 0 where
  pub mode : Option WhatAmI
  pub multicast : Option Bool
  pub add_timestamp : Option Bool
  pub listen : List E
  pub connect : List E

on_first : ℕ → List (List ℕ) → List (List ℕ)
on_first c [] = (c ∷ []) ∷ []
on_first c (piece ∷ pieces) = (c ∷ piece) ∷ pieces

-- `endpoint.split(',')`
unfoldable pub split : List ℕ → List (List ℕ)
unfolding on_first
split [] = [] ∷ []
split (c ∷ s) = let rest = split s in if c == b',' then [] ∷ rest else on_first c rest

-- The modes of r_ping and r_pong, and those of z_ping and z_pong.
unfoldable pub router_mode : String → Option WhatAmI
router_mode mode =
    if str_eq mode "peer"
    then some peer
    else if str_eq mode "client"
    then some client
    else if str_eq mode "router"
    then some router
    else none

unfoldable pub session_mode : String → Option WhatAmI
session_mode mode =
    if str_eq mode "peer" then some peer else if str_eq mode "client" then some client else none

-- `match … { …, _ => panic!("Unsupported mode") }`
unfoldable pub supported : Option WhatAmI → Outcome WhatAmI
supported none = panic unsupported_mode
supported (some mode) = done mode

-- A program that only connects, and one that a peer or a router connects to.
connecting : {E : Type 0} → Config E → WhatAmI → Option Bool → List E → Config E
connecting base mode multicast es = record base {
  mode = some mode;
  multicast = multicast;
  connect = base.connect ++ es;
}

listening : {E : Type 0} → Config E → WhatAmI → Option Bool → List E → Config E
unfolding connecting
listening base client multicast es = connecting base client multicast es
listening base mode multicast es = record base {
  mode = some mode;
  multicast = multicast;
  listen = base.listen ++ es;
}

-- `parse` is that of zenoh's `EndPoint`; `base` is `Config::default()`.
module _ {E : Type 0} (parse : List ℕ → Option E) (base : Config E) where
  -- `.map(|e| e.parse().unwrap())`
  unfoldable pub parse_all : List (List ℕ) → Outcome (List E)
  parse_all [] = done []
  parse_all (piece ∷ pieces) = do e ← unwrap (parse piece); es ← parse_all pieces; done (e ∷ es)

  -- `main` of r_ping.rs
  unfoldable pub r_ping_config : String → List ℕ → Outcome (Config E)
  unfolding supported router_mode parse_all connecting
  r_ping_config mode endpoint = do
    w ← supported (router_mode mode)
    es ← parse_all (split endpoint)
    done (connecting base w (some false) es)

  -- `main` of r_pong.rs
  unfoldable pub r_pong_config : String → List ℕ → Outcome (Config E)
  unfolding supported router_mode parse_all listening
  r_pong_config mode endpoint = do
    w ← supported (router_mode mode)
    es ← parse_all (split endpoint)
    done (listening base w (some false) es)

  -- `main` of z_ping.rs, both branches on the option of endpoints, though clap requires it.
  unfoldable pub z_ping_config : String → Option (List ℕ) → Outcome (Config E)
  unfolding supported session_mode parse_all connecting
  z_ping_config mode none = do
    w ← supported (session_mode mode)
    done (record base { mode = some w; multicast = some true })
  z_ping_config mode (some endpoint) = do
    w ← supported (session_mode mode)
    es ← parse_all (split endpoint)
    done (connecting base w (some false) es)

  -- `main` of z_pong.rs
  unfoldable pub z_pong_config : String → List ℕ → Outcome (Config E)
  unfolding supported session_mode parse_all listening
  z_pong_config mode endpoint = do
    w ← supported (session_mode mode)
    es ← parse_all (split endpoint)
    done (listening base w (some false) es)

-- `Config::from_file(path).unwrap()` if there is a path, and `Config::default()` otherwise.
unfoldable pub base_config :
    {E : Type 0} {F : Type 0} → (F → Option (Config E)) → Config E → Option F → Outcome (Config E)
base_config from_file default none = done default
base_config from_file default (some path) = unwrap (from_file path)

-- The programs whose mode and endpoints clap has read.
module _ {E : Type 0} {F : Type 0} (from_file : F → Option (Config E)) (default : Config E) where
  -- `main` of r_sub_thr.rs
  unfoldable pub r_sub_config : WhatAmI → List E → Option F → Outcome (Config E)
  unfolding base_config listening
  r_sub_config mode endpoint path = do
    base ← base_config from_file default path
    done (listening base mode (some false) endpoint)

  -- `main` of z_sub_thr.rs
  unfoldable pub z_sub_config : WhatAmI → List E → Option F → Outcome (Config E)
  unfolding base_config connecting
  z_sub_config router endpoint path = do
    base ← base_config from_file default path
    panic unsupported_mode
  z_sub_config peer endpoint path = do
    base ← base_config from_file default path
    done
        (record base { mode = some peer; multicast = some false; listen = base.listen ++ endpoint })
  z_sub_config client endpoint path = do
    base ← base_config from_file default path
    done (connecting base client (some false) endpoint)

  -- `main` of r_pub_thr.rs and of z_put_thr.rs
  unfoldable pub pub_config : WhatAmI → List E → Option F → Outcome (Config E)
  unfolding base_config connecting
  pub_config mode endpoint path = do
    base ← base_config from_file default path
    done (record (connecting base mode (some false) endpoint) { add_timestamp = some false })

  -- `main` of z_eval.rs and of z_query.rs, which have no file.
  unfoldable pub eval_config : WhatAmI → List E → Outcome (Config E)
  unfolding z_sub_config
  eval_config mode endpoint = z_sub_config mode endpoint none

  unfoldable pub query_config : WhatAmI → List E → Outcome (Config E)
  unfolding pub_config
  query_config mode endpoint = pub_config mode endpoint none
