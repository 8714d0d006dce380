-- ===== src/Startup/Properties.antt =====
-- What the query programs with zenoh's older interface write into its map of properties, in
-- query/src/bin: r_eval.rs, r_query.rs, r_query_thr.rs, zn_eval.rs, zn_query.rs, zn_query_thr.rs and
-- z_query_thr.rs. The map is the parameter `PropertiesLib`.
use text.Mathlib.Text.{◌==◌ as str_eq}
use text.Mathlib.TextEquality.{eq_iff}
use zenoh_perf.Base.{
  ap, ℕ, ◌≡◌, refl, ◌∙◌, ◌==◌, true, false, String, Option, some, arith, if◌then◌else◌, Outcome,
  done, panic, unsupported_mode,
}
use zenoh_perf.Proto.{WhatAmI, router, peer, client}
use zenoh_perf.Startup.{router_mode, session_mode}

-- The keys: "mode", "multicast_scouting", "listener" and "peer", or ZN_MODE_KEY,
-- ZN_MULTICAST_SCOUTING_KEY, ZN_LISTENER_KEY and ZN_PEER_KEY over the router.
pub data Key : Type 0 where
  mode_key : Key
  multicast_key : Key
  listener_key : Key
  peer_key : Key

abbrev pub index : Key → ℕ
index mode_key = 0
index multicast_key = 1
index listener_key = 2
index peer_key = 3

pub record PropertiesLib : Type 1 where
  pub Properties : Type 0
  pub default : Properties
  pub insert : Key → String → Properties → Properties
  pub get : Key → Properties → Option String
  pub get-insert : (k : Key) (s : String) (p : Properties) → get k (insert k s p) ≡ some s
  pub get_other :
      (k j : Key) (s : String) (p : Properties)
      → (index k == index j) ≡ false
      → get k (insert j s p) ≡ get k p

not_router : (mode : String) → str_eq mode "client" ≡ true → str_eq mode "router" ≡ false
not_router mode h = ap (λ m. str_eq m "router") ((eq_iff mode "client").0 h)

module _ (lib : PropertiesLib) where
  open lib use {Properties, default, insert, get, get-insert, get_other}

  -- The two settings that all of them write first.
  without_scouting : String → Properties
  without_scouting mode = insert multicast_key "false" (insert mode_key mode default)

  -- `main` of r_query, r_query_thr, zn_query, zn_query_thr and z_query_thr
  unfoldable pub query_properties : String → String → Properties
  unfolding without_scouting
  query_properties mode locator = insert peer_key locator (without_scouting mode)

  -- `main` of r_eval
  unfoldable pub r_eval_properties : String → String → Outcome Properties
  unfolding without_scouting
  r_eval_properties mode locator =
      if str_eq mode "peer"
      then done (insert listener_key locator (without_scouting mode))
      else if str_eq mode "router"
      then done (insert listener_key locator (without_scouting mode))
      else if str_eq mode "client"
      then done (insert peer_key locator (without_scouting mode))
      else panic unsupported_mode

  -- `main` of zn_eval
  unfoldable pub zn_eval_properties : String → String → Outcome Properties
  unfolding without_scouting
  zn_eval_properties mode locator =
      if str_eq mode "peer"
      then done (insert listener_key locator (without_scouting mode))
      else if str_eq mode "client"
      then done (insert peer_key locator (without_scouting mode))
      else panic unsupported_mode

  -- What every one of these programs has set: its mode as the option has it, and no scouting.
  pub record Settled (mode : String) (p : Properties) : Type 0 where
    pub mode_set : get mode_key p ≡ some mode
    pub scouting_off : get multicast_key p ≡ some "false"

  -- The one key among the two that the locator is under; the other one is as by default.
  abbrev pub Placed : WhatAmI → String → Properties → Type 0
  Placed client locator p =
      (get peer_key p ≡ some locator) × (get listener_key p ≡ get listener_key default)
  Placed peer locator p =
      (get listener_key p ≡ some locator) × (get peer_key p ≡ get peer_key default)
  Placed router locator p =
      (get listener_key p ≡ some locator) × (get peer_key p ≡ get peer_key default)

  place : WhatAmI → Key
  place client = peer_key
  place peer = listener_key
  place router = listener_key

  located : WhatAmI → String → String → Properties
  unfolding without_scouting place
  located w mode locator = insert (place w) locator (without_scouting mode)

  others-without_scouting :
      (k : Key) (mode : String)
      → (index k == 0) ≡ false
      → (index k == 1) ≡ false
      → get k (without_scouting mode) ≡ get k default
  unfolding without_scouting
  others-without_scouting k mode a b =
      get_other k multicast_key "false" (insert mode_key mode default) b
      ∙ get_other k mode_key mode default a

  Settled-insert :
      (k : Key) (mode locator : String)
      → (0 == index k) ≡ false
      → (1 == index k) ≡ false
      → Settled mode (insert k locator (without_scouting mode))
  unfolding without_scouting
  Settled-insert k mode locator a b =
      let base : Properties = insert mode_key mode default in
      record {
        mode_set =
            get_other mode_key k locator (insert multicast_key "false" base) a
            ∙ get_other mode_key multicast_key "false" base refl
            ∙ get-insert mode_key mode default;
        scouting_off =
            get_other multicast_key k locator (insert multicast_key "false" base) b
            ∙ get-insert multicast_key "false" base;
      }

  Settled-located : (w : WhatAmI) (mode locator : String) → Settled mode (located w mode locator)
  unfolding located
  Settled-located client mode locator = Settled-insert peer_key mode locator refl refl
  Settled-located peer mode locator = Settled-insert listener_key mode locator refl refl
  Settled-located router mode locator = Settled-insert listener_key mode locator refl refl

  Placed-located : (w : WhatAmI) (mode locator : String) → Placed w locator (located w mode locator)
  unfolding located
  Placed-located client mode locator = (
    get-insert peer_key locator (without_scouting mode),
    get_other listener_key peer_key locator (without_scouting mode) refl
        ∙ others-without_scouting listener_key mode refl refl,
  )
  Placed-located peer mode locator = (
    get-insert listener_key locator (without_scouting mode),
    get_other peer_key listener_key locator (without_scouting mode) refl
        ∙ others-without_scouting peer_key mode refl refl,
  )
  Placed-located router mode locator = (
    get-insert listener_key locator (without_scouting mode),
    get_other peer_key listener_key locator (without_scouting mode) refl
        ∙ others-without_scouting peer_key mode refl refl,
  )

  r_eval-located :
      (mode locator : String) (w : WhatAmI)
      → router_mode mode ≡ some w
      → r_eval_properties mode locator ≡ done (located w mode locator)
  unfolding r_eval_properties router_mode located place
  r_eval-located mode locator peer e = ground arith
  r_eval-located mode locator client e = ground (arith, not_router mode)
  r_eval-located mode locator router e = ground arith

  zn_eval-located :
      (mode locator : String) (w : WhatAmI)
      → session_mode mode ≡ some w
      → zn_eval_properties mode locator ≡ done (located w mode locator)
  unfolding zn_eval_properties session_mode located place
  zn_eval-located mode locator peer e = ground arith
  zn_eval-located mode locator client e = ground arith
  zn_eval-located mode locator router e = ground arith

  -- Where a query goes: the locator is one to connect to, in every mode.
  pub query-Placed :
      (mode locator : String)
      → Settled mode (query_properties mode locator)
        × Placed client locator (query_properties mode locator)
  unfolding query_properties located place
  query-Placed mode locator =
      (Settled-located client mode locator, Placed-located client mode locator)

  pub zn_eval-Placed :
      (mode locator : String) (w : WhatAmI)
      → session_mode mode ≡ some w
      → (p : Properties) × (zn_eval_properties mode locator ≡ done p)
        × Settled mode p
        × Placed w locator p
  zn_eval-Placed mode locator w e = (
    located w mode locator,
    zn_eval-located mode locator w e,
    Settled-located w mode locator,
    Placed-located w mode locator,
  )

  -- With the same option of a locator, r_eval as a peer or a router has it as the one to listen on
  -- and nothing more than by default to connect to, and as a client the other way round; r_query and
  -- the other asking programs have it as the one to connect to in every mode. Both have set their own
  -- mode, and neither scouts. The mode of r_eval is one of its three.
  pub query_finds_eval :
      (eval_mode query_mode locator : String) (w : WhatAmI)
      → router_mode eval_mode ≡ some w
      → (p : Properties) × (r_eval_properties eval_mode locator ≡ done p)
        × Settled eval_mode p
        × Placed w locator p
        × Settled query_mode (query_properties query_mode locator)
        × Placed client locator (query_properties query_mode locator)
  query_finds_eval eval_mode query_mode locator w e = (
    located w eval_mode locator,
    r_eval-located eval_mode locator w e,
    Settled-located w eval_mode locator,
    Placed-located w eval_mode locator,
    (query-Placed query_mode locator).0,
    (query-Placed query_mode locator).1,
  )
