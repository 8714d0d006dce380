-- ===== src/Throughput/Router.antt =====
-- throughput/src/bin/t_router_thr.rs: a table of transports, and a handler for each that forwards
-- what it receives to all the others. `Slab` is the crate slab's: it is the parameter `SlabLib`.
-- A transport is a number that names it.
pub mod Forwarding
use zenoh_perf.Base.{
  ℕ, String, ◌+◌, ◌≤◌, ◌≡◌, refl, ap, ◌∙◌, sym, Bool, true, false, Option, none, some, List, [],
  ◌∷◌, ◌++◌, map, arith, ◌==◌, if◌then◌else◌, get_elem?, length, occurrences, occurrences-cons,
  occurrences-nil, occurrences-append, Outcome, done, panic, multicast, no_endpoint,
}
use mathlib.Core.List.{map-append}

abbrev pub Entries : Type 0
Entries = List (ℕ × ℕ)

abbrev pub keys : Entries → List ℕ
keys = map (λ e. e.0)

abbrev pub values : Entries → List ℕ
values = map (λ e. e.1)

-- What the program uses of `Slab<TransportUnicast>`: an empty slab, `insert`, which returns a key
-- that is not in use, and `iter`, which goes through the entries in a fixed order of the keys.
pub record SlabLib : Type 1 where
  pub Slab : Type 0
  pub new : Slab
  pub insert : ℕ → Slab → ℕ × Slab
  pub iter : Slab → Entries
  pub iter-new : iter new ≡ []
  pub insert_unused : (t : ℕ) (s : Slab) → occurrences (insert t s).0 (keys (iter s)) ≡ 0
  pub iter-insert :
      (t : ℕ) (s : Slab)
      → (before after : Entries) × (iter s ≡ before ++ after)
        × (iter (insert t s).1 ≡ before ++ ((insert t s).0, t) ∷ after)

-- The loop of `MyMH::handle_message` of the handler `index`: the transports that it sends a clone
-- of the message to, in order. What their `handle_message` returns is ignored.
unfoldable pub forward : ℕ → Entries → List ℕ
forward index [] = []
forward index ((i, e) ∷ table) =
    let rest = forward index table in if i == index then rest else e ∷ rest

lookup : ℕ → Entries → Option ℕ
lookup k [] = none
lookup k ((j, t) ∷ table) = if j == k then some t else lookup k table

forward_absent :
    (k : ℕ) (table : Entries) → occurrences k (keys table) ≡ 0 → forward k table ≡ values table
unfolding forward
forward_absent k [] h = refl
forward_absent k ((i, e) ∷ table) h =
    ground (arith, occurrences-cons k i (keys table), forward_absent k table)

forward_present :
    (k t x : ℕ) (table : Entries)
    → ((j : ℕ) → occurrences j (keys table) ≤ 1)
    → lookup k table ≡ some t
    → occurrences x (forward k table) + (if t == x then 1 else 0) ≡ occurrences x (values table)
unfolding forward lookup
forward_present k t x [] u h = cc
forward_present k t x ((i, e) ∷ table) u h = ground (
  arith,
  occurrences-cons k i (keys table),
  u k,
  occurrences-cons x e (values table),
  occurrences-cons x e (forward k table),
  forward_absent k table,
  forward_present k t x table (λ j. omega (arith, u j, occurrences-cons j i (keys table))),
)

lookup_middle :
    (k j t : ℕ) (before after : Entries)
    → occurrences k (keys (before ++ after)) ≡ 0
    → lookup j (before ++ (k, t) ∷ after) ≡ (if k == j then some t else lookup j (before ++ after))
unfolding lookup
lookup_middle k j t [] after h = refl
lookup_middle k j t ((i, e) ∷ before) after h =
    ground (arith, occurrences-cons k i (keys (before ++ after)), lookup_middle k j t before after)

occurrences_middle :
    {A : Type 0} (f : A → ℕ) (x : ℕ) (a : A) (before after : List A)
    → occurrences x (map f (before ++ a ∷ after))
      ≡ (if f a == x then 1 else 0) + occurrences x (map f (before ++ after))
occurrences_middle f x a [] after = occurrences-cons x (f a) (map f after)
occurrences_middle f x a (b ∷ before) after = omega (
  arith,
  occurrences-cons x (f b) (map f (before ++ a ∷ after)),
  occurrences-cons x (f b) (map f (before ++ after)),
  occurrences_middle f x a before after,
)

module _ (lib : SlabLib) where
  open lib use {Slab, new, insert, iter}

  -- `MySH` with its table, and the index and the transport of each `MyMH` made so far.
  pub record RouterState : Type 0 where
    pub table : Slab
    pub handlers : Entries

  -- `MySH::new`
  abbrev pub no_transports : RouterState
  no_transports = record { table = new; handlers = [] }

  -- `MySH::new_unicast`
  unfoldable pub new_unicast : ℕ → RouterState → RouterState
  new_unicast transport s =
      let (index, table') = insert transport s.table in
      record { table = table'; handlers = (index, transport) ∷ s.handlers }

  unfoldable pub new_multicast : RouterState → Outcome RouterState
  new_multicast s = panic multicast

  -- `MyMH::handle_message` of the handler `index`.
  unfoldable pub handle_message : ℕ → RouterState → List ℕ
  unfolding forward
  handle_message index s = forward index (iter s.table)

  unfoldable pub connect_all : List ℕ → RouterState
  unfolding new_unicast
  connect_all [] = no_transports
  connect_all (t ∷ ts) = new_unicast t (connect_all ts)

-- `main`: the endpoints to listen on and to connect to, unless there is none.
unfoldable pub endpoints : List String → List String → Outcome (List String × List String)
endpoints [] [] = panic no_endpoint
endpoints listen connect = done (listen, connect)
