-- ===== src/Latency/Session.antt =====
-- The key expressions of the session programs: what z_ping.rs and z_pong.rs declare before their
-- loops, by the flags `--use-expr` and `--declare-publication`.
use zenoh_perf.Base.{
  ℕ, ◌≡◌, refl, sym, ◌∙◌, String, Option, some, Bool, true, false, List, [], ◌∷◌, if◌then◌else◌,
}
use mathlib.Core.Option.{some-injective}
use zenoh_perf.Proto.{KeyExpr, name, id}

pub data SessionCall : Type 0 where
  declare_expr : String → SessionCall
  subscribe : KeyExpr → SessionCall
  declare_publication : KeyExpr → SessionCall

-- The subscriber's key, the key that is put to, and the calls in order.
pub record Keys : Type 0 where
  pub subscribed : KeyExpr
  pub target : KeyExpr
  pub calls : List SessionCall

-- `incoming_id` and `outgoing_id` are what the session returns for the declared expressions.
unfoldable pub set_up : ℕ → ℕ → Bool → Bool → String → String → Keys
set_up incoming_id outgoing_id use_expr with_publication incoming outgoing =
    if use_expr
    then record {
      subscribed = id incoming_id;
      target = id outgoing_id;
      calls =
          declare_expr incoming
          ∷ subscribe (id incoming_id)
          ∷ declare_expr outgoing
          ∷ (if with_publication then declare_publication (id outgoing_id) ∷ [] else []);
    }
    else record {
      subscribed = name incoming;
      target = name outgoing;
      calls =
          subscribe (name incoming)
          ∷ (if with_publication then declare_publication (name outgoing) ∷ [] else []);
    }

-- The resource that a key stands for in a session with this table of declared expressions.
abbrev pub Names : (ℕ → Option String) → KeyExpr → String → Type 0
Names table (name s) resource = s ≡ resource
Names table (id i) resource = table i ≡ some resource

-- Whatever the flags, the two keys stand for the two resources.
pub set_up-Names :
    (table : ℕ → Option String) (i o : ℕ) (use_expr with_publication : Bool)
    (incoming outgoing : String)
    → table i ≡ some incoming
    → table o ≡ some outgoing
    → Names table (set_up i o use_expr with_publication incoming outgoing).subscribed incoming
      × Names table (set_up i o use_expr with_publication incoming outgoing).target outgoing
unfolding set_up
set_up-Names table i o true with_publication incoming outgoing hi ho = (hi, ho)
set_up-Names table i o false with_publication incoming outgoing hi ho = (refl, refl)

-- A key stands for one resource.
pub Names-unique :
    (table : ℕ → Option String) (key : KeyExpr) (a b : String)
    → Names table key a
    → Names table key b
    → a ≡ b
Names-unique table (name s) a b ha hb = sym ha ∙ hb
Names-unique table (id i) a b ha hb = some-injective _ _ (sym ha ∙ hb)
