-- ===== src/Base/Panics.antt =====
-- What a Rust function of these programs comes to: a value, or a panic.
use mathlib.Core.Bool.{Bool, true, false}
use mathlib.Core.Option.{Option, none, some}
use mathlib.Core.Path.{◌≡◌, refl}
use native.Mathlib.Omega.{arith}

-- The panics that the sources raise, by `panic!`, `unwrap`, a slice, an allocation or a division.
pub data Panic : Type 0 where
  unwrap_none : Panic  -- `unwrap` of a `None` or an `Err`
  fill_buffer : Panic  -- "Fail to fill the buffer"
  invalid_message : Panic  -- "Invalid message"
  invalid_value : Panic  -- "Invalid value"
  multicast : Panic  -- the bare `panic!()` of `new_multicast`
  wrong_peer : Panic  -- "Received data from {}, expected from {}"
  bare : Panic  -- any other bare `panic!()`, and a failed `assert!`
  capacity_overflow : Panic  -- a vector longer than `isize::MAX` bytes
  slice_range : Panic  -- a slice index out of range
  short_payload : Panic  -- "The payload size should >= 24"
  division_by_zero : Panic
  unsupported_mode : Panic  -- "Unsupported mode: {}"
  no_endpoint : Panic  -- "Either --listen or --connect needs to be specified"
  no_duration : Panic  -- `Duration::from_secs_f64` of a negative, too large or undefined number

pub data Outcome {ℓ} (A : Type ℓ) : Type ℓ where
  done : A → Outcome A
  panic : Panic → Outcome A

infixl 5 ◌>>=◌
abbrev pub ◌>>=◌ {ℓ κ} : {A : Type ℓ} {B : Type κ} → Outcome A → (A → Outcome B) → Outcome B
done a >>= f = f a
panic e >>= f = panic e

-- `o.unwrap()`
abbrev pub unwrap {ℓ} : {A : Type ℓ} → Option A → Outcome A
unwrap none = panic unwrap_none
unwrap (some a) = done a

-- `if !ok { panic }`
abbrev pub require : Bool → Panic → Outcome (Unit {0})
require true e = done tt
require false e = panic e

infixl 5 ◌>>◌
abbrev pub ◌>>◌ {ℓ} : {B : Type ℓ} → Outcome (Unit {0}) → Outcome B → Outcome B
m >> k = m >>= λ _. k

-- What a chain that returns went through.
pub bind_done {ℓ κ} :
    {A : Type ℓ} {B : Type κ} (m : Outcome A) (f : A → Outcome B) (b : B)
    → m >>= f ≡ done b
    → (a : A) × (m ≡ done a) × (f a ≡ done b)
bind_done (done a) f b h = (a, refl, h)
bind_done (panic e) f b h = ground arith
