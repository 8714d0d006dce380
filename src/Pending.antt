-- ===== src/Pending.antt =====
-- `std::collections::HashMap<u64, V>`, as the programs use it for what is pending: `insert` and
-- `remove` by key. The order of entries is never read.
use zenoh_perf.Base.{ℕ, ◌≡◌, refl, Option, none, some, List, [], ◌∷◌, arith, ◌==◌, if◌then◌else◌}

pub record Pending {ℓ} (V : Type ℓ) : Type ℓ where
  entries : List (ℕ × V)

module _ {ℓ} {V : Type ℓ} where
  lookup : ℕ → List (ℕ × V) → Option V
  lookup k [] = none
  lookup k ((j, v) ∷ m) = if j == k then some v else lookup k m

  without : ℕ → List (ℕ × V) → List (ℕ × V)
  without k [] = []
  without k ((j, v) ∷ m) = let rest = without k m in if j == k then rest else (j, v) ∷ rest

  pub empty : Pending V
  empty = record { entries = [] }

  -- What `remove` of the key would return.
  pub get : ℕ → Pending V → Option V
  unfolding lookup
  get k p = lookup k p.entries

  pub remove : ℕ → Pending V → Pending V
  unfolding without
  remove k p = record { entries = without k p.entries }

  pub insert : ℕ → V → Pending V → Pending V
  unfolding without
  insert k v p = record { entries = (k, v) ∷ without k p.entries }

  lookup-without :
      (k j : ℕ) (m : List (ℕ × V)) → lookup j (without k m) ≡ (if k == j then none else lookup j m)
  unfolding lookup without
  lookup-without k j [] = ground arith
  lookup-without k j ((i, v) ∷ m) = ground (arith, lookup-without k j m)

  pub get-remove :
      (k j : ℕ) (p : Pending V) → get j (remove k p) ≡ (if k == j then none else get j p)
  unfolding get remove
  get-remove k j p = lookup-without k j p.entries

  pub get-insert :
      (k j : ℕ) (v : V) (p : Pending V)
      → get j (insert k v p) ≡ (if k == j then some v else get j p)
  unfolding get insert
  get-insert k j v p = ground (arith, lookup-without k j p.entries)

pub get-empty {ℓ} : {V : Type ℓ} (k : ℕ) → get k (empty {V = V}) ≡ none
unfolding get empty
get-empty k = refl

-- 1 for what is there, 0 for what is not: for counting arguments.
abbrev pub presence {ℓ} : {V : Type ℓ} → Option V → ℕ
presence none = 0
presence (some v) = 1

pub ruleset pending_laws = (get-empty, get-remove, get-insert)
