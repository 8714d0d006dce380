-- ===== src/Base/Lists.antt =====
-- Lists measured, indexed and counted by native numbers.
use Prim.Native.Nat.{ℕ, zero, suc, ◌+◌, ◌-◌, min}
use mathlib.Core.Path.{◌≡◌, refl, ap, ◌∙◌}
use mathlib.Core.List.{List, [], ◌∷◌, ◌++◌, map}
use mathlib.Core.Option.{Option, none, some}
use native.Mathlib.Omega.{arith}
use zenoh_perf.Base.Tests.{◌==◌, if◌then◌else◌}

module _ {ℓ} {A : Type ℓ} where
  abbrev pub length : List A → ℕ
  length [] = 0
  length (x ∷ xs) = suc (length xs)

  abbrev pub get_elem? : List A → ℕ → Option A
  get_elem? [] i = none
  get_elem? (x ∷ xs) zero = some x
  get_elem? (x ∷ xs) (suc i) = get_elem? xs i

  -- The list without its element at `i`.
  abbrev pub erase_at : List A → ℕ → List A
  erase_at [] i = []
  erase_at (x ∷ xs) zero = xs
  erase_at (x ∷ xs) (suc i) = x ∷ erase_at xs i

  abbrev pub take : ℕ → List A → List A
  take zero xs = []
  take (suc n) [] = []
  take (suc n) (x ∷ xs) = x ∷ take n xs

  abbrev pub drop : ℕ → List A → List A
  drop zero xs = xs
  drop (suc n) [] = []
  drop (suc n) (x ∷ xs) = drop n xs

  abbrev pub replicate : ℕ → A → List A
  replicate zero a = []
  replicate (suc n) a = a ∷ replicate n a

module _ {ℓ} {A : Type ℓ} where
  pub length-append : (xs ys : List A) → length (xs ++ ys) ≡ length xs + length ys
  length-append [] ys = omega arith
  length-append (x ∷ xs) ys = omega (arith, length-append xs ys)

  pub length-take : (n : ℕ) (xs : List A) → length (take n xs) ≡ min n (length xs)
  length-take zero xs = omega arith
  length-take (suc n) [] = omega arith
  length-take (suc n) (x ∷ xs) = omega (arith, length-take n xs)

  pub length-drop : (n : ℕ) (xs : List A) → length (drop n xs) ≡ length xs - n
  length-drop zero xs = omega arith
  length-drop (suc n) [] = omega arith
  length-drop (suc n) (x ∷ xs) = omega (arith, length-drop n xs)

  pub length-replicate : (n : ℕ) (a : A) → length (replicate n a) ≡ n
  length-replicate zero a = refl
  length-replicate (suc n) a = ap suc (length-replicate n a)

  pub drop-replicate : (k n : ℕ) (a : A) → drop k (replicate n a) ≡ replicate (n - k) a
  drop-replicate zero n a = let e : n ≡ n - 0 = omega arith in ap (λ m. replicate m a) e
  drop-replicate (suc k) zero a = let e : 0 ≡ 0 - suc k = omega arith in ap (λ m. replicate m a) e
  drop-replicate (suc k) (suc n) a =
      let e : n - k ≡ suc n - suc k = omega arith in
      drop-replicate k n a ∙ ap (λ m. replicate m a) e

  pub take-append : (xs ys : List A) (n : ℕ) → length xs ≡ n → take n (xs ++ ys) ≡ xs
  take-append [] ys zero h = refl
  take-append [] ys (suc n) h = absurd (omega arith)
  take-append (x ∷ xs) ys zero h = absurd (omega arith)
  take-append (x ∷ xs) ys (suc n) h = ap (λ l. x ∷ l) (take-append xs ys n (omega arith))

  pub drop-append : (xs ys : List A) (n : ℕ) → length xs ≡ n → drop n (xs ++ ys) ≡ ys
  drop-append [] ys zero h = refl
  drop-append [] ys (suc n) h = absurd (omega arith)
  drop-append (x ∷ xs) ys zero h = absurd (omega arith)
  drop-append (x ∷ xs) ys (suc n) h = drop-append xs ys n (omega arith)

  pub drop-append_add :
      (xs ys : List A) (m n : ℕ) → length xs ≡ m → drop (m + n) (xs ++ ys) ≡ drop n ys
  drop-append_add [] ys zero n h = let e : 0 + n ≡ n = omega arith in ap (λ k. drop k ys) e
  drop-append_add [] ys (suc m) n h = absurd (omega arith)
  drop-append_add (x ∷ xs) ys zero n h = absurd (omega arith)
  drop-append_add (x ∷ xs) ys (suc m) n h =
      let e : suc m + n ≡ suc (m + n) = omega arith in
      ap (λ k. drop k (x ∷ xs ++ ys)) e ∙ drop-append_add xs ys m n (omega arith)

-- How often a number stands in a list.
pub occurrences : ℕ → List ℕ → ℕ
occurrences k [] = 0
occurrences k (x ∷ xs) = (if x == k then 1 else 0) + occurrences k xs

pub occurrences-cons :
    (k x : ℕ) (xs : List ℕ) → occurrences k (x ∷ xs) ≡ (if x == k then 1 else 0) + occurrences k xs
unfolding occurrences
occurrences-cons k x xs = refl

pub occurrences-nil : (k : ℕ) → occurrences k [] ≡ 0
unfolding occurrences
occurrences-nil k = refl

pub occurrences-append :
    (k : ℕ) (xs ys : List ℕ) → occurrences k (xs ++ ys) ≡ occurrences k xs + occurrences k ys
unfolding occurrences
occurrences-append k [] ys = omega arith
occurrences-append k (x ∷ xs) ys = omega (arith, occurrences-append k xs ys)

pub occurrences-erase_at :
    (k x : ℕ) (xs : List ℕ) (i : ℕ)
    → get_elem? xs i ≡ some x
    → occurrences k (erase_at xs i) + (if x == k then 1 else 0) ≡ occurrences k xs
unfolding occurrences
occurrences-erase_at k x [] i h = cc
occurrences-erase_at k x (y ∷ xs) zero h = ground arith
occurrences-erase_at k x (y ∷ xs) (suc i) h = omega (arith, occurrences-erase_at k x xs i h)

module _ {ℓ κ} {A : Type ℓ} {B : Type κ} where
  pub length-map : (f : A → B) (xs : List A) → length (map f xs) ≡ length xs
  length-map f [] = refl
  length-map f (x ∷ xs) = ap suc (length-map f xs)

  pub erase_at-map :
      (f : A → B) (xs : List A) (i : ℕ) → erase_at (map f xs) i ≡ map f (erase_at xs i)
  erase_at-map f [] i = refl
  erase_at-map f (x ∷ xs) zero = refl
  erase_at-map f (x ∷ xs) (suc i) = ap (λ l. f x ∷ l) (erase_at-map f xs i)

  pub get_elem?-map :
      (f : A → B) (xs : List A) (i : ℕ) {b : B}
      → get_elem? (map f xs) i ≡ some b
      → (a : A) × (get_elem? xs i ≡ some a) × (f a ≡ b)
  get_elem?-map f [] i h = cc
  get_elem?-map f (x ∷ xs) zero h = (x, refl, cc)
  get_elem?-map f (x ∷ xs) (suc i) h = get_elem?-map f xs i h

module _ {ℓ} {A : Type ℓ} where
  pub length-erase_at :
      (xs : List A) (i : ℕ) {a : A}
      → get_elem? xs i ≡ some a
      → suc (length (erase_at xs i)) ≡ length xs
  length-erase_at [] i h = cc
  length-erase_at (x ∷ xs) zero h = refl
  length-erase_at (x ∷ xs) (suc i) h = ap suc (length-erase_at xs i h)

-- A list of nothing, and of one element, by its indices.
module _ {ℓ} {A : Type ℓ} where
  pub not_in_nil : (w : List A) (i : ℕ) {a : A} → w ≡ [] → get_elem? w i ≡ some a → ⊥
  not_in_nil [] i e h = cc
  not_in_nil (x ∷ w) i e h = cc

  pub only_one :
      (w : List A) (i : ℕ) {a x : A}
      → w ≡ x ∷ []
      → get_elem? w i ≡ some a
      → (a ≡ x) × (erase_at w i ≡ [])
  only_one [] i e h = absurd (cc)
  only_one (y ∷ w) zero e h = (cc, cc)
  only_one (y ∷ w) (suc i) e h = absurd (not_in_nil w i (cc) h)
