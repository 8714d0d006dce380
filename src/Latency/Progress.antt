-- ===== src/Latency/Progress.antt =====
-- Programs that print line after line, as systems of steps: when from every state a step prints, or
-- comes nearer to a line by one, then as many steps as there are to go lead to the next line.
use zenoh_perf.Base.{
  ℕ, zero, suc, ◌+◌, ◌^◌, ◌≤◌, ◌<◌, ◌≡◌, refl, ap, ◌∙◌, sym, List, ◌∷◌, map, arith, ◌⊎◌, inl, inr,
  length, length-map,
}
use zenoh_perf.Latency.Sequential.Invariant.{down_from}

-- `Reach n s` says that s is reachable in n steps, `Whole` that nothing was lost.
module _ {S P : Type 0} (Reach : ℕ → S → Type 0) (Whole : S → Type 0) (to_go : S → ℕ)
    (printed : S → List P) where
  -- A step that prints, or one that comes nearer.
  abbrev pub Nearer : S → S → Type 0
  Nearer s t =
      ((to_go s ≡ 1) × (l : P) × (printed t ≡ l ∷ printed s))
      ⊎ ((to_go t + 1 ≡ to_go s) × (printed t ≡ printed s))

  -- A later state that has printed one line more.
  abbrev pub Printing : ℕ → ℕ → S → Type 0
  Printing n d s =
      (m : ℕ) × (t : S) × (l : P) × (m ≤ d)
      × Reach (n + m) t
      × Whole t
      × (printed t ≡ l ∷ printed s)

  module _
      (step_on : (n : ℕ) (s : S)
        → n < 2 ^ 64
        → Reach n s
        → Whole s
        → (t : S) × Reach (n + 1) t × Whole t × Nearer s t) where
    pub gets_on :
        (d n : ℕ) (s : S) → to_go s ≡ d → n + d < 2 ^ 64 → Reach n s → Whole s → Printing n d s
    gets_on zero n s at fits r whole =
        let (t, reached, kept, nearer) = step_on n s (omega arith) r whole in
        elim nearer [
          | inl (one, l, e) ↦ absurd (omega (arith, at, one))
          | inr (closer, e) ↦ absurd (omega (arith, at, closer))
        ]
    gets_on (suc d) n s at fits r whole =
        let (t, reached, kept, nearer) = step_on n s (omega arith) r whole in
        elim nearer [
          | inl (one, l, e) ↦ (1, t, l, omega arith, reached, kept, e)
          | inr (closer, e) ↦
              let (m, u, l, few, later_on, still, shown) =
                gets_on d (n + 1) t (omega (arith, at, closer)) (omega arith) reached kept in
              let moved : n + (m + 1) ≡ n + 1 + m = omega arith in
              (
                m + 1,
                u,
                l,
                omega (arith, few),
                rw moved later_on,
                still,
                shown ∙ ap (λ ls. l ∷ ls) e,
              )
        ]

length-down_from : (k : ℕ) → length (down_from k) ≡ k
length-down_from zero = refl
length-down_from (suc k) = omega (arith, length-down_from k)

-- When the numbers of some lines count down to 0, that of the newest is how many there were before it.
pub newest :
    {P : Type 0} (number_of : P → ℕ) (lines : ℕ) (l : P) (ls : List P)
    → map number_of (l ∷ ls) ≡ down_from lines
    → number_of l ≡ length ls
newest number_of zero l ls shown = absurd (cc)
newest number_of (suc k) l ls shown =
    let first : number_of l ≡ k = cc in
    let rest : map number_of ls ≡ down_from k = cc in
    first ∙ sym (ap length rest ∙ length-down_from k) ∙ length-map number_of ls
