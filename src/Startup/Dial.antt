-- ===== src/Startup/Dial.antt =====
-- How throughput/src/bin/t_pubsub_thr.rs opens its transports: it listens, and then dials each
-- endpoint to connect to until the other side is there.
use zenoh_perf.Base.{
  ℕ, zero, suc, ◌+◌, ◌*◌, ◌≤◌, ◌≡◌, refl, Bool, true, Option, none, some, List, [], ◌∷◌, arith,
  length, Outcome, done, panic, unwrap_none, no_endpoint, require, ◌>>◌, Option-cases, inl, inr, ap,
  ◌∙◌, ◌<◌,
}

-- `opens n e` is what the n-th call of `open_transport_unicast` comes to, if it is for `e`; `listens`
-- says whether `add_listener` succeeds.
module _ {E T : Type 0} (opens : ℕ → E → Option T) (listens : E → Bool) where
  -- `loop { match … { Ok(t) => break t, Err(_) => sleep } }` from the n-th call on, for so many calls:
  -- the transport, and the number of the next call.
  unfoldable pub dial : ℕ → ℕ → E → Option (T × ℕ)
  dial zero n e = none
  dial (suc calls) n e =
      let retried = dial calls (n + 1) e in
      elim (opens n e) [ none ↦ retried | some t ↦ some (t, n + 1) ]

  -- `for e in connect { … transports.push(t); }`
  unfoldable pub dial_all : ℕ → ℕ → List E → Option (List T × ℕ)
  unfolding dial
  dial_all calls n [] = some ([], n)
  dial_all calls n (e ∷ es) = elim (dial calls n e) [
    | none ↦ none
    | some (t, n') ↦ elim (dial_all calls n' es) [
      | none ↦ none
      | some (ts, n'') ↦ some (t ∷ ts, n'')
    ]
  ]

  unfoldable pub listen_all : List E → Outcome (Unit {0})
  listen_all [] = done tt
  listen_all (e ∷ es) = require (listens e) unwrap_none >> listen_all es

  -- `main` before its loop; `none` when a dial has used up its calls.
  unfoldable pub transports : ℕ → List E → List E → Outcome (Option (List T × ℕ))
  unfolding dial_all listen_all
  transports calls [] [] = panic no_endpoint
  transports calls [] (e ∷ es) = done (dial_all calls 0 (e ∷ es))
  transports calls (l ∷ ls) es = listen_all (l ∷ ls) >> done (dial_all calls 0 es)

  -- Whenever somebody dials, one of the next `patience` + 1 calls succeeds.
  abbrev pub Answers : ℕ → Type 0
  Answers patience =
      (n : ℕ) (e : E) → (j : ℕ) × (t : T) × (j ≤ patience) × (opens (n + j) e ≡ some t)

  -- Each transport was opened by some call for the endpoint at its place.
  abbrev pub Opened : List T → List E → Type 0
  Opened [] [] = Unit
  Opened (t ∷ ts) (e ∷ es) = ((n : ℕ) × (opens n e ≡ some t)) × Opened ts es
  Opened _ _ = ⊥

  abbrev pub AllListen : List E → Type 0
  AllListen [] = Unit
  AllListen (e ∷ es) = (listens e ≡ true) × AllListen es

  dial-opens :
      (calls n j : ℕ) (e : E) (t : T)
      → j + 1 ≤ calls
      → opens (n + j) e ≡ some t
      → (got : T) × (m : ℕ) × (dial calls n e ≡ some (got, m))
        × (m ≤ n + calls)
        × ((k : ℕ) × (opens k e ≡ some got))
  unfolding dial
  dial-opens zero n j e t few up = absurd (omega arith)
  dial-opens (suc calls) n zero e t few up =
      let now : opens n e ≡ some t = ap (λ k. opens k e) (omega arith) ∙ up in
      (t, n + 1, ground (arith, now), omega arith, (n, now))
  dial-opens (suc calls) n (suc j) e t few up =
      let shifted : opens (n + 1 + j) e ≡ some t = ap (λ k. opens k e) (omega arith) ∙ up in
      let (got, m, rest, bound, by) = dial-opens calls (n + 1) j e t (omega arith) shifted in
      elim (Option-cases (opens n e)) [
        | inl down ↦ (got, m, ground (arith, down, rest), omega arith, by)
        | inr (now, here) ↦ (now, n + 1, ground (arith, here), omega arith, (n, here))
      ]

  dial_all-Opened :
      (patience n : ℕ) (es : List E)
      → Answers patience
      → (ts : List T) × (m : ℕ) × (dial_all (patience + 1) n es ≡ some (ts, m))
        × (m ≤ n + length es * (patience + 1))
        × Opened ts es
  unfolding dial_all
  dial_all-Opened patience n [] answers = ([], n, refl, omega arith, tt)
  dial_all-Opened patience n (e ∷ es) answers =
      let (j, t, few, up) = answers n e in
      let (got, m, first, bound, by) = dial-opens (patience + 1) n j e t (omega arith) up in
      let (ts, m', rest, bound', opened) = dial_all-Opened patience m es answers in
      (got ∷ ts, m', ground (arith, first, rest), omega arith, (by, opened))

  pub listen_all-AllListen : (es : List E) → AllListen es → listen_all es ≡ done tt
  unfolding listen_all
  listen_all-AllListen [] h = refl
  listen_all-AllListen (e ∷ es) h = simp (h.0, listen_all-AllListen es h.1)

  -- If every dial succeeds within `patience` + 1 calls and every listener can be added, then
  -- t_pubsub_thr gets through to its sending loop, with one transport for each endpoint to connect to,
  -- in their order, each opened by a call for its endpoint, after at most `patience` + 1 calls for
  -- each. There is an endpoint to listen on or to connect to.
  pub transports-Opened :
      (patience : ℕ) (listen connect : List E)
      → Answers patience
      → AllListen listen
      → 0 < length listen + length connect
      → (ts : List T) × (calls : ℕ) × (transports (patience + 1) listen connect
          ≡ done (some (ts, calls)))
        × (calls ≤ length connect * (patience + 1))
        × Opened ts connect
  unfolding transports
  transports-Opened patience [] [] answers h some_endpoint = absurd (omega arith)
  transports-Opened patience [] (e ∷ es) answers h some_endpoint =
      let (ts, m, eq, bound, opened) = dial_all-Opened patience 0 (e ∷ es) answers in
      (ts, m, simp eq, omega arith, opened)
  transports-Opened patience (l ∷ ls) es answers h some_endpoint =
      let (ts, m, eq, bound, opened) = dial_all-Opened patience 0 es answers in
      (ts, m, simp (listen_all-AllListen (l ∷ ls) h, eq), omega arith, opened)
