-- ===== src/Throughput/Publisher.antt =====
-- The sending loop of throughput/src/bin/t_pub_thr.rs and t_pubsub_thr.rs: the same message to every
-- transport, over and over. A transport is a number that names it.
use zenoh_perf.Base.{
  ℕ, zero, suc, ◌+◌, ◌*◌, ◌^◌, ◌<◌, ◌≡◌, refl, Bool, true, false, List, [], ◌∷◌, ◌++◌, some, arith,
  get_elem?, occurrences, occurrences-append, occurrences-nil, length, length-append, Outcome, done,
  panic, unwrap_none, require, ◌>>=◌, ◌>>◌,
}
use zenoh_perf.Throughput.Counter.{Counter, fetch_add}

-- `up` says whether the `handle_message` of a transport succeeds.
module _ (up : ℕ → Bool) where
  -- `for t in transports.iter()`: the transports that are sent the message, in order.
  unfoldable pub send_all : List ℕ → Outcome (List ℕ)
  send_all [] = done []
  send_all (t ∷ ts) = do require (up t) unwrap_none; later ← send_all ts; done (t ∷ later)

  -- So many turns of the loop.
  unfoldable pub publish : ℕ → List ℕ → Counter → Outcome (List ℕ × Counter)
  unfolding send_all fetch_add
  publish zero transports c = done ([], c)
  publish (suc turns) transports c = do
    sent ← send_all transports
    (later, c') ← publish turns transports (fetch_add 1 c)
    done (sent ++ later, c')

  abbrev pub AllUp : List ℕ → Type 0
  AllUp [] = Unit
  AllUp (t ∷ ts) = (up t ≡ true) × AllUp ts

  send_all-AllUp : (ts : List ℕ) → AllUp ts → send_all ts ≡ done ts
  unfolding send_all
  send_all-AllUp [] h = refl
  send_all-AllUp (t ∷ ts) h = ground (arith, h.0, send_all-AllUp ts h.1)

  -- As long as every transport takes its messages, so many turns send so many messages to each
  -- transport, once for each time that it is listed, and count the turns.
  pub published :
      (turns : ℕ) (transports : List ℕ) (c : Counter)
      → AllUp transports
      → c.count + turns < 2 ^ 64
      → (sent : List ℕ) × (publish turns transports c
          ≡ done (sent, record c { count = c.count + turns }))
        × ((t : ℕ) → occurrences t sent ≡ turns * occurrences t transports)
        × (length sent ≡ turns * length transports)
  unfolding publish
  published zero transports c h room =
      ([], ground arith, λ t. omega (arith, occurrences-nil t), omega arith)
  published (suc turns) transports c h room =
      let (sent, e, each, size) =
        published turns transports (fetch_add 1 c) h (unfold fetch_add in omega arith) in
      (
        transports ++ sent,
        ground (arith, send_all-AllUp transports h, e),
        λ t. grind (arith, occurrences-append t transports sent, each t),
        grind (arith, length-append transports sent, size),
      )

  down :
      (i t : ℕ) (ts : List ℕ)
      → get_elem? ts i ≡ some t
      → up t ≡ false
      → send_all ts ≡ panic unwrap_none
  unfolding send_all
  down i t [] h e = absurd (cc)
  down zero t (u ∷ ts) h e = ground arith
  down (suc i) t (u ∷ ts) h e = ground (arith, down i t ts h e)

  -- A listed transport that does not take its message ends the program by a panic in the first of
  -- any number of turns.
  pub publish_down :
      (turns i t : ℕ) (transports : List ℕ) (c : Counter)
      → get_elem? transports i ≡ some t
      → up t ≡ false
      → publish (turns + 1) transports c ≡ panic unwrap_none
  unfolding publish
  publish_down turns i t transports c h e = ground (arith, down i t transports h e)
