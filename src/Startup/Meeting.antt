-- ===== src/Startup/Meeting.antt =====
-- Which programs over router and session find each other by their options: latency/src/bin/r_ping.rs
-- and r_pong.rs, throughput/src/bin/r_sub_thr.rs and z_sub_thr.rs.
use zenoh_perf.Base.{
  ℕ, ◌≡◌, refl, ◌≢◌, inl, inr, false, String, Option, none, some, List, [], ◌∷◌, ◌++◌, arith, done,
  panic, unsupported_mode, Option-cases, get_elem?, zero, suc, unwrap_none,
}
use zenoh_perf.Proto.{WhatAmI, router, peer, client}
use zenoh_perf.Startup.{
  Config, split, on_first, router_mode, supported, parse_all, connecting, listening, r_ping_config,
  r_pong_config, base_config, r_sub_config, z_sub_config, pub_config,
}

abbrev pub join : List ℕ → List (List ℕ) → List ℕ
join piece [] = piece
join piece (next ∷ pieces) = piece ++ b',' ∷ join next pieces

abbrev pub NoComma : List ℕ → Type 0
NoComma [] = Unit
NoComma (c ∷ s) = (c ≢ b',') × NoComma s

abbrev pub NoCommas : List (List ℕ) → Type 0
NoCommas [] = Unit
NoCommas (piece ∷ pieces) = NoComma piece × NoCommas pieces

split-NoComma : (piece : List ℕ) → NoComma piece → split piece ≡ piece ∷ []
unfolding split on_first
split-NoComma [] h = refl
split-NoComma (c ∷ s) h = ground (arith, h.0, split-NoComma s h.1)

split-append : (piece s : List ℕ) → NoComma piece → split (piece ++ b',' ∷ s) ≡ piece ∷ split s
unfolding split on_first
split-append [] s h = refl
split-append (c ∷ piece) s h = ground (arith, h.0, split-append piece s h.1)

-- An option that is texts without commas, joined by commas, is split into these texts again.
pub split-join :
    (piece : List ℕ) (pieces : List (List ℕ))
    → NoComma piece
    → NoCommas pieces
    → split (join piece pieces) ≡ piece ∷ pieces
split-join piece [] h k = split-NoComma piece h
split-join piece (next ∷ pieces) h k =
    cc (split-append piece (join next pieces) h, split-join next pieces k.0 k.1)

module _ {E : Type 0} (parse : List ℕ → Option E) (base : Config E) where
  parse_all-unparsed :
      (text : List ℕ) (pieces : List (List ℕ)) (i : ℕ)
      → get_elem? pieces i ≡ some text
      → parse text ≡ none
      → parse_all parse base pieces ≡ panic unwrap_none
  unfolding parse_all
  parse_all-unparsed text [] i at bad = ground arith
  parse_all-unparsed text (piece ∷ pieces) zero at bad = ground arith
  parse_all-unparsed text (piece ∷ pieces) (suc i) at bad =
      let later = parse_all-unparsed text pieces i at bad in
      elim (Option-cases (parse piece)) [ inl e ↦ simp e | inr (_, e) ↦ simp (e, later) ]

  -- When r_pong runs as a peer or a router and r_ping in any mode, with the same option of endpoints,
  -- then r_pong listens on these endpoints and r_ping connects to them, in the order of the option,
  -- behind those of the default; both turn scouting off. The endpoints have no comma and parse.
  pub ping_dials_pong :
      (pong_mode ping_mode : String) (w v : WhatAmI) (piece : List ℕ) (pieces : List (List ℕ))
      (es : List E)
      → router_mode pong_mode ≡ some w
      → w ≢ client
      → router_mode ping_mode ≡ some v
      → NoComma piece
      → NoCommas pieces
      → parse_all parse base (piece ∷ pieces) ≡ done es
      → (r_pong_config parse base pong_mode (join piece pieces)
          ≡ done
              (record base { mode = some w; multicast = some false; listen = base.listen ++ es }))
        × (r_ping_config parse base ping_mode (join piece pieces)
            ≡ done (record base {
              mode = some v;
              multicast = some false;
              connect = base.connect ++ es;
            }))
  unfolding r_pong_config r_ping_config supported listening connecting
  ping_dials_pong pong_mode ping_mode router v piece pieces es pm listens qm h hs p =
      (simp (pm, split-join piece pieces h hs, p), simp (qm, split-join piece pieces h hs, p))
  ping_dials_pong pong_mode ping_mode peer v piece pieces es pm listens qm h hs p =
      (simp (pm, split-join piece pieces h hs, p), simp (qm, split-join piece pieces h hs, p))
  ping_dials_pong pong_mode ping_mode client v piece pieces es pm listens qm h hs p =
      elim (listens refl) [ ]

  -- One endpoint that does not parse, and neither program starts, though the others would do.
  pub unparsed_endpoint :
      (pong_mode ping_mode : String) (w v : WhatAmI) (piece text : List ℕ) (pieces : List (List ℕ))
      (i : ℕ)
      → router_mode pong_mode ≡ some w
      → router_mode ping_mode ≡ some v
      → NoComma piece
      → NoCommas pieces
      → get_elem? (piece ∷ pieces) i ≡ some text
      → parse text ≡ none
      → (r_pong_config parse base pong_mode (join piece pieces) ≡ panic unwrap_none)
        × (r_ping_config parse base ping_mode (join piece pieces) ≡ panic unwrap_none)
  unfolding r_pong_config r_ping_config supported
  unparsed_endpoint pong_mode ping_mode w v piece text pieces i pm qm h hs at bad =
      let stops = parse_all-unparsed text (piece ∷ pieces) i at bad in
      (
        simp (pm, split-join piece pieces h hs, stops),
        simp (qm, split-join piece pieces h hs, stops),
      )

-- The subscribers of the two stacks write the same configuration as a peer and as a client, for the
-- same options; as a router r_sub_thr listens, and z_sub_thr panics. The configuration file, if there
-- is one, can be read.
pub sub_modes :
    {E F : Type 0} (from_file : F → Option (Config E)) (default base : Config E) (path : Option F)
    (endpoint : List E)
    → base_config from_file default path ≡ done base
    → (z_sub_config from_file default peer endpoint path
        ≡ r_sub_config from_file default peer endpoint path)
      × (z_sub_config from_file default client endpoint path
          ≡ r_sub_config from_file default client endpoint path)
      × (z_sub_config from_file default router endpoint path ≡ panic unsupported_mode)
      × (r_sub_config from_file default router endpoint path
          ≡ done (record base {
            mode = some router;
            multicast = some false;
            listen = base.listen ++ endpoint;
          }))
unfolding z_sub_config r_sub_config listening connecting
sub_modes from_file default base path endpoint e = (simp e, simp e, simp e, simp e)

-- What the publishers write, in every mode, and the subscriber of sessions as a peer.
pub pub_config-base :
    {E F : Type 0} (from_file : F → Option (Config E)) (default base : Config E) (path : Option F)
    (mode : WhatAmI) (endpoint : List E)
    → base_config from_file default path ≡ done base
    → pub_config from_file default mode endpoint path
      ≡ done (record base {
        mode = some mode;
        multicast = some false;
        add_timestamp = some false;
        connect = base.connect ++ endpoint;
      })
unfolding pub_config connecting
pub_config-base from_file default base path mode endpoint e = simp e

pub z_sub_config-peer :
    {E F : Type 0} (from_file : F → Option (Config E)) (default base : Config E) (path : Option F)
    (endpoint : List E)
    → base_config from_file default path ≡ done base
    → z_sub_config from_file default peer endpoint path
      ≡ done (record base {
        mode = some peer;
        multicast = some false;
        listen = base.listen ++ endpoint;
      })
unfolding z_sub_config
z_sub_config-peer from_file default base path endpoint e = simp e

-- The modes in which r_sub_thr and r_eval listen.
abbrev pub Serves : WhatAmI → Type 0
Serves peer = Unit
Serves router = Unit
Serves client = ⊥

pub r_sub_config-serving :
    {E F : Type 0} (from_file : F → Option (Config E)) (default base : Config E) (path : Option F)
    (mode : WhatAmI) (endpoint : List E)
    → Serves mode
    → base_config from_file default path ≡ done base
    → r_sub_config from_file default mode endpoint path
      ≡ done (record base {
        mode = some mode;
        multicast = some false;
        listen = base.listen ++ endpoint;
      })
unfolding r_sub_config listening
r_sub_config-serving from_file default base path peer endpoint s e = simp e
r_sub_config-serving from_file default base path router endpoint s e = simp e
r_sub_config-serving from_file default base path client endpoint s e = absurd s
