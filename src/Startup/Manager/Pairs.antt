-- ===== src/Startup/Manager/Pairs.antt =====
-- Which programs over the transport layer find each other by their options: t_pong.rs and t_ping.rs,
-- t_eval.rs and t_query.rs, t_sub_thr.rs and t_pub_thr.rs.
use zenoh_perf.Base.{
  ℕ, ◌+◌, ◌≡◌, refl, true, String, Option, none, some, List, [], ◌∷◌, arith, done,
}
use zenoh_perf.Proto.{WhatAmI, router, peer, client}
use zenoh_perf.Startup.Dial.{listen_all-AllListen, AllListen}
use zenoh_perf.Startup.Manager.{
  ManagerLib, Started, builder, listen_or_open, open_all, t_pong, t_ping, t_sub_thr, t_pub_thr,
  t_eval, t_query,
}

module _ {E T : Type 0} (lib : ManagerLib E T) where
  open lib use {Manager, Builder, parse_mode, parse, whatami, build, create, listens, opens}

  -- A program that listens as a peer, and opens a transport as anything else.
  abbrev pub server : Manager → WhatAmI → E → T → Started Manager E T
  server m peer e t = record { manager = m; listening = e ∷ []; opened = [] }
  server m router e t = record { manager = m; listening = []; opened = t ∷ [] }
  server m client e t = record { manager = m; listening = []; opened = t ∷ [] }

  abbrev pub serving : WhatAmI → Manager → List E → List T → Started Manager E T
  serving peer m es ts = record { manager = m; listening = es; opened = [] }
  serving router m es ts = record { manager = m; listening = []; opened = ts }
  serving client m es ts = record { manager = m; listening = []; opened = ts }

  abbrev pub dialler : Manager → E → T → Started Manager E T
  dialler m e t = record { manager = m; listening = []; opened = t ∷ [] }

  listen_or_open-server :
      (m : Manager) (w : WhatAmI) (e : E) (t : T)
      → listens m e ≡ true
      → opens m 0 e ≡ some t
      → listen_or_open lib m w e ≡ done (server m w e t)
  unfolding listen_or_open
  listen_or_open-server m peer e t h k = ground (arith, h)
  listen_or_open-server m router e t h k = ground (arith, k)
  listen_or_open-server m client e t h k = ground (arith, k)

  -- With the same option of an endpoint, t_ping opens a transport to it in every mode, and t_pong
  -- listens on it as a peer; in any other mode t_pong opens a transport to it too, and neither of
  -- them listens. The modes and the endpoint parse, and the calls on the managers succeed.
  pub pong_ping :
      (pong_mode ping_mode endpoint : String) (w v : WhatAmI) (pong ping : Manager) (e : E)
      (t u : T)
      → parse_mode pong_mode ≡ some w
      → parse_mode ping_mode ≡ some v
      → parse endpoint ≡ some e
      → build (whatami w) ≡ some pong
      → build (whatami v) ≡ some ping
      → listens pong e ≡ true
      → opens pong 0 e ≡ some t
      → opens ping 0 e ≡ some u
      → (t_pong lib pong_mode endpoint ≡ done (server pong w e t))
        × (t_ping lib ping_mode endpoint ≡ done (dialler ping e u))
  unfolding t_pong t_ping
  pong_ping pong_mode ping_mode endpoint w v pong ping e t u pm qm p b c l o q =
      (simp (pm, p, b, listen_or_open-server pong w e t l o), simp (qm, p, c, q))

  -- Likewise t_eval and t_query with the same locator; each has a configuration file that can be read,
  -- or none.
  pub eval_query :
      (eval_path query_path : Option lib.File) (eval_mode query_mode : String) (locator : E)
      (w v : WhatAmI) (a b : Builder) (t u : T)
      → parse_mode eval_mode ≡ some w
      → parse_mode query_mode ≡ some v
      → builder lib eval_path w ≡ done a
      → builder lib query_path v ≡ done b
      → listens (create a) locator ≡ true
      → opens (create a) 0 locator ≡ some t
      → opens (create b) 0 locator ≡ some u
      → (t_eval lib eval_path eval_mode locator ≡ done (server (create a) w locator t))
        × (t_query lib query_path query_mode locator ≡ done (dialler (create b) locator u))
  unfolding t_eval t_query
  eval_query eval_path query_path eval_mode query_mode locator w v a b t u pm qm p q l o r =
      (simp (pm, p, listen_or_open-server (create a) w locator t l o), simp (qm, q, r))

  -- The calls from the n-th on open these transports.
  abbrev pub AllOpen : Manager → ℕ → List E → List T → Type 0
  AllOpen m n [] [] = Unit
  AllOpen m n (e ∷ es) (t ∷ ts) = (opens m n e ≡ some t) × AllOpen m (n + 1) es ts
  AllOpen m n [] (t ∷ ts) = ⊥
  AllOpen m n (e ∷ es) [] = ⊥

  pub open_all-AllOpen :
      (m : Manager) (n : ℕ) (es : List E) (ts : List T)
      → AllOpen m n es ts
      → open_all lib m n es ≡ done ts
  unfolding open_all
  open_all-AllOpen m n [] [] h = refl
  open_all-AllOpen m n [] (t ∷ ts) h = absurd h
  open_all-AllOpen m n (e ∷ es) [] h = absurd h
  open_all-AllOpen m n (e ∷ es) (t ∷ ts) h = simp (h.0, open_all-AllOpen m (n + 1) es ts h.1)

  -- With the same option of endpoints and no file, t_pub_thr opens a transport to each in every mode,
  -- and t_sub_thr listens on each as a peer, and otherwise opens a transport to each too. The manager
  -- of t_pub_thr is built for its mode, and that of t_sub_thr for a router, whatever its mode is. The
  -- managers can be built, and the calls succeed.
  sub_pub :
      (w v : WhatAmI) (endpoint : List E) (sub publ : Manager) (ts us : List T)
      → build (whatami router) ≡ some sub
      → build (whatami v) ≡ some publ
      → AllListen (opens sub) (listens sub) endpoint
      → AllOpen sub 0 endpoint ts
      → AllOpen publ 0 endpoint us
      → (t_sub_thr lib none w endpoint ≡ done (serving w sub endpoint ts))
        × (t_pub_thr lib none v endpoint
            ≡ done (record { manager = publ; listening = []; opened = us }))
  unfolding t_sub_thr t_pub_thr builder
  sub_pub w v endpoint sub publ ts us b c l o p =
      (served w, simp (c, open_all-AllOpen publ 0 endpoint us p))
    where
      served : (w' : WhatAmI) → t_sub_thr lib none w' endpoint ≡ done (serving w' sub endpoint ts)
      served peer = simp (b, listen_all-AllListen (opens sub) (listens sub) endpoint l)
      served router = simp (b, open_all-AllOpen sub 0 endpoint ts o)
      served client = simp (b, open_all-AllOpen sub 0 endpoint ts o)
