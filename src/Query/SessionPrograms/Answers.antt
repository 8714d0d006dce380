-- ===== src/Query/SessionPrograms/Answers.antt =====
-- Which query programs over a session find each other by their options, and what the asking one
-- prints: query/src/bin/z_eval.rs and z_query.rs, zn_eval.rs and zn_query.rs.
use zenoh_perf.Base.{
  ℕ, ◌+◌, ◌^◌, ◌<◌, ◌≡◌, refl, ap, false, String, Option, some, List, [], ◌∷◌, ◌++◌, map, arith,
  length, replicate, length-replicate, done,
}
use zenoh_perf.Proto.{ZBufIo, WhatAmI, peer, client}
use zenoh_perf.Startup.{Config, session_mode, base_config, eval_config, query_config}
use zenoh_perf.Startup.Properties.{
  PropertiesLib, Settled, Placed, query-Placed, zn_eval-Placed, query_properties,
}
use zenoh_perf.Query.{Asker, query_line}
use zenoh_perf.Query.Session.{query_key, serve, payload_sum, session_turn}
use zenoh_perf.Query.SessionPrograms.{
  Reply, session_turns, z_eval_main, z_query_main, zn_eval_main, zn_query_main, one_each, numbered,
}

module _ (io : ZBufIo) where
  open io use {ZBuf, from, len, len-from}

  abbrev reply_to : {Q : Type 0} → ℕ → Q → Reply io Q
  reply_to payload q = (q, query_key, from (replicate payload 0))

  serve-map :
      {Q : Type 0} (payload : ℕ) (queries : List Q)
      → payload < 2 ^ 63
      → serve io payload queries ≡ done (map (reply_to payload) queries)
  unfolding serve
  serve-map payload [] h = refl
  serve-map payload (q ∷ queries) h = ground (arith, serve-map payload queries h)

  turn-numbered :
      (stack : String) (asker : Asker) (payload count instant now : ℕ)
      → payload < 2 ^ 63
      → count + 1 < 2 ^ 64
      → session_turn io stack asker count (from (replicate payload 0) ∷ []) instant now
        ≡ (query_line stack asker payload count instant now, count + 1)
  unfolding session_turn payload_sum
  turn-numbered stack asker payload count instant now h k =
      ground (arith, len-from (replicate payload 0), length-replicate {A = ℕ} payload 0)

  session_turns-numbered :
      {Q : Type 0} (stack : String) (asker : Asker) (payload count : ℕ) (queries : List Q)
      (times : List (ℕ × ℕ))
      → payload < 2 ^ 63
      → length queries ≡ length times
      → count + length times < 2 ^ 64
      → session_turns io stack asker count (one_each io (map (reply_to payload) queries) times)
        ≡ (numbered stack asker payload count times, count + length times)
  unfolding session_turns
  session_turns-numbered stack asker payload count [] [] h e k = ground arith
  session_turns-numbered stack asker payload count [] (t ∷ times) h e k = absurd (omega (arith, e))
  session_turns-numbered stack asker payload count (q ∷ queries) [] h e k =
      absurd (omega (arith, e))
  session_turns-numbered stack asker payload count (q ∷ queries) ((i, n) ∷ times) h e k =
      let rest =
        session_turns-numbered stack asker payload (count + 1) queries times h (omega (arith, e))
          (omega arith) in
      ground (arith, turn-numbered stack asker payload count i n h, rest)

  -- With the same option of endpoints, z_query connects, in every mode, to the endpoints that z_eval
  -- listens on as a peer, and when each of its queries has one reply, that of z_eval, it prints a line
  -- for each turn: the first has the number 0, each next one the next number, and all have z_eval's
  -- payload option and the time of their own turn. The payload option is one that Rust can allocate,
  -- and the turns are fewer than 2^64.
  pub z_query_answered :
      {E F Q : Type 0} (from_file : F → Option (Config E)) (default : Config E) (mode : WhatAmI)
      (endpoint : List E) (asker : Asker) (payload : ℕ) (queries : List Q) (times : List (ℕ × ℕ))
      → payload < 2 ^ 63
      → length queries ≡ length times
      → length times < 2 ^ 64
      → (listens connects : Config E) × (replies : List (Reply io Q)) × (z_eval_main io from_file
            default peer endpoint payload queries
          ≡ done (listens, replies))
        × (z_query_main io from_file default mode endpoint asker (one_each io replies times)
            ≡ done (connects, numbered "zenoh" asker payload 0 times))
        × (listens.listen ≡ default.listen ++ endpoint)
        × (connects.connect ≡ default.connect ++ endpoint)
  unfolding z_eval_main z_query_main eval_config query_config base_config
  z_query_answered from_file default mode endpoint asker payload queries times h e k =
      let lines = session_turns-numbered "zenoh" asker payload 0 queries times h e (omega arith) in
      (
        record default {
          mode = some peer;
          multicast = some false;
          listen = default.listen ++ endpoint;
        },
        record default {
          mode = some mode;
          multicast = some false;
          add_timestamp = some false;
          connect = default.connect ++ endpoint;
        },
        map (reply_to payload) queries,
        simp (serve-map payload queries h),
        simp lines,
        refl,
        refl,
      )

  -- Likewise zn_eval in either of its modes and zn_query, with the same option of a locator: zn_query
  -- has it as the one to connect to, and zn_eval as a peer as the one to listen on.
  pub zn_query_answered :
      {Q : Type 0} (lib : PropertiesLib) (eval_mode query_mode locator : String) (w : WhatAmI)
      (asker : Asker) (payload : ℕ) (queries : List Q) (times : List (ℕ × ℕ))
      → session_mode eval_mode ≡ some w
      → payload < 2 ^ 63
      → length queries ≡ length times
      → length times < 2 ^ 64
      → (listens connects : lib.Properties) × (replies : List (Reply io Q)) × (zn_eval_main io lib
            eval_mode locator payload queries
          ≡ done (listens, replies))
        × (zn_query_main io lib query_mode locator asker (one_each io replies times)
            ≡ (connects, numbered "zenoh-net" asker payload 0 times))
        × Settled lib eval_mode listens
        × Placed lib w locator listens
        × Settled lib query_mode connects
        × Placed lib client locator connects
  unfolding zn_eval_main zn_query_main
  zn_query_answered lib eval_mode query_mode locator w asker payload queries times m h e k =
      let lines =
        session_turns-numbered "zenoh-net" asker payload 0 queries times h e (omega arith) in
      let (listens, started, settled, placed) = zn_eval-Placed lib eval_mode locator w m in
      let asking = query-Placed lib query_mode locator in
      (
        listens,
        query_properties lib query_mode locator,
        map (reply_to payload) queries,
        simp (started, serve-map payload queries h),
        ap (λ r. (query_properties lib query_mode locator, r.0)) lines,
        settled,
        placed,
        asking.0,
        asking.1,
      )
