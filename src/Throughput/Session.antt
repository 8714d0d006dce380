-- ===== src/Throughput/Session.antt =====
-- The throughput programs over router and session, in throughput/src/bin: r_pub_thr.rs and z_put_thr.rs
-- send one message over and over, r_sub_thr.rs and z_sub_thr.rs count.
use zenoh_perf.Base.{
  ℕ, zero, suc, ◌+◌, ◌^◌, ◌<◌, ◌≡◌, refl, ap, ◌∙◌, Bool, true, false, String, Option, some, List,
  [], ◌∷◌, ◌++◌, map, arith, if◌then◌else◌, length, replicate, length-map, length-replicate,
  Outcome, done, ◌>>=◌,
}
use zenoh_perf.Proto.{
  ZBufIo, KeyExpr, name, id, SendData, data_channel, block, Call, decl_resource, decl_publisher,
  decl_subscriber, send_data, sent_in, targets, resource_of,
}
use zenoh_perf.Latency.Report.{zeroed}
use zenoh_perf.Latency.Session.{SessionCall, declare_expr, subscribe, declare_publication, Names}
use zenoh_perf.Throughput.Counter.{Counter, fresh, fetch_add, tick}
use zenoh_perf.Throughput.Callbacks.{on_calls, second-on_calls}
use zenoh_perf.Overhead.Sender.{payload_bytes}

abbrev pub key_expr : String
key_expr = "/test/thr"

-- So many turns of the loop of r_pub_thr or z_put_thr: what is sent, and the counter, which only the
-- loop with `print` adds to.
unfoldable pub send_turns : {M : Type 0} → Bool → M → ℕ → Counter → List M × Counter
unfolding fetch_add
send_turns print message zero c = ([], c)
send_turns print message (suc turns) c =
    let (sent, c') = send_turns print message turns (if print then fetch_add 1 c else c) in
    (message ∷ sent, c')

pub send_turns-eq :
    {M : Type 0} (print : Bool) (message : M) (turns : ℕ) (c : Counter)
    → c.count + turns < 2 ^ 64
    → send_turns print message turns c
      ≡ (replicate turns message, record c { count = if print then c.count + turns else c.count })
unfolding send_turns
send_turns-eq true message zero c h = ground arith
send_turns-eq false message zero c h = ground arith
send_turns-eq true message (suc turns) c h =
    ground (arith, send_turns-eq true message turns (fetch_add 1 c))
send_turns-eq false message (suc turns) c h = ground (arith, send_turns-eq false message turns c)

map-replicate :
    {A B : Type 0} (n : ℕ) (a : A) (f : A → B) → map f (replicate n a) ≡ replicate n (f a)
map-replicate zero a f = refl
map-replicate (suc n) a f = cc (map-replicate n a f)

module _ (io : ZBufIo) where
  open io use {ZBuf, from}

  -- What `main` of r_pub_thr and of r_sub_thr declare.
  abbrev pub pub_declarations : List (Call ZBuf)
  pub_declarations = decl_resource 1 (name key_expr) ∷ decl_publisher (id 1) ∷ []

  abbrev pub sub_declarations : List (Call ZBuf)
  sub_declarations = decl_resource 1 (name key_expr) ∷ decl_subscriber (id 1) ∷ []

  -- `main` of r_pub_thr after so many turns: the calls, and the counter.
  unfoldable pub r_pub_thr : Bool → ℕ → ℕ → Outcome (List (Call ZBuf) × Counter)
  unfolding zeroed send_turns
  r_pub_thr print payload turns = do
    zeros ← zeroed payload
    let message : SendData ZBuf = record {
      key_expr = id 1;
      payload = from zeros;
      channel = data_channel;
      congestion_control = block;
    }
    let (sent, counter) = send_turns print message turns fresh
    done (pub_declarations ++ map send_data sent, counter)

  -- What z_put_thr puts, each time.
  abbrev pub put_value : ℕ → ZBuf
  put_value payload = from (payload_bytes payload)

  sent_in-messages :
      (turns : ℕ) (message : SendData ZBuf)
      → sent_in (map send_data (replicate turns message)) ≡ replicate turns message.key_expr
  sent_in-messages zero message = refl
  sent_in-messages (suc turns) message = cc (sent_in-messages turns message)

  -- The calls of so many turns, by their number and by where they send to, and the counter behind them.
  pub r_pub_thr-calls :
      (print : Bool) (payload turns : ℕ)
      → payload < 2 ^ 63
      → turns < 2 ^ 64
      → (calls : List (Call ZBuf)) × (r_pub_thr print payload turns
          ≡ done (calls, record fresh { count = if print then 0 + turns else 0 }))
        × (length calls ≡ turns + 2)
        × (sent_in calls ≡ replicate turns (id 1))
        × (targets calls ≡ replicate turns (some key_expr))
  unfolding r_pub_thr
  r_pub_thr-calls print payload turns fits few =
      let message : SendData ZBuf = record {
        key_expr = id 1;
        payload = from (replicate payload 0);
        channel = data_channel;
        congestion_control = block;
      } in
      (
        pub_declarations ++ map send_data (replicate turns message),
        ground (arith, send_turns-eq print message turns fresh),
        omega
            (arith, length-map send_data (replicate turns message), length-replicate turns message),
        sent_in-messages turns message,
        ap (map (resource_of (pub_declarations ++ map send_data (replicate turns message))))
              (sent_in-messages turns message)
            ∙ map-replicate turns (id 1)
                (resource_of (pub_declarations ++ map send_data (replicate turns message))),
      )

  -- If a second passes behind callbacks that are the calls of r_pub_thr, r_sub_thr prints two more than
  -- the messages: it would count the two declarations too. r_pub_thr has counted exactly the
  -- messages if it prints, and nothing otherwise. Its payload option is one that Rust can allocate,
  -- and the counters stay below 2^64.
  pub published_counted :
      (print : Bool) (payload turns : ℕ)
      → payload < 2 ^ 63
      → turns + 2 < 2 ^ 64
      → (calls : List (Call ZBuf)) × (counter : Counter) × (r_pub_thr print payload turns
          ≡ done (calls, counter))
        × (counter.count ≡ (if print then turns else 0))
        × (tick (on_calls calls fresh) ≡ record { count = 0; printed = (turns + 2) ∷ [] })
  published_counted print payload turns fits few =
      let (calls, e, size, sent, to) = r_pub_thr-calls print payload turns fits (omega arith) in
      (
        calls,
        record fresh { count = if print then 0 + turns else 0 },
        e,
        ground arith,
        ground (arith, size, second-on_calls calls fresh),
      )

-- The key that z_put_thr puts to, and its calls in order, by `--use-expr` and `--declare-publication`;
-- `expr_id` is what the session returns for the declared expression.
unfoldable pub put_keys : ℕ → Bool → Bool → KeyExpr × List SessionCall
put_keys expr_id use_expr with_publication =
    if use_expr
    then (
      id expr_id,
      declare_expr key_expr
          ∷ (if with_publication then declare_publication (id expr_id) ∷ [] else []),
    )
    else (name key_expr, if with_publication then declare_publication (name key_expr) ∷ [] else [])

-- The key that z_sub_thr subscribes to: with `--use-expr` it is the name.
unfoldable pub sub_keys : ℕ → Bool → KeyExpr × List SessionCall
sub_keys expr_id use_expr =
    if use_expr
    then (name key_expr, subscribe (name key_expr) ∷ [])
    else (id expr_id, declare_expr key_expr ∷ subscribe (id expr_id) ∷ [])

-- Whatever the flags of both and the ids, z_put_thr puts to what z_sub_thr subscribes to.
pub thr_keys-Names :
    (put_table sub_table : ℕ → Option String) (a b : ℕ) (put_expr sub_expr with_publication : Bool)
    → put_table a ≡ some key_expr
    → sub_table b ≡ some key_expr
    → Names put_table (put_keys a put_expr with_publication).0 key_expr
      × Names sub_table (sub_keys b sub_expr).0 key_expr
unfolding put_keys sub_keys
thr_keys-Names put_table sub_table a b true true p h k = (h, refl)
thr_keys-Names put_table sub_table a b true false p h k = (h, k)
thr_keys-Names put_table sub_table a b false true p h k = (refl, refl)
thr_keys-Names put_table sub_table a b false false p h k = (refl, k)

-- The loop of z_sub_thr with `--no-callback`, and its callback without: one for each sample received.
unfoldable pub count_samples : {S : Type 0} → List S → Counter → Counter
unfolding fetch_add
count_samples [] c = c
count_samples (sample ∷ samples) c = count_samples samples (fetch_add 1 c)

pub samples_counted :
    {S : Type 0} (value : S) (n : ℕ) (c : Counter)
    → c.count + n < 2 ^ 64
    → (count_samples (replicate n value) c).count ≡ c.count + n
unfolding count_samples
samples_counted value zero c h = omega arith
samples_counted value (suc n) c h = ground (arith, samples_counted value n (fetch_add 1 c))

count_samples-replicate :
    {S : Type 0} (value : S) (n : ℕ) (c : Counter)
    → c.count + n < 2 ^ 64
    → 0 < c.count + n
    → tick (count_samples (replicate n value) c)
      ≡ record { count = 0; printed = (c.count + n) ∷ c.printed }
unfolding tick count_samples
count_samples-replicate value zero c h p = ground arith
count_samples-replicate value (suc n) c h p =
    ground (arith, count_samples-replicate value n (fetch_add 1 c))

-- A second of `measure` of z_sub_thr prints the samples since the last one, those of z_put_thr's
-- turns, if there were any.
pub samples_measured :
    {S : Type 0} (print : Bool) (value : S) (turns : ℕ) (c put : Counter)
    → c.count + turns < 2 ^ 64
    → put.count + turns < 2 ^ 64
    → 0 < c.count + turns
    → tick (count_samples (send_turns print value turns put).0 c)
      ≡ record { count = 0; printed = (c.count + turns) ∷ c.printed }
samples_measured print value turns c put h k some_sample =
    ap (λ r. tick (count_samples r.0 c)) (send_turns-eq print value turns put k)
    ∙ count_samples-replicate value turns c h some_sample
