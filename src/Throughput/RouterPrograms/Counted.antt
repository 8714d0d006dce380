-- ===== src/Throughput/RouterPrograms/Counted.antt =====
-- What r_sub_thr prints of the calls of r_pub_thr, both in throughput/src/bin.
use zenoh_perf.Base.{
  sym, replicate, length-replicate, ℕ, ◌+◌, ◌%◌, ◌^◌, ◌<◌, ◌≡◌, refl, ap, ◌∙◌, Option, some, List,
  [], ◌∷◌, ◌++◌, arith, false, length, done,
}
use zenoh_perf.Proto.{ZBufIo, Call, send_data, id, sent_in, targets, subscriptions}
use zenoh_perf.Startup.{Config, base_config}
use zenoh_perf.Startup.Meeting.{pub_config-base, r_sub_config-serving, Serves}
use zenoh_perf.Throughput.Counter.{Counter, fresh, fetch_add}
use zenoh_perf.Throughput.Callbacks.{on_call, on_call-eq}
use zenoh_perf.Throughput.Session.{key_expr, r_pub_thr, r_pub_thr-calls, sub_declarations}
use zenoh_perf.Throughput.Rate.{Float64}
use zenoh_perf.Throughput.Monitor.{
  Labels, MonitorEvent, add, second, Monitored, at_start, r_sub_monitor, run_monitor, added, rates,
  Exact, rates_conserved,
}
use zenoh_perf.Throughput.RouterPrograms.{
  PubOpt, SubOpt, SubEvent, call, second_ends, labels_of, r_sub_loop, r_pub_main, r_sub_main,
}

abbrev pub calls_in : {B : Type 0} → List (SubEvent B) → List (Call B)
calls_in [] = []
calls_in (call c ∷ es) = c ∷ calls_in es
calls_in (second_ends elapsed ∷ es) = calls_in es

-- The events as the counter and the task see them: a call of any kind is one.
abbrev pub counted : {B : Type 0} → List (SubEvent B) → List MonitorEvent
counted [] = []
counted (call c ∷ es) = add 1 ∷ counted es
counted (second_ends elapsed ∷ es) = second elapsed ∷ counted es

-- How many of the calls send no data.
abbrev pub others_in : {B : Type 0} → List (Call B) → ℕ
others_in [] = 0
others_in (send_data sent ∷ calls) = others_in calls
others_in (_ ∷ calls) = others_in calls + 1

length-parts :
    {B : Type 0} (calls : List (Call B)) → length calls ≡ length (sent_in calls) + others_in calls
length-parts [] = omega arith
length-parts (send_data sent ∷ calls) = omega (arith, length-parts calls)
length-parts (_ ∷ calls) = omega (arith, length-parts calls)

module _ (float : Float64) where
  added-counted :
      {B : Type 0} (es : List (SubEvent B)) → added float (counted es) ≡ length (calls_in es)
  added-counted [] = refl
  added-counted (call c ∷ es) = omega (arith, added-counted es)
  added-counted (second_ends elapsed ∷ es) = added-counted es

  r_sub_loop-counted :
      {B : Type 0} (labels : Labels) (es : List (SubEvent B)) (s : Monitored)
      → r_sub_loop float labels es s ≡ run_monitor float (r_sub_monitor float labels) (counted es) s
  unfolding r_sub_loop run_monitor
  r_sub_loop-counted labels [] s = refl
  r_sub_loop-counted labels (call c ∷ es) s =
      let one : (on_call c (record fresh { count = s.count })).count ≡ (s.count + 1) % 2 ^ 64 =
        ap (λ (x : Counter). x.count) (on_call-eq c (record fresh { count = s.count }))
        ∙ unfold fetch_add in refl in
      rw one (r_sub_loop-counted labels es (record s { count = (s.count + 1) % 2 ^ 64 }))
  r_sub_loop-counted labels (second_ends elapsed ∷ es) s =
      r_sub_loop-counted labels es (r_sub_monitor float labels elapsed s)

module _ {E F : Type 0} (from_file : F → Option (Config E)) (default : Config E) (io : ZBufIo) where
  open io use {ZBuf}

  -- With the same endpoints, r_pub_thr connects, in every mode, to those that r_sub_thr listens on as a
  -- peer or a router, and sends each message to the resource that r_sub_thr subscribes to. When as many
  -- data callbacks of r_sub_thr are called as r_pub_thr has sent messages, with any other callbacks and
  -- seconds of exactly a second anywhere between them, the rates that r_sub_thr has printed and what
  -- it still counts are the turns and these other callbacks together. The configuration files, if
  -- any, can be read, the payload option of r_pub_thr is one that Rust can allocate, and the callbacks
  -- are fewer than 2^53.
  pub sub_counts_pub :
      (float : Float64) (opt : PubOpt E F) (sub : SubOpt E F) (pub_base sub_base : Config E)
      (turns : ℕ) (events : List (SubEvent ZBuf)) (calls : List (Call ZBuf)) (counter : Counter)
      → base_config from_file default opt.config ≡ done pub_base
      → base_config from_file default sub.config ≡ done sub_base
      → Serves sub.mode
      → sub.endpoint ≡ opt.endpoint
      → opt.payload < 2 ^ 63
      → turns + others_in (calls_in events) < 2 ^ 53
      → r_pub_thr io opt.print opt.payload turns ≡ done (calls, counter)
      → length (sent_in (calls_in events)) ≡ length (sent_in calls)
      → Exact float (counted events)
      → (connects listens : Config E) × (s : Monitored) × (r_pub_main from_file default io opt turns
          ≡ done (connects, calls, counter))
        × (r_sub_main from_file default io float sub events
            ≡ done (listens, sub_declarations io, s))
        × (connects.connect ≡ pub_base.connect ++ opt.endpoint)
        × (listens.listen ≡ sub_base.listen ++ opt.endpoint)
        × (targets calls ≡ replicate turns (some key_expr))
        × (subscriptions (sub_declarations io) ≡ some key_expr ∷ [])
        × (s.count + rates float s.lines ≡ turns + others_in (calls_in events))
  unfolding r_pub_main r_sub_main
  sub_counts_pub float opt sub pub_base sub_base turns events calls counter p q serves same fits few
        sent all exact =
      let (calls', e, size, keys, to) =
        r_pub_thr-calls io opt.print opt.payload turns fits (omega arith) in
      let same_calls : calls' ≡ calls = cc in
      let messages : length (sent_in calls) ≡ turns =
        ap (λ cs. length (sent_in cs)) (sym same_calls)
        ∙ ap length keys
        ∙ length-replicate turns (id 1) in
      let many : added float (counted events) ≡ turns + others_in (calls_in events) =
        added-counted float events ∙ omega (arith, length-parts (calls_in events), all, messages) in
      let labels : Labels = labels_of sub in
      let s : Monitored = r_sub_loop float labels events at_start in
      let seen : s ≡ run_monitor float (r_sub_monitor float labels) (counted events) at_start =
        r_sub_loop-counted float labels events at_start in
      (
        record pub_base {
          mode = some opt.mode;
          multicast = some false;
          add_timestamp = some false;
          connect = pub_base.connect ++ opt.endpoint;
        },
        record sub_base {
          mode = some sub.mode;
          multicast = some false;
          listen = sub_base.listen ++ sub.endpoint;
        },
        s,
        simp (pub_config-base from_file default pub_base opt.config opt.mode opt.endpoint p, sent),
        simp (
            r_sub_config-serving from_file default sub_base sub.config sub.mode sub.endpoint serves
              q),
        refl,
        ap (λ es. sub_base.listen ++ es) same,
        ap targets (sym same_calls) ∙ to,
        refl,
        rw seen (
            rates_conserved float "router" labels (counted events) exact (omega (arith, many))
            ∙ many),
      )
