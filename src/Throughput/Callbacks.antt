-- ===== src/Throughput/Callbacks.antt =====
-- The callbacks of throughput/src/bin/r_sub_thr.rs.
use zenoh_perf.Base.{◌+◌, ◌^◌, ◌<◌, ◌≡◌, refl, ap, ◌∙◌, List, [], ◌∷◌, arith, length}
use zenoh_perf.Proto.{
  Call, decl_resource, forget_resource, decl_publisher, forget_publisher, decl_subscriber,
  forget_subscriber, decl_queryable, forget_queryable, send_data, send_query, send_reply_data,
  send_reply_final, send_pull, send_close,
}
use zenoh_perf.Throughput.Counter.{Counter, fetch_add, tick}

-- `ThroughputPrimitives` of r_sub_thr: every callback adds one.
unfoldable pub on_call : {B : Type 0} → Call B → Counter → Counter
unfolding fetch_add
on_call (decl_resource expr_id key) c = fetch_add 1 c
on_call (forget_resource expr_id) c = fetch_add 1 c
on_call (decl_publisher key) c = fetch_add 1 c
on_call (forget_publisher key) c = fetch_add 1 c
on_call (decl_subscriber key) c = fetch_add 1 c
on_call (forget_subscriber key) c = fetch_add 1 c
on_call (decl_queryable key) c = fetch_add 1 c
on_call (forget_queryable key) c = fetch_add 1 c
on_call (send_data sent) c = fetch_add 1 c
on_call (send_query key qid) c = fetch_add 1 c
on_call (send_reply_data qid key payload) c = fetch_add 1 c
on_call (send_reply_final qid) c = fetch_add 1 c
on_call (send_pull key) c = fetch_add 1 c
on_call send_close c = fetch_add 1 c

unfoldable pub on_calls : {B : Type 0} → List (Call B) → Counter → Counter
unfolding on_call
on_calls [] c = c
on_calls (call ∷ calls) c = on_calls calls (on_call call c)

pub on_call-eq : {B : Type 0} (call : Call B) (c : Counter) → on_call call c ≡ fetch_add 1 c
unfolding on_call
on_call-eq (decl_resource expr_id key) c = refl
on_call-eq _ c = refl

-- The second of r_sub_thr reports the number of callbacks since the last one, of every kind, the
-- declarations of the router among them, and starts again from 0.
pub second-on_calls :
    {B : Type 0} (calls : List (Call B)) (c : Counter)
    → c.count + length calls < 2 ^ 64
    → 0 < c.count + length calls
    → tick (on_calls calls c) ≡ record { count = 0; printed = (c.count + length calls) ∷ c.printed }
unfolding on_calls tick
second-on_calls [] c h some_call = ground arith
second-on_calls (call ∷ calls) c h some_call =
    let counted : (on_call call c).count ≡ c.count + 1 =
      ap (λ (x : Counter). x.count) (on_call-eq call c) ∙ unfold fetch_add in omega arith in
    let kept : (on_call call c).printed ≡ c.printed =
      ap (λ (x : Counter). x.printed) (on_call-eq call c) ∙ unfold fetch_add in refl in
    ground (arith, counted, kept, second-on_calls calls (on_call call c))
