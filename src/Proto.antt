-- ===== src/Proto.antt =====
-- The zenoh values that the programs build and inspect. `ZBuf`, `WBuf` and their reader are zenoh's
-- own code: they are the parameter `ZBufIo`, with what the programs rely on as its laws. Of zenoh's
-- messages only the parts that the programs write or read are here.
use zenoh_perf.Base.{
  ℕ, ◌≡◌, refl, String, Option, none, some, List, [], ◌∷◌, map, ◌==◌, leb, length, take, drop,
  if◌then◌else◌,
}

-- `ZBuf::from(bytes)` (and `WBuf` with all of the bytes written to it, turned into a `ZBuf`), its
-- length, and `read_exact` of its reader, which also leaves what follows.
pub record ZBufIo : Type 1 where
  pub ZBuf : Type 0
  pub from : List ℕ → ZBuf
  pub len : ZBuf → ℕ
  pub reader_exact : ℕ → ZBuf → Option (List ℕ × ZBuf)
  pub len-from : (bytes : List ℕ) → len (from bytes) ≡ length bytes
  pub reader_exact-from :
      (n : ℕ) (bytes : List ℕ)
      → reader_exact n (from bytes)
        ≡ (if leb n (length bytes) then some (take n bytes, from (drop n bytes)) else none)

-- A buffer that is its bytes meets the laws.
abbrev pub list_io : ZBufIo
list_io = record {
  ZBuf = List ℕ;
  from = λ bytes. bytes;
  len = length;
  reader_exact =
      λ n bytes. if leb n (length bytes) then some (take n bytes, drop n bytes) else none;
  len-from = λ bytes. refl;
  reader_exact-from = λ n bytes. refl;
}

pub data WhatAmI : Type 0 where
  router peer client : WhatAmI

pub data Priority : Type 0 where
  data_priority other_priority : Priority

pub data Reliability : Type 0 where
  best_effort reliable : Reliability

pub data CongestionControl : Type 0 where
  drop_message block : CongestionControl

pub record Channel : Type 0 where
  pub priority : Priority
  pub reliability : Reliability

-- The channel of every message that the programs make.
abbrev pub data_channel : Channel
data_channel = record { priority = data_priority; reliability = reliable }

-- A key expression: a name, or a declared numerical id.
pub data KeyExpr : Type 0 where
  name : String → KeyExpr
  id : ℕ → KeyExpr

-- `ZenohBody`: `Data` with its payload and the query id of its reply context, `Query` with its
-- query id, and the bodies that no program looks into.
pub data ZenohBody (B : Type 0) : Type 0 where
  data_body : (payload : B) → (reply_context : Option ℕ) → ZenohBody B
  query_body : (qid : ℕ) → ZenohBody B
  other_body : ZenohBody B

pub record ZenohMessage (B : Type 0) : Type 0 where
  pub key : KeyExpr
  pub body : ZenohBody B
  pub channel : Channel
  pub congestion_control : CongestionControl

-- The arguments of `send_data` of zenoh's `Primitives`.
pub record SendData (B : Type 0) : Type 0 where
  pub key_expr : KeyExpr
  pub payload : B
  pub channel : Channel
  pub congestion_control : CongestionControl

-- A call of zenoh's `Primitives`, with the arguments that some program reads.
pub data Call (B : Type 0) : Type 0 where
  decl_resource : (expr_id : ℕ) → (key_expr : KeyExpr) → Call B
  forget_resource : (expr_id : ℕ) → Call B
  decl_publisher : (key_expr : KeyExpr) → Call B
  forget_publisher : (key_expr : KeyExpr) → Call B
  decl_subscriber : (key_expr : KeyExpr) → Call B
  forget_subscriber : (key_expr : KeyExpr) → Call B
  decl_queryable : (key_expr : KeyExpr) → Call B
  forget_queryable : (key_expr : KeyExpr) → Call B
  send_data : (sent : SendData B) → Call B
  send_query : (key_expr : KeyExpr) → (qid : ℕ) → Call B
  send_reply_data : (qid : ℕ) → (key_expr : KeyExpr) → (payload : B) → Call B
  send_reply_final : (qid : ℕ) → Call B
  send_pull : (key_expr : KeyExpr) → Call B
  send_close : Call B

-- What the calls of a program say of resources: the one that an id or a key stands for, and those that
-- it subscribes to and sends data to.
abbrev pub declared : {B : Type 0} → ℕ → List (Call B) → Option String
declared i [] = none
declared i (decl_resource j (name s) ∷ calls) = if i == j then some s else declared i calls
declared i (call ∷ calls) = declared i calls

abbrev pub resource_of : {B : Type 0} → List (Call B) → KeyExpr → Option String
resource_of calls (name s) = some s
resource_of calls (id i) = declared i calls

abbrev pub subscribed_in : {B : Type 0} → List (Call B) → List KeyExpr
subscribed_in [] = []
subscribed_in (decl_subscriber key ∷ calls) = key ∷ subscribed_in calls
subscribed_in (call ∷ calls) = subscribed_in calls

abbrev pub sent_in : {B : Type 0} → List (Call B) → List KeyExpr
sent_in [] = []
sent_in (send_data sent ∷ calls) = sent.key_expr ∷ sent_in calls
sent_in (call ∷ calls) = sent_in calls

abbrev pub subscriptions : {B : Type 0} → List (Call B) → List (Option String)
subscriptions calls = map (resource_of calls) (subscribed_in calls)

abbrev pub targets : {B : Type 0} → List (Call B) → List (Option String)
targets calls = map (resource_of calls) (sent_in calls)
