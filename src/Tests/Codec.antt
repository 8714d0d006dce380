-- ===== src/Tests/Codec.antt =====
-- A small encoding that meets the laws of `Codec`, for the examples: a tag and the fields, lists
-- behind their length. It writes the handshake messages and frames of one data message.
use zenoh_perf.Base.{
  ℕ, ◌<◌, ◌≡◌, refl, Bool, true, false, Option, none, some, List, [], ◌∷◌, ◌++◌, arith, ap, sym,
  ◌∙◌, ◌==◌, if◌then◌else◌, length, take, drop, take-append, drop-append,
}
use mathlib.Core.Option.{some-injective}
use zenoh_perf.Proto.{
  KeyExpr, id, ZenohBody, data_body, ZenohMessage, Priority, data_priority, Reliability, reliable,
  CongestionControl, block,
}
use zenoh_perf.Wire.{
  Codec, TransportBody, messages, fragment, init_syn, init_ack, open_syn, open_ack, keep_alive,
  frame, other,
}

abbrev pub Message : Type 0
Message = ZenohMessage (List ℕ)

abbrev pub data_message : ℕ → List ℕ → Message
data_message k payload = record {
  key = id k;
  body = data_body payload none;
  channel = record { priority = data_priority; reliability = reliable };
  congestion_control = block;
}

abbrev bit : Bool → ℕ
bit true = 1
bit false = 0

unfoldable pub encode :
    KeyExpr → ZenohBody (List ℕ) → Priority → Reliability → CongestionControl → Option (List ℕ)
encode (id k) (data_body payload none) data_priority reliable block =
    some (7 ∷ k ∷ length payload ∷ payload)
encode key body priority reliability control = none

unfoldable pub encode_frame : List Message → Option (List ℕ)
unfolding encode
encode_frame (m ∷ []) =
    encode m.key m.body m.channel.priority m.channel.reliability m.congestion_control
encode_frame ms = none

unfoldable pub write : TransportBody Message → Option (List ℕ)
unfolding encode_frame
write (init_syn q) = some (1 ∷ bit q ∷ [])
write (init_ack p q c) = some (2 ∷ p ∷ bit q ∷ length c ∷ c)
write (open_syn l s) = some (3 ∷ l ∷ s ∷ [])
write (open_ack l s) = some (4 ∷ l ∷ s ∷ [])
write keep_alive = some (5 ∷ [])
write (frame (messages ms)) = encode_frame ms
write (frame fragment) = none
write other = none

decode_ack : ℕ → Bool → List ℕ → Option (TransportBody Message) × List ℕ
decode_ack p q [] = (none, [])
decode_ack p q (n ∷ r) = (some (init_ack p q (take n r)), drop n r)

decode : ℕ → List ℕ → Option (TransportBody Message) × List ℕ
unfolding decode_ack
decode tag [] = (if tag == 5 then some keep_alive else none, [])
decode tag (a ∷ []) =
    if tag == 1
    then (some (init_syn (a == 1)), [])
    else if tag == 5
    then (some keep_alive, a ∷ [])
    else (none, [])
decode tag (a ∷ b ∷ rest) =
    if tag == 1
    then (some (init_syn (a == 1)), b ∷ rest)
    else if tag == 2
    then decode_ack a (b == 1) rest
    else if tag == 3
    then (some (open_syn a b), rest)
    else if tag == 4
    then (some (open_ack a b), rest)
    else if tag == 5
    then (some keep_alive, a ∷ b ∷ rest)
    else (some (frame (messages (data_message a (take b rest) ∷ []))), drop b rest)

unfoldable pub read : List ℕ → Option (TransportBody Message) × List ℕ
unfolding decode
read [] = (none, [])
read (tag ∷ rest) = decode tag rest

pub write-pos :
    (m : TransportBody Message) (bytes : List ℕ) → write m ≡ some bytes → 0 < length bytes
unfolding write
write-pos (init_syn q) bytes h = ground arith
write-pos (init_ack p q c) bytes h = ground arith
write-pos (open_syn l s) bytes h = ground arith
write-pos (open_ack l s) bytes h = ground arith
write-pos keep_alive bytes h = ground arith
write-pos (frame (messages [])) bytes h = cc
write-pos (frame (messages (m ∷ []))) bytes h = ground arith
write-pos (frame (messages (m ∷ n ∷ ms))) bytes h = cc
write-pos (frame fragment) bytes h = cc
write-pos other bytes h = cc

framed_payload :
    (k : ℕ) (payload rest : List ℕ)
    → read (7 ∷ k ∷ length payload ∷ (payload ++ rest))
      ≡ (some (frame (messages (data_message k payload ∷ []))), rest)
unfolding read
framed_payload k payload rest = ground (
  arith,
  take-append payload rest (length payload) refl,
  drop-append payload rest (length payload) refl,
)

framed_back :
    (key : KeyExpr) (body : ZenohBody (List ℕ)) (p : Priority) (r : Reliability)
    (c : CongestionControl) (bytes rest : List ℕ)
    → encode key body p r c ≡ some bytes
    → read (bytes ++ rest) ≡ (
      some (
          frame (
            messages (
              record {
                key = key;
                body = body;
                channel = record { priority = p; reliability = r };
                congestion_control = c;
              }
              ∷ []))),
      rest,
    )
unfolding encode read
framed_back (id k) (data_body payload none) data_priority reliable block bytes rest h =
    ap (λ b. read (b ++ rest)) (sym (some-injective _ _ h)) ∙ framed_payload k payload rest
framed_back key body p r c bytes rest h = ground arith

read_init_ack :
    (p : ℕ) (q : Bool) (c rest : List ℕ)
    → read (2 ∷ p ∷ bit q ∷ length c ∷ (c ++ rest)) ≡ (some (init_ack p q c), rest)
unfolding read
read_init_ack p q c rest =
    ground (arith, take-append c rest (length c) refl, drop-append c rest (length c) refl)

read_open_syn : (l s : ℕ) (rest : List ℕ) → read (3 ∷ l ∷ s ∷ rest) ≡ (some (open_syn l s), rest)
unfolding read
read_open_syn l s rest = refl

read_open_ack : (l s : ℕ) (rest : List ℕ) → read (4 ∷ l ∷ s ∷ rest) ≡ (some (open_ack l s), rest)
unfolding read
read_open_ack l s rest = refl

read_init_syn : (q : Bool) (rest : List ℕ) → read (1 ∷ bit q ∷ rest) ≡ (some (init_syn q), rest)
unfolding read
read_init_syn true [] = refl
read_init_syn true (b ∷ rest) = refl
read_init_syn false [] = refl
read_init_syn false (b ∷ rest) = refl

read_keep_alive : (rest : List ℕ) → read (5 ∷ rest) ≡ (some keep_alive, rest)
unfolding read
read_keep_alive [] = refl
read_keep_alive (a ∷ []) = refl
read_keep_alive (a ∷ b ∷ rest) = refl

via :
    {sent bytes : List ℕ} (rest : List ℕ) {r : Option (TransportBody Message) × List ℕ}
    → some sent ≡ some bytes
    → read (sent ++ rest) ≡ r
    → read (bytes ++ rest) ≡ r
via rest h e = ap (λ b. read (b ++ rest)) (sym (some-injective _ _ h)) ∙ e

pub read-write :
    (m : TransportBody Message) (bytes rest : List ℕ)
    → write m ≡ some bytes
    → read (bytes ++ rest) ≡ (some m, rest)
unfolding write
read-write (init_syn q) bytes rest h = via rest h (read_init_syn q rest)
read-write (init_ack p q c) bytes rest h = via rest h (read_init_ack p q c rest)
read-write (open_syn l s) bytes rest h = via rest h (read_open_syn l s rest)
read-write (open_ack l s) bytes rest h = via rest h (read_open_ack l s rest)
read-write keep_alive bytes rest h = via rest h (read_keep_alive rest)
read-write (frame (messages [])) bytes rest h = cc
read-write (frame (messages (m ∷ []))) bytes rest h =
    framed_back m.key m.body m.channel.priority m.channel.reliability m.congestion_control bytes
      rest h
read-write (frame (messages (m ∷ n ∷ ms))) bytes rest h = cc
read-write (frame fragment) bytes rest h = cc
read-write other bytes rest h = cc

unfoldable pub codec : Codec Message
unfolding write read
codec = record { write = write; read = read; write-pos = write-pos; read-write = read-write }
