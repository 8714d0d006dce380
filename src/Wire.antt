-- ===== src/Wire.antt =====
-- The messages of zenoh's transport layer and their framing on a byte stream. The encoding of a
-- message is zenoh's own code: it is the parameter `Codec`.
pub mod Frame
use zenoh_perf.Base.{ℕ, ◌<◌, ◌≡◌, Bool, Option, none, some, List, [], ◌∷◌, ◌++◌, length}

-- `FramePayload`: whole zenoh messages, or a fragment.
pub data FramePayload (Z : Type 0) : Type 0 where
  messages : List Z → FramePayload Z
  fragment : FramePayload Z

-- `TransportBody` of a `TransportMessage`, with the fields that some program reads or writes.
pub data TransportBody (Z : Type 0) : Type 0 where
  init_syn : (is_qos : Bool) → TransportBody Z
  init_ack : (pid : ℕ) → (is_qos : Bool) → (cookie : List ℕ) → TransportBody Z
  open_syn : (lease : ℕ) → (initial_sn : ℕ) → TransportBody Z
  open_ack : (lease : ℕ) → (initial_sn : ℕ) → TransportBody Z
  keep_alive : TransportBody Z
  frame : FramePayload Z → TransportBody Z
  other : TransportBody Z

-- `write_transport_message` (false, here `none`, if it fails) and `read_transport_message`, which
-- takes a message, if there is one, and leaves the reader at some later position. What is written
-- is not empty and is read back, whatever follows it.
pub record Codec (Z : Type 0) : Type 0 where
  pub write : TransportBody Z → Option (List ℕ)
  pub read : List ℕ → Option (TransportBody Z) × List ℕ
  pub write-pos : (m : TransportBody Z) (bytes : List ℕ) → write m ≡ some bytes → 0 < length bytes
  pub read-write :
      (m : TransportBody Z) (bytes rest : List ℕ)
      → write m ≡ some bytes
      → read (bytes ++ rest) ≡ (some m, rest)
