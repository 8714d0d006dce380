-- ===== src/Wire/Frame.antt =====
-- The macros `zsend!` and `zrecv!` of throughput/src/bin/t_sink_tcp.rs: a message on a byte stream
-- stands behind its length in two bytes.
use zenoh_perf.Base.{
  ℕ, ◌+◌, ◌-◌, ◌%◌, ◌^◌, ◌≤◌, ◌<◌, ◌≡◌, refl, ap, ◌∙◌, none, some, List, ◌∷◌, ◌++◌, arith, length,
  take, drop, length-append, length-drop, take-append, drop-append, Outcome, done, panic, unwrap,
  unwrap_none, bare, ◌>>=◌,
}
use mathlib.Core.List.{append_assoc}
use zenoh_perf.Bytes.{
  to_le_bytes, from_le_bytes, read_exact, copy_from_slice, length-to_le_bytes,
  from_le_bytes-to_le_bytes, read_exact-append,
}
use zenoh_perf.Wire.{Codec, TransportBody}

module _ {Z : Type 0} (codec : Codec Z) where
  open codec use {write, read}

  -- `let length: u16 = wbuf.len() as u16 - 2`, in a release build, for a buffer of `n` bytes.
  abbrev pub frame_length : ℕ → ℕ
  frame_length n = (n % 2 ^ 16 + 2 ^ 16 - 2) % 2 ^ 16

  -- The bytes that `zsend!` writes: two reserved bytes and the message, then the length over them.
  unfoldable pub zsend : TransportBody Z → Outcome (List ℕ)
  unfolding copy_from_slice
  zsend msg = elim (write msg) [
    | none ↦ panic bare
    | some body ↦
        let wbuf : List ℕ = 0 ∷ 0 ∷ body in
        copy_from_slice 0 (to_le_bytes 2 (frame_length (length wbuf))) wbuf
  ]

  -- What `zrecv!` makes of the stream and of the reading buffer: the message, the buffer, which
  -- keeps its older bytes behind the new ones, and the rest of the stream.
  unfoldable pub zrecv : List ℕ → List ℕ → Outcome (TransportBody Z × List ℕ × List ℕ)
  unfolding copy_from_slice
  zrecv stream buffer = do
    (head, rest) ← unwrap (read_exact 2 stream)
    headed ← copy_from_slice 0 head buffer
    let to_read = from_le_bytes (take 2 headed)
    (bytes, rest') ← unwrap (read_exact to_read rest)
    filled ← copy_from_slice 0 bytes headed
    msg ← unwrap (read filled).0
    done (msg, filled, rest')

  -- A message below 2^16 bytes is framed as its length and its bytes.
  pub zsend-eq :
      (m : TransportBody Z) (body : List ℕ)
      → write m ≡ some body
      → length body < 2 ^ 16
      → zsend m ≡ done (to_le_bytes 2 (length body) ++ body)
  unfolding zsend
  zsend-eq m body e fits =
      let size : frame_length (2 + length body) ≡ length body = omega arith in
      ground (arith, size, length-to_le_bytes 2 (length body))

  copy_front :
      (bytes buffer : List ℕ)
      → length bytes ≤ length buffer
      → copy_from_slice 0 bytes buffer ≡ done (bytes ++ drop (length bytes) buffer)
  unfolding copy_from_slice
  copy_front bytes buffer h = ground arith

  length-copy_front :
      (bytes buffer : List ℕ)
      → length bytes ≤ length buffer
      → length (bytes ++ drop (length bytes) buffer) ≡ length buffer
  length-copy_front bytes buffer h =
      omega
        (arith, length-append bytes (drop (length bytes) buffer), length-drop (length bytes) buffer)

  -- The buffer after `zrecv!`: the message in front, then what the buffer held.
  abbrev pub refilled : List ℕ → List ℕ → List ℕ
  refilled body buffer =
      let head : List ℕ = to_le_bytes 2 (length body) in
      body ++ drop (length body) (head ++ drop (length head) buffer)

  pub zrecv_frame :
      (m : TransportBody Z) (body rest buffer : List ℕ)
      → write m ≡ some body
      → length body < 2 ^ 16
      → 2 ≤ length buffer
      → length body ≤ length buffer
      → zrecv (to_le_bytes 2 (length body) ++ (body ++ rest)) buffer
        ≡ done (m, refilled body buffer, rest)
  unfolding zrecv
  zrecv_frame m body rest buffer w fits two room =
      let head : List ℕ = to_le_bytes 2 (length body) in
      let width : length head ≡ 2 = length-to_le_bytes 2 (length body) in
      let headed : List ℕ = head ++ drop (length head) buffer in
      let kept : length headed ≡ length buffer = length-copy_front head buffer (omega arith) in
      let size : from_le_bytes (take 2 headed) ≡ length body =
        ap from_le_bytes (take-append head (drop (length head) buffer) 2 width)
        ∙ from_le_bytes-to_le_bytes 2 (length body) (omega arith) in
      ground (
        arith,
        read_exact-append 2 head (body ++ rest) width,
        copy_front head buffer,
        size,
        read_exact-append (length body) body rest refl,
        copy_front body headed,
        codec.read-write m body (drop (length body) headed) w,
      )

  pub length-refilled :
      (body buffer : List ℕ)
      → 2 ≤ length buffer
      → length body ≤ length buffer
      → length (refilled body buffer) ≡ length buffer
  length-refilled body buffer two room =
      let head : List ℕ = to_le_bytes 2 (length body) in
      let width : length head ≡ 2 = length-to_le_bytes 2 (length body) in
      let headed : List ℕ = head ++ drop (length head) buffer in
      let kept : length headed ≡ length buffer = length-copy_front head buffer (omega arith) in
      length-copy_front body headed (omega arith) ∙ kept

  -- `zrecv!` reads the message that `zsend!` wrote, leaves what follows it on the stream, and keeps
  -- the size of its buffer. The message has fewer than 2^16 bytes and fits the buffer, which holds
  -- the two bytes of the length; what the buffer held before does not matter.
  pub zrecv-zsend :
      (m : TransportBody Z) (body rest buffer : List ℕ)
      → write m ≡ some body
      → length body < 2 ^ 16
      → 2 ≤ length buffer
      → length body ≤ length buffer
      → (frame buffer' : List ℕ) × (zsend m ≡ done frame)
        × (zrecv (frame ++ rest) buffer ≡ done (m, buffer', rest))
        × (length buffer' ≡ length buffer)
  zrecv-zsend m body rest buffer w fits two room =
      let head : List ℕ = to_le_bytes 2 (length body) in
      (
        head ++ body,
        refilled body buffer,
        zsend-eq m body w fits,
        rw (append_assoc head body rest) (zrecv_frame m body rest buffer w fits two room),
        length-refilled body buffer two room,
      )

  -- A stream that ends inside a message, behind its length, panics the receiver. The buffer holds
  -- the two bytes of the length.
  pub zrecv_cut :
      (n : ℕ) (front buffer : List ℕ)
      → n < 2 ^ 16
      → 2 ≤ length buffer
      → length front < n
      → zrecv (to_le_bytes 2 n ++ front) buffer ≡ panic unwrap_none
  unfolding zrecv read_exact
  zrecv_cut n front buffer fits two cut =
      let head : List ℕ = to_le_bytes 2 n in
      let width : length head ≡ 2 = length-to_le_bytes 2 n in
      let size : from_le_bytes (take 2 (head ++ drop (length head) buffer)) ≡ n =
        ap from_le_bytes (take-append head (drop (length head) buffer) 2 width)
        ∙ from_le_bytes-to_le_bytes 2 n (omega arith) in
      ground (
        arith,
        length-append head front,
        take-append head front 2 width,
        drop-append head front 2 width,
        copy_front head buffer,
        size,
      )
