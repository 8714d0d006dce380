-- ===== src/Overhead/Capture.antt =====
-- `read_transport_messages` of overhead/src/bin/zn_analyze.rs: frames out of a captured stream. The
-- loops take fuel, and `none` says that it ran out.
use zenoh_perf.Base.{
  ℕ, zero, suc, ◌^◌, ◌≤◌, ◌<◌, ◌≡◌, refl, ap, ◌∙◌, sym, Option, none, some, List, [], ◌∷◌, ◌++◌,
  arith, length, length-append, Outcome, done, panic, unwrap_none,
}
use mathlib.Core.List.{append_assoc, append-nil}
use zenoh_perf.Bytes.{
  to_le_bytes, from_le_bytes, read_exact, length-to_le_bytes, from_le_bytes-to_le_bytes,
  read_exact-append,
}
use zenoh_perf.Wire.{Codec, TransportBody}

abbrev pub push : {M : Type 0} → Option M → List M → List M
push none msgs = msgs
push (some m) msgs = msgs ++ m ∷ []

module _ {Z : Type 0} (codec : Codec Z) where
  open codec use {write, read}

  -- `while zbuf.can_read()`: the messages of one buffer.
  unfoldable pub drain : ℕ → List ℕ → List (TransportBody Z) → Option (List (TransportBody Z))
  drain fuel [] msgs = some msgs
  drain zero (b ∷ bs) msgs = none
  drain (suc fuel) (b ∷ bs) msgs = let (m, rest) = read (b ∷ bs) in drain fuel rest (push m msgs)

  -- One turn of the outer loop, given the length that was read: the rest of the capture and the
  -- messages so far.
  unfoldable pub read_frame :
      ℕ → List ℕ → List (TransportBody Z) → Option (Outcome (List ℕ × List (TransportBody Z)))
  unfolding drain
  read_frame to_read rest msgs = elim (read_exact to_read rest) [
    | none ↦ some (panic unwrap_none)
    | some (buffer, rest') ↦ elim (drain (length buffer) buffer msgs) [
      | none ↦ none
      | some msgs' ↦ some (done (rest', msgs'))
    ]
  ]

  -- `while data.read_exact(&mut length_bytes).is_ok()`.
  unfoldable pub frames_loop :
      ℕ → List ℕ → List (TransportBody Z) → Option (Outcome (List (TransportBody Z)))
  unfolding read_frame
  frames_loop zero bytes msgs = none
  frames_loop (suc fuel) bytes msgs = elim (read_exact 2 bytes) [
    | none ↦ some (done msgs)
    | some (length_bytes, rest) ↦ elim (read_frame (from_le_bytes length_bytes) rest msgs) [
      | none ↦ none
      | some (panic e) ↦ some (panic e)
      | some (done (rest', msgs')) ↦ frames_loop fuel rest' msgs'
    ]
  ]

  -- Each turn takes two bytes at least, so this fuel is enough for the outer loop.
  unfoldable pub read_transport_messages : List ℕ → Option (Outcome (List (TransportBody Z)))
  unfolding frames_loop
  read_transport_messages bytes = frames_loop (suc (length bytes)) bytes []

  -- The bytes of messages written one after the other.
  pub data Written : List (TransportBody Z) → List ℕ → Type 0 where
    nothing : Written [] []
    more :
        {ms : List (TransportBody Z)} {rest : List ℕ} (m : TransportBody Z) (bytes : List ℕ)
        → write m ≡ some bytes
        → Written ms rest
        → Written (m ∷ ms) (bytes ++ rest)

  drain_step :
      (fuel : ℕ) (m : TransportBody Z) (bytes rest : List ℕ) (msgs : List (TransportBody Z))
      → write m ≡ some bytes
      → drain (suc fuel) (bytes ++ rest) msgs ≡ drain fuel rest (msgs ++ m ∷ [])
  unfolding drain
  drain_step fuel m [] rest msgs w = absurd (omega (arith, codec.write-pos m [] w))
  drain_step fuel m (b ∷ bs) rest msgs w = rw (codec.read-write m (b ∷ bs) rest w)

  drain-Written :
      (fuel : ℕ) {ms : List (TransportBody Z)} {bytes : List ℕ} (msgs : List (TransportBody Z))
      → Written ms bytes
      → length bytes ≤ fuel
      → drain fuel bytes msgs ≡ some (msgs ++ ms)
  drain-Written fuel msgs nothing h = unfold drain in ap some (sym (append-nil msgs))
  drain-Written zero msgs (more {rest = r} m bytes w ws) h =
      absurd (omega (arith, codec.write-pos m bytes w, length-append bytes r))
  drain-Written (suc fuel) msgs (more {ms = ms} {rest = r} m bytes w ws) h =
      drain_step fuel m bytes r msgs w
      ∙ drain-Written fuel (msgs ++ m ∷ []) ws
          (omega (arith, codec.write-pos m bytes w, length-append bytes r))
      ∙ ap some (append_assoc msgs (m ∷ []) ms)

  -- A capture of whole frames, each with any number of messages, before some last bytes.
  pub data Framed (last : List ℕ) : List (TransportBody Z) → List ℕ → Type 0 where
    end : Framed last [] last
    framed :
        {ms later : List (TransportBody Z)} {rest : List ℕ} (body : List ℕ)
        → Written ms body
        → length body < 2 ^ 16
        → Framed last later rest
        → Framed last (ms ++ later) (to_le_bytes 2 (length body) ++ (body ++ rest))

  read_frame-Written :
      {ms : List (TransportBody Z)} (body rest : List ℕ) (msgs : List (TransportBody Z))
      → Written ms body
      → read_frame (length body) (body ++ rest) msgs ≡ some (done (rest, msgs ++ ms))
  unfolding read_frame
  read_frame-Written body rest msgs ws = ground (
    arith,
    read_exact-append (length body) body rest refl,
    drain-Written (length body) msgs ws (omega arith),
  )

  frames_step :
      (fuel : ℕ) {ms : List (TransportBody Z)} (body rest : List ℕ) (msgs : List (TransportBody Z))
      → Written ms body
      → length body < 2 ^ 16
      → frames_loop (suc fuel) (to_le_bytes 2 (length body) ++ (body ++ rest)) msgs
        ≡ frames_loop fuel rest (msgs ++ ms)
  unfolding frames_loop
  frames_step fuel body rest msgs ws fits =
      let head : List ℕ = to_le_bytes 2 (length body) in
      ground (
        arith,
        read_exact-append 2 head (body ++ rest) (length-to_le_bytes 2 (length body)),
        from_le_bytes-to_le_bytes 2 (length body) (omega arith),
        read_frame-Written body rest msgs ws,
      )

  -- The loop gets through the frames with fuel left for the last bytes.
  frames-Framed :
      (fuel : ℕ) {last : List ℕ} {ms : List (TransportBody Z)} {bytes : List ℕ}
      (msgs : List (TransportBody Z))
      → Framed last ms bytes
      → length bytes < fuel
      → (fuel' : ℕ) × (length last < suc fuel')
        × (frames_loop fuel bytes msgs ≡ frames_loop (suc fuel') last (msgs ++ ms))
  frames-Framed zero msgs f h = absurd (omega arith)
  frames-Framed (suc fuel) {last} msgs end h =
      (fuel, h, ap (frames_loop (suc fuel) last) (sym (append-nil msgs)))
  frames-Framed (suc fuel) msgs (framed {ms = ms} {later = ls} {rest = r} body ws fits f) h =
      let head : List ℕ = to_le_bytes 2 (length body) in
      let (fuel', room, e) = frames-Framed fuel (msgs ++ ms) f (
        omega (
          arith,
          length-append head (body ++ r),
          length-append body r,
          length-to_le_bytes 2 (length body),
        )) in
      (
        fuel',
        room,
        frames_step fuel body r msgs ws fits
            ∙ e
            ∙ ap (frames_loop (suc fuel') _) (append_assoc msgs ms ls),
      )

  -- A capture of whole frames, with at most one byte behind them, is read back as its messages in
  -- order: both loops end, nothing is lost, and the byte left over is ignored.
  pub capture_read :
      (last bytes : List ℕ) (ms : List (TransportBody Z))
      → Framed last ms bytes
      → length last < 2
      → read_transport_messages bytes ≡ some (done ms)
  unfolding read_transport_messages
  capture_read last bytes ms f short =
      let (fuel', room, e) = frames-Framed (suc (length bytes)) [] f (omega arith) in
      e ∙ stop fuel' ms
    where
      stop :
          (fuel : ℕ) (msgs : List (TransportBody Z))
          → frames_loop (suc fuel) last msgs ≡ some (done msgs)
      stop fuel msgs = unfold frames_loop read_exact in ground arith

  -- A capture that stops inside a frame, behind its length, panics, whatever frames came before it:
  -- no message is returned.
  pub capture_cut :
      (n : ℕ) (front bytes : List ℕ) (ms : List (TransportBody Z))
      → n < 2 ^ 16
      → length front < n
      → Framed (to_le_bytes 2 n ++ front) ms bytes
      → read_transport_messages bytes ≡ some (panic unwrap_none)
  unfolding read_transport_messages
  capture_cut n front bytes ms fits short f =
      let (fuel', room, e) = frames-Framed (suc (length bytes)) [] f (omega arith) in
      e ∙ stop fuel' ms
    where
      cut : (msgs : List (TransportBody Z)) → read_frame n front msgs ≡ some (panic unwrap_none)
      cut msgs = unfold read_frame read_exact in ground arith

      stop :
          (fuel : ℕ) (msgs : List (TransportBody Z))
          → frames_loop (suc fuel) (to_le_bytes 2 n ++ front) msgs ≡ some (panic unwrap_none)
      stop fuel msgs =
          unfold frames_loop in
          ground (
            arith,
            read_exact-append 2 (to_le_bytes 2 n) front (length-to_le_bytes 2 n),
            from_le_bytes-to_le_bytes 2 n (omega arith),
            cut msgs,
          )
