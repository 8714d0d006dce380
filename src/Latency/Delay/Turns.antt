-- ===== src/Latency/Delay/Turns.antt =====
-- The loop of t_pub_delay.rs, and the handler of t_sub_delay.rs on all that it sent: the transport is
-- reliable and hands the messages over in order.
use zenoh_perf.Base.{
  ℕ, ◌+◌, ◌-◌, ◌%◌, ◌^◌, ◌≤◌, ◌<◌, ◌≡◌, refl, List, [], ◌∷◌, map, arith, length, Outcome, done,
  ◌>>=◌, bind_done,
}
use zenoh_perf.Proto.{ZBufIo, ZenohMessage}
use zenoh_perf.Latency.Delay.{stamped_message, DelayLine, handle_message, delay_exact}

module _ (io : ZBufIo) where
  open io use {ZBuf}

  -- A turn for each system time, from `count` on.
  unfoldable pub publish_turns : ℕ → ℕ → List ℕ → Outcome (List (ZenohMessage ZBuf))
  publish_turns size count [] = done []
  publish_turns size count (now ∷ nows) = do
    message ← stamped_message io size count now
    later ← publish_turns size ((count + 1) % 2 ^ 64) nows
    done (message ∷ later)

  -- The lines for the messages that have arrived, each at its time.
  unfoldable pub handle_turns : List (ZenohMessage ZBuf) → List ℕ → Outcome (List (DelayLine io))
  handle_turns [] times = done []
  handle_turns (message ∷ messages) [] = done []
  handle_turns (message ∷ messages) (now ∷ nows) = do
    line ← handle_message io message.body now
    lines ← handle_turns messages nows
    done (line ∷ lines)

  -- Each message arrives after it was sent, by the clocks, and within 2^64 ns.
  abbrev pub Timely : List (ℕ × ℕ) → Type 0
  Timely [] = Unit
  Timely ((sent, arrived) ∷ stamps) =
      ((sent ≤ arrived) × (arrived < 2 ^ 128) × (arrived < sent + 2 ^ 64)) × Timely stamps

  abbrev pub lines_of : ℕ → ℕ → List (ℕ × ℕ) → List (DelayLine io)
  lines_of size count [] = []
  lines_of size count ((sent, arrived) ∷ stamps) =
      record { bytes = size; seq = count; time = arrived - sent } ∷ lines_of size (count + 1) stamps

  -- The subscriber prints a line for each turn of the publisher, in order: its payload option, its
  -- number, and how long it took, when the clocks agree. The payload option has room for the stamps
  -- and can be allocated, and the numbers stay below 2^64.
  pub delays_in_order :
      (size count : ℕ) (stamps : List (ℕ × ℕ))
      → 24 ≤ size
      → size < 2 ^ 63
      → count + length stamps < 2 ^ 64
      → Timely stamps
      → (sent : List (ZenohMessage ZBuf)) × (publish_turns size count (map (λ s. s.0) stamps)
          ≡ done sent)
        × (handle_turns sent (map (λ s. s.1) stamps) ≡ done (lines_of size count stamps))
  unfolding publish_turns handle_turns
  delays_in_order size count [] lo hi room timely = ([], refl, refl)
  delays_in_order size count ((sent, arrived) ∷ stamps) lo hi room ((h1, h2, h3), timely) =
      let exact = delay_exact io size count sent arrived lo hi (omega arith) h1 h2 h3 in
      let (message, made, printed) = bind_done (stamped_message io size count sent) _ _ exact in
      let (later, e, lines) = delays_in_order size (count + 1) stamps lo hi (omega arith) timely in
      (message ∷ later, ground (arith, made, e), ground (arith, printed, lines))
