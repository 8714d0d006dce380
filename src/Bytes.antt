-- ===== src/Bytes.antt =====
-- Byte strings of the Rust standard library: `to_le_bytes` and `from_le_bytes` of the unsigned
-- integers, `copy_from_slice` into a range, and `read_exact` of `std::io::Read` on a slice.
-- A byte string is a list of numbers below 256, and a width counts bytes: u16 is 2, u64 is 8.
use native.Mathlib.Nat.{pow-suc}
use zenoh_perf.Base.{
  ℕ, zero, suc, ◌+◌, ◌*◌, ◌/◌, ◌%◌, ◌^◌, ◌<◌, ◌≡◌, refl, ap, Option, none, some, List, [], ◌∷◌,
  ◌++◌, arith, length, take, drop, leb, take-append, drop-append, length-append, Outcome, done,
  panic, slice_range, if◌then◌else◌,
}

unfoldable pub to_le_bytes : ℕ → ℕ → List ℕ
to_le_bytes zero n = []
to_le_bytes (suc w) n = (n % 256) ∷ to_le_bytes w (n / 256)

pub from_le_bytes : List ℕ → ℕ
from_le_bytes [] = 0
from_le_bytes (b ∷ bs) = b + 256 * from_le_bytes bs

pub length-to_le_bytes : (w n : ℕ) → length (to_le_bytes w n) ≡ w
unfolding to_le_bytes
length-to_le_bytes zero n = refl
length-to_le_bytes (suc w) n = ap suc (length-to_le_bytes w (n / 256))

-- The bytes of a number that fits the width read back as that number.
pub from_le_bytes-to_le_bytes : (w n : ℕ) → n < 256 ^ w → from_le_bytes (to_le_bytes w n) ≡ n
unfolding to_le_bytes from_le_bytes
from_le_bytes-to_le_bytes zero n h = omega arith
from_le_bytes-to_le_bytes (suc w) n h =
    omega (arith, from_le_bytes-to_le_bytes w (n / 256) (omega (arith, pow-suc 256 w)))

-- The next `n` bytes of a slice and what follows them; `none` is `UnexpectedEof`.
unfoldable pub read_exact : ℕ → List ℕ → Option (List ℕ × List ℕ)
read_exact n bytes = if leb n (length bytes) then some (take n bytes, drop n bytes) else none

pub read_exact-append :
    (n : ℕ) (front rest : List ℕ)
    → length front ≡ n
    → read_exact n (front ++ rest) ≡ some (front, rest)
unfolding read_exact
read_exact-append n front rest h =
    ground (arith, length-append front rest, take-append front rest n h, drop-append front rest n h)

-- `buf[at..at + length bytes].copy_from_slice(bytes)`
unfoldable pub copy_from_slice : ℕ → List ℕ → List ℕ → Outcome (List ℕ)
copy_from_slice at bytes buf =
    if leb (at + length bytes) (length buf)
    then done (take at buf ++ (bytes ++ drop (at + length bytes) buf))
    else panic slice_range
