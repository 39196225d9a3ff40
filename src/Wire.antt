-- ===== src/Wire.antt =====
-- wire.hpp: integers in network byte order, and the round trips of the pairs.
-- A byte is a number below 256; a shift by k bits is a division by 2 ^ k, a mask with 0xff a
-- remainder by 256, and the `|` of bytes shifted to disjoint places is their sum.
pub mod RoundTrip
use cctas.Base.{ℕ, ◌+◌, ◌*◌, ◌/◌, ◌%◌, ◌^◌, List, [], ◌∷◌, get_or}

-- (unsigned char) ((value >> k) & 0xff)
abbrev pub byte_at : ℕ → ℕ → ℕ
byte_at k value = value / 2 ^ k % 256

unfoldable pub put_uint8 : ℕ → List ℕ
put_uint8 value = value ∷ []

unfoldable pub put_uint16 : ℕ → List ℕ
put_uint16 value = byte_at 8 value ∷ byte_at 0 value ∷ []

unfoldable pub put_uint32 : ℕ → List ℕ
put_uint32 value = byte_at 24 value ∷ byte_at 16 value ∷ byte_at 8 value ∷ byte_at 0 value ∷ []

unfoldable pub put_uint64 : ℕ → List ℕ
put_uint64 value =
    byte_at 56 value
    ∷ byte_at 48 value
    ∷ byte_at 40 value
    ∷ byte_at 32 value
    ∷ byte_at 24 value
    ∷ byte_at 16 value
    ∷ byte_at 8 value
    ∷ byte_at 0 value
    ∷ []

-- buffer_ [i]; a caller's buffer holds at least the bytes that are read.
abbrev pub at : List ℕ → ℕ → ℕ
at buffer i = get_or buffer i 0

unfoldable pub get_uint8 : List ℕ → ℕ
get_uint8 buffer = at buffer 0

unfoldable pub get_uint16 : List ℕ → ℕ
get_uint16 buffer = at buffer 0 * 2 ^ 8 + at buffer 1

unfoldable pub get_uint32 : List ℕ → ℕ
get_uint32 buffer = at buffer 0 * 2 ^ 24 + at buffer 1 * 2 ^ 16 + at buffer 2 * 2 ^ 8 + at buffer 3

unfoldable pub get_uint64 : List ℕ → ℕ
get_uint64 buffer =
    at buffer 0 * 2 ^ 56
    + at buffer 1 * 2 ^ 48
    + at buffer 2 * 2 ^ 40
    + at buffer 3 * 2 ^ 32
    + at buffer 4 * 2 ^ 24
    + at buffer 5 * 2 ^ 16
    + at buffer 6 * 2 ^ 8
    + at buffer 7
