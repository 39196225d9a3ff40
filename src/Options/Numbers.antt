-- ===== src/Options/Numbers.antt =====
-- The integers of options.cpp: in the two's complement of 32 or 64 bits, the lowest byte first, as
-- the machine keeps them behind optval; and the tests of the values.
use cctas.Base.{
  ℕ, ◌+◌, ◌-◌, ◌*◌, ◌/◌, ◌%◌, ◌^◌, ◌<◌, ◌≡◌, ◌==◌, ltb, Bool, true, false, List, [], ◌∷◌,
  if◌then◌else◌, arith, length, get_or, Bool-cases, inl, inr,
}

-- `negsuc n` is -(n + 1).
pub data ℤ : Type 0 where
  pos : ℕ → ℤ
  negsuc : ℕ → ℤ

-- no test
abbrev pub any_int : ℤ → Bool
any_int x = true

-- not x < 0
abbrev pub not_negative : ℤ → Bool
not_negative (pos n) = true
not_negative (negsuc n) = false

-- not x <= 0
abbrev pub is_positive : ℤ → Bool
is_positive (pos n) = ltb 0 n
is_positive (negsuc n) = false

-- not x < -1
abbrev pub at_least_minus_one : ℤ → Bool
at_least_minus_one (pos n) = true
at_least_minus_one (negsuc n) = n == 0

-- not (x != 0 && x != 1)
abbrev pub is_bit : ℤ → Bool
is_bit (pos n) = ltb n 2
is_bit (negsuc n) = false

-- not (x != -1 && x != 0 && x != 1)
abbrev pub is_bit_or_minus_one : ℤ → Bool
is_bit_or_minus_one (pos n) = ltb n 2
is_bit_or_minus_one (negsuc n) = n == 0

-- not (x <= 0 && x != -1)
abbrev pub is_positive_or_minus_one : ℤ → Bool
is_positive_or_minus_one (pos n) = ltb 0 n
is_positive_or_minus_one (negsuc n) = n == 0

-- not x
abbrev pub is_zero : ℤ → Bool
is_zero (pos n) = n == 0
is_zero (negsuc n) = false

-- The number that a word of 2 ^ w is as a signed integer, and back; `half` is 2 ^ (w - 1).
abbrev pub signed : ℕ → ℕ → ℤ
signed half n = if ltb n half then pos n else negsuc (2 * half - 1 - n)

abbrev pub unsigned : ℕ → ℤ → ℕ
unsigned half (pos n) = n % (2 * half)
unsigned half (negsuc n) = 2 * half - 1 - n

abbrev pub word32 : List ℕ → ℕ
word32 b = get_or b 0 0 + 2 ^ 8 * get_or b 1 0 + 2 ^ 16 * get_or b 2 0 + 2 ^ 24 * get_or b 3 0

abbrev pub word64 : List ℕ → ℕ
word64 b =
    get_or b 0 0
    + 2 ^ 8 * get_or b 1 0
    + 2 ^ 16 * get_or b 2 0
    + 2 ^ 24 * get_or b 3 0
    + 2 ^ 32 * get_or b 4 0
    + 2 ^ 40 * get_or b 5 0
    + 2 ^ 48 * get_or b 6 0
    + 2 ^ 56 * get_or b 7 0

abbrev pub bytes32 : ℕ → List ℕ
bytes32 n = n % 256 ∷ n / 2 ^ 8 % 256 ∷ n / 2 ^ 16 % 256 ∷ n / 2 ^ 24 % 256 ∷ []

abbrev pub bytes64 : ℕ → List ℕ
bytes64 n =
    n % 256
    ∷ n / 2 ^ 8 % 256
    ∷ n / 2 ^ 16 % 256
    ∷ n / 2 ^ 24 % 256
    ∷ n / 2 ^ 32 % 256
    ∷ n / 2 ^ 40 % 256
    ∷ n / 2 ^ 48 % 256
    ∷ n / 2 ^ 56 % 256
    ∷ []

-- *((int *) optval) as it is read, and as it is written
unfoldable pub int_of : List ℕ → ℤ
int_of bytes = signed (2 ^ 31) (word32 bytes)

unfoldable pub bytes_of_int : ℤ → List ℕ
bytes_of_int x = bytes32 (unsigned (2 ^ 31) x)

-- *((int64_t *) optval)
unfoldable pub int64_of : List ℕ → ℤ
int64_of bytes = signed (2 ^ 63) (word64 bytes)

unfoldable pub bytes_of_int64 : ℤ → List ℕ
bytes_of_int64 x = bytes64 (unsigned (2 ^ 63) x)

-- *((uint64_t *) optval)
unfoldable pub uint64_of : List ℕ → ℕ
uint64_of bytes = word64 bytes

unfoldable pub bytes_of_uint64 : ℕ → List ℕ
bytes_of_uint64 x = bytes64 x

unsigned-signed_32 : (n : ℕ) → n < 2 * 2 ^ 31 → unsigned (2 ^ 31) (signed (2 ^ 31) n) ≡ n
unsigned-signed_32 n h = elim (Bool-cases (ltb n (2 ^ 31))) [
  | inl low ↦ let small : n % (2 * 2 ^ 31) ≡ n = omega arith in rw low small
  | inr high ↦ let back : 2 * 2 ^ 31 - 1 - (2 * 2 ^ 31 - 1 - n) ≡ n = omega arith in rw high back
]

unsigned-signed_64 : (n : ℕ) → n < 2 * 2 ^ 63 → unsigned (2 ^ 63) (signed (2 ^ 63) n) ≡ n
unsigned-signed_64 n h = elim (Bool-cases (ltb n (2 ^ 63))) [
  | inl low ↦ let small : n % (2 * 2 ^ 63) ≡ n = omega arith in rw low small
  | inr high ↦ let back : 2 * 2 ^ 63 - 1 - (2 * 2 ^ 63 - 1 - n) ≡ n = omega arith in rw high back
]

-- A list of bytes.
abbrev pub Bytes : List ℕ → Type 0
Bytes [] = Unit
Bytes (b ∷ bs) = (b < 256) × Bytes bs

bytes32-word32 :
    (a b c d : ℕ)
    → a < 256
    → b < 256
    → c < 256
    → d < 256
    → let bs : List ℕ = a ∷ b ∷ c ∷ d ∷ [] in bytes32 (word32 bs) ≡ bs
bytes32-word32 a b c d ha hb hc hd = ground arith

bytes64-word64 :
    (a b c d e f g h : ℕ)
    → (a < 256) × (b < 256) × (c < 256) × (d < 256)
    → (e < 256) × (f < 256) × (g < 256) × (h < 256)
    → let bs : List ℕ = a ∷ b ∷ c ∷ d ∷ e ∷ f ∷ g ∷ h ∷ [] in bytes64 (word64 bs) ≡ bs
bytes64-word64 a b c d e f g h p q = ground arith

pub bytes_of_int-int_of : (bs : List ℕ) → length bs ≡ 4 → Bytes bs → bytes_of_int (int_of bs) ≡ bs
unfolding bytes_of_int int_of
bytes_of_int-int_of [] e _ = absurd (omega arith)
bytes_of_int-int_of (b0 ∷ []) e _ = absurd (omega arith)
bytes_of_int-int_of (b0 ∷ b1 ∷ []) e _ = absurd (omega arith)
bytes_of_int-int_of (b0 ∷ b1 ∷ b2 ∷ []) e _ = absurd (omega arith)
bytes_of_int-int_of (b0 ∷ b1 ∷ b2 ∷ b3 ∷ []) e (h0, (h1, (h2, (h3, _)))) =
    let bs : List ℕ = b0 ∷ b1 ∷ b2 ∷ b3 ∷ [] in
    let small : word32 bs < 2 * 2 ^ 31 = omega arith in
    rw (unsigned-signed_32 (word32 bs) small) (bytes32-word32 b0 b1 b2 b3 h0 h1 h2 h3)
bytes_of_int-int_of (b0 ∷ b1 ∷ b2 ∷ b3 ∷ b ∷ bs) e _ = absurd (omega arith)

pub bytes_of_int64-int64_of :
    (bs : List ℕ) → length bs ≡ 8 → Bytes bs → bytes_of_int64 (int64_of bs) ≡ bs
unfolding bytes_of_int64 int64_of
bytes_of_int64-int64_of [] e _ = absurd (omega arith)
bytes_of_int64-int64_of (b0 ∷ []) e _ = absurd (omega arith)
bytes_of_int64-int64_of (b0 ∷ b1 ∷ []) e _ = absurd (omega arith)
bytes_of_int64-int64_of (b0 ∷ b1 ∷ b2 ∷ []) e _ = absurd (omega arith)
bytes_of_int64-int64_of (b0 ∷ b1 ∷ b2 ∷ b3 ∷ []) e _ = absurd (omega arith)
bytes_of_int64-int64_of (b0 ∷ b1 ∷ b2 ∷ b3 ∷ b4 ∷ []) e _ = absurd (omega arith)
bytes_of_int64-int64_of (b0 ∷ b1 ∷ b2 ∷ b3 ∷ b4 ∷ b5 ∷ []) e _ = absurd (omega arith)
bytes_of_int64-int64_of (b0 ∷ b1 ∷ b2 ∷ b3 ∷ b4 ∷ b5 ∷ b6 ∷ []) e _ = absurd (omega arith)
bytes_of_int64-int64_of (b0 ∷ b1 ∷ b2 ∷ b3 ∷ b4 ∷ b5 ∷ b6 ∷ b7 ∷ []) e
      (h0, (h1, (h2, (h3, (h4, (h5, (h6, (h7, _)))))))) =
    let bs : List ℕ = b0 ∷ b1 ∷ b2 ∷ b3 ∷ b4 ∷ b5 ∷ b6 ∷ b7 ∷ [] in
    let small : word64 bs < 2 * 2 ^ 63 = omega arith in
    rw (unsigned-signed_64 (word64 bs) small)
      (bytes64-word64 b0 b1 b2 b3 b4 b5 b6 b7 (h0, h1, h2, h3) (h4, h5, h6, h7))
bytes_of_int64-int64_of (b0 ∷ b1 ∷ b2 ∷ b3 ∷ b4 ∷ b5 ∷ b6 ∷ b7 ∷ b ∷ bs) e _ = absurd (omega arith)

pub bytes_of_uint64-uint64_of :
    (bs : List ℕ) → length bs ≡ 8 → Bytes bs → bytes_of_uint64 (uint64_of bs) ≡ bs
unfolding bytes_of_uint64 uint64_of
bytes_of_uint64-uint64_of [] e _ = absurd (omega arith)
bytes_of_uint64-uint64_of (b0 ∷ []) e _ = absurd (omega arith)
bytes_of_uint64-uint64_of (b0 ∷ b1 ∷ []) e _ = absurd (omega arith)
bytes_of_uint64-uint64_of (b0 ∷ b1 ∷ b2 ∷ []) e _ = absurd (omega arith)
bytes_of_uint64-uint64_of (b0 ∷ b1 ∷ b2 ∷ b3 ∷ []) e _ = absurd (omega arith)
bytes_of_uint64-uint64_of (b0 ∷ b1 ∷ b2 ∷ b3 ∷ b4 ∷ []) e _ = absurd (omega arith)
bytes_of_uint64-uint64_of (b0 ∷ b1 ∷ b2 ∷ b3 ∷ b4 ∷ b5 ∷ []) e _ = absurd (omega arith)
bytes_of_uint64-uint64_of (b0 ∷ b1 ∷ b2 ∷ b3 ∷ b4 ∷ b5 ∷ b6 ∷ []) e _ = absurd (omega arith)
bytes_of_uint64-uint64_of (b0 ∷ b1 ∷ b2 ∷ b3 ∷ b4 ∷ b5 ∷ b6 ∷ b7 ∷ []) e
      (h0, (h1, (h2, (h3, (h4, (h5, (h6, (h7, _)))))))) =
    bytes64-word64 b0 b1 b2 b3 b4 b5 b6 b7 (h0, h1, h2, h3) (h4, h5, h6, h7)
bytes_of_uint64-uint64_of (b0 ∷ b1 ∷ b2 ∷ b3 ∷ b4 ∷ b5 ∷ b6 ∷ b7 ∷ b ∷ bs) e _ =
    absurd (omega arith)
