-- ===== src/Wire/RoundTrip.antt =====
-- The pairs of wire.hpp are inverse to one another, whatever follows in the buffer.
use cctas.Base.{ℕ, ◌^◌, ◌<◌, ◌≡◌, refl, List, [], ◌∷◌, ◌++◌, arith, length, append-nil}
use cctas.Wire.{
  put_uint8, put_uint16, put_uint32, put_uint64, get_uint8, get_uint16, get_uint32, get_uint64,
}

-- What each put_ function writes its get_ function reads back, for values of the type's width and
-- with any bytes behind them.
pub get-put :
    (v8 v16 v32 v64 : ℕ) (rest : List ℕ)
    → v16 < 2 ^ 16
    → v32 < 2 ^ 32
    → v64 < 2 ^ 64
    → (get_uint8 (put_uint8 v8 ++ rest) ≡ v8)
      × (get_uint16 (put_uint16 v16 ++ rest) ≡ v16)
      × (get_uint32 (put_uint32 v32 ++ rest) ≡ v32)
      × (get_uint64 (put_uint64 v64 ++ rest) ≡ v64)
unfolding put_uint8 put_uint16 put_uint32 put_uint64 get_uint8 get_uint16 get_uint32 get_uint64
get-put v8 v16 v32 v64 rest h16 h32 h64 = (refl, omega arith, omega arith, omega arith)

pub get_uint64-put_uint64 :
    (v : ℕ) (rest : List ℕ) → v < 2 ^ 64 → get_uint64 (put_uint64 v ++ rest) ≡ v
get_uint64-put_uint64 v rest h = (get-put 0 0 0 v rest (omega arith) (omega arith) h).3

pub length-put_uint64 : (v : ℕ) → length (put_uint64 v) ≡ 8
unfolding put_uint64
length-put_uint64 v = refl

pub get_uint64-put_uint64_end : (v : ℕ) → v < 2 ^ 64 → get_uint64 (put_uint64 v) ≡ v
get_uint64-put_uint64_end v h = rw (append-nil (put_uint64 v)) at (get_uint64-put_uint64 v [] h)

-- Eight bytes from the wire are the bytes of the number that get_uint64 makes of them.
pub put_uint64-get_uint64 :
    (a b c d e f g h : ℕ) (rest : List ℕ)
    → (a < 256) × (b < 256) × (c < 256) × (d < 256)
    → (e < 256) × (f < 256) × (g < 256) × (h < 256)
    → let bytes = a ∷ b ∷ c ∷ d ∷ e ∷ f ∷ g ∷ h ∷ [] in
      (put_uint64 (get_uint64 (bytes ++ rest)) ≡ bytes) × (get_uint64 (bytes ++ rest) < 2 ^ 64)
unfolding put_uint64 get_uint64
put_uint64-get_uint64 a b c d e f g h rest p q = (ground arith, omega arith)
