-- ===== src/Framing.antt =====
-- The wire framing of messages: encoder.hpp, decoder.hpp and the framings of versions 0 and 1.
-- Decoder and Encoder are the two base class templates; V0 is
-- encoder.cpp and decoder.cpp, V1 is v1_encoder.cpp and v1_decoder.cpp.
pub mod Decoder
pub mod Encoder
pub mod V0
pub mod V1
mod Tests
use cctas.Base.{
  ℕ, ◌%◌, ◌/◌, Bool, true, false, Option, none, some, List, [], if◌then◌else◌, ◌==◌, ltb, leb,
  length,
}

-- The part of msg_t that framing reads and writes: the flags byte and the data.
pub record Msg : Type 0 where
  pub flags : ℕ
  pub body : List ℕ

-- x & 1 and x & 2 of a byte x, as tests; msg_t::more is 1.
abbrev pub bit_0 : ℕ → Bool
bit_0 x = x % 2 == 1

abbrev pub bit_1 : ℕ → Bool
bit_1 x = x / 2 % 2 == 1

-- flags & msg_t::more
abbrev pub more_bit : ℕ → ℕ
more_bit flags = flags % 2

-- the result of i_msg_sink::push_msg: 0, -1 with EAGAIN, or -1 with another errno
pub data Pushed : Type 0 where
  accepted again refused : Pushed

-- What a decoder is given. `S` is the state of the i_msg_sink object (the session); `malloc_ok`
-- says whether malloc serves a message of that size; `maxmsgsize` is none for a negative value,
-- which stands for no limit.
pub record Env (S : Type 0) : Type 0 where
  pub push : S → Msg → Pushed × S
  pub malloc_ok : ℕ → Bool
  pub maxmsgsize : Option ℕ

-- The members of a decoder beside those of its base: msg_sink (none for NULL), msg_flags, and
-- the flags and the size that in_progress was initialised with.
pub record Parts (S : Type 0) : Type 0 where
  pub msg_sink : Option S
  pub msg_flags : ℕ
  pub in_flags : ℕ
  pub in_size : ℕ

module _ {S : Type 0} where
  -- maxmsgsize >= 0 && size > maxmsgsize
  abbrev pub too_large : Env S → ℕ → Bool
  too_large e size = elim e.maxmsgsize [ none ↦ false | some limit ↦ ltb limit size ]

  -- msg_t::init_size returns 0: sizes up to max_vsm_size need no memory.
  abbrev pub init_size_ok : Env S → ℕ → Bool
  init_size_ok e size = if leb size 29 then true else e.malloc_ok size
