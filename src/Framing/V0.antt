-- ===== src/Framing/V0.antt =====
-- decoder.cpp: the actions of decoder_t. (The sender's side is V0.Encoder.)
pub mod Encoder
pub mod Receive
mod Tests
use cctas.Base.{
  ℕ, zero, suc, ◌-◌, ◌%◌, ◌^◌, ◌<◌, ◌≡◌, refl, Bool, true, false, Option, none, some, List, [], ◌∷◌,
  if◌then◌else◌, ◌==◌, leb, ltb, arith,
}
use cctas.Wire.{at, get_uint64}
use cctas.Framing.{Msg, Pushed, accepted, again, refused, Env, more_bit, too_large, init_size_ok}
use cctas.Framing.Decoder.{Base, Machine, next_step, decoding_error}

-- the member functions of decoder_t that `next` points to
pub data Step : Type 0 where
  one_byte_size_ready eight_byte_size_ready flags_ready message_ready : Step

-- msg_sink (none for NULL), and the flags and the size that in_progress was initialised with.
pub record Parts (S : Type 0) : Type 0 where
  pub msg_sink : Option S
  pub in_flags : ℕ
  pub in_size : ℕ

abbrev pub State : Type 0 → Type 0
State S = Base Step (Parts S)

abbrev pub rank : Step → ℕ
rank one_byte_size_ready = 0
rank eight_byte_size_ready = 0
rank flags_ready = 1
rank message_ready = 0

pub rank_lt_two : (s : Step) → rank s < 2
rank_lt_two one_byte_size_ready = omega arith
rank_lt_two eight_byte_size_ready = omega arith
rank_lt_two flags_ready = omega arith
rank_lt_two message_ready = omega arith

module _ {S : Type 0} where
  -- the constructor, and set_msg_sink
  unfoldable pub decoder : Option S → State S
  decoder sink = record {
    next = some one_byte_size_ready;
    filled = [];
    to_read = 1;
    derived = record { msg_sink = sink; in_flags = 0; in_size = 0 };
  }

  pub set_msg_sink : Option S → State S → State S
  set_msg_sink sink b = record b { derived = record (b.derived) { msg_sink = sink } }

  -- what follows in_progress.init_size in both size actions, by whether it succeeded
  abbrev start_body : Bool → ℕ → State S → Bool × State S
  start_body ok size b =
      if ok
      then (
        true,
        next_step 1 flags_ready
            (record b { derived = record (b.derived) { in_flags = 0; in_size = size } }),
      )
      else (
        false,
        decoding_error (record b { derived = record (b.derived) { in_flags = 0; in_size = 0 } }),
      )

  abbrev on_one_byte_size_ready : Env S → State S → Bool × State S
  on_one_byte_size_ready e b =
      let size = at b.filled 0 in
      if size == 255
      then (true, next_step 8 eight_byte_size_ready b)
      else if size == 0
      then (false, decoding_error b)
      else start_body (if too_large e (size - 1) then false else init_size_ok e (size - 1))
          (size - 1) b

  -- size_t has 64 bits
  abbrev on_eight_byte_size_ready : Env S → State S → Bool × State S
  on_eight_byte_size_ready e b =
      let length = get_uint64 b.filled in
      if length == 0
      then (false, decoding_error b)
      else if too_large e (length - 1)
      then (false, decoding_error b)
      else if ltb (2 ^ 64 - 1) (length - 1)
      then (false, decoding_error b)
      else start_body (init_size_ok e ((length - 1) % 2 ^ 64)) ((length - 1) % 2 ^ 64) b

  abbrev on_flags_ready : State S → Bool × State S
  on_flags_ready b = (
    true,
    next_step b.derived.in_size message_ready
        (record b { derived = record (b.derived) { in_flags = more_bit (at b.filled 0) } }),
  )

  -- A sink that took the message leaves in_progress as a 0-byte message.
  abbrev after_push : State S → Pushed × S → Bool × State S
  after_push b (accepted, s) = (
    true,
    next_step 1 one_byte_size_ready
        (record b { derived = record { msg_sink = some s; in_flags = 0; in_size = 0 } }),
  )
  after_push b (again, s) = (false, record b { derived = record (b.derived) { msg_sink = some s } })
  after_push b (refused, s) =
      (false, decoding_error (record b { derived = record (b.derived) { msg_sink = some s } }))

  abbrev on_message_ready : Env S → State S → Bool × State S
  on_message_ready e b = elim b.derived.msg_sink [
    | none ↦ (false, b)
    | some s ↦ after_push b (e.push s (record { flags = b.derived.in_flags; body = b.filled }))
  ]

  pub action : Env S → Step → State S → Bool × State S
  action e one_byte_size_ready b = on_one_byte_size_ready e b
  action e eight_byte_size_ready b = on_eight_byte_size_ready e b
  action e flags_ready b = on_flags_ready b
  action e message_ready b = on_message_ready e b

  -- Only flags_ready can ask for no bytes: message_ready is next.
  pub rank_falls :
      (e : Env S) (s : Step) (b : State S)
      → (action e s b).0 ≡ true
      → (action e s b).1.to_read ≡ 0
      → (t : Step) × ((action e s b).1.next ≡ some t) × (rank t < rank s)
  unfolding action
  rank_falls e one_byte_size_ready b h h' = absurd (ground arith)
  rank_falls e eight_byte_size_ready b h h' = absurd (ground arith)
  rank_falls e flags_ready b h h' = (message_ready, refl, omega arith)
  rank_falls e message_ready b h h' = absurd (ground arith)

  abbrev pub machine : Env S → Machine Step (Parts S)
  machine e = record {
    action = action e;
    rank = rank;
    bound = 2;
    rank_lt = rank_lt_two;
    falls = rank_falls e;
  }
