-- ===== src/Framing/V1.antt =====
-- v1_decoder.cpp: the actions of v1_decoder_t. (The sender's side is V1.Encoder.)
pub mod Encoder
pub mod Receive
pub mod Transfer
pub mod Reject
use cctas.Base.{
  ℕ, zero, suc, ◌%◌, ◌^◌, ◌<◌, ◌≡◌, refl, Bool, true, false, Option, none, some, List, [], ◌∷◌,
  if◌then◌else◌, ◌==◌, arith, not,
}
use cctas.Wire.{at, get_uint64}
use cctas.Framing.{
  Msg, Pushed, accepted, again, refused, Env, Parts, bit_0, bit_1, too_large, init_size_ok,
}
use cctas.Framing.Decoder.{Base, Machine, next_step, decoding_error}

-- the member functions of v1_decoder_t that `next` points to
pub data Step : Type 0 where
  flags_ready one_byte_size_ready eight_byte_size_ready message_ready : Step

abbrev pub State : Type 0 → Type 0
State S = Base Step (Parts S)

abbrev pub rank : Step → ℕ
rank flags_ready = 0
rank one_byte_size_ready = 1
rank eight_byte_size_ready = 1
rank message_ready = 0

pub rank_lt_two : (s : Step) → rank s < 2
rank_lt_two flags_ready = omega arith
rank_lt_two one_byte_size_ready = omega arith
rank_lt_two eight_byte_size_ready = omega arith
rank_lt_two message_ready = omega arith

module _ {S : Type 0} where
  -- the constructor, and set_msg_sink
  pub v1_decoder : Option S → State S
  v1_decoder sink = record {
    next = some flags_ready;
    filled = [];
    to_read = 1;
    derived = record { msg_sink = sink; msg_flags = 0; in_flags = 0; in_size = 0 };
  }

  pub set_msg_sink : Option S → State S → State S
  set_msg_sink sink b = record b { derived = record (b.derived) { msg_sink = sink } }

  abbrev on_flags_ready : State S → Bool × State S
  on_flags_ready b =
      let flags = at b.filled 0 in
      let c = record b {
        derived = record (b.derived) { msg_flags = if bit_0 flags then 1 else 0 };
      } in
      (
        true,
        if bit_1 flags
            then next_step 8 eight_byte_size_ready c
            else next_step 1 one_byte_size_ready c,
      )

  -- in_progress.init_size and what follows it in both size actions
  abbrev start_body : Env S → ℕ → State S → Bool × State S
  start_body e size b =
      if init_size_ok e size
      then (
        true,
        next_step size message_ready (record b {
          derived = record (b.derived) { in_flags = b.derived.msg_flags; in_size = size };
        }),
      )
      else (
        false,
        decoding_error (record b { derived = record (b.derived) { in_flags = 0; in_size = 0 } }),
      )

  abbrev on_one_byte_size_ready : Env S → State S → Bool × State S
  on_one_byte_size_ready e b =
      let size = at b.filled 0 in
      if too_large e size then (false, decoding_error b) else start_body e size b

  -- size_t has 64 bits
  abbrev on_eight_byte_size_ready : Env S → State S → Bool × State S
  on_eight_byte_size_ready e b =
      let size = get_uint64 b.filled in
      if too_large e size
      then (false, decoding_error b)
      else if not (size % 2 ^ 64 == size)
      then (false, decoding_error b)
      else start_body e (size % 2 ^ 64) b

  -- A sink that took the message leaves in_progress as a 0-byte message.
  abbrev after_push : State S → Pushed × S → Bool × State S
  after_push b (accepted, s) = (
    true,
    next_step 1 flags_ready (record b {
      derived = record (b.derived) { msg_sink = some s; in_flags = 0; in_size = 0 };
    }),
  )
  after_push b (again, s) = (false, record b { derived = record (b.derived) { msg_sink = some s } })
  after_push b (refused, s) =
      (false, decoding_error (record b { derived = record (b.derived) { msg_sink = some s } }))

  abbrev on_message_ready : Env S → State S → Bool × State S
  on_message_ready e b = elim b.derived.msg_sink [
    | none ↦ (false, b)
    | some s ↦ after_push b (e.push s (record { flags = b.derived.in_flags; body = b.filled }))
  ]

  pub action : Env S → Step → State S → Bool × State S
  action e flags_ready b = on_flags_ready b
  action e one_byte_size_ready b = on_one_byte_size_ready e b
  action e eight_byte_size_ready b = on_eight_byte_size_ready e b
  action e message_ready b = on_message_ready e b

  -- Only a size action can ask for no bytes and succeed: message_ready is next.
  pub rank_falls :
      (e : Env S) (s : Step) (b : State S)
      → (action e s b).0 ≡ true
      → (action e s b).1.to_read ≡ 0
      → (t : Step) × ((action e s b).1.next ≡ some t) × (rank t < rank s)
  unfolding action
  rank_falls e flags_ready b h h' = absurd (ground arith)
  rank_falls e one_byte_size_ready b h h' = (message_ready, ground arith, omega arith)
  rank_falls e eight_byte_size_ready b h h' = (message_ready, ground arith, omega arith)
  rank_falls e message_ready b h h' = absurd (ground arith)

  abbrev pub machine : Env S → Machine Step (Parts S)
  machine e = record {
    action = action e;
    rank = rank;
    bound = 2;
    rank_lt = rank_lt_two;
    falls = rank_falls e;
  }
