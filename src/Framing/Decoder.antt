-- ===== src/Framing/Decoder.antt =====
-- decoder.hpp: decoder_base_t, the state machine that cuts the incoming bytes for a derived class.
-- The derived class is an interface: its actions, and a rank which shows that actions that ask for
-- no bytes cannot follow one another for ever.
pub mod Bytewise
pub mod Drain
pub mod Feeding
use cctas.Base.{
  ℕ, zero, suc, ◌+◌, ◌-◌, ◌<◌, min, ◌≡◌, Bool, true, false, Option, none, some, List, [], ◌∷◌, ◌++◌,
  take, drop, length, if◌then◌else◌, ◌==◌, leb,
}

-- The fields of decoder_base_t. `filled` holds what was copied through read_pos since the last
-- next_step, so read_pos is its end; `derived` is the rest of the derived object.
pub record Base (Step : Type 0) (D : Type 0) : Type 0 where
  pub next : Option Step
  pub filled : List ℕ
  pub to_read : ℕ
  pub derived : D

-- The member functions that `next` may point to, and what every derived class ensures of them.
pub record Machine (Step : Type 0) (D : Type 0) : Type 0 where
  pub action : Step → Base Step D → Bool × Base Step D
  pub rank : Step → ℕ
  pub bound : ℕ
  pub rank_lt : (s : Step) → rank s < bound
  pub falls :
      (s : Step) (b : Base Step D)
      → (action s b).0 ≡ true
      → (action s b).1.to_read ≡ 0
      → (t : Step) × ((action s b).1.next ≡ some t) × (rank t < rank s)

-- next_step
abbrev pub next_step : {Step : Type 0} {D : Type 0} → ℕ → Step → Base Step D → Base Step D
next_step n s b = record b { filled = []; to_read = n; next = some s }

-- decoding_error
abbrev pub decoding_error : {Step : Type 0} {D : Type 0} → Base Step D → Base Step D
decoding_error b = record b { next = none }

module _ {Step : Type 0} {D : Type 0} where
  -- memcpy (read_pos, ...) and the updates of read_pos and to_read behind it
  abbrev pub copy_in : Base Step D → List ℕ → Base Step D
  copy_in b bytes = record b { filled = b.filled ++ bytes; to_read = b.to_read - length bytes }

  -- what a failed action makes of the call: (size_t) -1, here none, or the bytes processed
  abbrev pub stopped : ℕ → Base Step D → Option ℕ × Base Step D
  stopped pos b = (elim b.next [ none ↦ none | some s ↦ some pos ], b)

  -- get_buffer: whether the caller fills the message itself (zero-copy), and the room it is given
  pub get_buffer : ℕ → Base Step D → Bool × ℕ
  get_buffer bufsize b = if leb bufsize b.to_read then (true, b.to_read) else (false, bufsize)

module _ {Step : Type 0} {D : Type 0} (m : Machine Step D) where
  -- (static_cast <T*> (this)->*next) ()
  pub run_next : Base Step D → Bool × Base Step D
  run_next b = elim b.next [ none ↦ (false, b) | some s ↦ m.action s b ]

  -- while (!to_read) if (!next ()) ...: false if an action failed
  pub drain_loop : ℕ → Base Step D → Bool × Base Step D
  drain_loop zero b = (false, b)
  drain_loop (suc fuel) b =
      let rest = drain_loop fuel (run_next b).1 in
      if b.to_read == 0
      then (if (run_next b).0 then rest else (false, (run_next b).1))
      else (true, b)

  pub drain : Base Step D → Bool × Base Step D
  drain b = drain_loop (suc m.bound) b

  -- the loop of process_buffer over what is left of the data
  pub process_loop : ℕ → Base Step D → List ℕ → ℕ → Option ℕ × Base Step D
  process_loop zero b input pos = (some pos, b)
  process_loop (suc fuel) b input pos =
      let (space, b1) = drain b in
      let to_copy = min b1.to_read (length input) in
      let rest =
        process_loop fuel (copy_in b1 (take to_copy input)) (drop to_copy input) (pos + to_copy) in
      if space then elim input [ [] ↦ (some pos, b1) | _ ∷ _ ↦ rest ] else stopped pos b1

  -- process_buffer on data that stand in the decoder's own buffer
  pub process_buffer : Base Step D → List ℕ → Option ℕ × Base Step D
  process_buffer b input = elim b.next [
    | none ↦ (none, b)
    | some s ↦ process_loop (suc (length input)) b input 0
  ]

  -- process_buffer on data that the caller has put at read_pos
  pub process_in_place : Base Step D → List ℕ → Option ℕ × Base Step D
  process_in_place b input = elim b.next [
    | none ↦ (none, b)
    | some s ↦
        let (space, b1) = drain (copy_in b input) in
        if space then (some (length input), b1) else stopped (length input) b1
  ]

  -- stalled: the decoder has all it asked for and cannot go on
  pub stalled : Base Step D → Bool × Base Step D
  stalled b = elim b.next [
    | none ↦ (false, b)
    | some s ↦
        let (space, b1) = drain b in
        (if space then false else elim b1.next [ none ↦ false | some s' ↦ true ], b1)
  ]
