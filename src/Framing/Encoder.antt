-- ===== src/Framing/Encoder.antt =====
-- encoder.hpp: encoder_base_t, which fills outgoing buffers from the actions of a derived class.
pub mod Stream
pub mod Framed
use cctas.Base.{
  ℕ, zero, suc, ◌+◌, ◌-◌, ◌*◌, ◌<◌, min, ◌≡◌, Bool, true, false, not, ◌&&◌, Option, none, some,
  List, [], ◌∷◌, ◌++◌, take, drop, length, if◌then◌else◌, ◌==◌, leb, ltb,
}

-- The fields of encoder_base_t: `pending` are the to_write bytes at write_pos; `next` is never NULL
-- in an encoder; `derived` is the rest of the derived object.
pub record Out (Step : Type 0) (D : Type 0) : Type 0 where
  pub next : Step
  pub pending : List ℕ
  pub beginning : Bool
  pub derived : D

-- The member functions that `next` may point to.
abbrev pub Actions : Type 0 → Type 0 → Type 0
Actions Step D = Step → Out Step D → Bool × Out Step D

-- next_step
abbrev pub next_step : {Step : Type 0} {D : Type 0} → List ℕ → Step → Bool → Out Step D → Out Step D
next_step bytes s start b = record b { pending = bytes; next = s; beginning = start }

-- *offset_ is -1, here none, until the first beginning of a message is met.
abbrev pub note_offset : {Step : Type 0} {D : Type 0} → Out Step D → ℕ → Option ℕ → Option ℕ
note_offset b pos (some o) = some o
note_offset b pos none = if length b.pending == 0 && b.beginning then some pos else none

module _ {Step : Type 0} {D : Type 0} (act : Actions Step D) where
  -- if (!to_write) and the action fails, the loop is left
  abbrev pub refill : Out Step D → Bool × Out Step D
  refill b = if length b.pending == 0 then act b.next b else (true, b)

  -- The loop of get_data; `own` says that the caller gave no buffer, `n` is buffersize, and the
  -- bytes put into the buffer so far are `buffer`, so pos is their number.
  pub get_loop : ℕ → Bool → ℕ → Out Step D → List ℕ → Option ℕ → List ℕ × Option ℕ × Out Step D
  get_loop zero own n b buffer offset = (buffer, offset, b)
  get_loop (suc fuel) own n b buffer offset =
      let pos = length buffer in
      let offset' = note_offset b pos offset in
      let c = (refill b).1 in
      let to_copy = min (length c.pending) (n - pos) in
      let rest =
        get_loop fuel own n (record c { pending = drop to_copy c.pending })
          (buffer ++ take to_copy c.pending) offset' in
      if ltb pos n
      then (if (refill b).0
          then (if own && (pos == 0) && leb n (length c.pending)
              then (c.pending, offset', record c { pending = [] })
              else rest)
          else (buffer, offset', c))
      else (buffer, offset, b)

  -- get_data: the bytes handed out, the offset of the first message that begins among them, and
  -- the encoder after it. Each round but every second adds a byte, so these rounds are enough.
  pub get_data : Bool → ℕ → Out Step D → List ℕ × Option ℕ × Out Step D
  get_data own n b = get_loop (2 * n + 2) own n b [] none

  -- has_data
  pub has_data : Out Step D → Bool
  has_data b = ltb 0 (length b.pending)

-- What a derived class promises: `later` are the bytes that it will produce from a state once the
-- pending ones are written, and an action that yields no bytes is followed by one that does.
pub record Lawful {Step : Type 0} {D : Type 0} (act : Actions Step D) : Type 0 where
  pub later : Step → D → List ℕ
  pub rank : Step → ℕ
  pub rank_lt : (s : Step) → rank s < 2
  pub keeps :
      (b : Out Step D)
      → b.pending ≡ []
      → (act b.next b).1.pending ++ later (act b.next b).1.next (act b.next b).1.derived
        ≡ later b.next b.derived
  pub falls :
      (b : Out Step D)
      → (act b.next b).0 ≡ true
      → (act b.next b).1.pending ≡ []
      → rank (act b.next b).1.next < rank b.next
  pub idle :
      (b : Out Step D)
      → (act b.next b).0 ≡ false
      → ((act b.next b).1.pending ≡ b.pending)
        × (later (act b.next b).1.next (act b.next b).1.derived ≡ [])
