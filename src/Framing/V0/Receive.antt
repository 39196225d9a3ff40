-- ===== src/Framing/V0/Receive.antt =====
-- A v0 decoder reads back what a v0 encoder writes.
use cctas.Base.{
  ℕ, ◌+◌, ◌-◌, ◌%◌, ◌^◌, ◌<◌, ◌≡◌, refl, sym, ap, ap₂, ◌∙◌, subst, Bool, true, false, some, List,
  [], ◌∷◌, ◌++◌, length, ◌==◌, ltb, arith, append_assoc, Bool-cases, inl, inr, length-append,
}
use cctas.Wire.{put_uint64, get_uint64}
use cctas.Wire.RoundTrip.{get_uint64-put_uint64_end, length-put_uint64}
use cctas.Framing.{Msg, accepted, Env, more_bit, too_large, init_size_ok}
use cctas.Framing.Decoder.{copy_in, process_buffer}
use cctas.Framing.Decoder.Bytewise.{feed, feed_waiting, process_buffer-feed}
use cctas.Framing.Decoder.Feeding.{feed_chunk, feed_next}
use cctas.Framing.Encoder.{get_data}
use cctas.Framing.Encoder.Framed
use cctas.Framing.V0.{
  Step, State, decoder, action, machine, flags_ready, one_byte_size_ready, eight_byte_size_ready,
  message_ready,
}
use cctas.Framing.V0.Encoder
use cctas.Framing.V0.Encoder.{header, frame, frames, header-ne-nil}

abbrev on_wire : Msg → Msg
on_wire m = record { flags = more_bit m.flags; body = m.body }

pub header_small :
    (m : Msg)
    → ltb 253 (length m.body) ≡ false
    → header m ≡ (length m.body + 1) ∷ more_bit m.flags ∷ []
unfolding header
header_small m h =
    let same : (length m.body + 1) % 2 ^ 64 ≡ length m.body + 1 = ground (arith, h) in
    let small : ltb (length m.body + 1) 255 ≡ true = ground (arith, h) in rw (same, small) refl

pub header_large :
    (m : Msg)
    → length m.body + 1 < 2 ^ 64
    → ltb 253 (length m.body) ≡ true
    → header m ≡ 255 ∷ (put_uint64 (length m.body + 1) ++ (more_bit m.flags ∷ []))
unfolding header
header_large m fits h =
    let same : (length m.body + 1) % 2 ^ 64 ≡ length m.body + 1 = omega arith in
    let large : ltb (length m.body + 1) 255 ≡ false = ground (arith, h) in rw (same, large) refl

module _ {S : Type 0} (e : Env S) where
  -- A message that this receiver has room for; the size on the wire counts the flags byte.
  pub record Fits (m : Msg) : Type 0 where
    pub representable : length m.body + 1 < 2 ^ 64
    pub allowed : too_large e (length m.body) ≡ false
    pub allocated : init_size_ok e (length m.body) ≡ true

  -- The sink takes the messages in this order, going from its first state to its last.
  abbrev pub Delivers : S → List Msg → S → Type 0
  Delivers s [] s' = s ≡ s'
  Delivers s (m ∷ ms) s' =
      Fits m × ((t : S) × (e.push s (on_wire m) ≡ (accepted, t)) × Delivers t ms s')

  -- A state that waits for n bytes for a step.
  abbrev waiting : Step → ℕ → S → ℕ → ℕ → State S
  waiting step n s f size = record {
    next = some step;
    filled = [];
    to_read = n;
    derived = record { msg_sink = some s; in_flags = f; in_size = size };
  }

  -- Between two messages.
  abbrev pub between : S → State S
  between s = waiting one_byte_size_ready 1 s 0 0

  feed_body :
      (m : Msg) (s t : S) (rest : List ℕ) (pos : ℕ)
      → e.push s (on_wire m) ≡ (accepted, t)
      → feed
          (machine e)
          (waiting flags_ready 1 s 0 (length m.body))
          (more_bit m.flags ∷ (m.body ++ rest))
          pos
        ≡ feed (machine e) (between t) rest (pos + 1 + length m.body)
  unfolding action
  feed_body m s t rest pos took =
      let n = length m.body in
      let one : more_bit (more_bit m.flags) ≡ more_bit m.flags = omega arith in
      feed_chunk (machine e) (waiting flags_ready 1 s 0 n) (more_bit m.flags ∷ []) (m.body ++ rest)
        pos (omega arith)
      ∙ feed_next (machine e) flags_ready _ (waiting message_ready n s (more_bit m.flags) n)
          (m.body ++ rest) (pos + 1) refl refl (rw one refl)
      ∙ feed_chunk (machine e) (waiting message_ready n s (more_bit m.flags) n) m.body rest
          (pos + 1) (omega arith)
      ∙ feed_next (machine e) message_ready _ _ rest (pos + 1 + n) (omega arith) refl (rw took)

  feed_small :
      (m : Msg) (s : S) (rest : List ℕ) (pos : ℕ)
      → Fits m
      → ltb 253 (length m.body) ≡ false
      → feed (machine e) (between s) ((length m.body + 1) ∷ rest) pos
        ≡ feed (machine e) (waiting flags_ready 1 s 0 (length m.body)) rest (pos + 1)
  unfolding action
  feed_small m s rest pos fits small =
      let n = length m.body in
      let not_escape : (n + 1 == 255) ≡ false = ground (arith, small) in
      let some_byte : (n + 1 == 0) ≡ false = ground arith in
      let back : n + 1 - 1 ≡ n = omega arith in
      feed_chunk (machine e) (between s) ((n + 1) ∷ []) rest pos (omega arith)
      ∙ feed_next (machine e) one_byte_size_ready _ _ rest (pos + 1) refl refl
          (rw (not_escape, some_byte, back, fits.allowed, fits.allocated))

  feed_large :
      (m : Msg) (s : S) (rest : List ℕ) (pos : ℕ)
      → Fits m
      → feed (machine e) (between s) (255 ∷ (put_uint64 (length m.body + 1) ++ rest)) pos
        ≡ feed (machine e) (waiting flags_ready 1 s 0 (length m.body)) rest (pos + 1 + 8)
  unfolding action
  feed_large m s rest pos fits =
      let n = length m.body in
      let big = waiting eight_byte_size_ready 8 s 0 0 in
      let same = length-put_uint64 (n + 1) in
      let back : get_uint64 (put_uint64 (n + 1)) ≡ n + 1 =
        get_uint64-put_uint64_end (n + 1) fits.representable in
      let some_byte : (n + 1 == 0) ≡ false = ground arith in
      let less : n + 1 - 1 ≡ n = omega arith in
      let in_range : ltb (2 ^ 64 - 1) n ≡ false = ground (arith, fits.representable) in
      let cut : n % 2 ^ 64 ≡ n = omega (arith, fits.representable) in
      feed_chunk (machine e) (between s) (255 ∷ []) (put_uint64 (n + 1) ++ rest) pos (omega arith)
      ∙ feed_next (machine e) one_byte_size_ready _ big (put_uint64 (n + 1) ++ rest) (pos + 1) refl
          refl refl
      ∙ feed_chunk (machine e) big (put_uint64 (n + 1)) rest (pos + 1) (omega arith)
      ∙ ap (λ k. feed (machine e) (copy_in big (put_uint64 (n + 1))) rest (pos + 1 + k)) same
      ∙ feed_next (machine e) eight_byte_size_ready _ _ rest (pos + 1 + 8) (omega arith) refl
          (rw (back, some_byte, less, fits.allowed, in_range, cut, fits.allocated))

  feed-frame :
      (m : Msg) (s t : S) (rest : List ℕ) (pos : ℕ)
      → Fits m
      → e.push s (on_wire m) ≡ (accepted, t)
      → feed (machine e) (between s) (frame m ++ rest) pos
        ≡ feed (machine e) (between t) rest (pos + length (frame m))
  unfolding Framed.frame
  feed-frame m s t rest pos fits took =
      let n = length m.body in
      let flags = more_bit m.flags in
      elim (Bool-cases (ltb 253 n)) [
        | inl large ↦
            let lead = put_uint64 (n + 1) in
            rw
              (
                header_large m fits.representable large,
                append_assoc lead (flags ∷ []) m.body,
                append_assoc lead (flags ∷ m.body) rest,
              )
              (feed_large m s (flags ∷ (m.body ++ rest)) pos fits
                ∙ feed_body m s t rest (pos + 1 + 8) took
                ∙ ap (feed (machine e) (between t) rest)
                    (omega (arith, length-append lead (flags ∷ m.body), length-put_uint64 (n + 1))))
        | inr small ↦ rw (header_small m small) (
            feed_small m s (flags ∷ (m.body ++ rest)) pos fits small
            ∙ feed_body m s t rest (pos + 1) took
            ∙ ap (feed (machine e) (between t) rest) (omega arith))
      ]

  feed-frames :
      (ms : List Msg) (s t : S) (pos : ℕ)
      → Delivers s ms t
      → feed (machine e) (between s) (frames ms) pos
        ≡ feed (machine e) (between t) [] (pos + length (frames ms))
  unfolding Framed.frames
  feed-frames [] s t pos d = ap₂ (λ u p. feed (machine e) (between u) [] p) d (omega arith)
  feed-frames (m ∷ ms) s t pos (fits, (u, took, rest)) =
      feed-frame m s u (frames ms) pos fits took
      ∙ feed-frames ms u t (pos + length (frame m)) rest
      ∙ ap (feed (machine e) (between t) []) (omega (arith, length-append (frame m) (frames ms)))

  -- What a fresh v0 encoder over some messages hands out for a buffer with room for more than their
  -- frames, a fresh v0 decoder takes whole: its sink, which takes messages of these sizes, gets
  -- exactly these messages in order, and the decoder waits for the next message.
  pub v0_process_buffer-get_data :
      (own : Bool) (n : ℕ) (ms : List Msg) (s t : S)
      → length (frames ms) < n
      → Delivers s ms t
      → let out = (get_data Encoder.action own n (Framed.encoder (some ms))).0 in
        process_buffer (machine e) (decoder (some s)) out ≡ (some (length out), between t)
  unfolding decoder
  v0_process_buffer-get_data own n ms s t h d =
      subst
        (λ out. process_buffer (machine e) (decoder (some s)) out ≡ (some (length out), between t))
        (sym (Framed.get_data-frames header header-ne-nil own n ms h))
        (process_buffer-feed (machine e) (decoder (some s)) (frames ms)
          ∙ feed-frames ms s t 0 d
          ∙ feed_waiting (machine e) (between t) _ (omega arith)
          ∙ ap (λ k. (some k, between t)) (omega arith))
