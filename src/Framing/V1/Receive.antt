-- ===== src/Framing/V1/Receive.antt =====
-- A v1 decoder reads back what a v1 encoder writes.
use cctas.Base.{
  ℕ, ◌+◌, ◌%◌, ◌^◌, ◌<◌, ◌≡◌, refl, ap, ap₂, ◌∙◌, true, false, some, List, [], ◌∷◌, ◌++◌, length,
  if◌then◌else◌, ltb, arith, append_assoc, Bool-cases, inl, inr, length-append,
}
use cctas.Wire.{put_uint64, get_uint64}
use cctas.Wire.RoundTrip.{get_uint64-put_uint64_end, length-put_uint64}
use cctas.Framing.{Msg, accepted, Env, bit_0, bit_1, more_bit, too_large, init_size_ok}
use cctas.Framing.Decoder.{copy_in, process_buffer}
use cctas.Framing.Decoder.Bytewise.{feed, feed_waiting, process_buffer-feed}
use cctas.Framing.Decoder.Feeding.{feed_chunk, feed_next}
use cctas.Framing.V1.{
  Step, State, v1_decoder, action, machine, flags_ready, one_byte_size_ready, eight_byte_size_ready,
  message_ready,
}
use cctas.Framing.Encoder.Framed
use cctas.Framing.V1.Encoder.{header, frame, frames}

-- The message as it arrives: of the flags only `more` travels.
abbrev pub on_wire : Msg → Msg
on_wire m = record { flags = more_bit m.flags; body = m.body }

pub header_small :
    (m : Msg) → ltb 255 (length m.body) ≡ false → header m ≡ more_bit m.flags ∷ length m.body ∷ []
unfolding header
header_small m h = rw h (ap (λ x. x ∷ length m.body ∷ []) (ground arith))

pub header_large :
    (m : Msg)
    → ltb 255 (length m.body) ≡ true
    → header m ≡ (more_bit m.flags + 2) ∷ put_uint64 (length m.body)
unfolding header
header_large m h = rw h (ap (λ x. x ∷ put_uint64 (length m.body)) (ground arith))

module _ {S : Type 0} (e : Env S) where
  -- A message that this receiver has room for.
  pub record Fits (m : Msg) : Type 0 where
    pub representable : length m.body < 2 ^ 64
    pub allowed : too_large e (length m.body) ≡ false
    pub allocated : init_size_ok e (length m.body) ≡ true

  -- The sink takes the messages in this order, going from its first state to its last.
  abbrev pub Delivers : S → List Msg → S → Type 0
  Delivers s [] s' = s ≡ s'
  Delivers s (m ∷ ms) s' =
      Fits m × ((t : S) × (e.push s (on_wire m) ≡ (accepted, t)) × Delivers t ms s')

  -- Between two messages; msg_flags is left over from the last one.
  abbrev pub between : S → ℕ → State S
  between s f = record {
    next = some flags_ready;
    filled = [];
    to_read = 1;
    derived = record { msg_sink = some s; msg_flags = f; in_flags = 0; in_size = 0 };
  }

  abbrev pub sized : Step → ℕ → S → ℕ → State S
  sized step n s f = record (between s f) { next = some step; to_read = n }

  abbrev in_body : S → ℕ → ℕ → State S
  in_body s f n = record {
    next = some message_ready;
    filled = [];
    to_read = n;
    derived = record { msg_sink = some s; msg_flags = f; in_flags = f; in_size = n };
  }

  feed_flags :
      (fl : ℕ) (s : S) (f : ℕ) (rest : List ℕ) (pos : ℕ)
      → feed (machine e) (between s f) (fl ∷ rest) pos
        ≡ feed
            (machine e)
            (if bit_1 fl
              then sized eight_byte_size_ready 8 s (if bit_0 fl then 1 else 0)
              else sized one_byte_size_ready 1 s (if bit_0 fl then 1 else 0))
            rest
            (pos + 1)
  unfolding action
  feed_flags fl s f rest pos =
      feed_chunk (machine e) (between s f) (fl ∷ []) rest pos (omega arith)
      ∙ feed_next (machine e) flags_ready _ _ rest (pos + 1) refl refl (ground arith)

  pub feed_flags_small :
      (mb : ℕ) (s : S) (f : ℕ) (rest : List ℕ) (pos : ℕ)
      → mb < 2
      → feed (machine e) (between s f) (mb ∷ rest) pos
        ≡ feed (machine e) (sized one_byte_size_ready 1 s mb) rest (pos + 1)
  feed_flags_small mb s f rest pos h =
      feed_flags mb s f rest pos ∙ ap (λ b. feed (machine e) b rest (pos + 1)) (ground arith)

  pub feed_flags_large :
      (mb : ℕ) (s : S) (f : ℕ) (rest : List ℕ) (pos : ℕ)
      → mb < 2
      → feed (machine e) (between s f) ((mb + 2) ∷ rest) pos
        ≡ feed (machine e) (sized eight_byte_size_ready 8 s mb) rest (pos + 1)
  feed_flags_large mb s f rest pos h =
      feed_flags (mb + 2) s f rest pos ∙ ap (λ b. feed (machine e) b rest (pos + 1)) (ground arith)

  feed_body :
      (m : Msg) (s t : S) (f : ℕ) (rest : List ℕ) (pos : ℕ)
      → f ≡ more_bit m.flags
      → e.push s (on_wire m) ≡ (accepted, t)
      → feed (machine e) (in_body s f (length m.body)) (m.body ++ rest) pos
        ≡ feed (machine e) (between t f) rest (pos + length m.body)
  unfolding action
  feed_body m s t f rest pos ef took =
      feed_chunk (machine e) (in_body s f (length m.body)) m.body rest pos (omega arith)
      ∙ feed_next (machine e) message_ready _ _ rest (pos + length m.body) (omega arith) refl
          (rw (ef, took))

  feed_small :
      (m : Msg) (s : S) (f : ℕ) (rest : List ℕ) (pos : ℕ)
      → Fits m
      → feed (machine e) (sized one_byte_size_ready 1 s f) (length m.body ∷ rest) pos
        ≡ feed (machine e) (in_body s f (length m.body)) rest (pos + 1)
  unfolding action
  feed_small m s f rest pos fits =
      feed_chunk (machine e) (sized one_byte_size_ready 1 s f) (length m.body ∷ []) rest pos
        (omega arith)
      ∙ feed_next (machine e) one_byte_size_ready _ _ rest (pos + 1) refl refl
          (rw (fits.allowed, fits.allocated))

  fits_in_size_t : (v : ℕ) → v < 2 ^ 64 → v % 2 ^ 64 ≡ v
  fits_in_size_t v h = omega arith

  feed_large :
      (m : Msg) (s : S) (f : ℕ) (rest : List ℕ) (pos : ℕ)
      → Fits m
      → feed
          (machine e)
          (sized eight_byte_size_ready 8 s f)
          (put_uint64 (length m.body) ++ rest)
          pos
        ≡ feed (machine e) (in_body s f (length m.body)) rest (pos + 8)
  unfolding action
  feed_large m s f rest pos fits =
      let v = length m.body in
      let big = sized eight_byte_size_ready 8 s f in
      let same = length-put_uint64 v in
      let back : get_uint64 (put_uint64 v) ≡ v = get_uint64-put_uint64_end v fits.representable in
      feed_chunk (machine e) big (put_uint64 v) rest pos (omega arith)
      ∙ ap (λ n. feed (machine e) (copy_in big (put_uint64 v)) rest (pos + n)) same
      ∙ feed_next (machine e) eight_byte_size_ready _ _ rest (pos + 8) (omega arith) refl (
          rw (back, fits.allowed, fits_in_size_t v fits.representable)
            (ground (arith, fits.allocated)))

  feed-frame :
      (m : Msg) (s t : S) (f : ℕ) (rest : List ℕ) (pos : ℕ)
      → Fits m
      → e.push s (on_wire m) ≡ (accepted, t)
      → feed (machine e) (between s f) (frame m ++ rest) pos
        ≡ feed (machine e) (between t (more_bit m.flags)) rest (pos + length (frame m))
  unfolding Framed.frame
  feed-frame m s t f rest pos fits took =
      let n = length m.body in
      let mb = more_bit m.flags in
      let body = λ (p : ℕ). feed_body m s t mb rest p refl took in
      elim (Bool-cases (ltb 255 n)) [
        | inl large ↦
            rw (header_large m large, append_assoc (put_uint64 n) m.body rest)
              (feed_flags_large mb s f (put_uint64 n ++ (m.body ++ rest)) pos (omega arith)
                ∙ feed_large m s mb (m.body ++ rest) (pos + 1) fits
                ∙ body (pos + 1 + 8)
                ∙ ap (feed (machine e) (between t mb) rest)
                    (omega (arith, length-append (put_uint64 n) m.body, length-put_uint64 n)))
        | inr small ↦ rw (header_small m small) (
            feed_flags_small mb s f (n ∷ (m.body ++ rest)) pos (omega arith)
            ∙ feed_small m s mb (m.body ++ rest) (pos + 1) fits
            ∙ body (pos + 1 + 1)
            ∙ ap (feed (machine e) (between t mb) rest) (omega arith))
      ]

  feed-frames :
      (ms : List Msg) (s t : S) (f pos : ℕ)
      → Delivers s ms t
      → (g : ℕ) × (feed (machine e) (between s f) (frames ms) pos
          ≡ feed (machine e) (between t g) [] (pos + length (frames ms)))
  unfolding Framed.frames
  feed-frames [] s t f pos d = (f, ap₂ (λ u p. feed (machine e) (between u f) [] p) d (omega arith))
  feed-frames (m ∷ ms) s t f pos (fits, (u, took, rest)) =
      let (g, ih) = feed-frames ms u t (more_bit m.flags) (pos + length (frame m)) rest in
      (
        g,
        feed-frame m s u f (frames ms) pos fits took
            ∙ ih
            ∙ ap (feed (machine e) (between t g) [])
                (omega (arith, length-append (frame m) (frames ms))),
      )

  -- A fresh decoder that is handed the frames of some messages, each of which fits and is taken by
  -- the sink, processes every byte, gives the sink exactly these messages in order (of the flags
  -- only `more` travels), and waits for the next flags byte.
  pub process_buffer-frames :
      (ms : List Msg) (s t : S)
      → Delivers s ms t
      → (g : ℕ) × (process_buffer (machine e) (v1_decoder (some s)) (frames ms)
          ≡ (some (length (frames ms)), between t g))
  unfolding v1_decoder
  process_buffer-frames ms s t d =
      let (g, ih) = feed-frames ms s t 0 0 d in
      (
        g,
        process_buffer-feed (machine e) (v1_decoder (some s)) (frames ms)
            ∙ ih
            ∙ feed_waiting (machine e) (between t g) _ (omega arith)
            ∙ ap (λ k. (some k, between t g)) (omega arith),
      )
