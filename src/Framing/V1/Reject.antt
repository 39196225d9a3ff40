-- ===== src/Framing/V1/Reject.antt =====
-- A v1 decoder and a message above its limit.
use cctas.Base.{
  ℕ, ◌+◌, ◌^◌, ◌<◌, ◌≡◌, refl, ap, ◌∙◌, true, Option, none, some, List, [], ◌∷◌, ◌++◌, length, ltb,
  arith, append_assoc, Bool-cases, inl, inr,
}
use cctas.Wire.{put_uint64, get_uint64}
use cctas.Wire.RoundTrip.{get_uint64-put_uint64_end, length-put_uint64}
use cctas.Framing.{Msg, Env, more_bit, too_large}
use cctas.Framing.Decoder.{copy_in, process_buffer}
use cctas.Framing.Decoder.Bytewise.{feed, process_buffer-feed}
use cctas.Framing.Decoder.Feeding.{feed_chunk, feed_stop}
use cctas.Framing.V1.{
  Step, State, v1_decoder, action, machine, one_byte_size_ready, eight_byte_size_ready,
}
use cctas.Framing.V1.Receive.{
  between, sized, header_small, header_large, feed_flags_small, feed_flags_large,
}
use cctas.Framing.Encoder.Framed
use cctas.Framing.V1.Encoder.{frame}

module _ {S : Type 0} (e : Env S) where
  abbrev rejected : S → ℕ → List ℕ → Option Step → State S
  rejected s f filled step = record (between e s f) { next = step; filled = filled; to_read = 0 }

  refuse_small :
      (m : Msg) (s : S) (f : ℕ) (rest : List ℕ) (pos : ℕ)
      → too_large e (length m.body) ≡ true
      → feed (machine e) (sized e one_byte_size_ready 1 s f) (length m.body ∷ rest) pos
        ≡ (none, rejected s f (length m.body ∷ []) none)
  unfolding action
  refuse_small m s f rest pos over =
      feed_chunk (machine e) (sized e one_byte_size_ready 1 s f) (length m.body ∷ []) rest pos
        (omega arith)
      ∙ feed_stop (machine e) one_byte_size_ready _ _ rest (pos + 1) refl refl (rw over)

  refuse_large :
      (m : Msg) (s : S) (f : ℕ) (rest : List ℕ) (pos : ℕ)
      → length m.body < 2 ^ 64
      → too_large e (length m.body) ≡ true
      → feed
          (machine e)
          (sized e eight_byte_size_ready 8 s f)
          (put_uint64 (length m.body) ++ rest)
          pos
        ≡ (none, rejected s f (put_uint64 (length m.body)) none)
  unfolding action
  refuse_large m s f rest pos fits over =
      let v = length m.body in
      let big = sized e eight_byte_size_ready 8 s f in
      let same = length-put_uint64 v in
      let back : get_uint64 (put_uint64 v) ≡ v = get_uint64-put_uint64_end v fits in
      feed_chunk (machine e) big (put_uint64 v) rest pos (omega arith)
      ∙ ap (λ n. feed (machine e) (copy_in big (put_uint64 v)) rest (pos + n)) same
      ∙ feed_stop (machine e) eight_byte_size_ready _ _ rest (pos + 8) (omega arith) refl
          (rw (back, over, same))

  frame_refused :
      (m : Msg) (s : S) (rest : List ℕ)
      → length m.body < 2 ^ 64
      → too_large e (length m.body) ≡ true
      → (c : State S) × (feed (machine e) (between e s 0) (frame m ++ rest) 0 ≡ (none, c))
        × (c.next ≡ none)
        × (c.derived.msg_sink ≡ some s)
  unfolding Framed.frame
  frame_refused m s rest fits over =
      let n = length m.body in
      let mb = more_bit m.flags in
      elim (Bool-cases (ltb 255 n)) [
        | inl large ↦ (
          rejected s mb (put_uint64 n) none,
          rw (header_large m large, append_assoc (put_uint64 n) m.body rest)
              (feed_flags_large e mb s 0 (put_uint64 n ++ (m.body ++ rest)) 0 (omega arith)
                ∙ refuse_large m s mb (m.body ++ rest) 1 fits over),
          refl,
          refl,
        )
        | inr small ↦ (
          rejected s mb (n ∷ []) none,
          rw (header_small m small) (
              feed_flags_small e mb s 0 (n ∷ (m.body ++ rest)) 0 (omega arith)
              ∙ refuse_small m s mb (m.body ++ rest) 1 over),
          refl,
          refl,
        )
      ]

  -- A message above the decoder's limit, whatever follows it, makes the call fail, leaves the sink
  -- as it was and the decoder dead: every later call fails too and changes nothing.
  pub process_buffer-too_large :
      (m : Msg) (s : S) (rest more : List ℕ)
      → length m.body < 2 ^ 64
      → too_large e (length m.body) ≡ true
      → let (count, b) = process_buffer (machine e) (v1_decoder (some s)) (frame m ++ rest) in
        (count ≡ none)
        × (b.derived.msg_sink ≡ some s)
        × (process_buffer (machine e) b more ≡ (none, b))
  unfolding v1_decoder
  process_buffer-too_large m s rest more fits over =
      let (c, failed, dead, kept) = frame_refused m s rest fits over in
      let whole =
        process_buffer-feed (machine e) (v1_decoder (some s)) (frame m ++ rest) ∙ failed in
      rw whole (refl, kept, process_buffer-feed (machine e) c more ∙ rw dead)
