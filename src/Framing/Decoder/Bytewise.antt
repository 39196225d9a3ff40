-- ===== src/Framing/Decoder/Bytewise.antt =====
-- The chunk-copying loop of process_buffer against a machine that takes one byte at a time.
use cctas.Base.{
  ℕ, zero, suc, ◌+◌, ◌≤◌, ◌<◌, min, ◌≡◌, ◌≢◌, refl, ap, ap₂, length-drop, take-length, drop-length,
  ◌∙◌, sym, true, false, Option, none, some, List, [], ◌∷◌, take, drop, length, if◌then◌else◌,
  arith, Bool-cases, inl, inr, append-nil, append_assoc,
}
use cctas.Framing.Decoder.{
  Base, Machine, copy_in, stopped, run_next, drain_loop, drain, process_loop, process_buffer,
  process_in_place,
}

module _ {Step : Type 0} {D : Type 0} (m : Machine Step D) where
  -- The reference: one byte at a time.
  pub feed : Base Step D → List ℕ → ℕ → Option ℕ × Base Step D
  feed b [] pos = let (space, b1) = drain m b in if space then (some pos, b1) else stopped pos b1
  feed b (x ∷ xs) pos =
      let (space, b1) = drain m b in
      let rest = feed (copy_in b1 (x ∷ [])) xs (pos + 1) in if space then rest else stopped pos b1

  drain_full : (b : Base Step D) → b.to_read ≢ 0 → drain m b ≡ (true, b)
  unfolding drain drain_loop
  drain_full b h = ground arith

  drain_loop_room :
      (fuel : ℕ) (b : Base Step D)
      → (drain_loop m fuel b).0 ≡ true
      → (drain_loop m fuel b).1.to_read ≢ 0
  unfolding drain_loop
  drain_loop_room zero b h = cc
  drain_loop_room (suc fuel) b h = ground (arith, drain_loop_room fuel (run_next m b).1)

  copy_in_nil : (b : Base Step D) → copy_in b [] ≡ b
  copy_in_nil b = ground (arith, append-nil b.filled)

  copy_in_cons :
      (b : Base Step D) (x : ℕ) (xs : List ℕ) → copy_in (copy_in b (x ∷ [])) xs ≡ copy_in b (x ∷ xs)
  copy_in_cons b x xs = ground (arith, append_assoc b.filled (x ∷ []) xs)

  pub feed_copy :
      (k : ℕ) (b : Base Step D) (input : List ℕ) (pos : ℕ)
      → k ≤ length input
      → k ≤ b.to_read
      → feed (copy_in b (take k input)) (drop k input) (pos + k) ≡ feed b input pos
  unfolding feed
  feed_copy zero b input pos h h' = ap₂ (λ c p. feed c input p) (copy_in_nil b) (omega arith)
  feed_copy (suc k) b [] pos h h' = absurd (omega arith)
  feed_copy (suc k) b (x ∷ xs) pos h h' =
      ap₂ (λ c p. feed c (drop k xs) p) (sym (copy_in_cons b x (take k xs))) (omega arith)
      ∙ feed_copy k (copy_in b (x ∷ [])) xs (pos + 1) (omega arith) (omega arith)
      ∙ rw (drain_full b (omega arith))

  drain_room : (b : Base Step D) → (drain m b).0 ≡ true → (drain m b).1.to_read ≢ 0
  unfolding drain
  drain_room b h = drain_loop_room (suc m.bound) b h

  pub feed_of_drain :
      (b c : Base Step D) (input : List ℕ) (pos : ℕ)
      → drain m b ≡ drain m c
      → feed b input pos ≡ feed c input pos
  unfolding feed
  feed_of_drain b c [] pos e = rw e
  feed_of_drain b c (x ∷ xs) pos e = rw e

  -- A machine that still asks for bytes waits for them.
  pub feed_waiting : (b : Base Step D) (pos : ℕ) → b.to_read ≢ 0 → feed b [] pos ≡ (some pos, b)
  unfolding feed
  feed_waiting b pos h = rw (drain_full b h)

  pub feed_failed :
      (b c : Base Step D) (input : List ℕ) (pos : ℕ)
      → drain m b ≡ (false, c)
      → feed b input pos ≡ stopped pos c
  unfolding feed
  feed_failed b c [] pos e = rw e
  feed_failed b c (x ∷ xs) pos e = rw e

  process_loop-feed :
      (fuel : ℕ) (b : Base Step D) (input : List ℕ) (pos : ℕ)
      → length input < fuel
      → process_loop m fuel b input pos ≡ feed b input pos
  unfolding process_loop feed
  process_loop-feed zero b input pos h = absurd (omega arith)
  process_loop-feed (suc fuel) b [] pos h = refl
  process_loop-feed (suc fuel) b (x ∷ xs) pos h = elim (Bool-cases (drain m b).0) [
    | inl room ↦
        let b1 = (drain m b).1 in
        let k = min b1.to_read (suc (length xs)) in
        let some_room = drain_room b room in
        rw room (
          process_loop-feed fuel (copy_in b1 (take k (x ∷ xs))) (drop k (x ∷ xs)) (pos + k)
            (omega (arith, length-drop k (x ∷ xs)))
          ∙ feed_copy k b1 (x ∷ xs) pos (omega arith) (omega arith)
          ∙ sym (feed_copy 1 b1 (x ∷ xs) pos (omega arith) (omega arith)))
    | inr full ↦ rw full
  ]

  -- While the decoder has not failed, process_buffer returns and does what taking the bytes one at
  -- a time would, whatever it copies at once; after a failure it only reports the failure.
  pub process_buffer-feed :
      (b : Base Step D) (input : List ℕ)
      → process_buffer m b input ≡ elim b.next [ none ↦ (none, b) | some s ↦ feed b input 0 ]
  unfolding process_buffer
  process_buffer-feed b input =
      ap (λ r. elim b.next [ none ↦ (none, b) | some s ↦ r ])
        (process_loop-feed (suc (length input)) b input 0 (omega arith))

  feed_all :
      (b : Base Step D) (x : ℕ) (xs : List ℕ) (pos : ℕ)
      → suc (length xs) ≤ b.to_read
      → feed b (x ∷ xs) pos ≡ feed (copy_in b (x ∷ xs)) [] (pos + suc (length xs))
  feed_all b x xs pos h =
      sym (feed_copy (suc (length xs)) b (x ∷ xs) pos (omega arith) h)
      ∙ ap₂ (λ ys zs. feed (copy_in b (x ∷ ys)) zs (pos + suc (length xs))) (take-length xs)
          (drop-length xs)

  -- Bytes that were read straight into the message are processed as the same bytes copied from the
  -- decoder's buffer.
  pub process_in_place-process_buffer :
      (b : Base Step D) (x : ℕ) (xs : List ℕ)
      → suc (length xs) ≤ b.to_read
      → process_in_place m b (x ∷ xs) ≡ process_buffer m b (x ∷ xs)
  unfolding process_in_place feed
  process_in_place-process_buffer b x xs h =
      ap (λ r. elim b.next [ none ↦ (none, b) | some s ↦ r ])
        (ap (λ p. feed (copy_in b (x ∷ xs)) [] p) (omega arith) ∙ sym (feed_all b x xs 0 h))
      ∙ sym (process_buffer-feed b (x ∷ xs))
