-- ===== src/Framing/Decoder/Feeding.antt =====
-- Two steps of the bytewise machine, by which a derived decoder is run on a frame.
use cctas.Base.{
  ℕ, ◌+◌, ◌≤◌, ◌≡◌, sym, ap₂, ◌∙◌, Bool, true, false, some, List, ◌++◌, length, arith, take-append,
  drop-append, length-append,
}
use cctas.Framing.Decoder.{Base, Machine, copy_in, stopped, run_next, drain}
use cctas.Framing.Decoder.Drain.{drain_lem}
use cctas.Framing.Decoder.Bytewise.{feed, feed_copy, feed_of_drain, feed_failed}

module _ {Step : Type 0} {D : Type 0} (m : Machine Step D) where
  -- Bytes that the machine asked for are stored.
  pub feed_chunk :
      (b : Base Step D) (xs rest : List ℕ) (pos : ℕ)
      → length xs ≤ b.to_read
      → feed m b (xs ++ rest) pos ≡ feed m (copy_in b xs) rest (pos + length xs)
  feed_chunk b xs rest pos h =
      sym (feed_copy m (length xs) b (xs ++ rest) pos (omega (arith, length-append xs rest)) h)
      ∙ ap₂ (λ ys zs. feed m (copy_in b ys) zs (pos + length xs)) (take-append xs rest)
          (drop-append xs rest)

  run_next-some :
      (s : Step) (b : Base Step D) (r : Bool × Base Step D)
      → b.next ≡ some s
      → m.action s b ≡ r
      → run_next m b ≡ r
  unfolding run_next
  run_next-some s b r e w = rw (e, run_next) w

  drain_next :
      (s : Step) (b c : Base Step D)
      → b.to_read ≡ 0
      → b.next ≡ some s
      → m.action s b ≡ (true, c)
      → drain m b ≡ drain m c
  drain_next s b c h e w = drain_lem m b ∙ rw (run_next-some s b _ e w) (ground arith)

  -- Once nothing more is asked for, an action that succeeds is run.
  pub feed_next :
      (s : Step) (b c : Base Step D) (rest : List ℕ) (pos : ℕ)
      → b.to_read ≡ 0
      → b.next ≡ some s
      → m.action s b ≡ (true, c)
      → feed m b rest pos ≡ feed m c rest pos
  feed_next s b c rest pos h e w = feed_of_drain m b c rest pos (drain_next s b c h e w)

  -- An action that fails ends the call.
  pub feed_stop :
      (s : Step) (b c : Base Step D) (rest : List ℕ) (pos : ℕ)
      → b.to_read ≡ 0
      → b.next ≡ some s
      → m.action s b ≡ (false, c)
      → feed m b rest pos ≡ stopped pos c
  feed_stop s b c rest pos h e w =
      feed_failed m b c rest pos (drain_lem m b ∙ rw (run_next-some s b _ e w) (ground arith))
