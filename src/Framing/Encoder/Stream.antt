-- ===== src/Framing/Encoder/Stream.antt =====
-- The batches of get_data, one after another, are the encoded stream.
use cctas.Base.{
  ℕ, zero, suc, ◌+◌, ◌-◌, ◌*◌, ◌<◌, min, ◌≡◌, refl, sym, ap, ap₂, ◌∙◌, Bool, true, false, ◌&&◌,
  Option, none, List, [], ◌∷◌, ◌++◌, take, drop, length, ◌==◌, leb, ltb, arith, Bool-cases, inl,
  inr, append_assoc, take-append-drop, length-take, length-append,
}
use cctas.Base.{ℕ_discrete, ◌⊎◌}
use cctas.Framing.Encoder.{Out, Actions, Lawful, note_offset, refill, get_loop, get_data}

module _ {Step : Type 0} {D : Type 0} {act : Actions Step D} (l : Lawful act) where
  -- All bytes that an encoder has still to hand out.
  abbrev pub stream : Out Step D → List ℕ
  stream b = b.pending ++ l.later b.next b.derived

  nil_of_length : (xs : List ℕ) → length xs ≡ 0 → xs ≡ []
  nil_of_length [] h = refl
  nil_of_length (x ∷ xs) h = absurd (omega arith)

  stream-refill : (b : Out Step D) → stream (refill act b).1 ≡ stream b
  stream-refill b = elim (Bool-cases (length b.pending == 0)) [
    | inl e ↦
        let empty = nil_of_length b.pending (ground arith) in rw e (l.keeps b empty ∙ rw empty)
    | inr e ↦ rw e
  ]

  stream-copy :
      (k : ℕ) (c : Out Step D) (buffer : List ℕ)
      → (buffer ++ take k c.pending) ++ stream (record c { pending = drop k c.pending })
        ≡ buffer ++ stream c
  stream-copy k c buffer =
      append_assoc buffer (take k c.pending) _
      ∙ ap (◌++◌ buffer) (
          sym (append_assoc (take k c.pending) (drop k c.pending) (l.later c.next c.derived))
          ∙ ap (λ xs. xs ++ l.later c.next c.derived) (take-append-drop k c.pending))

  get_loop-stream :
      (fuel : ℕ) (own : Bool) (n : ℕ) (b : Out Step D) (buffer : List ℕ) (offset : Option ℕ)
      → let (out, _, b') = get_loop act fuel own n b buffer offset in
        out ++ stream b' ≡ buffer ++ stream b
  unfolding get_loop
  get_loop-stream zero own n b buffer offset = refl
  get_loop-stream (suc fuel) own n b buffer offset =
      let c = (refill act b).1 in
      let k = min (length c.pending) (n - length buffer) in
      let go_on =
        get_loop-stream fuel own n (record c { pending = drop k c.pending })
          (buffer ++ take k c.pending) (note_offset b (length buffer) offset)
        ∙ stream-copy k c buffer
        ∙ ap (◌++◌ buffer) (stream-refill b) in
      elim (Bool-cases (ltb (length buffer) n)) [
        | inr full ↦ rw full
        | inl room ↦ elim (Bool-cases (refill act b).0) [
          | inr failed ↦ rw (room, failed) (ap (◌++◌ buffer) (stream-refill b))
          | inl worked ↦
              elim (Bool-cases (own && (length buffer == 0) && leb n (length c.pending))) [
                | inl whole ↦
                    rw (room, worked, whole, nil_of_length buffer (ground arith)) (stream-refill b)
                | inr part ↦ rw (room, worked, part) go_on
              ]
        ]
      ]

  refill_failed : (b : Out Step D) → (refill act b).0 ≡ false → stream (refill act b).1 ≡ []
  refill_failed b h = elim (Bool-cases (length b.pending == 0)) [
    | inl e ↦
        let (same, over) = l.idle b (rw e at h) in
        rw e (ap₂ ◌++◌ (same ∙ nil_of_length b.pending (ground arith)) over)
    | inr e ↦ absurd (cc (rw e at h))
  ]

  -- A round that copies nothing moves the machine on.
  refill_progress :
      (b : Out Step D)
      → (refill act b).0 ≡ true
      → (0 < length (refill act b).1.pending) ⊎ (l.rank (refill act b).1.next < l.rank b.next)
  refill_progress b h = elim (Bool-cases (length b.pending == 0)) [
    | inl e ↦ elim (ℕ_discrete (length (act b.next b).1.pending) 0) [
      | yes empty ↦ inr (rw e (l.falls b (rw e at h) (nil_of_length _ empty)))
      | no some_bytes ↦ inl (rw e (omega arith))
    ]
    | inr e ↦ inl (rw e (ground arith))
  ]

  get_loop_short :
      (fuel : ℕ) (own : Bool) (n : ℕ) (b : Out Step D) (buffer : List ℕ) (offset : Option ℕ)
      → 2 * (n - length buffer) + l.rank b.next < fuel
      → length (get_loop act fuel own n b buffer offset).0 < n
      → stream (get_loop act fuel own n b buffer offset).2 ≡ []
  unfolding get_loop
  get_loop_short zero own n b buffer offset h short = absurd (omega arith)
  get_loop_short (suc fuel) own n b buffer offset h short =
      let c = (refill act b).1 in
      let k = min (length c.pending) (n - length buffer) in
      let enough = λ (room : length buffer < n) (worked : (refill act b).0 ≡ true).
        let copied = length-append buffer (take k c.pending) in
        let taken = length-take k c.pending in
        let next_rank = l.rank_lt c.next in
        let measure : 2 * (n - length (buffer ++ take k c.pending)) + l.rank c.next < fuel =
          elim (refill_progress b worked) [
            | inl p ↦ omega (arith, p, copied, taken, next_rank, h)
            | inr q ↦ omega (arith, q, copied, taken, next_rank, h)
          ] in
        get_loop_short fuel own n (record c { pending = drop k c.pending })
          (buffer ++ take k c.pending) (note_offset b (length buffer) offset) measure in
      elim (Bool-cases (ltb (length buffer) n)) [
        | inr full ↦ absurd (ground arith)
        | inl room ↦ elim (Bool-cases (refill act b).0) [
          | inr failed ↦ rw (room, failed) (refill_failed b failed)
          | inl worked ↦
              elim (Bool-cases (own && (length buffer == 0) && leb n (length c.pending))) [
                | inl whole ↦ absurd (ground (arith, (rw (room, worked, whole) at short)))
                | inr part ↦
                    rw (room, worked, part)
                      (enough (ground arith) worked (rw (room, worked, part) at short))
              ]
        ]
      ]

  -- Whatever buffer is offered, the batch that get_data hands out and the stream that the encoder
  -- still holds make up the stream that it held before; and a batch that leaves room in the buffer
  -- is handed out only when nothing is left.
  pub get_data-stream :
      (own : Bool) (n : ℕ) (b : Out Step D)
      → let (out, _, b') = get_data act own n b in
        (out ++ stream b' ≡ stream b) × (length out < n → stream b' ≡ [])
  unfolding get_data
  get_data-stream own n b = (
    get_loop-stream (2 * n + 2) own n b [] none,
    get_loop_short (2 * n + 2) own n b [] none (omega (arith, l.rank_lt b.next)),
  )
