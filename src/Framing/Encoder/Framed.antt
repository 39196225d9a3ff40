-- ===== src/Framing/Encoder/Framed.antt =====
-- What the two encoders share: a message goes out as a header, which tmpbuf holds, and its body.
-- The header is what message_ready computes from the message.
use cctas.Base.{
  ℕ, ◌<◌, ◌≡◌, ◌≢◌, refl, sym, Bool, true, false, not, Option, none, some, List, [], ◌∷◌, ◌++◌,
  length, arith, append_assoc, append-nil, length-append, ap, ◌∙◌,
}
use cctas.Framing.{Msg, bit_0}
use cctas.Framing.Encoder.{Out, Lawful, next_step, get_data}
use cctas.Framing.Encoder.Stream.{stream, get_data-stream}

-- the member functions of encoder_t and v1_encoder_t that `next` points to
pub data Step : Type 0 where
  message_ready size_ready : Step

-- msg_source (none for NULL), with the messages that pull_msg still has to give before it answers
-- EAGAIN; and in_progress.
pub record Parts : Type 0 where
  pub msg_source : Option (List Msg)
  pub in_progress : Msg

abbrev pub empty_msg : Msg
empty_msg = record { flags = 0; body = [] }

-- the constructors
unfoldable pub encoder : Option (List Msg) → Out Step Parts
encoder source = record {
  next = message_ready;
  pending = [];
  beginning = true;
  derived = record { msg_source = source; in_progress = empty_msg };
}

-- set_msg_source
pub set_msg_source : Option (List Msg) → Out Step Parts → Out Step Parts
set_msg_source source b = record b { derived = record (b.derived) { msg_source = source } }

module _ (header : Msg → List ℕ) where
  -- message_ready, by what the source answers
  abbrev pub pull : Option (List Msg) → Out Step Parts → Bool × Out Step Parts
  pull none b = (false, record b { derived = record (b.derived) { in_progress = empty_msg } })
  pull (some []) b = (false, record b { derived = record (b.derived) { in_progress = empty_msg } })
  pull (some (m ∷ rest)) b = (
    true,
    next_step (header m) size_ready false
        (record b { derived = record { msg_source = some rest; in_progress = m } }),
  )

  unfoldable pub action : Step → Out Step Parts → Bool × Out Step Parts
  action message_ready b = pull b.derived.msg_source b
  action size_ready b =
      let m = b.derived.in_progress in
      (true, next_step m.body message_ready (not (bit_0 m.flags)) b)

  -- The bytes of one message, and of the messages of a source.
  unfoldable pub frame : Msg → List ℕ
  frame m = header m ++ m.body

  unfoldable pub frames : List Msg → List ℕ
  frames [] = []
  frames (m ∷ ms) = frame m ++ frames ms

  pub source_frames : Option (List Msg) → List ℕ
  source_frames none = []
  source_frames (some ms) = frames ms

  pub later : Step → Parts → List ℕ
  later message_ready d = source_frames d.msg_source
  later size_ready d = d.in_progress.body ++ source_frames d.msg_source

  abbrev rank : Step → ℕ
  rank message_ready = 0
  rank size_ready = 1

  rank_lt_two : (s : Step) → rank s < 2
  rank_lt_two message_ready = omega arith
  rank_lt_two size_ready = omega arith

  -- Where the source has nothing, the encoder waits in message_ready.
  pull-keeps :
      (o : Option (List Msg)) (b : Out Step Parts)
      → b.pending ≡ []
      → b.next ≡ message_ready
      → b.derived.msg_source ≡ o
      → (pull o b).1.pending ++ later (pull o b).1.next (pull o b).1.derived ≡ source_frames o
  unfolding later source_frames frames frame
  pull-keeps none b e en es = ground arith
  pull-keeps (some []) b e en es = ground arith
  pull-keeps (some (m ∷ rest)) b e en es = sym (append_assoc (header m) m.body (frames rest))

  action-keeps :
      (s : Step) (b : Out Step Parts)
      → b.pending ≡ []
      → b.next ≡ s
      → (action s b).1.pending ++ later (action s b).1.next (action s b).1.derived
        ≡ later s b.derived
  unfolding action later
  action-keeps size_ready b e en = refl
  action-keeps message_ready b e en = pull-keeps b.derived.msg_source b e en refl

  pull-idle :
      (o : Option (List Msg)) (b : Out Step Parts)
      → b.next ≡ message_ready
      → b.derived.msg_source ≡ o
      → (pull o b).0 ≡ false
      → ((pull o b).1.pending ≡ b.pending) × (later (pull o b).1.next (pull o b).1.derived ≡ [])
  unfolding later source_frames frames
  pull-idle none b en es h = (refl, ground arith)
  pull-idle (some []) b en es h = (refl, ground arith)
  pull-idle (some (m ∷ rest)) b en es h = absurd (cc)

  action-idle :
      (s : Step) (b : Out Step Parts)
      → b.next ≡ s
      → (action s b).0 ≡ false
      → ((action s b).1.pending ≡ b.pending)
        × (later (action s b).1.next (action s b).1.derived ≡ [])
  unfolding action
  action-idle size_ready b en h = absurd (cc)
  action-idle message_ready b en h = pull-idle b.derived.msg_source b en refl h

  module _ (header-ne-nil : (m : Msg) → header m ≢ []) where
    pull-falls :
        (o : Option (List Msg)) (b : Out Step Parts)
        → (pull o b).0 ≡ true
        → (pull o b).1.pending ≡ []
        → ⊥
    pull-falls none b h e = cc
    pull-falls (some []) b h e = cc
    pull-falls (some (m ∷ rest)) b h e = header-ne-nil m e

    action-falls :
        (s : Step) (b : Out Step Parts)
        → (action s b).0 ≡ true
        → (action s b).1.pending ≡ []
        → rank (action s b).1.next < rank s
    unfolding action
    action-falls size_ready b h e = omega arith
    action-falls message_ready b h e = absurd (pull-falls b.derived.msg_source b h e)

    pub lawful : Lawful action
    lawful = record {
      later = later;
      rank = rank;
      rank_lt = rank_lt_two;
      keeps = λ b h. action-keeps b.next b h refl;
      falls = λ b. action-falls b.next b;
      idle = λ b. action-idle b.next b refl;
    }

    -- What an encoder over a fresh source has to hand out is the frames of the source's messages.
    stream-encoder : (ms : List Msg) → stream lawful (encoder (some ms)) ≡ frames ms
    unfolding lawful encoder later source_frames
    stream-encoder ms = refl

    -- A buffer with room for more than the frames takes them all at once.
    pub get_data-frames :
        (own : Bool) (n : ℕ) (ms : List Msg)
        → length (frames ms) < n
        → (get_data action own n (encoder (some ms))).0 ≡ frames ms
    get_data-frames own n ms h =
        let r = get_data action own n (encoder (some ms)) in
        let out = r.0 in
        let left = stream lawful r.2 in
        let (whole, done) = get_data-stream lawful own n (encoder (some ms)) in
        let whole' : out ++ left ≡ frames ms = whole ∙ stream-encoder ms in
        let fits : length out < n =
          omega (arith, h, sym (length-append out left), ap length whole') in
        let nothing : left ≡ [] = done fits in
        sym (append-nil out) ∙ ap (λ ys. out ++ ys) (sym nothing) ∙ whole'
