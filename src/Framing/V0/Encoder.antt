-- ===== src/Framing/V0/Encoder.antt =====
-- encoder.cpp: encoder_t. Its actions are the shared ones with the header below.
use cctas.Base.{ℕ, ◌+◌, ◌%◌, ◌^◌, ◌≢◌, Bool, List, [], ◌∷◌, ◌++◌, length, if◌then◌else◌, ltb, arith}
use cctas.Wire.{put_uint64}
use cctas.Framing.{Msg, more_bit}
use cctas.Framing.Encoder.{Out}
use cctas.Framing.Encoder.Framed
use cctas.Framing.Encoder.Framed.{Step, Parts}

-- tmpbuf, as message_ready fills it: the size, which counts the flags byte, in one byte or in
-- nine, and the flags. `size` is a size_t.
unfoldable pub header : Msg → List ℕ
header m =
    let size = (length m.body + 1) % 2 ^ 64 in
    if ltb size 255
    then size ∷ more_bit m.flags ∷ []
    else 255 ∷ (put_uint64 size ++ (more_bit m.flags ∷ []))

-- message_ready and size_ready
abbrev pub action : Step → Out Step Parts → Bool × Out Step Parts
action = Framed.action header

-- The bytes of one message, and of the messages of a source.
abbrev pub frame : Msg → List ℕ
frame = Framed.frame header

abbrev pub frames : List Msg → List ℕ
frames = Framed.frames header

pub header-ne-nil : (m : Msg) → header m ≢ []
unfolding header
header-ne-nil m h = ground arith
