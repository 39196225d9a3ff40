-- ===== src/Framing/V1/Encoder.antt =====
-- v1_encoder.cpp: v1_encoder_t. Its actions are the shared ones with the header below.
use cctas.Base.{ℕ, ◌+◌, ◌≢◌, Bool, Option, List, [], ◌∷◌, length, if◌then◌else◌, ltb, arith}
use cctas.Wire.{put_uint64}
use cctas.Framing.{Msg, bit_0}
use cctas.Framing.Encoder.{Out, Lawful}
use cctas.Framing.Encoder.Framed
use cctas.Framing.Encoder.Framed.{Step, Parts}

-- the constructor
abbrev pub v1_encoder : Option (List Msg) → Out Step Parts
v1_encoder source = Framed.encoder source

-- tmpbuf, as message_ready fills it: flags, then the size in one or eight bytes
unfoldable pub header : Msg → List ℕ
header m =
    let size = length m.body in
    let flags = (if bit_0 m.flags then 1 else 0) + (if ltb 255 size then 2 else 0) in
    if ltb 255 size then flags ∷ put_uint64 size else flags ∷ size ∷ []

-- message_ready and size_ready
abbrev pub action : Step → Out Step Parts → Bool × Out Step Parts
action = Framed.action header

-- The bytes of one message, and of the messages of a source.
abbrev pub frame : Msg → List ℕ
frame = Framed.frame header

abbrev pub frames : List Msg → List ℕ
frames = Framed.frames header

pub header-ne-nil : (m : Msg) → header m ≢ []
unfolding header
header-ne-nil m h = ground arith

abbrev pub lawful : Lawful action
lawful = Framed.lawful header header-ne-nil
