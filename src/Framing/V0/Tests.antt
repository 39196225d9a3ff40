-- ===== src/Framing/V0/Tests.antt =====
-- Two messages from a v0 encoder to a v0 decoder.
use cctas.Base.{◌≡◌, refl, true, some, List, [], ◌∷◌, ◌++◌, length, arith, ltb}
use cctas.Framing.{Msg, accepted, Env}
use cctas.Framing.Decoder.{process_buffer}
use cctas.Framing.Encoder.{get_data}
use cctas.Framing.Encoder.Framed
use cctas.Framing.V0.{decoder, machine}
use cctas.Framing.V0.Encoder
use cctas.Framing.V0.Encoder.{header}
use cctas.Framing.V0.Receive.{Delivers, between, v0_process_buffer-get_data}

-- The sink keeps the messages; at most 100 bytes are allowed in one.
abbrev keeping : Env (List Msg)
keeping = record {
  push = λ s m. (accepted, s ++ (m ∷ []));
  malloc_ok = λ n. ltb n 1000;
  maxmsgsize = some 100;
}

abbrev hello : Msg
hello = record { flags = 1; body = 104 ∷ 105 ∷ [] }

abbrev nothing : Msg
nothing = record { flags = 0; body = [] }

abbrev messages : List Msg
messages = hello ∷ nothing ∷ []

messages-Delivers : Delivers keeping [] messages messages
messages-Delivers = (
  record { representable = omega arith; allowed = refl; allocated = refl },
  (
    hello ∷ [],
    refl,
    (
      record { representable = omega arith; allowed = refl; allocated = refl },
      (messages, refl, refl),
    ),
  ),
)

v0_process_buffer-get_data_example :
    let out = (get_data Encoder.action true 64 (Framed.encoder (some messages))).0 in
    process_buffer (machine keeping) (decoder (some [])) out
    ≡ (some (length out), between keeping messages)
unfolding Framed.frames Framed.frame header
v0_process_buffer-get_data_example =
    v0_process_buffer-get_data keeping true 64 messages [] messages (omega arith) messages-Delivers
