-- ===== src/Framing/Tests.antt =====
-- Three messages from an encoder to a decoder.
use cctas.Base.{ℕ, ◌<◌, ◌≡◌, refl, true, false, none, some, List, [], ◌∷◌, ◌++◌, length, arith, ltb}
use cctas.Framing.{Msg, accepted, Env}
use cctas.Framing.Decoder.{process_buffer}
use cctas.Framing.Decoder.Bytewise.{feed, process_buffer-feed}
use cctas.Framing.Encoder.{get_data}
use cctas.Framing.Encoder.Stream.{stream, get_data-stream}
use cctas.Framing.V1.{State, v1_decoder, machine}
use cctas.Framing.Encoder.Framed
use cctas.Framing.V1.Encoder.{v1_encoder, action, header, frame, lawful}
use cctas.Framing.V1.Receive.{Fits, Delivers, between}
use cctas.Framing.V1.Reject.{process_buffer-too_large}
use cctas.Framing.V1.Transfer.{process_buffer-get_data}

-- The sink keeps the messages; at most 100 bytes are allowed in one.
abbrev keeping : Env (List Msg)
keeping = record {
  push = λ s m. (accepted, s ++ (m ∷ []));
  malloc_ok = λ n. ltb n 1000;
  maxmsgsize = some 100;
}

abbrev hello : Msg
hello = record { flags = 1; body = 104 ∷ 105 ∷ [] }

abbrev nothing : Msg
nothing = record { flags = 0; body = [] }

abbrev messages : List Msg
messages = hello ∷ nothing ∷ []

hello-Fits : Fits keeping hello
hello-Fits = record { representable = omega arith; allowed = refl; allocated = refl }

nothing-Fits : Fits keeping nothing
nothing-Fits = record { representable = omega arith; allowed = refl; allocated = refl }

messages-Delivers : Delivers keeping [] messages messages
messages-Delivers = (hello-Fits, (hello ∷ [], refl, (nothing-Fits, (messages, refl, refl))))

process_buffer-get_data_example :
    let out = (get_data action true 64 (v1_encoder (some messages))).0 in
    (g : ℕ) × (process_buffer (machine keeping) (v1_decoder (some [])) out
      ≡ (some (length out), between keeping messages g))
unfolding Framed.frames Framed.frame header
process_buffer-get_data_example =
    process_buffer-get_data keeping true 64 messages [] messages (omega arith) messages-Delivers

get_data-stream_example :
    let (out, _, b') = get_data action false 3 (v1_encoder (some messages)) in
    (out ++ stream lawful b' ≡ stream lawful (v1_encoder (some messages)))
    × (length out < 3 → stream lawful b' ≡ [])
get_data-stream_example = get_data-stream lawful false 3 (v1_encoder (some messages))

-- Before the first message.
abbrev start : State (List Msg)
start = between keeping [] 0

process_buffer-feed_example :
    process_buffer (machine keeping) start (1 ∷ 2 ∷ 104 ∷ 105 ∷ [])
    ≡ feed (machine keeping) start (1 ∷ 2 ∷ 104 ∷ 105 ∷ []) 0
process_buffer-feed_example = process_buffer-feed (machine keeping) start (1 ∷ 2 ∷ 104 ∷ 105 ∷ [])

-- One byte is allowed in a message.
abbrev strict : Env (List Msg)
strict = record { push = keeping.push; malloc_ok = keeping.malloc_ok; maxmsgsize = some 1 }

process_buffer-too_large_example :
    let (count, b) =
      process_buffer (machine strict) (v1_decoder (some [])) (frame hello ++ (7 ∷ [])) in
    (count ≡ none)
    × (b.derived.msg_sink ≡ some [])
    × (process_buffer (machine strict) b (8 ∷ []) ≡ (none, b))
process_buffer-too_large_example =
    process_buffer-too_large strict hello [] (7 ∷ []) (8 ∷ []) (omega arith) refl
