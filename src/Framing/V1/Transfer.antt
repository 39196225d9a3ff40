-- ===== src/Framing/V1/Transfer.antt =====
-- From a v1 encoder through a buffer to a v1 decoder.
use cctas.Base.{ℕ, ◌<◌, ◌≡◌, sym, subst, Bool, some, List, length}
use cctas.Framing.{Msg, Env}
use cctas.Framing.Decoder.{process_buffer}
use cctas.Framing.Encoder.{get_data}
use cctas.Framing.Encoder.Framed
use cctas.Framing.V1.{v1_decoder, machine}
use cctas.Framing.V1.Encoder.{v1_encoder, action, frames, header, header-ne-nil}
use cctas.Framing.V1.Receive.{Delivers, between, process_buffer-frames}

module _ {S : Type 0} (e : Env S) where
  -- What a fresh encoder over some messages hands out for a buffer with room for more than their
  -- frames, a fresh decoder takes whole: its sink, which takes messages of these sizes, gets
  -- exactly these messages in order, and the decoder waits for the next flags byte.
  pub process_buffer-get_data :
      (own : Bool) (n : ℕ) (ms : List Msg) (s t : S)
      → length (frames ms) < n
      → Delivers e s ms t
      → let out = (get_data action own n (v1_encoder (some ms))).0 in
        (g : ℕ) × (process_buffer (machine e) (v1_decoder (some s)) out
          ≡ (some (length out), between e t g))
  process_buffer-get_data own n ms s t h d =
      subst
        (λ out.
          (g : ℕ) × (process_buffer (machine e) (v1_decoder (some s)) out
            ≡ (some (length out), between e t g)))
        (sym (Framed.get_data-frames header header-ne-nil own n ms h))
        (process_buffer-frames e ms s t d)
