-- ===== src/Sockets/Req.antt =====
-- req.cpp: req_t, which sends a request and receives its reply in turn, over the interface for
-- dealer_t; and req_session_t.
pub mod Alternating
pub mod Envelope
pub mod Session
pub mod Dropping
use cctas.Base.{
  ◌≡◌, ℕ, zero, suc, Bool, true, false, not, ◌&&◌, ◌||◌, ◌==◌, if◌then◌else◌, Option, none, some,
  [], length,
}
use cctas.Framing.{Msg}
use cctas.Sockets.{
  Errno, eagain, efsm, efault, Rc, done, error, Got, got, failed, more, is_empty, BaseClass,
}
use cctas.Sockets.Runs.{Calls}

pub record Req (D : Type 0) : Type 0 where
  pub base : D
  pub receiving_reply : Bool
  pub message_begins : Bool

-- the empty part that delimits the envelope
abbrev pub bottom_msg : Msg
bottom_msg = record { flags = 1; body = [] }

module _ {D : Type 0} (b : BaseClass D) where
  -- the constructor
  unfoldable pub req : D → Req D
  req d = record { base = d; receiving_reply = false; message_begins = true }

  -- xsend after dealer_t::xsend of the user's part
  abbrev pub sent_part : Req D → Msg → Option (Rc × D) → Option (Rc × Req D)
  sent_part r m none = none
  sent_part r m (some (error e, d)) = some (error e, record r { base = d })
  sent_part r m (some (done, d)) = some (
    done,
    (if more m
        then record r { base = d }
        else record r { base = d; receiving_reply = true; message_begins = true }),
  )

  -- xsend after dealer_t::xsend of the bottom part
  abbrev pub sent_bottom : Req D → Msg → Option (Rc × D) → Option (Rc × Req D)
  sent_bottom r m none = none
  sent_bottom r m (some (error e, d)) = some (error e, record r { base = d })
  sent_bottom r m (some (done, d)) =
      sent_part (record r { base = d; message_begins = false }) m (b.xsend d m)

  unfoldable pub xsend : Req D → Msg → Option (Rc × Req D)
  xsend r m =
      if r.receiving_reply
      then some (error efsm, r)
      else (if r.message_begins
          then sent_bottom r m (b.xsend r.base bottom_msg)
          else sent_part r m (b.xsend r.base m))

  -- The loop that drops a malformed reply, up to a part without `more`; none where errno_assert
  -- (rc == 0) fails.
  unfoldable pub drop_loop : ℕ → D → Option D
  drop_loop zero d = none
  drop_loop (suc n) d = elim (b.xrecv d) [
    | none ↦ none
    | some (failed e, d1) ↦ none
    | some (got m, d1) ↦ (let rest = drop_loop n d1 in if more m then rest else some d1)
  ]

  abbrev pub dropped : Req D → Option D → Option (Got × Req D)
  dropped r none = none
  dropped r (some d) = some (failed eagain, record r { base = d })

  -- xrecv after dealer_t::xrecv of a part for the user
  abbrev pub received_part : Req D → Option (Got × D) → Option (Got × Req D)
  received_part r none = none
  received_part r (some (failed e, d)) = some (failed e, record r { base = d })
  received_part r (some (got m, d)) = some (
    got m,
    (if more m
        then record r { base = d }
        else record r { base = d; receiving_reply = false; message_begins = true }),
  )

  -- xrecv after dealer_t::xrecv of the part that has to be the bottom
  abbrev pub received_bottom : Req D → Option (Got × D) → Option (Got × Req D)
  received_bottom r none = none
  received_bottom r (some (failed e, d)) = some (failed e, record r { base = d })
  received_bottom r (some (got m, d)) =
      if not (more m) || not (is_empty m)
      then dropped r (drop_loop (suc (b.left d)) d)
      else received_part (record r { base = d; message_begins = false }) (b.xrecv d)

  unfoldable pub xrecv : Req D → Option (Got × Req D)
  xrecv r =
      if r.receiving_reply
      then (if r.message_begins
          then received_bottom r (b.xrecv r.base)
          else received_part r (b.xrecv r.base))
      else some (failed efsm, r)

  abbrev pub asked : Req D → Option (Bool × D) → Option (Bool × Req D)
  asked r none = none
  asked r (some (ready, d)) = some (ready, record r { base = d })

  unfoldable pub xhas_in : Req D → Option (Bool × Req D)
  xhas_in r = if r.receiving_reply then asked r (b.xhas_in r.base) else some (false, r)

  unfoldable pub xhas_out : Req D → Bool × Req D
  xhas_out r =
      if r.receiving_reply
      then (false, r)
      else (let (ready, d) = b.xhas_out r.base in (ready, record r { base = d }))

  abbrev pub calls : Calls (Req D)
  calls = record { xsend = xsend; xrecv = xrecv; xhas_in = xhas_in; xhas_out = xhas_out }

  -- `Fresh` says how the base class starts, `Change` what the pipes and its other operations do.
  abbrev pub Starts : (D → Type 0) → Req D → Type 0
  Starts Fresh r = (d : D) × (r ≡ req d) × Fresh d

  abbrev pub Changes : (D → D → Type 0) → Req D → Req D → Type 0
  Changes Change r r' = (d : D) × (r' ≡ record r { base = d }) × Change r.base d
