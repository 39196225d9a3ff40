-- ===== src/Sockets/Rep.antt =====
-- rep.cpp: rep_t, which receives a request and sends its reply in turn, over the interface for
-- router_t.
pub mod Alternating
pub mod Labels
pub mod Envelope
pub mod OverRouter
use cctas.Base.{◌≡◌, ℕ, zero, suc, Bool, true, false, if◌then◌else◌, Option, none, some}
use cctas.Framing.{Msg}
use cctas.Sockets.{Errno, efsm, Rc, done, error, Got, got, failed, more, is_empty, BaseClass}
use cctas.Sockets.Runs.{Calls}

pub record Rep (D : Type 0) : Type 0 where
  pub base : D
  pub sending_reply : Bool
  pub request_begins : Bool

module _ {D : Type 0} (b : BaseClass D) where
  -- the constructor
  unfoldable pub rep : D → Rep D
  rep d = record { base = d; sending_reply = false; request_begins = true }

  -- xsend after router_t::xsend
  abbrev pub sent_part : Rep D → Msg → Option (Rc × D) → Option (Rc × Rep D)
  sent_part r m none = none
  sent_part r m (some (error e, d)) = some (error e, record r { base = d })
  sent_part r m (some (done, d)) = some (
    done,
    (if more m then record r { base = d } else record r { base = d; sending_reply = false }),
  )

  unfoldable pub xsend : Rep D → Msg → Option (Rc × Rep D)
  xsend r m = if r.sending_reply then sent_part r m (b.xsend r.base m) else some (error efsm, r)

  -- Whether a label went to the reply pipe; none where errno_assert (rc == 0) fails.
  abbrev pub pushed : Option (Rc × D) → Option D
  pushed none = none
  pushed (some (error e, d)) = none
  pushed (some (done, d)) = some d

  -- The loop that copies the labels: done once the bottom is copied, or the errno of xrecv.
  unfoldable pub label_loop : ℕ → D → Option (Rc × D)
  label_loop zero d = none
  label_loop (suc n) d = elim (b.xrecv d) [
    | none ↦ none
    | some (failed e, d1) ↦ some (error e, d1)
    | some (got m, d1) ↦
        (if more m
          then (elim (pushed (b.xsend d1 m)) [
            | none ↦ none
            | some d2 ↦ (let rest = label_loop n d2 in if is_empty m then some (done, d2) else rest)
          ])
          else label_loop n (b.rollback d1))
  ]

  -- xrecv after router_t::xrecv of a part for the user
  abbrev pub received_part : Rep D → Option (Got × D) → Option (Got × Rep D)
  received_part r none = none
  received_part r (some (failed e, d)) = some (failed e, record r { base = d })
  received_part r (some (got m, d)) = some (
    got m,
    (if more m
        then record r { base = d }
        else record r { base = d; sending_reply = true; request_begins = true }),
  )

  -- xrecv after the loop
  abbrev pub received_labels : Rep D → Option (Rc × D) → Option (Got × Rep D)
  received_labels r none = none
  received_labels r (some (error e, d)) = some (failed e, record r { base = d })
  received_labels r (some (done, d)) =
      received_part (record r { base = d; request_begins = false }) (b.xrecv d)

  unfoldable pub xrecv : Rep D → Option (Got × Rep D)
  xrecv r =
      if r.sending_reply
      then some (failed efsm, r)
      else (if r.request_begins
          then received_labels r (label_loop (suc (b.left r.base)) r.base)
          else received_part r (b.xrecv r.base))

  abbrev pub asked : Rep D → Option (Bool × D) → Option (Bool × Rep D)
  asked r none = none
  asked r (some (ready, d)) = some (ready, record r { base = d })

  unfoldable pub xhas_in : Rep D → Option (Bool × Rep D)
  xhas_in r = if r.sending_reply then some (false, r) else asked r (b.xhas_in r.base)

  unfoldable pub xhas_out : Rep D → Bool × Rep D
  xhas_out r =
      if r.sending_reply
      then (let (ready, d) = b.xhas_out r.base in (ready, record r { base = d }))
      else (false, r)

  abbrev pub calls : Calls (Rep D)
  calls = record { xsend = xsend; xrecv = xrecv; xhas_in = xhas_in; xhas_out = xhas_out }

  -- `Fresh` says how the base class starts, `Change` what the pipes and its other operations do.
  abbrev pub Starts : (D → Type 0) → Rep D → Type 0
  Starts Fresh r = (d : D) × (r ≡ rep d) × Fresh d

  abbrev pub Changes : (D → D → Type 0) → Rep D → Rep D → Type 0
  Changes Change r r' = (d : D) × (r' ≡ record r { base = d }) × Change r.base d
