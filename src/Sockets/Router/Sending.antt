-- ===== src/Sockets/Router/Sending.antt =====
-- router.cpp: xsend, rollback and xsetsockopt.
use cctas.Base.{ℕ, Bool, true, false, not, ◌==◌, if◌then◌else◌, Option, none, some, List, length}
use cctas.Framing.{Msg}
use cctas.Options.{bytes_at}
use cctas.Options.Numbers.{int_of, not_negative, is_zero}
use cctas.Sockets.{ehostunreach, einval, Rc, done, error, more}
use cctas.Sockets.Router.{Outpipe, Router, PeerPipes, find, set_active}

-- xsetsockopt; `is_mandatory` says that the option is ZMQ_ROUTER_MANDATORY.
pub xsetsockopt : Bool → Option (List ℕ) → Router → Rc × Router
xsetsockopt is_mandatory v r =
    if not is_mandatory
    then (error einval, r)
    else if not (length (bytes_at v) == 4)
    then (error einval, r)
    else if not_negative (int_of (bytes_at v))
    then (done, record r { mandatory = not (is_zero (int_of (bytes_at v))) })
    else (error einval, r)

module _ {P : Type 0} (ps : PeerPipes P) where
  -- the first part, by what outpipes.find gives
  abbrev pub address : Router → P → Msg → Option Outpipe → Rc × (Router × P)
  address r p m none =
      if r.mandatory
      then (error ehostunreach, (record r { more_out = false }, p))
      else (done, (record r { more_out = true }, p))
  address r p m (some o) =
      let (ok, p1) = ps.pipes.check_write p o.pipe in
      if ok then (done, (record r { more_out = true; current_out = some (o.pipe) }, p1)) else (
        done,
        (
          record r {
            more_out = true;
            current_out = none;
            outpipes = set_active m.body false r.outpipes;
          },
          p1,
        ),
      )

  -- a later part, by current_out
  abbrev pub forward : Router → P → Msg → Option ℕ → Rc × (Router × P)
  forward r p m none = (done, (record r { more_out = more m }, p))
  forward r p m (some x) =
      let (ok, p1) = ps.pipes.write p x m in
      if not ok
      then (done, (record r { more_out = more m; current_out = none }, p1))
      else if more m
      then (done, (record r { more_out = true }, p1))
      else (done, (record r { more_out = false; current_out = none }, ps.pipes.flush p1 x))

  -- none where zmq_assert (!current_out) fails
  abbrev pub first_part : Router → P → Msg → Option ℕ → Option (Rc × (Router × P))
  first_part r p m (some x) = none
  first_part r p m none =
      some (if more m then address r p m (find m.body r.outpipes) else (done, (r, p)))

  unfoldable pub xsend : Router × P → Msg → Option (Rc × (Router × P))
  xsend (r, p) m =
      if r.more_out then some (forward r p m r.current_out) else first_part r p m r.current_out

  abbrev pub undo : Router → P → Option ℕ → Router × P
  undo r p none = (r, p)
  undo r p (some x) = (record r { current_out = none; more_out = false }, ps.rollback p x)

  unfoldable pub rollback : Router × P → Router × P
  rollback (r, p) = undo r p r.current_out
