-- ===== src/Sockets/Rep/OverRouter.antt =====
-- rep_t on its base class router_t: the loop over the labels with the real router below it.
use cctas.Base.{suc, arith}
use cctas.Sockets.Router.{Router, PeerPipes}
use cctas.Sockets.Router.Receiving.{xrecv, parts_left, router_class}
use cctas.Sockets.Router.Drains.{PeerBounded, router-Draining}
use cctas.Sockets.Router.Fetching.{Receives, xrecv-Receives}
use cctas.Sockets.Rep.{label_loop}
use cctas.Sockets.Rep.Labels.{Copies, label_loop-Copies}

module _ {P : Type 0} (ps : PeerPipes P) where
  -- Where the pipes hold a bounded number of parts, the loop over the labels that rep_t runs on a
  -- router ends with what `while (true)` ends with, in as many rounds as xrecv gives it, whatever
  -- the router has prefetched and whatever becomes of its pipes; and each xrecv of that router, in
  -- any state, ends with what its own loop over the parts with an identity ends with, so that it
  -- fails an assertion only where recvpipe does.
  pub label_loop-router :
      PeerBounded ps
      → (s : Router × P)
      → Copies (router_class ps) s (label_loop (router_class ps) (suc (parts_left ps s)) s)
        × ((s' : Router × P) → Receives ps s' (xrecv ps s'))
  label_loop-router bounded s = (
    label_loop-Copies (router_class ps) (router-Draining ps bounded) (suc (parts_left ps s)) s
        (omega arith),
    xrecv-Receives ps bounded,
  )
