-- ===== src/Sockets/Draining.antt =====
-- What the loops of req_t and rep_t need of their base class to end: a part that is received is one
-- less in the pipes, and sending brings none.
use cctas.Base.{◌<◌, ◌≤◌, ◌≡◌, some}
use cctas.Framing.{Msg}
use cctas.Sockets.{Rc, got, BaseClass}

pub record Draining {D : Type 0} (b : BaseClass D) : Type 0 where
  pub xrecv_left : (d d' : D) (m : Msg) → b.xrecv d ≡ some (got m, d') → b.left d' < b.left d
  pub xsend_left :
      (d d' : D) (m : Msg) (rc : Rc) → b.xsend d m ≡ some (rc, d') → b.left d' ≤ b.left d
  pub rollback_left : (d : D) → b.left (b.rollback d) ≤ b.left d
