-- ===== src/Sockets/Req/Session.antt =====
-- req.cpp: req_session_t, which passes on to the socket only what has the form of a reply.
use cctas.Base.{◌&&◌, ◌==◌, if◌then◌else◌, Option, none, some}
use cctas.Framing.{Msg, Pushed, refused}
use cctas.Sockets.{is_empty}

-- what has to come next
pub data State : Type 0 where
  identity bottom body : State

-- the state after a part that push_msg passes on, none for one that it refuses with EFAULT
abbrev pub accepts : State → Msg → Option State
accepts bottom m = if (m.flags == 1) && is_empty m then some body else none
accepts body m = if m.flags == 1 then some body else if m.flags == 0 then some bottom else none
accepts identity m = if m.flags == 0 then some bottom else none

-- push_msg; `push` is dealer_session_t::push_msg on the state of its pipe.
module _ {S : Type 0} (push : S → Msg → Pushed × S) where
  pub push_msg : State → S → Msg → Pushed × (State × S)
  push_msg st s m = elim (accepts st m) [
    | none ↦ (refused, (st, s))
    | some st1 ↦ (let (result, s1) = push s m in (result, (st1, s1)))
  ]
