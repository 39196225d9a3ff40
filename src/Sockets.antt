-- ===== src/Sockets.antt =====
-- The sockets: dealer.cpp (Dealer) with req.cpp (Req) on top of it, and
-- router.cpp (Router) with rep.cpp (Rep). Req and Rep know their base class by the interface below.
-- Pair and Push have pair.cpp, push.cpp and pull.cpp, Xsub has xsub.cpp and sub.cpp.
pub mod Turns
pub mod Runs
pub mod Logged
pub mod Pair
pub mod Push
pub mod Dealer
pub mod Draining
pub mod Rep
pub mod Xsub
pub mod Router
mod Tests
pub mod Req
use cctas.Base.{ℕ, ◌%◌, ◌/◌, Bool, ◌==◌, Option, List, [], length}
use cctas.Framing.{Msg, bit_0}

-- errno
pub data Errno : Type 0 where
  eagain efsm efault ehostunreach einval enotsup : Errno

-- the result of xsend: 0, or -1 with an errno
pub data Rc : Type 0 where
  done : Rc
  error : Errno → Rc

-- the result of xrecv with the message, or -1 with an errno
pub data Got : Type 0 where
  got : Msg → Got
  failed : Errno → Got

-- flags () & msg_t::more, size () == 0, and flags () & msg_t::identity
abbrev pub more : Msg → Bool
more m = bit_0 m.flags

abbrev pub is_empty : Msg → Bool
is_empty m = length m.body == 0

abbrev pub is_identity : Msg → Bool
is_identity m = m.flags / 64 % 2 == 1

-- What req_t and rep_t call of dealer_t and router_t. `D` is the state of the base class and of its
-- pipes; the results are none where an assertion fails. `left` bounds the parts that xrecv can
-- still give before it fails with EAGAIN.
pub record BaseClass (D : Type 0) : Type 0 where
  pub xsend : D → Msg → Option (Rc × D)
  pub xrecv : D → Option (Got × D)
  pub xhas_in : D → Option (Bool × D)
  pub xhas_out : D → Bool × D
  pub rollback : D → D
  pub left : D → ℕ
