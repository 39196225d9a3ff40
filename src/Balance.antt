-- ===== src/Balance.antt =====
-- How a socket spreads its messages over its pipes: lb.cpp (Lb, round robin out), fq.cpp (Fq, fair
-- queueing in) and dist.cpp (Dist, to many). The three know the pipes through this interface.
pub mod Lb
pub mod Fq
pub mod Dist
mod Examples
use cctas.Base.{ℕ, Bool, Option}

-- What pipe_t offers a socket. `P` is the state of all pipes, which are named by numbers; `M` is a
-- message part and `has_more` its flag msg_t::more.
pub record Pipes (P M : Type 0) : Type 0 where
  pub has_more : M → Bool
  pub write : P → ℕ → M → Bool × P
  pub check_write : P → ℕ → Bool × P
  pub flush : P → ℕ → P
  pub read : P → ℕ → Option M × P
  pub check_read : P → ℕ → Bool × P
