-- ===== src/Sockets/Pair.antt =====
-- pair.cpp: pair_t, a socket with one pipe. Its xread_activated and xwrite_activated do nothing.
use cctas.Base.{ℕ, ◌==◌, Bool, false, if◌then◌else◌, Option, none, some}
use cctas.Framing.{Msg}
use cctas.Balance.{Pipes}
use cctas.Sockets.{eagain, Rc, done, error, Got, got, failed}

-- `pipe` is none for NULL.
pub record Pair : Type 0 where
  pub pipe : Option ℕ

-- the constructor
pub pair : Pair
pair = record { pipe = none }

pub xterminated : Pair → ℕ → Pair
xterminated s x = elim s.pipe [ none ↦ s | some y ↦ if x == y then record { pipe = none } else s ]

-- `terminate` is pipe_t::terminate (false).
module _ {P : Type 0} (ps : Pipes P Msg) (terminate : P → ℕ → P) where
  pub xattach_pipe : Pair → P → ℕ → Pair × P
  xattach_pipe s p x = elim s.pipe [
    | none ↦ (record { pipe = some x }, p)
    | some y ↦ (s, terminate p x)
  ]

  -- `sndmore` is flags_ & ZMQ_SNDMORE.
  pub xsend : Pair → P → Bool → Msg → Rc × P
  xsend s p sndmore m = elim s.pipe [
    | none ↦ (error eagain, p)
    | some x ↦
        (let (ok, p1) = ps.write p x m in
          if ok then (done, if sndmore then p1 else ps.flush p1 x) else (error eagain, p1))
  ]

  abbrev given : Option Msg → Got
  given none = failed eagain
  given (some m) = got m

  pub xrecv : Pair → P → Got × P
  xrecv s p = elim s.pipe [
    | none ↦ (failed eagain, p)
    | some x ↦ (let (o, p1) = ps.read p x in (given o, p1))
  ]

  pub xhas_in : Pair → P → Bool × P
  xhas_in s p = elim s.pipe [ none ↦ (false, p) | some x ↦ ps.check_read p x ]

  pub xhas_out : Pair → P → Bool × P
  xhas_out s p = elim s.pipe [ none ↦ (false, p) | some x ↦ ps.check_write p x ]
