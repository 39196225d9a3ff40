-- ===== src/Sockets/Push.antt =====
-- push.cpp and pull.cpp: push_t, whose state is its lb_t, and pull_t, whose state is its fq_t. Both
-- only pass the calls on.
use cctas.Base.{ℕ, Bool, true, false, Option, none, some}
use cctas.Framing.{Msg}
use cctas.Balance.{Pipes}
use cctas.Balance.Lb
use cctas.Balance.Lb.{Lb}
use cctas.Balance.Fq
use cctas.Balance.Fq.{Fq, Received, part, try_again, recvpipe}
use cctas.Sockets.{eagain, Rc, done, error, Got, got, failed}

abbrev pub push_attach_pipe : Lb → ℕ → Lb
push_attach_pipe = Lb.attach

abbrev pub push_write_activated : Lb → ℕ → Lb
push_write_activated = Lb.activated

abbrev pub push_terminated : Lb → ℕ → Lb
push_terminated = Lb.terminated

abbrev pub pull_attach_pipe : Fq → ℕ → Fq
pull_attach_pipe = Fq.attach

abbrev pub pull_read_activated : Fq → ℕ → Fq
pull_read_activated = Fq.activated

abbrev pub pull_terminated : Fq → ℕ → Fq
pull_terminated = Fq.terminated

module _ {P : Type 0} (ps : Pipes P Msg) where
  abbrev pub sent_by_lb : Option (Bool × Lb × P) → Option (Rc × Lb × P)
  sent_by_lb none = none
  sent_by_lb (some (true, l, p)) = some (done, l, p)
  sent_by_lb (some (false, l, p)) = some (error eagain, l, p)

  pub push_send : Lb → P → Msg → Option (Rc × Lb × P)
  push_send l p m = sent_by_lb (Lb.send ps l p m)

  pub push_has_out : Lb → P → Bool × Lb × P
  push_has_out l p = Lb.has_out ps l p

  abbrev pub received_by_fq : Option (Received Msg × Fq × P) → Option (Got × Fq × P)
  received_by_fq none = none
  received_by_fq (some (part m x, q, p)) = some (got m, q, p)
  received_by_fq (some (try_again, q, p)) = some (failed eagain, q, p)

  pub pull_recv : Fq → P → Option (Got × Fq × P)
  pull_recv q p = received_by_fq (recvpipe ps q p)

  pub pull_has_in : Fq → P → Bool × Fq × P
  pull_has_in q p = Fq.has_in ps q p
