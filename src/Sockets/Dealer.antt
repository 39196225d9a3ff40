-- ===== src/Sockets/Dealer.antt =====
-- dealer.cpp: dealer_t, which spreads its messages over its pipes by lb_t and fetches messages by
-- fq_t, over the interface for pipe_t. `waiting` is how many parts the pipes can still give.
pub mod Skipping
pub mod Drains
use cctas.Base.{
  ℕ, zero, suc, ◌+◌, ◌<◌, ◌≤◌, ◌≡◌, Bool, true, false, if◌then◌else◌, Option, none, some, List, [],
}
use cctas.Framing.{Msg}
use cctas.Balance.{Pipes}
use cctas.Balance.Lb
use cctas.Balance.Lb.{Lb}
use cctas.Balance.Fq
use cctas.Balance.Fq.{Fq, Received, part, try_again, recvpipe}
use cctas.Sockets.{eagain, Rc, done, error, Got, got, failed, is_identity, BaseClass}

pub record Dealer : Type 0 where
  pub fq : Fq
  pub lb : Lb
  pub prefetched : Bool
  pub prefetched_msg : Msg

abbrev no_msg : Msg
no_msg = record { flags = 0; body = [] }

-- the constructor
unfoldable pub dealer : Dealer
dealer = record { fq = Fq.fq; lb = Lb.lb; prefetched = false; prefetched_msg = no_msg }

pub xattach_pipe : Dealer → ℕ → Dealer
xattach_pipe d x = record d { fq = Fq.attach d.fq x; lb = Lb.attach d.lb x }

pub xread_activated : Dealer → ℕ → Dealer
xread_activated d x = record d { fq = Fq.activated d.fq x }

pub xwrite_activated : Dealer → ℕ → Dealer
xwrite_activated d x = record d { lb = Lb.activated d.lb x }

pub xterminated : Dealer → ℕ → Dealer
xterminated d x = record d { fq = Fq.terminated d.fq x; lb = Lb.terminated d.lb x }

module _ {P : Type 0} (ps : Pipes P Msg) (waiting : P → ℕ) where
  -- the result of lb_t::send
  abbrev after_send : Dealer → Option (Bool × Lb × P) → Option (Rc × (Dealer × P))
  after_send d none = none
  after_send d (some (true, l, p)) = some (done, (record d { lb = l }, p))
  after_send d (some (false, l, p)) = some (error eagain, (record d { lb = l }, p))

  unfoldable pub xsend : Dealer × P → Msg → Option (Rc × (Dealer × P))
  xsend (d, p) m = after_send d (Lb.send ps d.lb p m)

  -- The loop of xrecv, which drops the parts with an identity; none where an assertion of fq_t fails.
  unfoldable pub skip_loop : ℕ → Fq → P → Option (Got × Fq × P)
  skip_loop zero q p = none
  skip_loop (suc n) q p = elim (recvpipe ps q p) [
    | none ↦ none
    | some (try_again, q1, p1) ↦ some (failed eagain, q1, p1)
    | some (part m x, q1, p1) ↦
        (let rest = skip_loop n q1 p1 in if is_identity m then rest else some (got m, q1, p1))
  ]

  abbrev after_skip : Dealer → Option (Got × Fq × P) → Option (Got × (Dealer × P))
  after_skip d none = none
  after_skip d (some (g, q, p)) = some (g, (record d { fq = q }, p))

  -- A message that is moved away leaves an empty one.
  unfoldable pub xrecv : Dealer × P → Option (Got × (Dealer × P))
  xrecv (d, p) =
      if d.prefetched
      then some
          (got d.prefetched_msg, (record d { prefetched = false; prefetched_msg = no_msg }, p))
      else after_skip d (skip_loop (suc (waiting p)) d.fq p)

  -- xhas_in after its call of xrecv
  abbrev after_prefetch : Option (Got × (Dealer × P)) → Option (Bool × (Dealer × P))
  after_prefetch none = none
  after_prefetch (some (failed e, (d, p))) = some (false, (record d { prefetched_msg = no_msg }, p))
  after_prefetch (some (got m, (d, p))) =
      some (true, (record d { prefetched = true; prefetched_msg = m }, p))

  unfoldable pub xhas_in : Dealer × P → Option (Bool × (Dealer × P))
  xhas_in (d, p) = if d.prefetched then some (true, (d, p)) else after_prefetch (xrecv (d, p))

  unfoldable pub xhas_out : Dealer × P → Bool × (Dealer × P)
  xhas_out (d, p) = let (room, l, p1) = Lb.has_out ps d.lb p in (room, (record d { lb = l }, p1))

  -- dealer_t as a base class. It has no rollback, and req_t calls none.
  abbrev pub dealer_class : BaseClass (Dealer × P)
  dealer_class = record {
    xsend = xsend;
    xrecv = xrecv;
    xhas_in = xhas_in;
    xhas_out = xhas_out;
    rollback = λ s. s;
    left = λ s. waiting s.1 + (if s.0.prefetched then 1 else 0);
  }
