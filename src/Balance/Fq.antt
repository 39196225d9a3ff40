-- ===== src/Balance/Fq.antt =====
-- fq.cpp: fq_t, which receives from its pipes in turn.
-- The first `active` pipes of the array are the active ones.
pub mod Valid
pub mod Reachable
pub mod Bounds
mod Tests
use cctas.Base.{
  ℕ, zero, suc, ◌+◌, ◌-◌, ◌%◌, ◌==◌, ltb, Bool, true, false, Option, none, some, if◌then◌else◌,
  get_or,
}
use cctas.Array.{Array, empty, size, index, push_back, erase, swap}
use cctas.Balance.{Pipes}

pub record Fq : Type 0 where
  pub pipes : Array
  pub active : ℕ
  pub current : ℕ
  pub more : Bool

-- the constructor
pub fq : Fq
fq = record { pipes = empty; active = 0; current = 0; more = false }

pub attach : Fq → ℕ → Fq
attach q x =
    let pushed = push_back q.pipes x in
    record q { pipes = swap pushed q.active (size pushed - 1); active = q.active + 1 }

pub activated : Fq → ℕ → Fq
activated q x = record q { pipes = swap q.pipes (index q.pipes x) q.active; active = q.active + 1 }

-- the part of terminated that takes the pipe out of the active ones
pub retire : Fq → ℕ → Fq
retire q x =
    let i = index q.pipes x in
    if ltb i q.active
    then record q {
      pipes = swap q.pipes i (q.active - 1);
      active = q.active - 1;
      current = if q.current == q.active - 1 then 0 else q.current;
    }
    else q

pub terminated : Fq → ℕ → Fq
terminated q x = let q1 = retire q x in record q1 { pipes = erase q1.pipes x }

-- pipes [current]
abbrev pub source : Fq → ℕ
source q = get_or q.pipes.items q.current 0

-- what recvpipe and has_in do to a pipe with nothing to read: `n` is active - 1
abbrev pub deactivate : Fq → ℕ → Fq
deactivate q n = record q {
  active = n;
  pipes = swap q.pipes q.current n;
  current = if q.current == n then 0 else q.current;
}

-- What recvpipe gives its caller: a message part and the pipe it came from, or EAGAIN.
pub data Received (M : Type 0) : Type 0 where
  part : M → ℕ → Received M
  try_again : Received M

module _ {P M : Type 0} (ps : Pipes P M) where
  -- recvpipe after a successful read
  abbrev pub fetched : Fq → P → M → Received M × Fq × P
  fetched q p m = (
    part m (source q),
    (if ps.has_more m
        then record q { more = true }
        else record q { more = false; current = (q.current + 1) % q.active }),
    p,
  )

  -- The loop of recvpipe; none where zmq_assert (!more) fails.
  unfoldable pub recv_loop : ℕ → Fq → P → Option (Received M × Fq × P)
  recv_loop zero q p = some (try_again, q, p)
  recv_loop (suc n) q p =
      let rest = recv_loop n (deactivate q n) (ps.read p (source q)).1 in
      elim (ps.read p (source q)).0 [
        | some m ↦ some (fetched q (ps.read p (source q)).1 m)
        | none ↦ if q.more then none else rest
      ]

  unfoldable pub recvpipe : Fq → P → Option (Received M × Fq × P)
  unfolding recv_loop
  recvpipe q p = recv_loop q.active q p

  pub has_in_loop : ℕ → Fq → P → Bool × Fq × P
  has_in_loop zero q p = (false, q, p)
  has_in_loop (suc n) q p =
      let (ready, p1) = ps.check_read p (source q) in
      let rest = has_in_loop n (deactivate q n) p1 in if ready then (true, q, p1) else rest

  pub has_in : Fq → P → Bool × Fq × P
  unfolding has_in_loop
  has_in q p = if q.more then (true, q, p) else has_in_loop q.active q p
