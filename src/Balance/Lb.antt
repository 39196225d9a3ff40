-- ===== src/Balance/Lb.antt =====
-- lb.cpp: lb_t, which sends each message to the next pipe that has room.
-- The first `active` pipes of the array are the active ones.
pub mod Valid
pub mod Turn
pub mod Reachable
pub mod Bounds
mod Tests
use cctas.Base.{
  ℕ, zero, suc, ◌+◌, ◌-◌, ◌%◌, ◌==◌, ltb, Bool, true, false, ◌&&◌, not, Option, none, some, List,
  if◌then◌else◌, get_or,
}
use cctas.Array.{Array, empty, size, index, push_back, erase, swap}
use cctas.Balance.{Pipes}

pub record Lb : Type 0 where
  pub pipes : Array
  pub active : ℕ
  pub current : ℕ
  pub more : Bool
  pub dropping : Bool

-- the constructor
pub lb : Lb
lb = record { pipes = empty; active = 0; current = 0; more = false; dropping = false }

unfoldable pub activated : Lb → ℕ → Lb
activated l x = record l { pipes = swap l.pipes (index l.pipes x) l.active; active = l.active + 1 }

unfoldable pub attach : Lb → ℕ → Lb
unfolding activated
attach l x = activated (record l { pipes = push_back l.pipes x }) x

-- the part of terminated that takes the pipe out of the active ones
unfoldable pub retire : Lb → ℕ → Lb
retire l x =
    let i = index l.pipes x in
    if ltb i l.active
    then record l {
      pipes = swap l.pipes i (l.active - 1);
      active = l.active - 1;
      current = if l.current == l.active - 1 then 0 else l.current;
    }
    else l

unfoldable pub terminated : Lb → ℕ → Lb
terminated l x =
    let l1 = record l {
      dropping = if (index l.pipes x == l.current) && l.more then true else l.dropping;
    } in
    let l2 = retire l1 x in record l2 { pipes = erase l2.pipes x }

-- pipes [current]
abbrev pub target : Lb → ℕ
target l = get_or l.pipes.items l.current 0

-- what send does to a pipe that refused the message: `n` is active - 1
abbrev pub pass_over : Lb → ℕ → Lb
pass_over l n =
    if ltb l.current n
    then record l { active = n; pipes = swap l.pipes l.current n }
    else record l { active = n; current = 0 }

-- what has_out does to a pipe that is full
abbrev pub deactivate : Lb → ℕ → Lb
deactivate l n = record l {
  active = n;
  pipes = swap l.pipes l.current n;
  current = if l.current == n then 0 else l.current;
}

module _ {P M : Type 0} (ps : Pipes P M) where
  -- The loop of send, over the active pipes. The result is none where zmq_assert (!more) fails;
  -- the flag says whether a pipe took the message.
  pub send_loop : ℕ → Lb → P → M → Option (Bool × Lb × P)
  send_loop zero l p m = some (false, l, p)
  send_loop (suc n) l p m =
      let (taken, p1) = ps.write p (target l) m in
      let rest = send_loop n (pass_over l n) p1 m in
      if taken then some (true, l, p1) else if l.more then none else rest

  -- send after the loop
  abbrev pub finish : Lb → P → M → Lb × P
  finish l p m =
      if ps.has_more m
      then (record l { more = true }, p)
      else (record l { more = false; current = (l.current + 1) % l.active }, ps.flush p (target l))

  abbrev pub after_loop : M → Option (Bool × Lb × P) → Option (Bool × Lb × P)
  after_loop m none = none
  after_loop m (some (taken, l, p)) =
      if l.active == 0
      then some (false, l, p)
      else (let (l1, p1) = finish l p m in some (true, l1, p1))

  -- The flag is false for -1 with EAGAIN; a message that is dropped counts as sent.
  pub send : Lb → P → M → Option (Bool × Lb × P)
  send l p m =
      if l.dropping
      then some (true, record l { more = ps.has_more m; dropping = ps.has_more m }, p)
      else after_loop m (send_loop l.active l p m)

  has_out_loop : ℕ → Lb → P → Bool × Lb × P
  has_out_loop zero l p = (false, l, p)
  has_out_loop (suc n) l p =
      let (room, p1) = ps.check_write p (target l) in
      let rest = has_out_loop n (deactivate l n) p1 in if room then (true, l, p1) else rest

  pub has_out : Lb → P → Bool × Lb × P
  unfolding has_out_loop
  has_out l p = if l.more then (true, l, p) else has_out_loop l.active l p
