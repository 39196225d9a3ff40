-- ===== src/Balance/Dist.antt =====
-- dist.cpp: dist_t, which sends each message to all matching pipes.
-- The array holds the matching pipes first, then the other active ones, then the other eligible
-- ones, then the passive ones.
pub mod Valid
pub mod Sending
pub mod Leaving
pub mod Reachable
mod Tests
use cctas.Base.{
  ℕ, zero, suc, ◌+◌, ◌-◌, ◌==◌, ltb, leb, Bool, true, false, not, if◌then◌else◌, get_or,
}
use cctas.Array.{Array, empty, size, index, push_back, erase, swap}
use cctas.Balance.{Pipes}

pub record Dist : Type 0 where
  pub pipes : Array
  pub matching : ℕ
  pub active : ℕ
  pub eligible : ℕ
  pub more : Bool

-- the constructor
pub dist : Dist
dist = record { pipes = empty; matching = 0; active = 0; eligible = 0; more = false }

pub attach : Dist → ℕ → Dist
attach d x =
    let pushed = push_back d.pipes x in
    if d.more
    then record d { pipes = swap pushed d.eligible (size pushed - 1); eligible = d.eligible + 1 }
    else record d {
      pipes = swap pushed d.active (size pushed - 1);
      active = d.active + 1;
      eligible = d.eligible + 1;
    }

-- the function `match`
pub match_pipe : Dist → ℕ → Dist
match_pipe d x =
    let i = index d.pipes x in
    if ltb i d.matching
    then d
    else (if leb d.eligible i
        then d
        else record d { pipes = swap d.pipes i d.matching; matching = d.matching + 1 })

pub unmatch : Dist → Dist
unmatch d = record d { matching = 0 }

abbrev pub drop_one : ℕ → ℕ → ℕ
drop_one i n = if ltb i n then n - 1 else n

pub terminated : Dist → ℕ → Dist
terminated d x =
    let i = index d.pipes x in
    record d {
      matching = drop_one i d.matching;
      active = drop_one i d.active;
      eligible = drop_one i d.eligible;
      pipes = erase d.pipes x;
    }

pub activated : Dist → ℕ → Dist
activated d x =
    let moved = swap d.pipes (index d.pipes x) d.eligible in
    if d.more then record d { pipes = moved; eligible = d.eligible + 1 } else record d {
      pipes = swap moved (d.eligible + 1 - 1) d.active;
      eligible = d.eligible + 1;
      active = d.active + 1;
    }

-- what write does to a pipe that is full: out of the matching, the active and the eligible ones
pub expel : Dist → ℕ → Dist
expel d x =
    let a1 = swap d.pipes (index d.pipes x) (d.matching - 1) in
    let a2 = swap a1 (index a1 x) (d.active - 1) in
    let a3 = swap a2 (d.active - 1) (d.eligible - 1) in
    record d {
      pipes = a3;
      matching = d.matching - 1;
      active = d.active - 1;
      eligible = d.eligible - 1;
    }

module _ {P M : Type 0} (ps : Pipes P M) where
  pub write : Dist → P → ℕ → M → Bool × Dist × P
  write d p x m =
      let (taken, p1) = ps.write p x m in
      if taken
      then (true, d, if ps.has_more m then p1 else ps.flush p1 x)
      else (false, expel d x, p1)

  -- The loop of distribute from index i on, with matching - i rounds to go. The number counts the
  -- writes that failed; a round whose write failed meets the next pipe at the same index.
  pub distribute_loop : ℕ → ℕ → ℕ → Dist → P → M → ℕ × Dist × P
  distribute_loop zero i failed d p m = (failed, d, p)
  distribute_loop (suc n) i failed d p m =
      let (taken, d1, p1) = write d p (get_or d.pipes.items i 0) m in
      distribute_loop n (if taken then i + 1 else i) (if taken then failed else failed + 1) d1 p1 m

  -- distribute: the references to the message's data that pipes hold afterwards, of the one that
  -- the caller held, matching - 1 added before the loop, and one removed for each failed write.
  -- (A very small message is copied into each pipe instead; the loop is the same.)
  pub distribute : Dist → P → M → ℕ × Dist × P
  distribute d p m =
      let (failed, d1, p1) = distribute_loop d.matching 0 0 d p m in
      if d.matching == 0 then (0, d, p) else (1 + (d.matching - 1) - failed, d1, p1)

  pub send_to_matching : Dist → P → M → Dist × P
  send_to_matching d p m =
      let (refs, d1, p1) = distribute d p m in
      (
        (if ps.has_more m
            then record d1 { more = true }
            else record d1 { active = d1.eligible; more = false }),
        p1,
      )

  pub send_to_all : Dist → P → M → Dist × P
  send_to_all d p m = send_to_matching (record d { matching = d.active }) p m

-- has_out
abbrev pub has_out : Dist → Bool
has_out d = true
