-- ===== src/Balance/Fq/Bounds.antt =====
-- fq_t::recvpipe takes parts out of the pipes, so loops around it end.
use cctas.Base.{
  ℕ, zero, suc, ◌<◌, ◌≤◌, ◌≡◌, sym, subst, Bool, true, false, if◌then◌else◌, Option, none, some,
  Option-cases, inl, inr, arith,
}
use cctas.Balance.{Pipes}
use cctas.Balance.Fq.{Fq, Received, part, try_again, recvpipe, recv_loop, deactivate, source}
use cctas.Balance.Fq.Valid.{recv_loop_round, recv_loop_got}

-- `waiting` bounds the parts that the pipes can give: each part that is read is one of them.
pub record Bounded {P M : Type 0} (ps : Pipes P M) (waiting : P → ℕ) : Type 0 where
  pub read_some :
      (p : P) (x : ℕ) (m : M) → (ps.read p x).0 ≡ some m → waiting (ps.read p x).1 < waiting p
  pub read_none : (p : P) (x : ℕ) → (ps.read p x).0 ≡ none → waiting (ps.read p x).1 ≤ waiting p

module _ {P M : Type 0} (ps : Pipes P M) (waiting : P → ℕ) (bounded : Bounded ps waiting) where
  -- A call that gives a part leaves less than n parts, and one that gives none no more.
  abbrev Lowers : ℕ → Option (Received M × Fq × P) → Type 0
  Lowers n none = Unit
  Lowers n (some (part m x, q, p)) = waiting p < n
  Lowers n (some (try_again, q, p)) = waiting p ≤ n

  if_Lowers :
      (n k : ℕ) (c : Bool) (o : Option (Received M × Fq × P))
      → k ≤ n
      → Lowers k o
      → Lowers n (if c then none else o)
  if_Lowers n k true o le low = tt
  if_Lowers n k false none le low = tt
  if_Lowers n k false (some (part m x, q, p)) le low = omega arith
  if_Lowers n k false (some (try_again, q, p)) le low = omega arith

  recv_loop-Lowers : (n : ℕ) (q : Fq) (p : P) → Lowers (waiting p) (recv_loop ps n q p)
  unfolding recv_loop
  recv_loop-Lowers zero q p = omega arith
  recv_loop-Lowers (suc n) q p = elim (Option-cases (ps.read p (source q)).0) [
    | inl nothing ↦
        let p1 = (ps.read p (source q)).1 in
        subst (Lowers (waiting p)) (sym (recv_loop_round ps n q p nothing)) (
          if_Lowers (waiting p) (waiting p1) q.more (recv_loop ps n (deactivate q n) p1)
            (bounded.read_none p (source q) nothing) (recv_loop-Lowers n (deactivate q n) p1))
    | inr (m, gave) ↦
        subst (Lowers (waiting p)) (sym (recv_loop_got ps n q p m gave))
          (bounded.read_some p (source q) m gave)
  ]

  pub recvpipe-waiting :
      (q q' : Fq) (p p' : P) (m : M) (x : ℕ)
      → recvpipe ps q p ≡ some (part m x, q', p')
      → waiting p' < waiting p
  unfolding recvpipe
  recvpipe-waiting q q' p p' m x h = subst (Lowers (waiting p)) h (recv_loop-Lowers q.active q p)
