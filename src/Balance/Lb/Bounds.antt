-- ===== src/Balance/Lb/Bounds.antt =====
-- lb_t::send brings no parts into the pipes that it could give.
use cctas.Base.{
  ℕ, zero, suc, ◌≤◌, Bool, true, false, if◌then◌else◌, ◌==◌, Bool-cases, inl, inr, Option, none,
  some, arith,
}
use cctas.Balance.{Pipes}
use cctas.Balance.Lb.{Lb, send_loop, pass_over, target, after_loop, send}

-- Writing to a pipe leaves what the pipes can give as it is, or less.
pub record SendBounded {P M : Type 0} (ps : Pipes P M) (waiting : P → ℕ) : Type 0 where
  pub write_kept : (p : P) (x : ℕ) (m : M) → waiting (ps.write p x m).1 ≤ waiting p
  pub flush_kept : (p : P) (x : ℕ) → waiting (ps.flush p x) ≤ waiting p

module _ {P M : Type 0} (ps : Pipes P M) (waiting : P → ℕ) (bounded : SendBounded ps waiting) where
  abbrev pub NoMore : ℕ → Option (Bool × Lb × P) → Type 0
  NoMore n none = Unit
  NoMore n (some (taken, l, p)) = waiting p ≤ n

  if_NoMore :
      (n k : ℕ) (c : Bool) (o : Option (Bool × Lb × P))
      → k ≤ n
      → NoMore k o
      → NoMore n (if c then none else o)
  if_NoMore n k true o le f = tt
  if_NoMore n k false none le f = tt
  if_NoMore n k false (some (taken, l, p)) le f = omega arith

  send_loop-NoMore : (n : ℕ) (l : Lb) (p : P) (m : M) → NoMore (waiting p) (send_loop ps n l p m)
  unfolding send_loop
  send_loop-NoMore zero l p m = omega arith
  send_loop-NoMore (suc n) l p m =
      let p1 = (ps.write p (target l) m).1 in
      let kept : waiting p1 ≤ waiting p = bounded.write_kept p (target l) m in
      elim (Bool-cases (ps.write p (target l) m).0) [
        | inl taken ↦ rw taken kept
        | inr refused ↦ rw refused (
            if_NoMore (waiting p) (waiting p1) l.more (send_loop ps n (pass_over l n) p1 m) kept
              (send_loop-NoMore n (pass_over l n) p1 m))
      ]

  after_loop-NoMore :
      (n : ℕ) (m : M) (o : Option (Bool × Lb × P)) → NoMore n o → NoMore n (after_loop ps m o)
  after_loop-NoMore n m none f = tt
  after_loop-NoMore n m (some (taken, l, p)) f = elim (Bool-cases (l.active == 0)) [
    | inl idle ↦ rw idle f
    | inr busy ↦ elim (Bool-cases (ps.has_more m)) [
      | inl on ↦ rw (busy, on) f
      | inr last ↦
          let kept = bounded.flush_kept p (target l) in rw (busy, last) (omega (arith, kept, f))
    ]
  ]

  pub send-NoMore : (l : Lb) (p : P) (m : M) → NoMore (waiting p) (send ps l p m)
  unfolding send
  send-NoMore l p m = elim (Bool-cases l.dropping) [
    | inl drops ↦ simp drops (omega arith)
    | inr keeps ↦ simp keeps (
        after_loop-NoMore (waiting p) m (send_loop ps l.active l p m)
          (send_loop-NoMore l.active l p m))
  ]
