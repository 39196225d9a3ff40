-- ===== src/Sockets/Dealer/Drains.antt =====
-- dealer_t gives its derived class a bounded number of parts, so the loop of req_t on it ends.
use cctas.Base.{
  ℕ, zero, suc, ◌+◌, ◌<◌, ◌≤◌, ◌≡◌, refl, subst, Bool, true, false, if◌then◌else◌, Bool-cases, inl,
  inr, Option, none, some, arith,
}
use cctas.Framing.{Msg}
use cctas.Balance.{Pipes}
use cctas.Balance.Lb.{Lb, send}
use cctas.Balance.Lb.Bounds
use cctas.Balance.Lb.Bounds.{SendBounded, send-NoMore}
use cctas.Balance.Fq.{Fq, Received, part, try_again, recvpipe}
use cctas.Balance.Fq.Bounds.{Bounded, recvpipe-waiting}
use cctas.Sockets.{Rc, Got, got, failed, is_identity}
use cctas.Sockets.Draining.{Draining}
use cctas.Sockets.Dealer.{Dealer, after_send, xsend, skip_loop, after_skip, xrecv, dealer_class}
use cctas.Sockets.Req.{drop_loop}
use cctas.Sockets.Req.Dropping.{Drops, drop_loop-Drops}

module _ {P : Type 0} (ps : Pipes P Msg) (waiting : P → ℕ) (reads : Bounded ps waiting)
    (writes : SendBounded ps waiting) where
  abbrev left : Dealer × P → ℕ
  left s = waiting s.1 + (if s.0.prefetched then 1 else 0)

  abbrev Falls : ℕ → Option (Got × Fq × P) → Type 0
  Falls n none = Unit
  Falls n (some (got m, q, p)) = waiting p < n
  Falls n (some (failed e, q, p)) = Unit

  Falls-weaken : (n k : ℕ) (o : Option (Got × Fq × P)) → k ≤ n → Falls k o → Falls n o
  Falls-weaken n k none le f = tt
  Falls-weaken n k (some (got m, q, p)) le f = omega arith
  Falls-weaken n k (some (failed e, q, p)) le f = tt

  skip_round-Falls :
      (n : ℕ) (q : Fq) (p : P) (o : Option (Received Msg × Fq × P))
      → ((q1 : Fq) (p1 : P) → Falls (waiting p1) (skip_loop ps waiting n q1 p1))
      → recvpipe ps q p ≡ o
      → Falls (waiting p) (skip_loop ps waiting (suc n) q p)
  unfolding skip_loop
  skip_round-Falls n q p none rest h = rw (h, skip_loop) tt
  skip_round-Falls n q p (some (try_again, q1, p1)) rest h = rw (h, skip_loop) tt
  skip_round-Falls n q p (some (part m x, q1, p1)) rest h =
      let less : waiting p1 < waiting p = recvpipe-waiting ps waiting reads q q1 p p1 m x h in
      elim (Bool-cases (is_identity m)) [
        | inl names ↦
            rw (h, skip_loop, names)
              (Falls-weaken (waiting p) (waiting p1) (skip_loop ps waiting n q1 p1) (omega arith)
                (rest q1 p1))
        | inr carries ↦ rw (h, skip_loop, carries) less
      ]

  skip_loop-Falls : (n : ℕ) (q : Fq) (p : P) → Falls (waiting p) (skip_loop ps waiting n q p)
  unfolding skip_loop
  skip_loop-Falls zero q p = tt
  skip_loop-Falls (suc n) q p =
      skip_round-Falls n q p (recvpipe ps q p) (λ q1 p1. skip_loop-Falls n q1 p1) refl

  abbrev Less : ℕ → Option (Got × (Dealer × P)) → Type 0
  Less n none = Unit
  Less n (some (failed e, s)) = Unit
  Less n (some (got m, s)) = left s < n

  after_skip-Less :
      (d : Dealer) (p : P) (o : Option (Got × Fq × P))
      → d.prefetched ≡ false
      → Falls (waiting p) o
      → Less (waiting p + 0) (after_skip ps waiting d o)
  after_skip-Less d p none off f = tt
  after_skip-Less d p (some (failed e, q, p1)) off f = tt
  after_skip-Less d p (some (got m, q, p1)) off f = ground (arith, off, f)

  xrecv-Less : (s : Dealer × P) → Less (left s) (xrecv ps waiting s)
  unfolding xrecv
  xrecv-Less (d, p) = elim (Bool-cases d.prefetched) [
    | inl on ↦ simp on (omega arith)
    | inr off ↦ simp off (
        after_skip-Less d p (skip_loop ps waiting (suc (waiting p)) d.fq p) off
          (skip_loop-Falls (suc (waiting p)) d.fq p))
  ]

  abbrev NoMore : ℕ → Option (Rc × (Dealer × P)) → Type 0
  NoMore n none = Unit
  NoMore n (some (rc, s)) = left s ≤ n

  after_send-NoMore :
      (d : Dealer) (p : P) (o : Option (Bool × Lb × P))
      → Bounds.NoMore ps waiting writes (waiting p) o
      → NoMore (left (d, p)) (after_send ps waiting d o)
  after_send-NoMore d p none f = tt
  after_send-NoMore d p (some (true, l, p1)) f = omega (arith, f)
  after_send-NoMore d p (some (false, l, p1)) f = omega (arith, f)

  xsend-NoMore : (s : Dealer × P) (m : Msg) → NoMore (left s) (xsend ps waiting s m)
  unfolding xsend
  xsend-NoMore (d, p) m =
      after_send-NoMore d p (send ps d.lb p m) (send-NoMore ps waiting writes d.lb p m)

  pub dealer-Draining : Draining (dealer_class ps waiting)
  dealer-Draining = record {
    xrecv_left = λ s s' m h. subst (Less (left s)) h (xrecv-Less s);
    xsend_left = λ s s' m rc h. subst (NoMore (left s)) h (xsend-NoMore s m);
    rollback_left = λ s. omega arith;
  }

  -- The loop that drops a malformed reply ends with the real dealer below it.
  pub drop_loop-dealer :
      (s : Dealer × P)
      → Drops (dealer_class ps waiting) s (drop_loop (dealer_class ps waiting) (suc (left s)) s)
  drop_loop-dealer s =
      drop_loop-Drops (dealer_class ps waiting) dealer-Draining (suc (left s)) s (omega arith)
