-- ===== src/Sockets/Router/Drains.antt =====
-- router_t gives its derived class a bounded number of parts, so the loops of rep_t end.
use cctas.Base.{
  ℕ, zero, suc, ◌+◌, ◌<◌, ◌≤◌, ◌≡◌, refl, subst, false, Bool-cases, inl, inr, Option, none, some,
  arith,
}
use cctas.Framing.{Msg}
use cctas.Balance.Fq.{Fq, Received, part, try_again, recvpipe}
use cctas.Balance.Fq.Bounds.{Bounded, recvpipe-waiting}
use cctas.Sockets.{Rc, Got, got, failed, more, is_identity}
use cctas.Sockets.Draining.{Draining}
use cctas.Sockets.Router.{Outpipe, Router, PeerPipes, find}
use cctas.Sockets.Router.Sending.{address, forward, first_part, xsend, undo, rollback}
use cctas.Sockets.Router.Receiving.{identity_loop, after_fetch, xrecv, parts_left, router_class}

-- The calls on pipes bring no parts, and reading takes one.
pub record PeerBounded {P : Type 0} (ps : PeerPipes P) : Type 0 where
  pub reads : Bounded ps.pipes ps.waiting
  pub write_kept : (p : P) (x : ℕ) (m : Msg) → ps.waiting (ps.pipes.write p x m).1 ≤ ps.waiting p
  pub check_write_kept : (p : P) (x : ℕ) → ps.waiting (ps.pipes.check_write p x).1 ≤ ps.waiting p
  pub flush_kept : (p : P) (x : ℕ) → ps.waiting (ps.pipes.flush p x) ≤ ps.waiting p
  pub rollback_kept : (p : P) (x : ℕ) → ps.waiting (ps.rollback p x) ≤ ps.waiting p

module _ {P : Type 0} (ps : PeerPipes P) (bounded : PeerBounded ps) where
  abbrev Falls : ℕ → Option (Received Msg × Fq × P) → Type 0
  Falls n none = Unit
  Falls n (some (part m x, q, p)) = ps.waiting p < n
  Falls n (some (try_again, q, p)) = Unit

  Falls-weaken : (n k : ℕ) (o : Option (Received Msg × Fq × P)) → k ≤ n → Falls k o → Falls n o
  Falls-weaken n k none le f = tt
  Falls-weaken n k (some (part m x, q, p)) le f = omega arith
  Falls-weaken n k (some (try_again, q, p)) le f = tt

  identity_round-Falls :
      (n : ℕ) (q : Fq) (p : P) (o : Option (Received Msg × Fq × P))
      → ((q1 : Fq) (p1 : P) → Falls (ps.waiting p1) (identity_loop ps n q1 p1))
      → recvpipe ps.pipes q p ≡ o
      → Falls (ps.waiting p) (identity_loop ps (suc n) q p)
  unfolding identity_loop
  identity_round-Falls n q p none rest h = rw (h, identity_loop) tt
  identity_round-Falls n q p (some (try_again, q1, p1)) rest h = rw (h, identity_loop) tt
  identity_round-Falls n q p (some (part m x, q1, p1)) rest h =
      let less : ps.waiting p1 < ps.waiting p =
        recvpipe-waiting ps.pipes ps.waiting bounded.reads q q1 p p1 m x h in
      elim (Bool-cases (is_identity m)) [
        | inl names ↦
            rw (h, identity_loop, names)
              (Falls-weaken (ps.waiting p) (ps.waiting p1) (identity_loop ps n q1 p1) (omega arith)
                (rest q1 p1))
        | inr carries ↦ rw (h, identity_loop, carries) less
      ]

  identity_loop-Falls : (n : ℕ) (q : Fq) (p : P) → Falls (ps.waiting p) (identity_loop ps n q p)
  unfolding identity_loop
  identity_loop-Falls zero q p = tt
  identity_loop-Falls (suc n) q p =
      identity_round-Falls n q p (recvpipe ps.pipes q p) (λ q1 p1. identity_loop-Falls n q1 p1) refl

  abbrev Less : ℕ → Option (Got × (Router × P)) → Type 0
  Less n none = Unit
  Less n (some (failed e, s)) = Unit
  Less n (some (got m, s)) = parts_left ps s < n

  after_fetch-Less :
      (r : Router) (p : P) (o : Option (Received Msg × Fq × P))
      → r.prefetched ≡ false
      → Falls (ps.waiting p) o
      → Less (ps.waiting p + ps.waiting p + 0) (after_fetch ps r o)
  after_fetch-Less r p none off f = tt
  after_fetch-Less r p (some (try_again, q, p1)) off f = tt
  after_fetch-Less r p (some (part m x, q, p1)) off f = elim (Bool-cases r.more_in) [
    | inl inside ↦ simp inside (ground (arith, off, f))
    | inr start ↦ simp start (ground (arith, off, f))
  ]

  xrecv-Less : (s : Router × P) → Less (parts_left ps s) (xrecv ps s)
  unfolding xrecv
  xrecv-Less (r, p) = elim (Bool-cases r.prefetched) [
    | inr off ↦ simp off (
        after_fetch-Less r p (identity_loop ps (suc (ps.waiting p)) r.fq p) off
          (identity_loop-Falls (suc (ps.waiting p)) r.fq p))
    | inl on ↦ elim (Bool-cases r.identity_sent) [
      | inl told ↦ simp (on, told) (omega arith)
      | inr first ↦ simp (on, first) (omega arith)
    ]
  ]

  abbrev NoMore : ℕ → Option (Rc × (Router × P)) → Type 0
  NoMore n none = Unit
  NoMore n (some (rc, s)) = parts_left ps s ≤ n

  address-NoMore :
      (r : Router) (p : P) (m : Msg) (o : Option Outpipe)
      → NoMore (parts_left ps (r, p)) (some (address ps r p m o))
  address-NoMore r p m none = elim (Bool-cases r.mandatory) [
    | inl strict ↦ simp strict (omega arith)
    | inr lenient ↦ simp lenient (omega arith)
  ]
  address-NoMore r p m (some o) =
      let kept = bounded.check_write_kept p o.pipe in
      elim (Bool-cases (ps.pipes.check_write p o.pipe).0) [
        | inl room ↦ simp room (omega (arith, kept))
        | inr full ↦ simp full (omega (arith, kept))
      ]

  forward-NoMore :
      (r : Router) (p : P) (m : Msg) (o : Option ℕ)
      → NoMore (parts_left ps (r, p)) (some (forward ps r p m o))
  forward-NoMore r p m none = omega arith
  forward-NoMore r p m (some x) =
      let kept = bounded.write_kept p x m in
      elim (Bool-cases (ps.pipes.write p x m).0) [
        | inr full ↦ simp full (omega (arith, kept))
        | inl room ↦ elim (Bool-cases (more m)) [
          | inl on ↦ simp (room, on) (omega (arith, kept))
          | inr last ↦
              simp (room, last) (omega (arith, kept, bounded.flush_kept (ps.pipes.write p x m).1 x))
        ]
      ]

  first_part-NoMore :
      (r : Router) (p : P) (m : Msg) (o : Option ℕ)
      → NoMore (parts_left ps (r, p)) (first_part ps r p m o)
  first_part-NoMore r p m (some x) = tt
  first_part-NoMore r p m none = elim (Bool-cases (more m)) [
    | inl on ↦ simp on (address-NoMore r p m (find m.body r.outpipes))
    | inr last ↦ simp last (omega arith)
  ]

  xsend-NoMore : (s : Router × P) (m : Msg) → NoMore (parts_left ps s) (xsend ps s m)
  unfolding xsend
  xsend-NoMore (r, p) m = elim (Bool-cases r.more_out) [
    | inl on ↦ simp on (forward-NoMore r p m r.current_out)
    | inr off ↦ simp off (first_part-NoMore r p m r.current_out)
  ]

  undo_left :
      (r : Router) (p : P) (o : Option ℕ) → parts_left ps (undo ps r p o) ≤ parts_left ps (r, p)
  undo_left r p none = omega arith
  undo_left r p (some x) = omega (arith, bounded.rollback_kept p x)

  -- What a router gives is bounded by twice the parts in its pipes and what it has prefetched.
  pub router-Draining : Draining (router_class ps)
  unfolding rollback
  router-Draining = record {
    xrecv_left = λ s s' m h. subst (Less (parts_left ps s)) h (xrecv-Less s);
    xsend_left = λ s s' m rc h. subst (NoMore (parts_left ps s)) h (xsend-NoMore s m);
    rollback_left = λ (r, p). undo_left r p r.current_out;
  }
