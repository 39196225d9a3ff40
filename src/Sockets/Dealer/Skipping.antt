-- ===== src/Sockets/Dealer/Skipping.antt =====
-- The loop of dealer_t::xrecv ends: every part that it drops is one less in the pipes.
use cctas.Base.{
  ℕ, zero, suc, ◌<◌, ◌≡◌, refl, true, false, Option, none, some, Bool-cases, inl, inr, arith,
}
use cctas.Framing.{Msg}
use cctas.Balance.{Pipes}
use cctas.Balance.Fq.{Fq, Received, part, try_again, recvpipe}
use cctas.Balance.Fq.Bounds.{Bounded, recvpipe-waiting}
use cctas.Sockets.{eagain, Got, got, failed, is_identity}
use cctas.Sockets.Dealer.{skip_loop}

module _ {P : Type 0} (ps : Pipes P Msg) (waiting : P → ℕ) (bounded : Bounded ps waiting) where
  -- What `while (true)` around fq.recv ends with, written as a relation.
  pub data Skips : Fq → P → Option (Got × Fq × P) → Type 0 where
    asserts : {q : Fq} {p : P} → recvpipe ps q p ≡ none → Skips q p none
    ends :
        {q q1 : Fq} {p p1 : P}
        → recvpipe ps q p ≡ some (try_again, q1, p1)
        → Skips q p (some (failed eagain, q1, p1))
    takes :
        {q q1 : Fq} {p p1 : P} {m : Msg} {x : ℕ}
        → recvpipe ps q p ≡ some (part m x, q1, p1)
        → is_identity m ≡ false
        → Skips q p (some (got m, q1, p1))
    skips :
        {q q1 : Fq} {p p1 : P} {m : Msg} {x : ℕ} {o : Option (Got × Fq × P)}
        → recvpipe ps q p ≡ some (part m x, q1, p1)
        → is_identity m ≡ true
        → Skips q1 p1 o
        → Skips q p o

  skip_round-Skips :
      (n : ℕ) (q : Fq) (p : P) (o : Option (Received Msg × Fq × P))
      → ((q1 : Fq) (p1 : P) → waiting p1 < n → Skips q1 p1 (skip_loop ps waiting n q1 p1))
      → waiting p < suc n
      → recvpipe ps q p ≡ o
      → Skips q p (skip_loop ps waiting (suc n) q p)
  unfolding skip_loop
  skip_round-Skips n q p none rest low h = rw (h, skip_loop) (asserts h)
  skip_round-Skips n q p (some (try_again, q1, p1)) rest low h = rw (h, skip_loop) (ends h)
  skip_round-Skips n q p (some (part m x, q1, p1)) rest low h = elim (Bool-cases (is_identity m)) [
    | inl names ↦
        let less : waiting p1 < waiting p = recvpipe-waiting ps waiting bounded q q1 p p1 m x h in
        rw (h, skip_loop, names) (skips h names (rest q1 p1 (omega arith)))
    | inr carries ↦ rw (h, skip_loop, carries) (takes h carries)
  ]

  -- Where the pipes hold a bounded number of parts, the loop of xrecv ends with what `while (true)`
  -- ends with, in at most one round more than there are parts.
  pub skip_loop-Skips :
      (n : ℕ) (q : Fq) (p : P) → waiting p < n → Skips q p (skip_loop ps waiting n q p)
  skip_loop-Skips zero q p low = absurd (omega arith)
  skip_loop-Skips (suc n) q p low =
      skip_round-Skips n q p (recvpipe ps q p) (λ q1 p1 less. skip_loop-Skips n q1 p1 less) low refl
