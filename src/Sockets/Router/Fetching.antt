-- ===== src/Sockets/Router/Fetching.antt =====
-- The loops around recvpipe in xrecv and xhas_in of router_t: what `while` ends with, and that the
-- rounds they are given are enough.
use cctas.Base.{
  ℕ, zero, suc, ◌<◌, ◌≡◌, refl, sym, subst, if◌then◌else◌, true, false, Bool, Bool-cases, inl, inr,
  Option, none, some, arith,
}
use cctas.Framing.{Msg}
use cctas.Balance.Fq.{Fq, Received, part, try_again, recvpipe}
use cctas.Balance.Fq.Bounds.{recvpipe-waiting}
use cctas.Sockets.{Got, is_identity}
use cctas.Sockets.Router.{Router, PeerPipes}
use cctas.Sockets.Router.Receiving.{
  identity_loop, from_prefetched, after_fetch, prefetch, xrecv, xhas_in,
}
use cctas.Sockets.Router.Drains.{PeerBounded}

if_true : {A : Type 0} (c : Bool) (x y : A) → c ≡ true → (if c then x else y) ≡ x
if_true c x y h = rw h refl

module _ {P : Type 0} (ps : PeerPipes P) where
  -- What the loop over the parts with an identity ends with: none only where an assertion of fq_t
  -- fails.
  pub data Fetches : Fq → P → Option (Received Msg × Fq × P) → Type 0 where
    asserts : {q : Fq} {p : P} → recvpipe ps.pipes q p ≡ none → Fetches q p none
    ends :
        {q q1 : Fq} {p p1 : P}
        → recvpipe ps.pipes q p ≡ some (try_again, q1, p1)
        → Fetches q p (some (try_again, q1, p1))
    carries :
        {q q1 : Fq} {p p1 : P} {m : Msg} {x : ℕ}
        → recvpipe ps.pipes q p ≡ some (part m x, q1, p1)
        → is_identity m ≡ false
        → Fetches q p (some (part m x, q1, p1))
    drops :
        {q q1 : Fq} {p p1 : P} {m : Msg} {x : ℕ} {o : Option (Received Msg × Fq × P)}
        → recvpipe ps.pipes q p ≡ some (part m x, q1, p1)
        → is_identity m ≡ true
        → Fetches q1 p1 o
        → Fetches q p o

  -- What xrecv ends with, with that loop.
  pub data Receives : Router × P → Option (Got × (Router × P)) → Type 0 where
    has_part :
        {r : Router} {p : P}
        → r.prefetched ≡ true
        → Receives (r, p) (some ((from_prefetched ps r).0, ((from_prefetched ps r).1, p)))
    fetches :
        {r : Router} {p : P} {o : Option (Received Msg × Fq × P)}
        → r.prefetched ≡ false
        → Fetches r.fq p o
        → Receives (r, p) (after_fetch ps r o)

  -- What xhas_in ends with, with that loop.
  pub data Looks : Router × P → Option (Bool × (Router × P)) → Type 0 where
    within : {r : Router} {p : P} → r.more_in ≡ true → Looks (r, p) (some (true, (r, p)))
    has_one :
        {r : Router} {p : P}
        → r.more_in ≡ false
        → r.prefetched ≡ true
        → Looks (r, p) (some (true, (r, p)))
    looks :
        {r : Router} {p : P} {o : Option (Received Msg × Fq × P)}
        → r.more_in ≡ false
        → r.prefetched ≡ false
        → Fetches r.fq p o
        → Looks (r, p) (prefetch ps r o)

  module _ (bounded : PeerBounded ps) where
    identity_round :
        (n : ℕ) (q : Fq) (p : P) (o : Option (Received Msg × Fq × P))
        → ((q1 : Fq) (p1 : P) → ps.waiting p1 < n → Fetches q1 p1 (identity_loop ps n q1 p1))
        → ps.waiting p < suc n
        → recvpipe ps.pipes q p ≡ o
        → Fetches q p (identity_loop ps (suc n) q p)
    unfolding identity_loop
    identity_round n q p none rest low h = rw (h, identity_loop) (asserts h)
    identity_round n q p (some (try_again, q1, p1)) rest low h = rw (h, identity_loop) (ends h)
    identity_round n q p (some (part m x, q1, p1)) rest low h =
        let less : ps.waiting p1 < ps.waiting p =
          recvpipe-waiting ps.pipes ps.waiting bounded.reads q q1 p p1 m x h in
        elim (Bool-cases (is_identity m)) [
          | inl names ↦ rw (h, identity_loop, names) (drops h names (rest q1 p1 (omega arith)))
          | inr plain ↦ rw (h, identity_loop, plain) (carries h plain)
        ]

    identity_loop-Fetches :
        (n : ℕ) (q : Fq) (p : P) → ps.waiting p < n → Fetches q p (identity_loop ps n q p)
    identity_loop-Fetches zero q p low = absurd (omega arith)
    identity_loop-Fetches (suc n) q p low =
        identity_round n q p (recvpipe ps.pipes q p)
          (λ q1 p1 less. identity_loop-Fetches n q1 p1 less) low refl

    pub xrecv-Receives : (s : Router × P) → Receives s (xrecv ps s)
    unfolding xrecv
    xrecv-Receives (r, p) = elim (Bool-cases r.prefetched) [
      | inl on ↦ subst (Receives (r, p)) (sym (if_true r.prefetched _ _ on)) (has_part on)
      | inr off ↦
          simp off (fetches off (identity_loop-Fetches (suc (ps.waiting p)) r.fq p (omega arith)))
    ]

    xhas_in-Looks : (s : Router × P) → Looks s (xhas_in ps s)
    unfolding xhas_in
    xhas_in-Looks (r, p) = elim (Bool-cases r.more_in) [
      | inl inside ↦ simp inside (within inside)
      | inr start ↦ elim (Bool-cases r.prefetched) [
        | inl on ↦ simp (start, on) (has_one start on)
        | inr off ↦
            simp (start, off)
              (looks start off (identity_loop-Fetches (suc (ps.waiting p)) r.fq p (omega arith)))
      ]
    ]
