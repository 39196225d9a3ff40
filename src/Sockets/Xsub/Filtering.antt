-- ===== src/Sockets/Xsub/Filtering.antt =====
-- The loop of xsub_t::xrecv: which message it gives, and that it ends.
use cctas.Base.{
  ℕ, zero, suc, ◌<◌, ◌≤◌, ◌≡◌, ◌↔◌, refl, subst, Bool, true, false, Option, none, some, arith,
  Bool-cases, inl, inr, if◌then◌else◌,
}
use cctas.Framing.{Msg}
use cctas.Balance.{Pipes}
use cctas.Balance.Fq.{Fq, Received, part, try_again, recvpipe}
use cctas.Balance.Fq.Bounds.{Bounded, recvpipe-waiting}
use cctas.Tables.Load.{IsWf}
use cctas.Trie.{Trie}
use cctas.Trie.Check.{Covered, check_lem}
use cctas.Sockets.{eagain, Got, got, failed, more}
use cctas.Sockets.Xsub.{drop_rest, filter_loop, match_msg}

module _ {P : Type 0} (ps : Pipes P Msg) (waiting : P → ℕ) (bounded : Bounded ps waiting) where
  -- What `while (msg_->flags () & msg_t::more)` around fq.recv ends with; none where a part is missing.
  pub data Drops : Msg → Fq → P → Option (Fq × P) → Type 0 where
    at_last : {m : Msg} {q : Fq} {p : P} → more m ≡ false → Drops m q p (some (q, p))
    goes_on :
        {m m1 : Msg} {q q1 : Fq} {p p1 : P} {pipe_ : ℕ} {o : Option (Fq × P)}
        → more m ≡ true
        → recvpipe ps q p ≡ some (part m1 pipe_, q1, p1)
        → Drops m1 q1 p1 o
        → Drops m q p o
    lacks :
        {m : Msg} {q q1 : Fq} {p p1 : P}
        → more m ≡ true
        → recvpipe ps q p ≡ some (try_again, q1, p1)
        → Drops m q p none
    asserts_within :
        {m : Msg} {q : Fq} {p : P} → more m ≡ true → recvpipe ps q p ≡ none → Drops m q p none

  -- Whether a part is passed on: parts of a message that was begun are, and all without a filter;
  -- else a front part of the first part's data has to be subscribed.
  abbrev Passes : Bool → Trie → Msg → Type 0
  Passes true t m = Unit
  Passes false t m = Covered m.body t

  -- What `while (true)` in xrecv ends with.
  pub data Filters (passes : Bool) (t : Trie) : Fq → P → Option (Got × Fq × P) → Type 0 where
    asserts : {q : Fq} {p : P} → recvpipe ps q p ≡ none → Filters passes t q p none
    ends :
        {q q1 : Fq} {p p1 : P}
        → recvpipe ps q p ≡ some (try_again, q1, p1)
        → Filters passes t q p (some (failed eagain, q1, p1))
    takes :
        {q q1 : Fq} {p p1 : P} {m : Msg} {pipe_ : ℕ}
        → recvpipe ps q p ≡ some (part m pipe_, q1, p1)
        → Passes passes t m
        → Filters passes t q p (some (got m, q1, p1))
    skips :
        {q q1 q2 : Fq} {p p1 p2 : P} {m : Msg} {pipe_ : ℕ} {o : Option (Got × Fq × P)}
        → recvpipe ps q p ≡ some (part m pipe_, q1, p1)
        → ¬ Passes passes t m
        → Drops m q1 p1 (some (q2, p2))
        → Filters passes t q2 p2 o
        → Filters passes t q p o
    breaks :
        {q q1 : Fq} {p p1 : P} {m : Msg} {pipe_ : ℕ}
        → recvpipe ps q p ≡ some (part m pipe_, q1, p1)
        → ¬ Passes passes t m
        → Drops m q1 p1 none
        → Filters passes t q p none

  abbrev Fewer : ℕ → Option (Fq × P) → Type 0
  Fewer n none = Unit
  Fewer n (some (q, p)) = waiting p ≤ n

  drop_round :
      (n : ℕ) (m : Msg) (q : Fq) (p : P) (o : Option (Received Msg × Fq × P))
      → ((m1 : Msg) (q1 : Fq) (p1 : P)
          → waiting p1 < n
          → Drops m1 q1 p1 (drop_rest ps waiting n m1 q1 p1)
            × Fewer (waiting p1) (drop_rest ps waiting n m1 q1 p1))
      → waiting p < suc n
      → more m ≡ true
      → recvpipe ps q p ≡ o
      → Drops m q p (drop_rest ps waiting (suc n) m q p)
        × Fewer (waiting p) (drop_rest ps waiting (suc n) m q p)
  unfolding drop_rest
  drop_round n m q p none rest low on h = rw (on, h, drop_rest) (asserts_within on h, tt)
  drop_round n m q p (some (try_again, q1, p1)) rest low on h =
      rw (on, h, drop_rest) (lacks on h, tt)
  drop_round n m q p (some (part m1 pipe_, q1, p1)) rest low on h =
      let less : waiting p1 < waiting p =
        recvpipe-waiting ps waiting bounded q q1 p p1 m1 pipe_ h in
      let (d, f) = rest m1 q1 p1 (omega arith) in
      rw (on, h, drop_rest)
        (goes_on on h d, weaken (drop_rest ps waiting n m1 q1 p1) f (omega arith))
    where
      weaken :
          (o : Option (Fq × P))
          → Fewer (waiting p1) o
          → waiting p1 ≤ waiting p
          → Fewer (waiting p) o
      weaken none f le = tt
      weaken (some (q, p)) f le = omega arith

  drop_rest-Drops :
      (n : ℕ) (m : Msg) (q : Fq) (p : P)
      → waiting p < n
      → Drops m q p (drop_rest ps waiting n m q p)
        × Fewer (waiting p) (drop_rest ps waiting n m q p)
  unfolding drop_rest
  drop_rest-Drops zero m q p low = absurd (omega arith)
  drop_rest-Drops (suc n) m q p low = elim (Bool-cases (more m)) [
    | inl on ↦
        drop_round n m q p (recvpipe ps q p) (λ m1 q1 p1 less. drop_rest-Drops n m1 q1 p1 less) low
          on refl
    | inr off ↦ rw (off, drop_rest) (at_last off, omega arith)
  ]

  -- The answer of the filter to a part.
  decide_part :
      (passes : Bool) (t : Trie) (m : Msg)
      → IsWf t
      → (b : Bool) × ((if passes then some true else match_msg t m) ≡ some b)
        × ((b ≡ true) ↔ Passes passes t m)
  decide_part true t m w = (true, refl, ((λ e. tt), (λ u. refl)))
  decide_part false t m w = check_lem m.body t w

  module _ (passes : Bool) (t : Trie) (w : IsWf t) where
    after_skip :
        (n : ℕ) (m : Msg) (q q1 : Fq) (p p1 : P) (pipe_ : ℕ) (o : Option (Fq × P))
        → ((q2 : Fq) (p2 : P)
            → waiting p2 < n
            → Filters passes t q2 p2 (filter_loop ps waiting n passes t q2 p2))
        → waiting p1 < n
        → recvpipe ps q p ≡ some (part m pipe_, q1, p1)
        → (if passes then some true else match_msg t m) ≡ some false
        → ¬ Passes passes t m
        → drop_rest ps waiting (suc (waiting p1)) m q1 p1 ≡ o
        → Filters passes t q p (filter_loop ps waiting (suc n) passes t q p)
    unfolding filter_loop
    after_skip n m q q1 p p1 pipe_ none rest low h no_ out d =
        let (drops, f) = drop_rest-Drops (suc (waiting p1)) m q1 p1 (omega arith) in
        rw (h, no_, d, filter_loop) (breaks h out (subst (Drops m q1 p1) d drops))
    after_skip n m q q1 p p1 pipe_ (some (q2, p2)) rest low h no_ out d =
        let (drops, f) = drop_rest-Drops (suc (waiting p1)) m q1 p1 (omega arith) in
        let fewer : waiting p2 ≤ waiting p1 = subst (Fewer (waiting p1)) d f in
        rw (h, no_, d, filter_loop)
          (skips h out (subst (Drops m q1 p1) d drops) (rest q2 p2 (omega arith)))

    filter_round :
        (n : ℕ) (q : Fq) (p : P) (o : Option (Received Msg × Fq × P))
        → ((q2 : Fq) (p2 : P)
            → waiting p2 < n
            → Filters passes t q2 p2 (filter_loop ps waiting n passes t q2 p2))
        → waiting p < suc n
        → recvpipe ps q p ≡ o
        → Filters passes t q p (filter_loop ps waiting (suc n) passes t q p)
    unfolding filter_loop
    filter_round n q p none rest low h = rw (h, filter_loop) (asserts h)
    filter_round n q p (some (try_again, q1, p1)) rest low h = rw (h, filter_loop) (ends h)
    filter_round n q p (some (part m pipe_, q1, p1)) rest low h =
        answered (decide_part passes t m w)
          (recvpipe-waiting ps waiting bounded q q1 p p1 m pipe_ h)
      where
        answered :
            (b : Bool) × ((if passes then some true else match_msg t m) ≡ some b)
              × ((b ≡ true) ↔ Passes passes t m)
            → waiting p1 < waiting p
            → Filters passes t q p (filter_loop ps waiting (suc n) passes t q p)
        answered (true, eq, tells) less = rw (h, eq, filter_loop) (takes h (tells.0 refl))
        answered (false, eq, tells) less =
            after_skip n m q q1 p p1 pipe_ (drop_rest ps waiting (suc (waiting p1)) m q1 p1) rest
              (omega arith) h eq (λ k. absurd (cc (tells.1 k))) refl

    -- Where the pipes hold a bounded number of parts, below the fuel, so that none come while the loop
    -- runs (on an unending stream it need not end), and the trie is well-formed, the
    -- loop ends with what `while (true)` ends with: every part passes where the socket has no filter
    -- or stands within a message; otherwise messages whose first part has no subscribed front part
    -- are dropped whole, and the first other part is given.
    pub filter_loop-Filters :
        (n : ℕ) (q : Fq) (p : P)
        → waiting p < n
        → Filters passes t q p (filter_loop ps waiting n passes t q p)
    filter_loop-Filters zero q p low = absurd (omega arith)
    filter_loop-Filters (suc n) q p low =
        filter_round n q p (recvpipe ps q p) (λ q2 p2 less. filter_loop-Filters n q2 p2 less) low
          refl
