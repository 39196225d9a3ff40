-- ===== src/Sockets/Req/Dropping.antt =====
-- The loop of req_t::xrecv that drops a malformed reply ends.
use cctas.Base.{
  ℕ, zero, suc, ◌<◌, ◌≡◌, refl, true, false, Bool-cases, inl, inr, Option, none, some, arith,
}
use cctas.Framing.{Msg}
use cctas.Sockets.{Errno, Got, got, failed, more, BaseClass}
use cctas.Sockets.Draining.{Draining}
use cctas.Sockets.Req.{drop_loop}

module _ {D : Type 0} (b : BaseClass D) where
  -- What `while (true)` ends with, written as a relation; none where errno_assert (rc == 0) fails.
  pub data Drops : D → Option D → Type 0 where
    asserts : {d : D} → b.xrecv d ≡ none → Drops d none
    empties : {d d1 : D} {e : Errno} → b.xrecv d ≡ some (failed e, d1) → Drops d none
    ends : {d d1 : D} {m : Msg} → b.xrecv d ≡ some (got m, d1) → more m ≡ false → Drops d (some d1)
    drops :
        {d d1 : D} {m : Msg} {o : Option D}
        → b.xrecv d ≡ some (got m, d1)
        → more m ≡ true
        → Drops d1 o
        → Drops d o

  module _ (dr : Draining b) where
    drop_round-Drops :
        (n : ℕ) (d : D) (o : Option (Got × D))
        → ((d' : D) → b.left d' < n → Drops d' (drop_loop b n d'))
        → b.left d < suc n
        → b.xrecv d ≡ o
        → Drops d (drop_loop b (suc n) d)
    unfolding drop_loop
    drop_round-Drops n d none rest low h = rw (h, drop_loop) (asserts h)
    drop_round-Drops n d (some (failed e, d1)) rest low h = rw (h, drop_loop) (empties h)
    drop_round-Drops n d (some (got m, d1)) rest low h =
        let less : b.left d1 < b.left d = dr.xrecv_left d d1 m h in
        elim (Bool-cases (more m)) [
          | inr last ↦ rw (h, drop_loop, last) (ends h last)
          | inl on ↦ rw (h, drop_loop, on) (drops h on (rest d1 (omega arith)))
        ]

    -- Where the base class gives a bounded number of parts, the loop ends with what `while (true)`
    -- ends with, in at most one round more than there are parts.
    pub drop_loop-Drops : (n : ℕ) (d : D) → b.left d < n → Drops d (drop_loop b n d)
    drop_loop-Drops zero d low = absurd (omega arith)
    drop_loop-Drops (suc n) d low =
        drop_round-Drops n d (b.xrecv d) (λ d' less. drop_loop-Drops n d' less) low refl
