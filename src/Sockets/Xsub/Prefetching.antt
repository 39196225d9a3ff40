-- ===== src/Sockets/Xsub/Prefetching.antt =====
-- xhas_in of xsub_t looks ahead, and xrecv gives what it would have given without.
use cctas.Base.{
  ℕ, ◌≡◌, refl, sym, subst, Bool, true, false, not, ◌||◌, Option, none, some, arith, suc,
}
use cctas.Framing.{Msg}
use cctas.Balance.{Pipes}
use cctas.Balance.Fq.{Fq}
use cctas.Sockets.{Errno, Got, got, failed}
use cctas.Sockets.Xsub.{Xsub, no_msg, xrecv, xhas_in, filter_loop, prefetched}

module _ {P : Type 0} (ps : Pipes P Msg) (waiting : P → ℕ) where
  -- what xrecv gives after a look ahead
  abbrev pub AsBefore : Xsub → P → Option (Bool × (Xsub × P)) → Type 0
  AsBefore x p none = xrecv ps waiting (x, p) ≡ none
  AsBefore x p (some (false, s)) = (e : Errno) × (xrecv ps waiting (x, p) ≡ some (failed e, s))
  AsBefore x p (some (true, s)) = xrecv ps waiting s ≡ xrecv ps waiting (x, p)

  looked_ahead :
      (x : Xsub) (p : P) (o : Option (Got × Fq × P))
      → x.has_message ≡ false
      → x.message ≡ no_msg
      → filter_loop ps waiting (suc (waiting p)) (x.more_in || not x.filter) x.subscriptions x.fq p
        ≡ o
      → AsBefore x p (prefetched ps waiting x o)
  unfolding xrecv
  looked_ahead x p none idle clear h = ground (arith, h)
  looked_ahead x p (some (failed e, q, p1)) idle clear h = (e, ground (arith, h))
  looked_ahead x p (some (got m, q, p1)) idle clear h = ground (arith, h)

  -- Of a socket between two messages that has no message looked ahead: xrecv after an xhas_in that
  -- answered true gives the part and leaves the state that it would have without; where xhas_in
  -- answered false, xrecv would have failed and left the same state; and where xhas_in fails an
  -- assertion, so does xrecv.
  pub xhas_in-AsBefore :
      (x : Xsub) (p : P)
      → x.more_in ≡ false
      → x.has_message ≡ false
      → x.message ≡ no_msg
      → AsBefore x p (xhas_in ps waiting (x, p))
  unfolding xhas_in
  xhas_in-AsBefore x p between idle clear =
      let o =
        filter_loop ps waiting (suc (waiting p)) (x.more_in || not x.filter) x.subscriptions x.fq
          p in
      let eq : xhas_in ps waiting (x, p) ≡ prefetched ps waiting x o = simp (between, idle) refl in
      subst (AsBefore x p) (sym eq) (looked_ahead x p o idle clear refl)
