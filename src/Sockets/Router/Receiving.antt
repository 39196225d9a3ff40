-- ===== src/Sockets/Router/Receiving.antt =====
-- router.cpp: xrecv, xhas_in and xhas_out, and router_t as a base class.
use cctas.Base.{ℕ, zero, suc, ◌+◌, Bool, true, false, if◌then◌else◌, Option, none, some}
use cctas.Framing.{Msg}
use cctas.Balance.Fq.{Fq, Received, part, try_again, recvpipe}
use cctas.Sockets.{eagain, Got, got, failed, more, is_identity, BaseClass}
use cctas.Sockets.Router.{Router, PeerPipes, no_msg}
use cctas.Sockets.Router.Sending.{xsend, rollback}

module _ {P : Type 0} (ps : PeerPipes P) where
  -- The calls of recvpipe in xrecv and xhas_in, over the parts with an identity, in at most n rounds;
  -- none where an assertion of fq_t fails. Router/Fetching shows that n above the number of waiting
  -- parts is enough.
  unfoldable pub identity_loop : ℕ → Fq → P → Option (Received Msg × Fq × P)
  identity_loop zero q p = none
  identity_loop (suc n) q p = elim (recvpipe ps.pipes q p) [
    | none ↦ none
    | some (try_again, q1, p1) ↦ some (try_again, q1, p1)
    | some (part m x, q1, p1) ↦
        (let rest = identity_loop n q1 p1 in
          if is_identity m then rest else some (part m x, q1, p1))
  ]

  -- the part with the identity of a pipe
  abbrev id_msg : P → ℕ → Msg
  id_msg p x = record { flags = 1; body = ps.get_identity p x }

  -- what xrecv does with the prefetched parts
  abbrev pub from_prefetched : Router → Got × Router
  from_prefetched r =
      let m = if r.identity_sent then r.prefetched_msg else r.prefetched_id in
      if r.identity_sent
      then (got m, record r { prefetched_msg = no_msg; prefetched = false; more_in = more m })
      else (got m, record r { prefetched_id = no_msg; identity_sent = true; more_in = more m })

  -- what xrecv does with a part that it fetched
  abbrev pub after_fetch : Router → Option (Received Msg × Fq × P) → Option (Got × (Router × P))
  after_fetch r none = none
  after_fetch r (some (try_again, q, p)) = some (failed eagain, (record r { fq = q }, p))
  after_fetch r (some (part m x, q, p)) = some (
      let from = id_msg p x in
      if r.more_in then (got m, (record r { fq = q; more_in = more m }, p)) else (
        got from,
        (record r { fq = q; prefetched_msg = m; prefetched = true; identity_sent = true }, p),
      ))

  unfoldable pub xrecv : Router × P → Option (Got × (Router × P))
  xrecv (r, p) =
      if r.prefetched
      then (let (g, r1) = from_prefetched r in some (g, (r1, p)))
      else after_fetch r (identity_loop (suc (ps.waiting p)) r.fq p)

  -- what xhas_in does with a part that it fetched
  abbrev pub prefetch : Router → Option (Received Msg × Fq × P) → Option (Bool × (Router × P))
  prefetch r none = none
  prefetch r (some (try_again, q, p)) =
      some (false, (record r { fq = q; prefetched_msg = no_msg }, p))
  prefetch r (some (part m x, q, p)) = some (
    true,
    (
      record r {
        fq = q;
        prefetched_msg = m;
        prefetched_id = id_msg p x;
        prefetched = true;
        identity_sent = false;
      },
      p,
    ),
  )

  unfoldable pub xhas_in : Router × P → Option (Bool × (Router × P))
  xhas_in (r, p) =
      if r.more_in
      then some (true, (r, p))
      else if r.prefetched
      then some (true, (r, p))
      else prefetch r (identity_loop (suc (ps.waiting p)) r.fq p)

  pub xhas_out : Router × P → Bool × (Router × P)
  xhas_out s = (true, s)

  -- The parts that the user can still get: the prefetched ones, and twice the waiting ones, since
  -- each may bring an identity with it.
  abbrev pub parts_left : Router × P → ℕ
  parts_left (r, p) =
      ps.waiting p + ps.waiting p + (if r.prefetched then (if r.identity_sent then 1 else 2) else 0)

  abbrev pub router_class : BaseClass (Router × P)
  router_class = record {
    xsend = xsend ps;
    xrecv = xrecv;
    xhas_in = xhas_in;
    xhas_out = xhas_out;
    rollback = rollback ps;
    left = parts_left;
  }
