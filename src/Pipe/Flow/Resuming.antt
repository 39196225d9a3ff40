-- ===== src/Pipe/Flow/Resuming.antt =====
-- What the water marks promise: a bounded queue, and a writer that goes on.
use cctas.Base.{
  ◌+◌, ◌≤◌, ◌<◌, ◌≡◌, refl, sym, ap, subst, dec_lt, true, false, ◌&&◌, ◌==◌, ltb, [], arith,
  Bool-cases, inl, inr,
}
use native.Mathlib.Nat.{mod-lt}
use cctas.Pipe.{Parts, is_active}
use cctas.Pipe.Writing.{check_write, in_flight}
use cctas.Pipe.Marks.{compute_lwm_lem}
use cctas.Pipe.Flow.{Link, Reachable}
use cctas.Pipe.Flow.Counting.{whole}
use cctas.Pipe.Flow.Ends.{latest, le-latest}
use cctas.Pipe.Flow.Invariant.{Flow, Reachable-Flows}

module _ {M : Type 0} (ms : Parts M) (s : Link M) (r : Reachable ms s) where
  out : Flow ms s.here s.there s.to_here
  out = (Reachable-Flows ms r).outward

  -- Whatever two active ends read, check, write, flush and roll back, and whichever commands they
  -- take, fewer than 2 ^ 64 messages in all, a queue with a high water mark holds at most that many
  -- whole messages.
  pub whole-le_hwm : 0 < s.here.hwm → whole ms s.here.outq.items ≤ s.here.hwm
  whole-le_hwm bounded = omega (
    arith,
    out.counted,
    out.window.window.bounded bounded,
    le-latest s.here.peers_msgs_read s.to_here s.there.msgs_read out.climbs,
  )

  room :
      s.to_here ≡ []
      → 0 < s.here.hwm
      → whole ms s.here.outq.items + s.there.lwm ≤ s.here.hwm
      → s.here.msgs_written < s.here.peers_msgs_read + s.here.hwm
  room taken bounded low =
      let pos : 0 < s.there.lwm =
        subst (λ k. 0 < k) (sym out.marks) (compute_lwm_lem s.here.hwm bounded).0 in
      let last : latest s.here.peers_msgs_read s.to_here ≡ s.here.peers_msgs_read =
        ap (latest s.here.peers_msgs_read) taken in
      omega (arith, out.counted, out.acked pos, last, low, mod-lt s.there.msgs_read pos)

  -- Whatever two active ends read, check, write, flush and roll back, and whichever commands they
  -- take, fewer than 2 ^ 64 messages in all: once the writer has taken all its commands, check_write
  -- answers true where the whole messages in its queue and the reader's low water mark are together
  -- at most the high one, or there is no high one.
  pub check_write_resumes :
      s.to_here ≡ []
      → (0 < s.here.hwm → whole ms s.here.outq.items + s.there.lwm ≤ s.here.hwm)
      → check_write s.here ≡ (true, s.here)
  unfolding check_write
  check_write_resumes taken low =
      let v = out.window in
      let live : is_active s.here.state ≡ true = ap is_active v.goes_on in
      let free : (ltb 0 s.here.hwm && (in_flight s.here == s.here.hwm)) ≡ false =
        elim (dec_lt 0 s.here.hwm) [
          | yes bounded ↦
              ground (arith, v.window.small, v.window.peer_behind, room taken bounded (low bounded))
          | no unbounded ↦ ground arith
        ] in
      elim (Bool-cases s.here.out_active) [
        | inl awake ↦ simp (awake, live, free) refl
        | inr asleep ↦
            let (bounded, full) = v.blocked asleep in
            absurd (omega (arith, full, room taken bounded (low bounded)))
      ]
