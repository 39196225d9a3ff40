-- ===== src/Pipe/Flow/Works.antt =====
-- Each outcome of an act, and its counts.
use cctas.Base.{suc, ◌+◌, ◌^◌, ◌<◌, ◌≡◌, refl, ap, ◌∙◌, subst, sym, false, [], ◌∷◌, ◌++◌, length}
use cctas.Ypipe.{Ypipe}
use cctas.Ypipe as Queue
use cctas.Pipe.{Pipe, Parts, send, activate_read}
use cctas.Pipe.Flow.Outcomes.{
  Outcome, written, stays, wrote, filled, flushed, called, rolled, missed, got, emptied, probes,
}
use cctas.Pipe.Flow.Counting.{
  whole, flush_items, unwrite_all-whole, check_read_items, probe_items, read-Leaves, Leaves,
}
use cctas.Pipe.Flow.Ends.{
  Works, still_Written, still_Taken, unsaid_Taken, idle_Works, latest, Climbs,
}
use cctas.Pipe.Flow.Writer.{filled_Written, written_Written}
use cctas.Pipe.Flow.Reader.{count_read-Works, slept_Works}

module _ {M : Type 0} (ms : Parts M) (p : Pipe M) (quiet : p.sent ≡ []) where
  -- the queue to the other end becomes q
  requeued_Works :
      (q : Ypipe M) → whole ms q.items ≡ whole ms p.outq.items → Works ms p (record p { outq = q })
  requeued_Works q kept = (
    still_Written ms p (record p { outq = q }) refl refl refl refl kept,
    unsaid_Taken ms p (record p { outq = q }) refl refl refl quiet,
  )

  called_Works : Works ms p (send activate_read (record p { outq = (Queue.flush p.outq).1 }))
  called_Works =
      let p1 : Pipe M = send activate_read (record p { outq = (Queue.flush p.outq).1 }) in
      let said : p1.sent ≡ activate_read ∷ [] = ap (λ cs. cs ++ (activate_read ∷ [])) quiet in
      (
        still_Written ms p p1 refl refl refl refl (ap (whole ms) (flush_items p.outq)),
        still_Taken ms p p1 refl refl refl (λ lo. ap (latest lo) said)
            (λ lo hi le. subst (λ cs. Climbs lo cs hi) (sym said) le),
      )

  pub Outcome-Works :
      (p' : Pipe M) → p.msgs_read + whole ms p.inq.items < 2 ^ 64 → Outcome ms p p' → Works ms p p'
  Outcome-Works p' few stays = idle_Works ms p quiet
  Outcome-Works p' few (wrote m wide room) =
      (written_Written ms m p wide room, unsaid_Taken ms p (written ms m p) refl refl refl quiet)
  Outcome-Works p' few (filled h) = (
    filled_Written ms p h,
    unsaid_Taken ms p (record p { out_active = false }) refl refl refl quiet,
  )
  Outcome-Works p' few (flushed h) =
      requeued_Works (Queue.flush p.outq).1 (ap (whole ms) (flush_items p.outq))
  Outcome-Works p' few (called h) = called_Works
  Outcome-Works p' few (rolled q e) =
      requeued_Works q (unwrite_all-whole ms (suc (length p.outq.items)) p.outq q e)
  Outcome-Works p' few (missed at) =
      slept_Works ms p quiet (Queue.read p.inq).1 false
        (subst (λ t. Leaves p.inq.items t (Queue.read p.inq).1.items) at (read-Leaves p.inq))
  Outcome-Works p' few (got m act at) =
      count_read-Works ms p quiet (Queue.read p.inq).1 m
        (subst (λ t. Leaves p.inq.items t (Queue.read p.inq).1.items) at (read-Leaves p.inq)) few
  Outcome-Works p' few (emptied h) =
      slept_Works ms p quiet (Queue.check_read p.inq).1 false (check_read_items p.inq)
  Outcome-Works p' few (probes act) =
      slept_Works ms p quiet (Queue.probe ms.is_delimiter (Queue.check_read p.inq).1).1 p.in_active
        (probe_items ms.is_delimiter (Queue.check_read p.inq).1 ∙ check_read_items p.inq)
