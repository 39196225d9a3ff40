-- ===== src/Pipe/Closing.antt =====
-- pipe.cpp: the end of a pipe.
use cctas.Base.{ℕ, zero, suc, Bool, true, false, not, Option, none, some, if◌then◌else◌, length}
use cctas.Ypipe.{Ypipe}
use cctas.Ypipe as Queue
use cctas.Pipe.{
  Pipe, Parts, Status, active, delimited, pending, terminating, terminated, double_terminated,
  is_active, send, tell, give_up_out, pipe_term, hiccuped, sink_terminated,
}
use cctas.Pipe.Writing.{flush, rollback}

module _ {M : Type 0} where
  -- the loops that read and close what is left in a queue
  pub discard : ℕ → Ypipe M → Ypipe M
  discard zero q = q
  discard (suc fuel) q =
      let (taken, q1) = Queue.read q in
      let rest = discard fuel q1 in elim taken [ none ↦ q1 | some m ↦ rest ]

  -- The old queue is flushed, emptied and deleted.
  unfoldable pub process_hiccup : Ypipe M → Pipe M → Option (Pipe M)
  process_hiccup q p =
      let p1 = record p { outq = q; out_active = true } in
      if p.has_out then some (if is_active p.state then tell hiccuped p1 else p1) else none

  abbrev pub process_pipe_term_in : Status → Pipe M → Option (Pipe M)
  process_pipe_term_in active p = some (
      if not p.delay
      then give_up_out (record p { state = terminating })
      else record p { state = pending })
  process_pipe_term_in delimited p = some (give_up_out (record p { state = terminating }))
  process_pipe_term_in terminated p = some (give_up_out (record p { state = double_terminated }))
  process_pipe_term_in pending p = none
  process_pipe_term_in terminating p = none
  process_pipe_term_in double_terminated p = none

  unfoldable pub process_pipe_term : Pipe M → Option (Pipe M)
  process_pipe_term p = process_pipe_term_in p.state p

  -- delete inpipe and delete this
  abbrev pub bury : Pipe M → Pipe M
  bury p = record p { inq = discard (suc (length p.inq.items)) p.inq; alive = false }

  abbrev pub process_pipe_term_ack_in : Status → Pipe M → Option (Pipe M)
  process_pipe_term_ack_in terminated p = some (bury (give_up_out p))
  process_pipe_term_ack_in terminating p = some (bury p)
  process_pipe_term_ack_in double_terminated p = some (bury p)
  process_pipe_term_ack_in active p = none
  process_pipe_term_ack_in delimited p = none
  process_pipe_term_ack_in pending p = none

  unfoldable pub process_pipe_term_ack : Pipe M → Option (Pipe M)
  process_pipe_term_ack p = process_pipe_term_ack_in p.state (tell sink_terminated p)

  -- terminate's change of state; none where it returns at once
  abbrev pub close_in : Status → Pipe M → Option (Pipe M)
  close_in terminated p = none
  close_in double_terminated p = none
  close_in terminating p = none
  close_in active p = some (record (send pipe_term p) { state = terminated })
  close_in pending p =
      some (if not p.delay then record (give_up_out p) { state = terminating } else p)
  close_in delimited p = some (record (send pipe_term p) { state = terminated })

module _ {M : Type 0} (ms : Parts M) where
  -- the delimiter, written and flushed
  abbrev pub write_delimiter : Option (Pipe M) → Option (Pipe M)
  write_delimiter none = none
  write_delimiter (some p) =
      some (flush (record p { outq = Queue.write p.outq ms.delimiter false }))

  abbrev pub stop_outbound : Pipe M → Option (Pipe M)
  stop_outbound p = if p.has_out then write_delimiter (rollback ms p) else some p

  unfoldable pub terminate : Bool → Pipe M → Option (Pipe M)
  terminate delay p = elim (close_in p.state (record p { delay = delay })) [
    | none ↦ some (record p { delay = delay })
    | some p1 ↦ stop_outbound (record p1 { out_active = false })
  ]
