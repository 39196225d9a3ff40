-- ===== src/Pipe/Reading.antt =====
-- pipe.cpp: the reader's side.
use cctas.Base.{
  ◌+◌, ◌%◌, ◌^◌, ◌==◌, ltb, Bool, true, false, not, ◌&&◌, ◌||◌, Option, none, some, if◌then◌else◌,
}
use cctas.Ypipe.{Ypipe}
use cctas.Ypipe as Queue
use cctas.Pipe.{
  Pipe, Parts, Status, active, delimited, pending, terminating, terminated, double_terminated,
  is_active, is_open, send, tell, give_up_out, activate_write, hiccup_to, read_activated,
}

module _ {M : Type 0} where
  abbrev pub delimit_in : Status → Pipe M → Option (Pipe M)
  delimit_in active p = some (record p { state = delimited })
  delimit_in pending p = some (record (give_up_out p) { state = terminating })
  delimit_in delimited p = none
  delimit_in terminating p = none
  delimit_in terminated p = none
  delimit_in double_terminated p = none

  unfoldable pub delimit : Pipe M → Option (Pipe M)
  delimit p = delimit_in p.state p

  -- return false, with what delimit leaves
  abbrev pub refused : {A : Type 0} → A → Option (Pipe M) → Option (A × Pipe M)
  refused a none = none
  refused a (some p) = some (a, p)

  unfoldable pub process_activate_read : Pipe M → Pipe M
  process_activate_read p =
      if not p.in_active && is_open p.state
      then tell read_activated (record p { in_active = true })
      else p

  unfoldable pub hiccup : Pipe M → Pipe M
  hiccup p =
      if is_active p.state
      then send (hiccup_to Queue.ypipe) (record p { inq = Queue.ypipe; in_active = true })
      else p

  -- the count of a message read, and the word to the writer
  abbrev pub count_read : Bool → Pipe M → Pipe M
  count_read more p =
      let n = if more then p.msgs_read else (p.msgs_read + 1) % 2 ^ 64 in
      let p1 = record p { msgs_read = n } in
      if ltb 0 p.lwm then (if n % p.lwm == 0 then send (activate_write n) p1 else p1) else p1

module _ {M : Type 0} (ms : Parts M) where
  -- the part of check_read behind inpipe->check_read ()
  abbrev pub probed : Option Bool × Ypipe M → Pipe M → Option (Bool × Pipe M)
  probed (none, q) p = none
  probed (some false, q) p = some (true, record p { inq = q })
  probed (some true, q) p = elim (Queue.read q).0 [
    | none ↦ none
    | some m ↦ refused false (delimit (record p { inq = (Queue.read q).1 }))
  ]

  unfoldable pub check_read : Pipe M → Option (Bool × Pipe M)
  check_read p =
      let (ready, q) = Queue.check_read p.inq in
      if not p.in_active || not (is_open p.state)
      then some (false, p)
      else (if ready
          then probed (Queue.probe ms.is_delimiter q) p
          else some (false, record p { inq = q; in_active = false }))

  -- read: the message, none for false
  unfoldable pub read : Pipe M → Option (Option M × Pipe M)
  read p =
      let (taken, q) = Queue.read p.inq in
      if not p.in_active || not (is_open p.state) then some (none, p) else elim taken [
        | none ↦ some (none, record p { inq = q; in_active = false })
        | some m ↦
            if ms.is_delimiter m
            then refused none (delimit (record p { inq = q }))
            else some (some m, count_read (ms.has_more m) (record p { inq = q }))
      ]
