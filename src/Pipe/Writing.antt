-- ===== src/Pipe/Writing.antt =====
-- pipe.cpp: the writer's side.
use cctas.Base.{
  ℕ, zero, suc, ◌+◌, ◌-◌, ◌%◌, ◌^◌, ◌==◌, ltb, Bool, true, false, not, ◌&&◌, ◌||◌, Option, none,
  some, if◌then◌else◌, length,
}
use cctas.Ypipe.{Ypipe}
use cctas.Ypipe as Queue
use cctas.Pipe.{
  Pipe, Parts, Status, active, delimited, pending, terminating, terminated, double_terminated,
  is_active, send, tell, activate_read, write_activated,
}

abbrev pub is_terminating : Status → Bool
is_terminating active = false
is_terminating delimited = false
is_terminating pending = false
is_terminating terminating = true
is_terminating terminated = false
is_terminating double_terminated = false

module _ {M : Type 0} where
  -- msgs_written - peers_msgs_read, of type uint64_t
  abbrev pub in_flight : Pipe M → ℕ
  in_flight p = (p.msgs_written + (2 ^ 64 - p.peers_msgs_read)) % 2 ^ 64

  unfoldable pub check_write : Pipe M → Bool × Pipe M
  check_write p =
      let full = ltb 0 p.hwm && (in_flight p == p.hwm) in
      if not p.out_active || not (is_active p.state)
      then (false, p)
      else (if full then (false, record p { out_active = false }) else (true, p))

  unfoldable pub process_activate_write : ℕ → Pipe M → Pipe M
  process_activate_write n p =
      let p1 = record p { peers_msgs_read = n } in
      if not p.out_active && is_active p.state
      then tell write_activated (record p1 { out_active = true })
      else p1

  unfoldable pub flush : Pipe M → Pipe M
  flush p =
      let (awake, q) = Queue.flush p.outq in
      let p1 = record p { outq = q } in
      if is_terminating p.state
      then p
      else if p.has_out
      then (if awake then p1 else send activate_read p1)
      else p

module _ {M : Type 0} (ms : Parts M) where
  unfoldable pub write : M → Pipe M → Bool × Pipe M
  write m p =
      let more = ms.has_more m in
      let (room, p1) = check_write p in
      if room
      then (
        true,
        record p1 {
          outq = Queue.write p1.outq m more;
          msgs_written = if more then p1.msgs_written else (p1.msgs_written + 1) % 2 ^ 64;
        },
      )
      else (false, p1)

  -- The loop of rollback; each round takes an item out of the queue.
  unfoldable pub unwrite_all : ℕ → Ypipe M → Option (Ypipe M)
  unwrite_all zero q = some q
  unwrite_all (suc fuel) q =
      let (taken, q1) = Queue.unwrite q in
      let rest = unwrite_all fuel q1 in
      elim taken [ none ↦ some q | some m ↦ if ms.has_more m then rest else none ]

  abbrev pub with_outq : Pipe M → Option (Ypipe M) → Option (Pipe M)
  with_outq p none = none
  with_outq p (some q) = some (record p { outq = q })

  unfoldable pub rollback : Pipe M → Option (Pipe M)
  rollback p =
      if p.has_out then with_outq p (unwrite_all (suc (length p.outq.items)) p.outq) else some p
