-- ===== src/Pipe/Flow.antt =====
-- The two ends of a pipe while both are active: messages in their queues, commands in their mail.
-- A call is one step: its threads share the pointer c of a queue alone, which a call uses once at
-- most, or while the other side sleeps.
pub mod Counting
pub mod Outcomes
pub mod Ends
pub mod Writer
pub mod Reader
pub mod Works
pub mod Invariant
pub mod Resuming
pub mod Hiccup
pub mod Calling
pub mod Waking
mod Tests
use cctas.Base.{ℕ, suc, ◌+◌, ◌^◌, ◌<◌, ◌≡◌, Bool, Option, some, List, [], ◌∷◌, ◌++◌}
use cctas.Pipe.{
  Pipe, Parts, Status, active, pipepair, Command, activate_read, activate_write, hiccup_to,
  pipe_term, pipe_term_ack,
}
use cctas.Pipe.Reading.{check_read, read, process_activate_read}
use cctas.Pipe.Writing.{write, flush, rollback, process_activate_write}
use cctas.Pipe.Closing.{process_hiccup, process_pipe_term, process_pipe_term_ack}

-- Two ends, and the commands on the way to each, the oldest first.
pub record Link (M : Type 0) : Type 0 where
  pub here : Pipe M
  pub there : Pipe M
  pub to_here : List (Command M)
  pub to_there : List (Command M)

module _ {M : Type 0} (ms : Parts M) where
  -- object_t::process_command, for the commands of a pipe
  abbrev pub process_command : Command M → Pipe M → Option (Pipe M)
  process_command activate_read p = some (process_activate_read p)
  process_command (activate_write n) p = some (process_activate_write n p)
  process_command (hiccup_to q) p = process_hiccup q p
  process_command pipe_term p = process_pipe_term p
  process_command pipe_term_ack p = process_pipe_term_ack p

  -- What an end's socket does with it, but for hiccup, which changes what the counts stand for, and
  -- terminate. A message is written while its count has room.
  pub data Act (p : Pipe M) : Pipe M → Type 0 where
    reads : (o : Option M) (p' : Pipe M) → read ms p ≡ some (o, p') → Act p p'
    checks : (b : Bool) (p' : Pipe M) → check_read ms p ≡ some (b, p') → Act p p'
    writes : (m : M) → p.msgs_written + 1 < 2 ^ 64 → Act p (write ms m p).1
    flushes : Act p (flush p)
    rolls_back : (p' : Pipe M) → rollback ms p ≡ some p' → Act p p'

  -- An end has become p': its commands are posted, and its queues are the other end's too.
  abbrev pub posted : Link M → Pipe M → Link M
  posted s p' = record s {
    here = record p' { sent = [] };
    there = record s.there { inq = p'.outq; outq = p'.inq };
    to_there = s.to_there ++ p'.sent;
  }

  -- One step: an end acts, or takes its next command; or the view turns.
  pub data Step (s : Link M) : Link M → Type 0 where
    acts : (p' : Pipe M) → Act s.here p' → p'.state ≡ active → Step s (posted s p')
    takes :
        (c : Command M) (rest : List (Command M)) (p' : Pipe M)
        → s.to_here ≡ c ∷ rest
        → process_command c s.here ≡ some p'
        → p'.state ≡ active
        → Step s (record (posted s p') { to_here = rest })
    turns :
        Step s
          (record { here = s.there; there = s.here; to_here = s.to_there; to_there = s.to_here })

  -- What steps make of a fresh pair whose both ends stay active.
  pub data Reachable : Link M → Type 0 where
    fresh :
        (hwms : ℕ × ℕ) (delays : Bool × Bool)
        → Reachable (record {
          here = (pipepair hwms delays).0;
          there = (pipepair hwms delays).1;
          to_here = [];
          to_there = [];
        })
    steps : {s s' : Link M} → Reachable s → Step s s' → Reachable s'
