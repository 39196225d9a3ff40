-- ===== src/Balance/Fq/Reachable.antt =====
-- The states of fq_t that a socket can bring about, whatever the pipes answer.
use cctas.Base.{ℕ, ◌≤◌, ◌≡◌, some, subst, get_elem?_lt}
use cctas.Array.{index}
use cctas.Array.Wf.{Stored}
use cctas.Balance.{Pipes}
use cctas.Balance.Lb.Valid.{IsFresh}
use cctas.Balance.Fq.{Fq, fq, Received, activated, attach, terminated, recvpipe, has_in}
use cctas.Balance.Fq.Valid.{
  IsValid, AnsweredIf, fq-IsValid, attach-IsValid, activated-IsValid, terminated-IsValid,
  recvpipe-AnsweredIf, has_in-IsValid,
}

module _ {P M : Type 0} (ps : Pipes P M) where
  -- One call. A socket attaches a pipe once, reports that a pipe has something to read only if
  -- recvpipe or has_in gave it up before, and reports the end of a pipe that it has.
  pub data Call (q : Fq) : Fq → Type 0 where
    attaches : (x : ℕ) → IsFresh q.pipes x → Call q (attach q x)
    activates : (x : ℕ) → Stored q.pipes x → q.active ≤ index q.pipes x → Call q (activated q x)
    terminates : (x : ℕ) → Stored q.pipes x → Call q (terminated q x)
    receives :
        (p p' : P) (r : Received M) (q' : Fq) → recvpipe ps q p ≡ some (r, q', p') → Call q q'
    asks : (p : P) → Call q (has_in ps q p).1

  pub data Reachable : Fq → Type 0 where
    fresh : Reachable fq
    calls : {q q' : Fq} → Reachable q → Call q q' → Reachable q'

  Call-IsValid : {q q' : Fq} → Call q q' → IsValid q → IsValid q'
  Call-IsValid (attaches x new) v = attach-IsValid _ x new v
  Call-IsValid (activates x st h) v = activated-IsValid _ x v h (get_elem?_lt _ _ x st)
  Call-IsValid (terminates x st) v = terminated-IsValid _ x st v
  Call-IsValid (receives p p' r q' run) v =
      (subst (AnsweredIf ps _) run (recvpipe-AnsweredIf ps _ p v)).0
  Call-IsValid (asks p) v = has_in-IsValid ps _ p v

  -- After any sequence of calls, every pipe knows its index, the active pipes are a front part of
  -- the array, and the pipe in turn is one of them, or the first where none is active.
  pub fq-Reachable-IsValid : (q : Fq) → Reachable q → IsValid q
  fq-Reachable-IsValid q fresh = fq-IsValid
  fq-Reachable-IsValid q (calls r c) = Call-IsValid c (fq-Reachable-IsValid _ r)
