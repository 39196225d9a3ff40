-- ===== src/Balance/Lb/Reachable.antt =====
-- The states of lb_t that a socket can bring about, whatever the pipes answer.
use cctas.Base.{ℕ, ◌≤◌, ◌≡◌, Bool, some, get_elem?_lt}
use cctas.Array.{index}
use cctas.Array.Wf.{Stored}
use cctas.Balance.{Pipes}
use cctas.Balance.Lb.{Lb, lb, activated, attach, terminated, send, has_out}
use cctas.Balance.Lb.Valid.{
  IsValid, IsFresh, lb-IsValid, attach-IsValid, activated-IsValid, terminated-IsValid, send-IsValid,
  has_out-IsValid,
}

module _ {P M : Type 0} (ps : Pipes P M) where
  -- One call. A socket attaches a pipe once, reports that a pipe has room only if send or has_out
  -- gave it up before, and reports the end of a pipe that it has.
  pub data Call (l : Lb) : Lb → Type 0 where
    attaches : (x : ℕ) → IsFresh l.pipes x → Call l (attach l x)
    activates : (x : ℕ) → Stored l.pipes x → l.active ≤ index l.pipes x → Call l (activated l x)
    terminates : (x : ℕ) → Stored l.pipes x → Call l (terminated l x)
    sends :
        (p p' : P) (m : M) (sent : Bool) (l' : Lb) → send ps l p m ≡ some (sent, l', p') → Call l l'
    asks : (p : P) → Call l (has_out ps l p).1

  pub data Reachable : Lb → Type 0 where
    fresh : Reachable lb
    calls : {l l' : Lb} → Reachable l → Call l l' → Reachable l'

  Call-IsValid : {l l' : Lb} → Call l l' → IsValid l → IsValid l'
  Call-IsValid (attaches x new) v = attach-IsValid _ x new v
  Call-IsValid (activates x st h) v = activated-IsValid _ x v h (get_elem?_lt _ _ x st)
  Call-IsValid (terminates x st) v = terminated-IsValid _ x st v
  Call-IsValid (sends p p' m sent l' run) v = send-IsValid ps _ p m sent l' p' v run
  Call-IsValid (asks p) v = has_out-IsValid ps _ p v

  -- After any sequence of calls, every pipe knows its index, the active pipes are a front part of
  -- the array, and the pipe in turn is one of them, or the first where none is active.
  pub lb-Reachable-IsValid : (l : Lb) → Reachable l → IsValid l
  lb-Reachable-IsValid l fresh = lb-IsValid
  lb-Reachable-IsValid l (calls r c) = Call-IsValid c (lb-Reachable-IsValid _ r)
