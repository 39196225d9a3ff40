-- ===== src/Ypipe/Reachable.antt =====
-- A writer and a reader that use one ypipe_t. Each call uses the shared pointer c once at most, or
-- while the other side sleeps, so any interleaving of two threads is a sequence of calls.
use cctas.Base.{Bool}
use cctas.Ypipe.{Ypipe, ypipe, write, unwrite, flush, check_read, read}
use cctas.Ypipe.Wf.{
  IsWf, ypipe-IsWf, write-IsWf, unwrite-IsWf, flush-IsWf, check_read-IsWf, read_lem,
}

module _ {M : Type 0} where
  pub data Call (q : Ypipe M) : Ypipe M → Type 0 where
    writes : (x : M) (incomplete : Bool) → Call q (write q x incomplete)
    unwrites : Call q (unwrite q).1
    flushes : Call q (flush q).1
    checks : Call q (check_read q).1
    reads : Call q (read q).1

  pub data Reachable : Ypipe M → Type 0 where
    fresh : Reachable ypipe
    calls : {q q' : Ypipe M} → Reachable q → Call q q' → Reachable q'

  Call-IsWf : {q q' : Ypipe M} → Call q q' → IsWf q → IsWf q'
  Call-IsWf (writes x incomplete) v = write-IsWf _ x incomplete v
  Call-IsWf unwrites v = unwrite-IsWf _ v
  Call-IsWf flushes v = flush-IsWf _ v
  Call-IsWf checks v = check_read-IsWf _ v
  Call-IsWf reads v = (read_lem _ v).0

  -- Whatever the writer and the reader do, in whatever order, the pointers keep their order, c
  -- stands at the last flushed item, and it is NULL only while nothing is left to read.
  pub ypipe-Reachable-IsWf : (q : Ypipe M) → Reachable q → IsWf q
  ypipe-Reachable-IsWf q fresh = ypipe-IsWf
  ypipe-Reachable-IsWf q (calls r c) = Call-IsWf c (ypipe-Reachable-IsWf _ r)
