-- ===== src/Pipe/Handshake/Tests.antt =====
-- The peer has closed its end, and its pipe_term is on the way.
use cctas.Base.{◌≡◌, refl, Bool, true, false, none, some, []}
use cctas.Pipe.{Pipe, Parts, pipe}
use cctas.Pipe.Writing.{flush, rollback, unwrite_all}
use cctas.Pipe.Closing.{terminate}
use cctas.Pipe.Handshake.{term}
use cctas.Pipe.Handshake.Accepts.{process}
use cctas.Pipe.Handshake.Pair.{
  Pair, terminates, acts, turns, Reachable, fresh, steps, process-Reachable,
}
use cctas.Ypipe as Queue

-- Messages are flags that say whether this is the delimiter.
abbrev flags : Parts Bool
flags = record { has_more = λ m. false; is_delimiter = λ m. m; delimiter = true }

unclosed : Pipe Bool
unclosed = pipe 0 0 true

closed : Pipe Bool
unfolding unclosed
closed = elim (terminate flags false unclosed) [ none ↦ unclosed | some p ↦ p ]

closing : Pair Bool
unfolding closed unclosed
closing = record { here = unclosed; there = closed; took_here = []; took_there = [] }

closing-Reachable : Reachable flags closing
unfolding closing closed unclosed terminate rollback unwrite_all flush pipe Queue.ypipe
    Queue.unwrite Queue.write Queue.flush
closing-Reachable =
    steps (steps (fresh 0 0 true true) (acts closed refl (terminates false closed refl))) turns

process-Reachable_example :
    (closing.here.alive ≡ true) × ((p' : Pipe Bool) × (process term closing.here ≡ some p'))
unfolding closing closed unclosed terminate rollback unwrite_all flush pipe Queue.ypipe
    Queue.unwrite Queue.write Queue.flush
process-Reachable_example = process-Reachable flags closing term [] closing-Reachable refl
