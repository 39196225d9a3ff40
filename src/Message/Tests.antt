-- ===== src/Message/Tests.antt =====
-- Two messages that share a content of 40 bytes, at the theorems on msg_t.
use cctas.Base.{
  ℕ, zero, suc, ◌≡◌, refl, false, Option, none, some, [], ◌∷◌, get_elem?, get_or, arith,
}
use cctas.Message
use cctas.Message.{
  Message, Kind, vsm, lmsg, invalid, Rc, done, is_lmsg, freed, behind, no_flags, data_of, size_of,
  Content, put,
}
use cctas.Message.Store.{Store}
use cctas.Message.Totals.{total}
use cctas.Message.Counted.{Keeps, is_freed}
use cctas.Message.Calls.{
  run, Allowed, start_size, copy_to, finish, may_start_size, may_copy, may_finish,
}
use cctas.Message.Runs.{
  raw, start_of, nothing_ahead, Reachable, at_start, after, run-Reachable, freed-Reachable,
}

-- the states after each call
abbrev state_of : Option (Rc × Store) → Store
state_of none = start_of 0
state_of (some (rc, s)) = s

abbrev sized : Store
sized = state_of (run (start_size 0 40) (start_of 2))

abbrev started_one : Store
started_one = state_of (run (start_size 1 3) sized)

abbrev copied : Store
copied = state_of (run (copy_to 1 0) started_one)

abbrev one_closed : Store
one_closed = state_of (run (finish 0) copied)

abbrev both_closed : Store
both_closed = state_of (run (finish 1) one_closed)

two_closed : both_closed.heap.freed ≡ freed 0 (behind 0) none 0 ∷ []
unfolding run Message.drop_refs
two_closed = refl

one_closed_frees_none : one_closed.heap.freed ≡ []
unfolding run Message.drop_refs
one_closed_frees_none = refl

sized-Reachable : Reachable 2 nothing_ahead sized
unfolding run
sized-Reachable =
    after {rc = done} at_start (may_start_size {i = 0} {n = 40} {m = raw} refl refl) refl

started_one-Reachable : Reachable 2 nothing_ahead started_one
unfolding run
started_one-Reachable =
    after {rc = done} sized-Reachable (may_start_size {i = 1} {n = 3} {m = raw} refl refl) refl

-- the messages before the copy
abbrev first : Message
first = get_or started_one.messages 0 raw

abbrev second : Message
second = get_or started_one.messages 1 raw

may_copy_first : Allowed nothing_ahead started_one (copy_to 1 0) nothing_ahead
unfolding run total
may_copy_first =
    may_copy {i = 1} {j = 0} {a = second} {b = first} refl refl (λ p l at. ground arith)

copied-Reachable : Reachable 2 nothing_ahead copied
unfolding run
copied-Reachable = after {rc = done} started_one-Reachable may_copy_first refl

may_finish_first : Allowed nothing_ahead copied (finish 0) nothing_ahead
unfolding run
may_finish_first = may_finish {m = get_or copied.messages 0 raw} refl

run-Reachable_example : Keeps nothing_ahead (run (finish 0) copied)
run-Reachable_example = run-Reachable copied-Reachable may_finish_first

one_closed-Reachable : Reachable 2 nothing_ahead one_closed
unfolding run Message.drop_refs
one_closed-Reachable = after {rc = done} copied-Reachable may_finish_first refl

both_closed-Reachable : Reachable 2 nothing_ahead both_closed
unfolding run Message.drop_refs
both_closed-Reachable =
    after {rc = done} one_closed-Reachable
      (may_finish {i = 1} {m = get_or one_closed.messages 1 raw} refl) refl

none_long :
    (i : ℕ) (m : Message) → get_elem? both_closed.messages i ≡ some m → is_lmsg m.kind ≡ false
unfolding run Message.drop_refs
none_long zero m e = ground arith
none_long (suc zero) m e = ground arith
none_long (suc (suc i)) m e = ground arith

freed-Reachable_example :
    (both_closed.heap.contents 0 ≡ none) × (total (is_freed 0) both_closed.heap.freed ≡ 1)
unfolding run Message.drop_refs
freed-Reachable_example =
    freed-Reachable both_closed-Reachable none_long (λ p. refl) 0 (omega arith)
