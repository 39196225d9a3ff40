-- ===== src/Pipe/Flow/Tests.antt =====
-- A pair of ends with a high water mark of two, whose one end writes a message.
use cctas.Base.{ℕ, ◌⊎◌, none, some, zero, suc, ◌≡◌, ◌≤◌, refl, true, false, [], arith}
use cctas.Ypipe.{Ypipe, ypipe}
use cctas.Ypipe as Queue
use cctas.Pipe.Closing.{process_hiccup}
use cctas.Pipe.Flow.Ends.{Writes}
use cctas.Ypipe.Wf.{flushed}
use cctas.Pipe.Reading.{check_read}
use cctas.Pipe.Flow.Calling.{Called}
use cctas.Pipe.Flow.Waking.{flushed-Called}
use cctas.Pipe.Flow.Hiccup.{hiccup_stalls}
use cctas.Pipe.{Pipe, Parts, tell, hiccuped, pipe, pipepair, compute_lwm}
use cctas.Pipe.Writing.{write, check_write, flush}
use cctas.Pipe.Flow.{Link, Reachable, fresh, steps, acts, writes, posted, turns, checks, flushes}
use cctas.Pipe.Flow.Counting.{whole}
use cctas.Pipe.Flow.Resuming.{whole-le_hwm, check_write_resumes}

-- Numbers as messages; 0 is the delimiter.
abbrev numbers : Parts ℕ
numbers = record {
  has_more = λ m. false;
  is_delimiter = λ m. elim m [ zero ↦ true | suc n ↦ false ];
  delimiter = 0;
}

abbrev fresh_link : Link ℕ
fresh_link = record {
  here = (pipepair (2, 2) (true, true)).0;
  there = (pipepair (2, 2) (true, true)).1;
  to_here = [];
  to_there = [];
}

abbrev one_written : Link ℕ
one_written = posted numbers fresh_link (write numbers 5 fresh_link.here).1

one_written-Reachable : Reachable numbers one_written
unfolding pipepair pipe write check_write
one_written-Reachable =
    steps (fresh (2, 2) (true, true))
      (acts (write numbers 5 fresh_link.here).1 (writes 5 (omega arith)) refl)

whole-le_hwm_example : whole numbers one_written.here.outq.items ≤ 2
unfolding pipepair pipe compute_lwm write check_write Queue.write ypipe
whole-le_hwm_example = whole-le_hwm numbers one_written one_written-Reachable (omega arith)

check_write_resumes_example : check_write one_written.here ≡ (true, one_written.here)
unfolding pipepair pipe compute_lwm write check_write Queue.write ypipe
check_write_resumes_example =
    check_write_resumes numbers one_written one_written-Reachable refl (λ b. omega arith)

-- Two messages were written, and none was read.
abbrev full_end : Pipe ℕ
full_end = record (pipe 2 2 true) { msgs_written = 2 }

full_end-Writes : Writes full_end
unfolding pipe
full_end-Writes = record {
  window = record { peer_behind = omega arith; small = omega arith; bounded = λ b. omega arith };
  blocked = λ b. cc (b);
  goes_on = refl;
}

abbrev woken : Pipe ℕ
woken = tell hiccuped (record full_end { outq = ypipe })

hiccup_stalls_example :
    (woken.outq.items ≡ []) × (woken.out_active ≡ true) × ((check_write woken).0 ≡ false)
unfolding pipe process_hiccup
hiccup_stalls_example = hiccup_stalls full_end woken full_end-Writes (omega arith) refl refl

abbrev turned : Link ℕ → Link ℕ
turned s = record { here = s.there; there = s.here; to_here = s.to_there; to_there = s.to_here }

-- The end that check_read leaves behind where nothing is there to read.
abbrev sleeping : Pipe ℕ
sleeping = record fresh_link.there {
  inq = record (ypipe {M = ℕ}) { r = some 0; c = none };
  in_active = false;
}

abbrev reader_asleep : Link ℕ
reader_asleep = turned (posted numbers (turned fresh_link) sleeping)

abbrev then_written : Link ℕ
then_written = posted numbers reader_asleep (write numbers 5 reader_asleep.here).1

abbrev then_flushed : Link ℕ
then_flushed = posted numbers then_written (flush then_written.here)

then_flushed-Reachable : Reachable numbers then_flushed
unfolding pipepair pipe write check_write check_read flush Queue.check_read Queue.flush Queue.write
    ypipe
then_flushed-Reachable =
    steps
      (steps
        (steps
          (steps (steps (fresh (2, 2) (true, true)) turns)
            (acts sleeping (checks false sleeping refl) refl))
          turns)
        (acts (write numbers 5 reader_asleep.here).1 (writes 5 (omega arith)) refl))
      (acts (flush then_written.here) flushes refl)

flushed-Called_example : (flushed then_flushed.here.outq ≡ []) ⊎ Called then_flushed.to_there
unfolding pipepair pipe write check_write flush Queue.flush Queue.write ypipe
flushed-Called_example = flushed-Called numbers then_flushed then_flushed-Reachable refl
