-- ===== src/Balance/Lb/Tests.antt =====
-- A load balancer with three pipes.
use cctas.Base.{◌+◌, ◌≤◌, ◌<◌, ◌≡◌, ◌⊎◌, ◌↔◌, inl, refl, true, false, arith}
use cctas.Array.{index}
use cctas.Balance.Examples.{rooms, three, three-IsWf}
use cctas.Balance.Lb.{Lb, lb, attach, terminated}
use cctas.Balance.Lb.Valid.{IsValid}
use cctas.Balance.Lb.Turn.{at_current, at_current-terminated}
use cctas.Balance.Lb.Reachable.{attaches, Reachable, fresh, calls, lb-Reachable-IsValid}

-- The last of three active pipes has got the first part of a message.
abbrev third_in_turn : Lb
third_in_turn = record { pipes = three; active = 3; current = 2; more = true; dropping = false }

third_in_turn-IsValid : IsValid third_in_turn
third_in_turn-IsValid = record {
  wf = three-IsWf;
  within = omega arith;
  in_turn = inl (omega arith);
}

at_current-terminated_example :
    (at_current (terminated third_in_turn 1) ≡ at_current third_in_turn)
    ↔ ((3 ≤ 1) ⊎ (index third_in_turn.pipes 1 ≡ 0) ⊎ (2 + 1 < 3))
at_current-terminated_example =
    at_current-terminated third_in_turn 1 third_in_turn-IsValid refl (omega arith) (omega arith)

-- A pipe is attached.
one_pipe-Reachable : Reachable rooms (attach lb 0)
unfolding lb
one_pipe-Reachable = calls fresh (attaches 0 (λ i e. absurd (cc)))

lb-Reachable-IsValid_example : IsValid (attach lb 0)
lb-Reachable-IsValid_example = lb-Reachable-IsValid rooms (attach lb 0) one_pipe-Reachable
