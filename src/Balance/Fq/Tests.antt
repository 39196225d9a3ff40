-- ===== src/Balance/Fq/Tests.antt =====
-- A fair queue with a pipe.
use cctas.Base.{false, arith}
use cctas.Balance.Examples.{rooms, two_each, three, three-IsWf}
use cctas.Balance.Fq.{Fq, fq, attach, recvpipe}
use cctas.Balance.Fq.Valid.{IsValid, AnsweredIf, recvpipe-AnsweredIf}
use cctas.Balance.Fq.Reachable.{attaches, Reachable, fresh, calls, fq-Reachable-IsValid}

one_pipe-Reachable : Reachable rooms (attach fq 0)
unfolding fq
one_pipe-Reachable = calls fresh (attaches 0 (λ i e. absurd (cc)))

fq-Reachable-IsValid_example : IsValid (attach fq 0)
fq-Reachable-IsValid_example = fq-Reachable-IsValid rooms (attach fq 0) one_pipe-Reachable

-- Two of three pipes may have something to read; the rooms give nothing.
abbrev two_active : Fq
two_active = record { pipes = three; active = 2; current = 1; more = false }

two_active-IsValid : IsValid two_active
two_active-IsValid = record { wf = three-IsWf; within = omega arith; in_turn = omega arith }

recvpipe-AnsweredIf_example : AnsweredIf rooms false (recvpipe rooms two_active two_each)
recvpipe-AnsweredIf_example = recvpipe-AnsweredIf rooms two_active two_each two_active-IsValid
