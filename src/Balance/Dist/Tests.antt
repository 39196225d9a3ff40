-- ===== src/Balance/Dist/Tests.antt =====
-- A distributor with three pipes.
use cctas.Base.{◌≡◌, refl, false, arith}
use cctas.Balance.Examples.{rooms, two_each, three, three-IsWf}
use cctas.Balance.Dist.{Dist, dist, attach, send_to_all, terminated, distribute}
use cctas.Balance.Dist.Valid.{IsValid}
use cctas.Balance.Dist.Sending.{distribute_lem}
use cctas.Balance.Dist.Leaving.{Among, terminated_misplaces}
use cctas.Balance.Dist.Reachable.{Reachable}

-- Two active pipes and one that is full.
abbrev two_of_three : Dist
two_of_three = record { pipes = three; matching = 2; active = 2; eligible = 2; more = false }

two_of_three-IsValid : IsValid two_of_three
two_of_three-IsValid = record {
  wf = three-IsWf;
  matching_in = omega arith;
  active_in = omega arith;
  eligible_in = omega arith;
  settled = λ e. refl;
}

all_three : Dist
all_three = record { pipes = three; matching = 3; active = 3; eligible = 3; more = false }

all_three-IsValid : IsValid all_three
unfolding all_three
all_three-IsValid = record {
  wf = three-IsWf;
  matching_in = omega arith;
  active_in = omega arith;
  eligible_in = omega arith;
  settled = λ e. refl;
}

distribute_lem_example :
    let (refs, d', p') = distribute rooms two_of_three two_each false in
    IsValid d' × (refs ≡ d'.matching)
distribute_lem_example = distribute_lem rooms two_of_three two_each false two_of_three-IsValid

terminated_misplaces_example :
    let d' = terminated two_of_three 0 in
    Among two_of_three 2 1
    × (¬ Among two_of_three 2 2)
    × (¬ Among d' d'.active 1)
    × Among d' d'.active 2
terminated_misplaces_example =
    terminated_misplaces two_of_three 0 1 2 two_of_three-IsValid refl (omega arith) (omega arith)
      refl refl

-- A pipe is attached, and a message is sent.
one_pipe : Dist
unfolding attach
one_pipe = (send_to_all rooms (attach dist 0) two_each false).0
