-- ===== src/Balance/Dist/Valid.antt =====
-- The invariant of dist_t, and the operations that keep it.
use cctas.Base.{
  ℕ, ◌+◌, ◌-◌, ◌≤◌, ◌<◌, ◌≡◌, ◌≢◌, ap, ltb, leb, false, some, arith, get_elem?, if◌then◌else◌,
  Bool-cases, get_elem?_lt, inl, inr,
}
use cctas.Array.{size, index, push_back, swap}
use cctas.Array.Wf.{IsWf, Stored, swap-IsWf, size-swap, push_back-IsWf, size-push_back}
use cctas.Array.Erase.{erase-IsWf, size-erase}
use cctas.Balance.Dist.{Dist, attach, match_pipe, unmatch, terminated, activated}

-- Every pipe knows its index, and the matching, the active and the eligible pipes are front parts
-- of the array, each within the next. Between two
-- messages all eligible pipes are active.
pub record IsValid (d : Dist) : Type 0 where
  pub wf : IsWf d.pipes
  pub matching_in : d.matching ≤ d.active
  pub active_in : d.active ≤ d.eligible
  pub eligible_in : d.eligible ≤ size d.pipes
  pub settled : d.more ≡ false → d.active ≡ d.eligible

pub attach-IsValid :
    (d : Dist) (x : ℕ)
    → ((i : ℕ) → get_elem? d.pipes.items i ≢ some x)
    → IsValid d
    → IsValid (attach d x)
unfolding attach
attach-IsValid d x fresh v =
    let pushed = push_back d.pipes x in
    let grown : size pushed ≡ size d.pipes + 1 = size-push_back d.pipes x in
    let wf' = push_back-IsWf d.pipes x fresh v.wf in
    elim (Bool-cases d.more) [
      | inl mid ↦ rw mid (record {
        wf =
            swap-IsWf pushed d.eligible (size pushed - 1) (omega (arith, v.eligible_in, grown))
              (omega (arith, grown)) wf';
        matching_in = v.matching_in;
        active_in = omega (arith, v.active_in);
        eligible_in =
            omega (arith, v.eligible_in, grown, size-swap pushed d.eligible (size pushed - 1));
        settled = λ e. absurd (cc);
      })
      | inr start ↦ rw start (record {
        wf =
            swap-IsWf pushed d.active (size pushed - 1)
              (omega (arith, v.eligible_in, v.active_in, grown)) (omega (arith, grown)) wf';
        matching_in = omega (arith, v.matching_in);
        active_in = omega (arith, v.active_in);
        eligible_in =
            omega (arith, v.eligible_in, grown, size-swap pushed d.active (size pushed - 1));
        settled = λ e. ap (λ n. n + 1) (v.settled start);
      })
    ]

pub match_pipe-IsValid : (d : Dist) (x : ℕ) → IsValid d → d.more ≡ false → IsValid (match_pipe d x)
unfolding match_pipe
match_pipe-IsValid d x v h = elim (Bool-cases (ltb (index d.pipes x) d.matching)) [
  | inl matched ↦ rw matched v
  | inr other ↦ elim (Bool-cases (leb d.eligible (index d.pipes x))) [
    | inl passive ↦ rw (other, passive) v
    | inr free ↦
        let room : d.matching < d.active = ground (arith, h, v.settled h) in
        rw (other, free)
          (record {
            wf =
                swap-IsWf d.pipes (index d.pipes x) d.matching
                  (ground (arith, v.active_in, v.eligible_in))
                  (omega (arith, v.matching_in, v.active_in, v.eligible_in)) v.wf;
            matching_in = omega (arith, room);
            active_in = v.active_in;
            eligible_in =
                omega (arith, v.eligible_in, size-swap d.pipes (index d.pipes x) d.matching);
            settled = v.settled;
          })
  ]
]

pub unmatch-IsValid : (d : Dist) → IsValid d → IsValid (unmatch d)
unfolding unmatch
unmatch-IsValid d v = record {
  wf = v.wf;
  matching_in = omega arith;
  active_in = v.active_in;
  eligible_in = v.eligible_in;
  settled = v.settled;
}

-- terminated keeps the three counts consistent (see Leaving for what it does to their meaning).
pub terminated-IsValid :
    (d : Dist) (x : ℕ) → Stored d.pipes x → IsValid d → IsValid (terminated d x)
unfolding terminated
terminated-IsValid d x st v =
    let i_lt = get_elem?_lt d.pipes.items (index d.pipes x) x st in
    record {
      wf = erase-IsWf d.pipes x i_lt v.wf;
      matching_in = ground (arith, v.matching_in);
      active_in = ground (arith, v.active_in);
      eligible_in = ground (arith, v.eligible_in, size-erase d.pipes x i_lt);
      settled = λ e. ap (λ n. if ltb (index d.pipes x) n then n - 1 else n) (v.settled e);
    }

-- A passive pipe that has room again.
pub activated-IsValid :
    (d : Dist) (x : ℕ)
    → d.eligible ≤ index d.pipes x
    → index d.pipes x < size d.pipes
    → IsValid d
    → IsValid (activated d x)
unfolding activated
activated-IsValid d x h h' v =
    let moved = swap d.pipes (index d.pipes x) d.eligible in
    let same : size moved ≡ size d.pipes = size-swap d.pipes (index d.pipes x) d.eligible in
    let wf' = swap-IsWf d.pipes (index d.pipes x) d.eligible h' (omega arith) v.wf in
    elim (Bool-cases d.more) [
      | inl mid ↦ rw mid (record {
        wf = wf';
        matching_in = v.matching_in;
        active_in = omega (arith, v.active_in);
        eligible_in = omega (arith, same);
        settled = λ e. absurd (cc);
      })
      | inr start ↦ rw start (record {
        wf =
            swap-IsWf moved (d.eligible + 1 - 1) d.active (omega (arith, same))
              (omega (arith, same, v.active_in)) wf';
        matching_in = omega (arith, v.matching_in);
        active_in = omega (arith, v.active_in);
        eligible_in = omega (arith, same, size-swap moved (d.eligible + 1 - 1) d.active);
        settled = λ e. ap (λ n. n + 1) (v.settled start);
      })
    ]
