-- ===== src/Balance/Dist/Sending.antt =====
-- dist_t's sending: the invariant, and how many references to the message are left.
use cctas.Base.{
  ℕ, zero, suc, ◌+◌, ◌-◌, ◌<◌, ◌≡◌, refl, sym, ap, ◌∙◌, Bool, some, arith, get_elem?, get_or,
  if◌then◌else◌, Bool-cases, get_elem?_lt, get_elem?-some, get_or_of_get_elem?, inl, inr,
  ℕ_discrete,
}
use cctas.Array.{size, index, swap}
use cctas.Array.Wf.{Stored, swap-IsWf, size-swap, index-swap}
use cctas.Balance.{Pipes}
use cctas.Balance.Dist.{
  Dist, expel, write, distribute_loop, distribute, send_to_matching, send_to_all,
}
use cctas.Balance.Dist.Valid.{IsValid}

-- A full pipe that was matching leaves the matching, the active and the eligible ones.
pub expel-IsValid :
    (d : Dist) (x : ℕ)
    → Stored d.pipes x
    → index d.pipes x < d.matching
    → IsValid d
    → IsValid (expel d x)
unfolding expel
expel-IsValid d x st h v =
    let a1 = swap d.pipes (index d.pipes x) (d.matching - 1) in
    let i_in = get_elem?_lt d.pipes.items (index d.pipes x) x st in
    let w1 =
      swap-IsWf d.pipes (index d.pipes x) (d.matching - 1) i_in
        (omega (arith, v.matching_in, v.active_in, v.eligible_in)) v.wf in
    let s1 : size a1 ≡ size d.pipes = size-swap d.pipes (index d.pipes x) (d.matching - 1) in
    let (at1, st1) =
      index-swap d.pipes x (d.matching - 1) v.wf st
        (omega (arith, v.matching_in, v.active_in, v.eligible_in)) in
    let a2 = swap a1 (index a1 x) (d.active - 1) in
    let w2 =
      swap-IsWf a1 (index a1 x) (d.active - 1) (get_elem?_lt a1.items (index a1 x) x st1)
        (omega (arith, s1, v.active_in, v.eligible_in, v.matching_in, h)) w1 in
    let s2 : size a2 ≡ size a1 = size-swap a1 (index a1 x) (d.active - 1) in
    record {
      wf =
          swap-IsWf a2 (d.active - 1) (d.eligible - 1)
            (omega (arith, s1, s2, v.active_in, v.eligible_in, v.matching_in, h))
            (omega (arith, s1, s2, v.active_in, v.eligible_in, v.matching_in, h)) w2;
      matching_in = omega (arith, v.matching_in);
      active_in = omega (arith, v.active_in);
      eligible_in =
          omega (arith, v.eligible_in, s1, s2, size-swap a2 (d.active - 1) (d.eligible - 1));
      settled = λ e. ap (λ n. n - 1) (v.settled e);
    }

matching-expel : (d : Dist) (x : ℕ) → (expel d x).matching ≡ d.matching - 1
unfolding expel
matching-expel d x = refl

module _ {P M : Type 0} (ps : Pipes P M) where
  -- What a round of distribute does with the pipe at index i.
  record Round (d : Dist) (i : ℕ) (r : Bool × Dist × P) : Type 0 where
    valid : IsValid r.1
    count : r.1.matching + (if r.0 then 0 else 1) ≡ d.matching

  write-Round :
      (d : Dist) (p : P) (i : ℕ) (m : M)
      → i < d.matching
      → IsValid d
      → Round d i (write ps d p (get_or d.pipes.items i 0) m)
  unfolding write
  write-Round d p i m h v =
      let x = get_or d.pipes.items i 0 in
      let (y, hy) =
        get_elem?-some d.pipes.items i (omega (arith, v.matching_in, v.active_in, v.eligible_in)) in
      let is_y : x ≡ y = get_or_of_get_elem? d.pipes.items i y 0 hy in
      let there : index d.pipes x ≡ i = ap (index d.pipes) is_y ∙ v.wf.known i y hy in
      let st : Stored d.pipes x = ap (get_elem? d.pipes.items) there ∙ hy ∙ ap some (sym is_y) in
      elim (Bool-cases (ps.write p x m).0) [
        | inl taken ↦ rw taken (record { valid = v; count = omega arith })
        | inr full ↦ rw full (record {
          valid = expel-IsValid d x st (omega (arith, there)) v;
          count = omega (arith, matching-expel d x);
        })
      ]

  record Loop (d : Dist) (failed : ℕ) (r : ℕ × Dist × P) : Type 0 where
    valid : IsValid r.1
    count : r.1.matching + r.0 ≡ d.matching + failed

  distribute_loop-Loop :
      (n i failed : ℕ) (d : Dist) (p : P) (m : M)
      → i + n ≡ d.matching
      → IsValid d
      → Loop d failed (distribute_loop ps n i failed d p m)
  unfolding distribute_loop
  distribute_loop-Loop zero i failed d p m e v = record { valid = v; count = refl }
  distribute_loop-Loop (suc n) i failed d p m e v =
      let r = write ps d p (get_or d.pipes.items i 0) m in
      let round = write-Round d p i m (omega arith) v in
      elim (Bool-cases r.0) [
        | inl taken ↦
            let c : r.1.matching ≡ d.matching = ground (arith, round.count) in
            let rest =
              distribute_loop-Loop n (i + 1) failed r.1 r.2 m (omega (arith, c, e)) round.valid in
            rw taken (record { valid = rest.valid; count = omega (arith, rest.count, c) })
        | inr full ↦
            let c : r.1.matching + 1 ≡ d.matching = ground (arith, round.count) in
            let rest =
              distribute_loop-Loop n i (failed + 1) r.1 r.2 m (omega (arith, c, e)) round.valid in
            rw full (record { valid = rest.valid; count = omega (arith, rest.count, c) })
      ]

  -- distribute keeps the invariant, and the references to the message that it leaves are as many as
  -- the pipes that still match afterwards.
  pub distribute_lem :
      (d : Dist) (p : P) (m : M)
      → IsValid d
      → let (refs, d', p') = distribute ps d p m in IsValid d' × (refs ≡ d'.matching)
  unfolding distribute
  distribute_lem d p m v =
      let loop = distribute_loop-Loop d.matching 0 0 d p m (omega arith) v in
      elim (ℕ_discrete d.matching 0) [
        | yes nobody ↦ ground (arith, v)
        | no some_pipe ↦ ground (arith, loop.valid, loop.count)
      ]

  pub send_to_matching-IsValid :
      (d : Dist) (p : P) (m : M) → IsValid d → IsValid (send_to_matching ps d p m).0
  unfolding send_to_matching
  send_to_matching-IsValid d p m v =
      let v1 = (distribute_lem d p m v).0 in
      elim (Bool-cases (ps.has_more m)) [
        | inl mid ↦ rw mid (record {
          wf = v1.wf;
          matching_in = v1.matching_in;
          active_in = v1.active_in;
          eligible_in = v1.eligible_in;
          settled = λ e. absurd (cc);
        })
        | inr last ↦ rw last (record {
          wf = v1.wf;
          matching_in = omega (arith, v1.matching_in, v1.active_in);
          active_in = omega arith;
          eligible_in = v1.eligible_in;
          settled = λ e. refl;
        })
      ]

  -- Sending to all pipes keeps the invariant.
  pub send_to_all-IsValid :
      (d : Dist) (p : P) (m : M) → IsValid d → IsValid (send_to_all ps d p m).0
  unfolding send_to_all
  send_to_all-IsValid d p m v =
      send_to_matching-IsValid (record d { matching = d.active }) p m
        (record {
          wf = v.wf;
          matching_in = omega arith;
          active_in = v.active_in;
          eligible_in = v.eligible_in;
          settled = v.settled;
        })
