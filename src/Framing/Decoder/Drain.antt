-- ===== src/Framing/Decoder/Drain.antt =====
-- The loop `while (!to_read)` of decoder_base_t ends by itself.
use cctas.Base.{
  ℕ, zero, suc, ◌≤◌, ◌<◌, ◌≡◌, ◌≢◌, refl, true, false, Option, none, some, if◌then◌else◌, ◌==◌,
  arith, Bool-cases, ℕ_discrete, ◌∙◌, inl, inr,
}
use cctas.Framing.Decoder.{Base, Machine, run_next, drain_loop, drain}

module _ {Step : Type 0} {D : Type 0} (m : Machine Step D) where
  need : Option Step → ℕ
  need none = 0
  need (some s) = suc (m.rank s)

  need_falls :
      (b : Base Step D) (o : Option Step)
      → b.next ≡ o
      → (run_next m b).0 ≡ true
      → (run_next m b).1.to_read ≡ 0
      → need (run_next m b).1.next < need o
  unfolding run_next need
  need_falls b none e h h' = absurd (cc)
  need_falls b (some s) e h h' =
      let (t, et, lt) = m.falls s b (rw (e, run_next) at h) (rw (e, run_next) at h') in
      rw (e, run_next, et) (omega arith)

  some_next : (b : Base Step D) → (run_next m b).0 ≡ true → 0 < need b.next
  unfolding run_next need
  some_next b h = ground arith

  step :
      (fuel : ℕ) (b : Base Step D)
      → drain_loop m (suc fuel) b ≡ (
          if b.to_read == 0
          then (if (run_next m b).0
              then drain_loop m fuel (run_next m b).1
              else (false, (run_next m b).1))
          else (true, b))
  unfolding drain_loop
  step fuel b = refl

  full : (fuel : ℕ) (b : Base Step D) → 0 < fuel → b.to_read ≢ 0 → drain_loop m fuel b ≡ (true, b)
  full zero b h h' = absurd (omega arith)
  full (suc fuel) b h h' = ground (arith, step fuel b)

  -- One more round than needed changes nothing.
  drain_loop_more :
      (fuel : ℕ) (b : Base Step D)
      → need b.next < fuel
      → drain_loop m fuel b ≡ drain_loop m (suc fuel) b
  drain_loop_more zero b h = absurd (omega arith)
  drain_loop_more (suc fuel) b h = elim (Bool-cases (run_next m b).0) [
    | inr failed ↦ rw (step fuel b, step (suc fuel) b, failed)
    | inl worked ↦ elim (ℕ_discrete (run_next m b).1.to_read 0) [
      | yes e ↦ ground (
        arith,
        step fuel b,
        step (suc fuel) b,
        drain_loop_more fuel (run_next m b).1 (omega (arith, need_falls b b.next refl worked e)),
      )
      | no ne ↦ ground (
        arith,
        some_next b worked,
        step fuel b,
        step (suc fuel) b,
        full fuel (run_next m b).1,
        full (suc fuel) (run_next m b).1,
      )
    ]
  ]

  need_le_bound : (o : Option Step) → need o ≤ m.bound
  unfolding need
  need_le_bound none = omega arith
  need_le_bound (some s) = m.rank_lt s

  -- The loop stops: it goes round once more exactly while no bytes are asked for and the action
  -- succeeds, for any number of rounds, and never runs out of them.
  pub drain_lem :
      (b : Base Step D)
      → drain m b ≡ (
          if b.to_read == 0
          then (if (run_next m b).0 then drain m (run_next m b).1 else (false, (run_next m b).1))
          else (true, b))
  unfolding drain
  drain_lem b =
      drain_loop_more (suc m.bound) b (omega (arith, need_le_bound b.next)) ∙ step (suc m.bound) b
