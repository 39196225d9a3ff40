-- ===== src/Balance/Dist/Leaving.antt =====
-- What dist_t::terminated does to the other pipes' standing.
use cctas.Base.{ℕ, ◌+◌, ◌-◌, ◌<◌, ◌≡◌, ◌≢◌, sym, ap, ◌∙◌, some, arith, get_elem?, ℕ_discrete}
use cctas.Array.{size, index, erase}
use cctas.Array.Wf.{Stored}
use cctas.Array.Erase.{get_elem?-erase, erase-IsWf}
use cctas.Balance.Dist.{Dist, terminated}
use cctas.Balance.Dist.Valid.{IsValid, terminated-IsValid}

-- The pipe x is one of the first n.
abbrev pub Among : Dist → ℕ → ℕ → Type 0
Among d n x = Stored d.pipes x × (index d.pipes x < n)

-- Whenever an active pipe other than the last active one leaves while some pipe is not active, the
-- last pipe of the array, which was not active, becomes active, and the last active pipe is active
-- no more.
pub terminated_misplaces :
    (d : Dist) (x y z : ℕ)
    → IsValid d
    → Stored d.pipes x
    → index d.pipes x + 1 < d.active
    → d.active < size d.pipes
    → get_elem? d.pipes.items (d.active - 1) ≡ some y
    → get_elem? d.pipes.items (size d.pipes - 1) ≡ some z
    → let d' = terminated d x in
      Among d d.active y × (¬ Among d d.active z) × (¬ Among d' d'.active y) × Among d' d'.active z
unfolding terminated
terminated_misplaces d x y z v st hx hs hy hz =
    let i = index d.pipes x in
    let i_lt : i < size d.pipes = omega arith in
    let ky = v.wf.known (d.active - 1) y hy in
    let kz = v.wf.known (size d.pipes - 1) z hz in
    let v' = terminated-IsValid d x st v in
    let y_at = get_elem?-erase d.pipes x (d.active - 1) i_lt in
    let z_at = get_elem?-erase d.pipes x i i_lt in
    let y_there : get_elem? (erase d.pipes x).items (d.active - 1) ≡ some y =
      ground (arith, y_at, hy) in
    let z_there : get_elem? (erase d.pipes x).items i ≡ some z = ground (arith, z_at, hz) in
    let w' = erase-IsWf d.pipes x i_lt v.wf in
    let ky' = w'.known (d.active - 1) y y_there in
    let kz' = w'.known i z z_there in
    (
      (ap (get_elem? d.pipes.items) ky ∙ hy, omega (arith, ky, hx)),
      (λ h. omega (arith, kz, h.1, hs)),
      (λ h. ground (arith, ky', h.1, hx)),
      (ap (get_elem? (erase d.pipes x).items) kz' ∙ z_there, ground (arith, kz', hx)),
    )

-- With no passive pipe behind the active ones, every other active pipe stays active.
pub terminated_keeps_active :
    (d : Dist) (x y : ℕ)
    → IsValid d
    → Among d d.active x
    → d.active ≡ size d.pipes
    → Among d d.active y
    → y ≢ x
    → let d' = terminated d x in Among d' d'.active y
unfolding terminated
terminated_keeps_active d x y v (st, hx) e (sty, hy) ne =
    let i = index d.pipes x in
    let j = index d.pipes y in
    let i_lt : i < size d.pipes = omega arith in
    let w' = erase-IsWf d.pipes x i_lt v.wf in
    let apart : j ≢ i = λ same. ne (cc (sym sty ∙ ap (get_elem? d.pipes.items) same ∙ st)) in
    elim (ℕ_discrete (j + 1) (size d.pipes)) [
      | yes last ↦
          let there : get_elem? (erase d.pipes x).items i ≡ some y = ground (
            arith,
            get_elem?-erase d.pipes x i i_lt,
            ap (get_elem? d.pipes.items) (let e' : j ≡ size d.pipes - 1 = omega arith in e'),
            sty,
          ) in
          let known = w'.known i y there in
          (ap (get_elem? (erase d.pipes x).items) known ∙ there, ground (arith, known, apart))
      | no inner ↦
          let there : get_elem? (erase d.pipes x).items j ≡ some y =
            ground (arith, get_elem?-erase d.pipes x j i_lt, sty, apart) in
          let known = w'.known j y there in
          (ap (get_elem? (erase d.pipes x).items) known ∙ there, ground (arith, known, apart))
    ]
