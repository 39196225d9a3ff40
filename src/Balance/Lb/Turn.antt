-- ===== src/Balance/Lb/Turn.antt =====
-- Which pipe lb_t writes to next.
use cctas.Base.{
  ℕ, ◌+◌, ◌-◌, ◌≤◌, ◌<◌, ◌≡◌, ◌≢◌, ◌↔◌, ◌⊎◌, inl, inr, sym, ap, ◌∙◌, ℕ_discrete, dec_le, dec_lt,
  ◌==◌, ◌&&◌, ltb, true, Option, arith, get_elem?, if◌then◌else◌, Bool-cases, get_elem?_lt,
  get_elem?-some,
}
use cctas.Array.{index}
use cctas.Array.Wf.{Stored, get_elem?-swap}
use cctas.Array.Erase.{get_elem?-erase}
use cctas.Balance.Lb.{Lb, retire, terminated}
use cctas.Balance.Lb.Valid.{IsValid, size-retire, index-retire}

-- The pipe at `current`.
abbrev pub at_current : Lb → Option ℕ
at_current l = get_elem? l.pipes.items l.current

current-retire :
    (l : Lb) (x : ℕ)
    → (retire l x).current
      ≡ (if ltb (index l.pipes x) l.active && (l.current == l.active - 1) then 0 else l.current)
unfolding retire
current-retire l x = ground arith

get_elem?-retire :
    (l : Lb) (x k : ℕ)
    → IsValid l
    → Stored l.pipes x
    → k ≢ index l.pipes x
    → (index l.pipes x < l.active → k + 1 ≢ l.active)
    → get_elem? (retire l x).pipes.items k ≡ get_elem? l.pipes.items k
unfolding retire
get_elem?-retire l x k v st ne ne' = elim (Bool-cases (ltb (index l.pipes x) l.active)) [
  | inr passive ↦ rw passive
  | inl was_active ↦
      let (y, hy) = get_elem?-some l.pipes.items (l.active - 1) (ground (arith, v.within)) in
      rw was_active (
        ground (
          arith,
          ne' (ground arith),
          get_elem?-swap l.pipes (index l.pipes x) (l.active - 1) k x y st hy,
        ))
]

-- What stands at an index that neither the leaving pipe nor the last active one has.
get_elem?-terminated :
    (l : Lb) (x k : ℕ)
    → IsValid l
    → Stored l.pipes x
    → k < l.active
    → k ≢ index l.pipes x
    → (index l.pipes x < l.active → k + 1 ≢ l.active)
    → get_elem? (terminated l x).pipes.items k ≡ get_elem? l.pipes.items k
unfolding terminated
get_elem?-terminated l x k v st lt ne ne' =
    let l1 : Lb = record l {
      dropping = if (index l.pipes x == l.current) && l.more then true else l.dropping;
    } in
    let v1 : IsValid l1 = record { wf = v.wf; within = v.within; in_turn = v.in_turn } in
    let (at_end, st2) = index-retire l1 x v1 st in
    let i_lt = get_elem?_lt (retire l1 x).pipes.items (index (retire l1 x).pipes x) x st2 in
    let was_in = get_elem?_lt l.pipes.items (index l.pipes x) x st in
    ground (
      arith,
      v.within,
      get_elem?-erase (retire l1 x).pipes x k i_lt,
      get_elem?-retire l1 x k v1 st ne ne',
      size-retire l1 x,
    )

-- The last active pipe takes the place of an active one that leaves.
get_elem?-terminated_hole :
    (l : Lb) (x : ℕ)
    → IsValid l
    → Stored l.pipes x
    → index l.pipes x + 1 < l.active
    → get_elem? (terminated l x).pipes.items (index l.pipes x)
      ≡ get_elem? l.pipes.items (l.active - 1)
unfolding terminated retire
get_elem?-terminated_hole l x v st lt =
    let l1 : Lb = record l {
      dropping = if (index l.pipes x == l.current) && l.more then true else l.dropping;
    } in
    let v1 : IsValid l1 = record { wf = v.wf; within = v.within; in_turn = v.in_turn } in
    let (at_end, st2) = index-retire l1 x v1 st in
    let i_lt = get_elem?_lt (retire l1 x).pipes.items (index (retire l1 x).pipes x) x st2 in
    let (y, hy) = get_elem?-some l.pipes.items (l.active - 1) (omega (arith, v.within)) in
    ground (
      arith,
      v.within,
      hy,
      get_elem?-erase (retire l1 x).pipes x (index l.pipes x) i_lt,
      get_elem?-swap l.pipes (index l.pipes x) (l.active - 1) (index l.pipes x) x y st hy,
      size-retire l1 x,
    )

current-terminated :
    (l : Lb) (x : ℕ)
    → (terminated l x).current
      ≡ (if ltb (index l.pipes x) l.active && (l.current == l.active - 1) then 0 else l.current)
unfolding terminated
current-terminated l x =
    current-retire
      (record l {
        dropping = if (index l.pipes x == l.current) && l.more then true else l.dropping;
      })
      x

-- When another pipe goes away, the pipe whose turn it is (and which may have got a part of a
-- message) keeps its turn exactly if the leaving pipe was passive, or was the first one, or the
-- pipe in turn was not the last active one.
pub at_current-terminated :
    (l : Lb) (x : ℕ)
    → IsValid l
    → Stored l.pipes x
    → l.current < l.active
    → index l.pipes x ≢ l.current
    → (at_current (terminated l x) ≡ at_current l)
      ↔ ((l.active ≤ index l.pipes x) ⊎ (index l.pipes x ≡ 0) ⊎ (l.current + 1 < l.active))
at_current-terminated l x v st lt ne = (forth, back)
  where
    turn_kept : l.current + 1 ≢ l.active → at_current (terminated l x) ≡ at_current l
    turn_kept not_last =
        ap (get_elem? (terminated l x).pipes.items) (current-terminated l x ∙ ground arith)
        ∙ get_elem?-terminated l x l.current v st lt (λ e. ne (sym e)) (λ _. not_last)

    passive_kept : l.active ≤ index l.pipes x → at_current (terminated l x) ≡ at_current l
    passive_kept passive =
        ap (get_elem? (terminated l x).pipes.items) (current-terminated l x ∙ ground arith)
        ∙ get_elem?-terminated l x l.current v st lt (λ e. ne (sym e)) (λ h. absurd (omega arith))

    first_kept :
        index l.pipes x ≡ 0 → l.current + 1 ≡ l.active → at_current (terminated l x) ≡ at_current l
    first_kept first last =
        ap (get_elem? (terminated l x).pipes.items) (current-terminated l x ∙ ground arith)
        ∙ get_elem?-terminated_hole l x v st (omega arith)
        ∙ ap (get_elem? l.pipes.items) (omega arith)

    back :
        (l.active ≤ index l.pipes x) ⊎ (index l.pipes x ≡ 0) ⊎ (l.current + 1 < l.active)
        → at_current (terminated l x) ≡ at_current l
    back (inl passive) = passive_kept passive
    back (inr (inl first)) = elim (ℕ_discrete (l.current + 1) l.active) [
      | yes last ↦ first_kept first last
      | no not_last ↦ turn_kept not_last
    ]
    back (inr (inr not_last)) = turn_kept (omega arith)

    -- Otherwise the turn goes to the first pipe, which is another one.
    lost :
        index l.pipes x < l.active
        → index l.pipes x ≢ 0
        → l.current + 1 ≡ l.active
        → at_current (terminated l x) ≡ at_current l
        → ⊥
    lost act first last same =
        let (y, hy) = get_elem?-some l.pipes.items l.current (omega (arith, v.within)) in
        let at_zero : at_current (terminated l x) ≡ get_elem? l.pipes.items 0 =
          ap (get_elem? (terminated l x).pipes.items) (current-terminated l x ∙ ground arith)
          ∙ get_elem?-terminated l x 0 v st (omega arith) (omega arith) (λ _. omega arith) in
        omega (arith, v.wf.known 0 y (sym at_zero ∙ same ∙ hy), v.wf.known l.current y hy)

    forth :
        at_current (terminated l x) ≡ at_current l
        → (l.active ≤ index l.pipes x) ⊎ (index l.pipes x ≡ 0) ⊎ (l.current + 1 < l.active)
    forth same = elim (dec_le l.active (index l.pipes x)) [
      | yes passive ↦ inl passive
      | no was_active ↦ elim (ℕ_discrete (index l.pipes x) 0) [
        | yes first ↦ inr (inl first)
        | no not_first ↦ elim (dec_lt (l.current + 1) l.active) [
          | yes not_last ↦ inr (inr not_last)
          | no last ↦ absurd (lost (omega arith) not_first (omega arith) same)
        ]
      ]
    ]
