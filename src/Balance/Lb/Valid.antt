-- ===== src/Balance/Lb/Valid.antt =====
-- The invariant of lb_t and its operations.
use cctas.Base.{
  ℕ, zero, suc, ◌-◌, ◌≤◌, ◌<◌, ◌≡◌, ◌≢◌, ◌⊎◌, inl, inr, refl, sym, ap, subst, ◌∙◌, ℕ_discrete, ◌==◌,
  ◌&&◌, ltb, Bool, true, false, Option, none, some, arith, get_elem?, if◌then◌else◌, length-append,
  Bool-cases, get_elem?_lt, [], ◌∷◌,
}
use cctas.Array.{Array, size, index, push_back}
use cctas.Array.Wf.{IsWf, Stored, swap-IsWf, size-swap, index-swap, push_back-IsWf}
use cctas.Array.Erase.{erase-IsWf, size-erase}
use cctas.Balance.{Pipes}
use cctas.Balance.Lb.{
  Lb, lb, activated, attach, retire, terminated, pass_over, deactivate, send_loop, after_loop,
  finish, send, target, has_out_loop, has_out,
}

-- Every pipe knows its index, the active ones are a front part of the array, and `current` is one
-- of them where there are any.
pub record IsValid (l : Lb) : Type 0 where
  pub wf : IsWf l.pipes
  pub within : l.active ≤ size l.pipes
  pub in_turn : (l.current < l.active) ⊎ (l.current ≡ 0)

pub lb-IsValid : IsValid lb
unfolding lb
lb-IsValid = record {
  wf = record { known = λ i x h. absurd (cc) };
  within = omega arith;
  in_turn = inr refl;
}

-- Activating a stored pipe that is not among the active ones.
pub activated-IsValid :
    (l : Lb) (x : ℕ)
    → IsValid l
    → l.active ≤ index l.pipes x
    → index l.pipes x < size l.pipes
    → IsValid (activated l x)
unfolding activated
activated-IsValid l x v h h' = record {
  wf = swap-IsWf l.pipes (index l.pipes x) l.active h' (omega arith) v.wf;
  within = omega (arith, size-swap l.pipes (index l.pipes x) l.active);
  in_turn = ground arith;
}

pub retire-IsValid :
    (l : Lb) (x : ℕ) → IsValid l → index l.pipes x < size l.pipes → IsValid (retire l x)
unfolding retire
retire-IsValid l x v h = elim (Bool-cases (ltb (index l.pipes x) l.active)) [
  | inr e ↦ rw e v
  | inl e ↦
      let lt : index l.pipes x < l.active = ground arith in
      rw e (record {
        wf = swap-IsWf l.pipes (index l.pipes x) (l.active - 1) h (omega arith) v.wf;
        within = omega (arith, size-swap l.pipes (index l.pipes x) (l.active - 1));
        in_turn = ground arith;
      })
]

-- A pipe that is not stored yet.
abbrev pub IsFresh : Array → ℕ → Type 0
IsFresh a x = (i : ℕ) → get_elem? a.items i ≢ some x

pub attach-IsValid : (l : Lb) (x : ℕ) → IsFresh l.pipes x → IsValid l → IsValid (attach l x)
unfolding attach push_back
attach-IsValid l x fresh v =
    let grown = length-append l.pipes.items (x ∷ []) in
    activated-IsValid (record l { pipes = push_back l.pipes x }) x
      (record {
        wf = push_back-IsWf l.pipes x fresh v.wf;
        within = omega (arith, v.within, grown);
        in_turn = v.in_turn;
      })
      (ground (arith, v.within)) (ground (arith, grown))

pub size-retire : (l : Lb) (x : ℕ) → size (retire l x).pipes ≡ size l.pipes
unfolding retire
size-retire l x = ground (arith, size-swap l.pipes (index l.pipes x) (l.active - 1))

pub index-retire :
    (l : Lb) (x : ℕ)
    → IsValid l
    → Stored l.pipes x
    → (index (retire l x).pipes x
        ≡ (if ltb (index l.pipes x) l.active then l.active - 1 else index l.pipes x))
      × (Stored (retire l x).pipes x)
unfolding retire
index-retire l x v st = elim (Bool-cases (ltb (index l.pipes x) l.active)) [
  | inl lt ↦ rw lt (index-swap l.pipes x (l.active - 1) v.wf st (ground (arith, v.within)))
  | inr ge ↦ rw ge (refl, st)
]

pub active-retire :
    (l : Lb) (x : ℕ)
    → (retire l x).active ≡ (if ltb (index l.pipes x) l.active then l.active - 1 else l.active)
unfolding retire
active-retire l x = ground arith

pub terminated-IsValid : (l : Lb) (x : ℕ) → Stored l.pipes x → IsValid l → IsValid (terminated l x)
unfolding terminated
terminated-IsValid l x st v =
    let l1 : Lb = record l {
      dropping = if (index l.pipes x == l.current) && l.more then true else l.dropping;
    } in
    let v1 : IsValid l1 = record { wf = v.wf; within = v.within; in_turn = v.in_turn } in
    let stored = get_elem?_lt l.pipes.items (index l.pipes x) x st in
    let v2 = retire-IsValid l1 x v1 stored in
    let (at_end, st2) = index-retire l1 x v1 st in
    let i_lt = get_elem?_lt (retire l1 x).pipes.items (index (retire l1 x).pipes x) x st2 in
    let above : (retire l1 x).active ≤ index (retire l1 x).pipes x =
      ground (arith, at_end, active-retire l1 x) in
    record {
      wf = erase-IsWf (retire l1 x).pipes x i_lt v2.wf;
      within = omega (arith, size-erase (retire l1 x).pipes x i_lt, above, i_lt);
      in_turn = v2.in_turn;
    }

pass_over-IsValid : (l : Lb) (n : ℕ) → l.active ≡ suc n → IsValid l → IsValid (pass_over l n)
pass_over-IsValid l n e v = elim (Bool-cases (ltb l.current n)) [
  | inl lt ↦ rw lt (record {
    wf = swap-IsWf l.pipes l.current n (ground (arith, v.within)) (omega (arith, v.within)) v.wf;
    within = omega (arith, size-swap l.pipes l.current n, v.within);
    in_turn = inl (ground arith);
  })
  | inr ge ↦ rw ge (record { wf = v.wf; within = omega (arith, v.within); in_turn = inr refl })
]

pub deactivate-IsValid : (l : Lb) (n : ℕ) → l.active ≡ suc n → IsValid l → IsValid (deactivate l n)
deactivate-IsValid l n e v = record {
  wf =
      swap-IsWf l.pipes l.current n (omega (arith, v.within, v.in_turn)) (omega (arith, v.within))
        v.wf;
  within = omega (arith, size-swap l.pipes l.current n, v.within);
  in_turn = ground (arith, v.in_turn);
}

module _ {P M : Type 0} (ps : Pipes P M) where
  -- One round of the loop that goes on to the next pipe.
  pub send_loop_round :
      (n : ℕ) (l : Lb) (p : P) (m : M)
      → (ps.write p (target l) m).0 ≡ false
      → l.more ≡ false
      → send_loop ps (suc n) l p m ≡ send_loop ps n (pass_over l n) (ps.write p (target l) m).1 m
  unfolding send_loop
  send_loop_round n l p m refused start =
      let rest = send_loop ps n (pass_over l n) (ps.write p (target l) m).1 m in
      rw refused (ap (λ (b : Bool). if b then none else rest) start)

  pub active-pass_over : (l : Lb) (n : ℕ) → (pass_over l n).active ≡ n
  active-pass_over l n = ground arith

  pub more-pass_over : (l : Lb) (n : ℕ) → (pass_over l n).more ≡ l.more
  more-pass_over l n = ground arith

  send_loop-IsValid :
      (n : ℕ) (l : Lb) (p : P) (m : M) (taken : Bool) (l' : Lb) (p' : P)
      → l.active ≡ n
      → IsValid l
      → send_loop ps n l p m ≡ some (taken, l', p')
      → IsValid l'
  unfolding send_loop
  send_loop-IsValid zero l p m taken l' p' e v h = subst IsValid (ground arith) v
  send_loop-IsValid (suc n) l p m taken l' p' e v h =
      elim (Bool-cases (ps.write p (target l) m).0) [
        | inl taken ↦ subst IsValid (ground arith) v
        | inr refused ↦ elim (Bool-cases l.more) [
          | inl mid ↦ absurd (ground arith)
          | inr start ↦
              send_loop-IsValid n (pass_over l n) (ps.write p (target l) m).1 m taken l' p'
                (active-pass_over l n) (pass_over-IsValid l n e v)
                (sym (send_loop_round n l p m refused start) ∙ h)
        ]
      ]

  finish-IsValid : (l : Lb) (p : P) (m : M) → l.active ≢ 0 → IsValid l → IsValid (finish ps l p m).0
  finish-IsValid l p m some_active v = elim (Bool-cases (ps.has_more m)) [
    | inl more ↦ rw more (record { wf = v.wf; within = v.within; in_turn = v.in_turn })
    | inr last ↦ rw last (record { wf = v.wf; within = v.within; in_turn = inl (omega arith) })
  ]

  after_loop-IsValid :
      (m : M) (r : Option (Bool × Lb × P)) (sent : Bool) (l' : Lb) (p' : P)
      → ((taken : Bool) (l1 : Lb) (p1 : P) → r ≡ some (taken, l1, p1) → IsValid l1)
      → after_loop ps m r ≡ some (sent, l', p')
      → IsValid l'
  after_loop-IsValid m none sent l' p' v h = absurd (cc)
  after_loop-IsValid m (some (taken, l1, p1)) sent l' p' v h = elim (ℕ_discrete l1.active 0) [
    | yes none_left ↦ subst IsValid (ground arith) (v taken l1 p1 refl)
    | no some_left ↦
        subst IsValid (ground arith) (finish-IsValid l1 p1 m some_left (v taken l1 p1 refl))
  ]

  -- send keeps the invariant, whatever it returns.
  pub send-IsValid :
      (l : Lb) (p : P) (m : M) (sent : Bool) (l' : Lb) (p' : P)
      → IsValid l
      → send ps l p m ≡ some (sent, l', p')
      → IsValid l'
  unfolding send
  send-IsValid l p m sent l' p' v h = elim (Bool-cases l.dropping) [
    | inl dropping ↦
        let kept : IsValid (record l { more = ps.has_more m; dropping = ps.has_more m }) = record {
          wf = v.wf;
          within = v.within;
          in_turn = v.in_turn;
        } in
        subst IsValid (ground arith) kept
    | inr sending ↦
        after_loop-IsValid m (send_loop ps l.active l p m) sent l' p'
          (λ taken l1 p1 e. send_loop-IsValid l.active l p m taken l1 p1 refl v e) (ground arith)
  ]

  has_out_loop-IsValid :
      (n : ℕ) (l : Lb) (p : P) → l.active ≡ n → IsValid l → IsValid (has_out_loop ps n l p).1
  unfolding has_out_loop
  has_out_loop-IsValid zero l p e v = v
  has_out_loop-IsValid (suc n) l p e v = elim (Bool-cases (ps.check_write p (target l)).0) [
    | inl room ↦ rw room v
    | inr full ↦ rw full (
        has_out_loop-IsValid n (deactivate l n) (ps.check_write p (target l)).1 refl
          (deactivate-IsValid l n e v))
  ]

  pub has_out-IsValid : (l : Lb) (p : P) → IsValid l → IsValid (has_out ps l p).1
  unfolding has_out
  has_out-IsValid l p v = elim (Bool-cases l.more) [
    | inl mid ↦ subst (λ r. IsValid r) (ground arith) v
    | inr start ↦ subst (λ r. IsValid r) (ground arith) (has_out_loop-IsValid l.active l p refl v)
  ]
