-- ===== src/Pipe/Flow/Calling.antt =====
-- What each outcome does to the sleep of the readers: the end's own, and the other end's.
use cctas.Base.{
  ℕ, zero, suc, ◌+◌, ◌%◌, ◌^◌, ◌≤◌, ◌==◌, ◌≡◌, ◌⊎◌, refl, sym, ap, ◌∙◌, subst, ltb, Bool, true,
  false, not, ◌&&◌, ◌||◌, Option, none, some, List, [], ◌∷◌, ◌++◌, if◌then◌else◌, arith, Bool-cases,
  Option-cases, inl, inr, length,
}
use cctas.Ypipe.{Ypipe, is_at, is_null, back}
use cctas.Ypipe as Queue
use cctas.Ypipe.Wf.{
  IsWf, write-IsWf, flush-IsWf, unwrite-IsWf, check_read-IsWf, check_read_lem, read_lem,
}
use cctas.Pipe.{
  Pipe, Parts, Command, activate_read, activate_write, hiccup_to, pipe_term, pipe_term_ack, send,
}
use cctas.Pipe.Reading.{count_read}
use cctas.Pipe.Writing.{unwrite_all}
use cctas.Pipe.Flow.Counting.{check_read_items}
use cctas.Pipe.Flow.Outcomes.{
  Outcome, written, stays, wrote, filled, flushed, called, rolled, missed, got, emptied, probes,
}

module _ {M : Type 0} where
  -- activate_read is among some commands.
  abbrev pub Called : List (Command M) → Type 0
  Called [] = ⊥
  Called (activate_read ∷ cs) = Unit
  Called (activate_write n ∷ cs) = Called cs
  Called (hiccup_to q ∷ cs) = Called cs
  Called (pipe_term ∷ cs) = Called cs
  Called (pipe_term_ack ∷ cs) = Called cs

  pub Called-append : (xs ys : List (Command M)) → Called xs ⊎ Called ys → Called (xs ++ ys)
  Called-append [] ys (inl h) = absurd h
  Called-append [] ys (inr h) = h
  Called-append (activate_read ∷ xs) ys h = tt
  Called-append (activate_write n ∷ xs) ys h = Called-append xs ys h
  Called-append (hiccup_to q ∷ xs) ys h = Called-append xs ys h
  Called-append (pipe_term ∷ xs) ys h = Called-append xs ys h
  Called-append (pipe_term_ack ∷ xs) ys h = Called-append xs ys h

  -- A writer whose reader sleeps leaves it asleep or calls it; a reader falls asleep only with the
  -- pointer c at NULL.
  pub record Wakens (p p' : Pipe M) : Type 0 where
    pub out_wf : IsWf p.outq → IsWf p'.outq
    pub calls : IsWf p.outq → p.outq.c ≡ none → (p'.outq.c ≡ none) ⊎ Called p'.sent
    pub in_wf : IsWf p.inq → IsWf p'.inq
    pub sleeps :
        IsWf p.inq
        → p'.in_active ≡ false
        → ((p.in_active ≡ false) × (p'.inq ≡ p.inq)) ⊎ (p'.inq.c ≡ none)

  pub out_Wakens :
      (p p' : Pipe M)
      → (IsWf p.outq → IsWf p'.outq)
      → (IsWf p.outq → p.outq.c ≡ none → (p'.outq.c ≡ none) ⊎ Called p'.sent)
      → p'.inq ≡ p.inq
      → p'.in_active ≡ p.in_active
      → Wakens p p'
  out_Wakens p p' wf calls same act = record {
    out_wf = wf;
    calls = calls;
    in_wf = λ v. subst IsWf (sym same) v;
    sleeps = λ v h. inl (sym act ∙ h, same);
  }

  pub in_Wakens :
      (p p' : Pipe M)
      → p'.outq ≡ p.outq
      → (IsWf p.inq → IsWf p'.inq)
      → (IsWf p.inq
          → p'.in_active ≡ false
          → ((p.in_active ≡ false) × (p'.inq ≡ p.inq)) ⊎ (p'.inq.c ≡ none))
      → Wakens p p'
  in_Wakens p p' same wf sleeps = record {
    out_wf = λ v. subst IsWf (sym same) v;
    calls = λ v h. inl (ap (λ (q : Ypipe M). q.c) same ∙ h);
    in_wf = wf;
    sleeps = sleeps;
  }

  pub idle_Wakens : (p : Pipe M) → Wakens p p
  idle_Wakens p = out_Wakens p p (λ v. v) (λ v h. inl h) refl refl

  -- A reader that finds nothing leaves c at NULL.
  check_read_none : (q : Ypipe M) → (Queue.check_read q).0 ≡ false → (Queue.check_read q).1.c ≡ none
  unfolding Queue.check_read
  check_read_none q h = elim (Bool-cases (not (is_at q.r q.front) && not (is_null q.r))) [
    | inl ready ↦ absurd (cc (rw ready at h))
    | inr fetch ↦
        let nothing : not (is_at q.c q.front || is_null q.c) ≡ false = rw fetch at h in
        elim (Option-cases q.c) [
          | inl asleep ↦ rw (fetch, asleep) refl
          | inr (k, at_k) ↦ rw (fetch, at_k) (ground (arith, nothing, at_k))
        ]
  ]

  -- What is ready is in the items.
  some_left :
      (q : Ypipe M)
      → IsWf q
      → (Queue.check_read q).0 ≡ true
      → (l : List M) → (Queue.check_read q).1.items ≡ l
      → (Queue.pop (Queue.check_read q).1 l).0 ≡ none
      → 1 ≤ 0
  some_left q v ready [] e h =
      let empty : length q.items ≡ 0 = ap length (sym (check_read_items q) ∙ e) in
      omega (arith, v.f_back, v.w_f, (check_read_lem q v).0 ready, empty)
  some_left q v ready (x ∷ xs) e h = absurd (cc (h))

  read_none : (q : Ypipe M) → IsWf q → (Queue.read q).0 ≡ none → (Queue.read q).1.c ≡ none
  unfolding Queue.read
  read_none q v h = elim (Bool-cases (Queue.check_read q).0) [
    | inl ready ↦
        absurd
          (omega (arith, some_left q v ready (Queue.check_read q).1.items refl (rw ready at h)))
    | inr empty ↦ rw empty (check_read_none q empty)
  ]

  pub flush_calls :
      (q : Ypipe M) → q.c ≡ none → ((Queue.flush q).1.c ≡ none) ⊎ ((Queue.flush q).0 ≡ false)
  unfolding Queue.flush
  flush_calls q h = elim (Bool-cases (q.w == q.f)) [
    | inl same ↦ rw same (inl h)
    | inr more ↦ rw (more, h) (inr refl)
  ]

module _ {M : Type 0} (ms : Parts M) where
  -- What rollback leaves of the queue.
  abbrev Rolls : Ypipe M → Ypipe M → Type 0
  Rolls q q' = (IsWf q → IsWf q') × (q'.c ≡ q.c)

  unwrite_c : (q : Ypipe M) → (Queue.unwrite q).1.c ≡ q.c
  unfolding Queue.unwrite
  unwrite_c q = elim (Bool-cases (q.f == back q)) [ inl e ↦ rw e refl | inr n ↦ rw n refl ]

  kept_Rolls : (q q' : Ypipe M) → ◌≡◌ {A = Option (Ypipe M)} (some q) (some q') → Rolls q q'
  kept_Rolls q q' h = let same : q ≡ q' = cc (h) in subst (Rolls q) same ((λ v. v), refl)

  unwrite_all-Rolls : (n : ℕ) (q q' : Ypipe M) → unwrite_all ms n q ≡ some q' → Rolls q q'
  unfolding unwrite_all
  unwrite_all-Rolls zero q q' h = kept_Rolls q q' h
  unwrite_all-Rolls (suc n) q q' h = elim (Option-cases (Queue.unwrite q).0) [
    | inl nothing ↦ kept_Rolls q q' (rw (nothing, unwrite_all) at h)
    | inr (m, taken) ↦ elim (Bool-cases (ms.has_more m)) [
      | inl more ↦
          let (wf, c) =
            unwrite_all-Rolls n (Queue.unwrite q).1 q' (rw (taken, more, unwrite_all) at h) in
          ((λ v. wf (unwrite-IsWf q v)), c ∙ unwrite_c q)
      | inr last ↦ absurd (cc (rw (taken, last, unwrite_all) at h))
    ]
  ]

module _ {M : Type 0} where
  count_read_same :
      (more : Bool) (p : Pipe M)
      → ((count_read more p).inq ≡ p.inq)
        × ((count_read more p).outq ≡ p.outq)
        × ((count_read more p).in_active ≡ p.in_active)
  count_read_same more p = elim (Bool-cases (ltb 0 p.lwm)) [
    | inl bounded ↦
        elim (Bool-cases
          ((if more then p.msgs_read else (p.msgs_read + 1) % 2 ^ 64) % p.lwm == 0)) [
            | inl round ↦
                (simp (bounded, round) refl, simp (bounded, round) refl, simp (bounded, round) refl)
            | inr within ↦ (
              simp (bounded, within) refl,
              simp (bounded, within) refl,
              simp (bounded, within) refl,
            )
          ]
    | inr unbounded ↦ (simp unbounded refl, simp unbounded refl, simp unbounded refl)
  ]

  -- The reader's queue is q now, and the reader is as awake as it was before the act.
  awake_Wakens :
      (p p' : Pipe M) (q : Ypipe M)
      → p'.inq ≡ q
      → p'.outq ≡ p.outq
      → p'.in_active ≡ true
      → (IsWf p.inq → IsWf q)
      → Wakens p p'
  awake_Wakens p p' q same out act wf =
      in_Wakens p p' out (λ v. subst IsWf (sym same) (wf v)) (λ v h. absurd (cc (act, h)))

  -- The reader found nothing in its queue, which is q now.
  slept_Wakens :
      (p : Pipe M) (q : Ypipe M)
      → (IsWf p.inq → IsWf q)
      → (IsWf p.inq → q.c ≡ none)
      → Wakens p (record p { inq = q; in_active = false })
  slept_Wakens p q wf c =
      in_Wakens p (record p { inq = q; in_active = false }) refl wf (λ v h. inr (c v))

  probe-IsWf : (fn : M → Bool) (q : Ypipe M) → IsWf q → IsWf (Queue.probe fn q).1
  unfolding Queue.probe
  probe-IsWf fn q v = check_read-IsWf q v

module _ {M : Type 0} (ms : Parts M) (p : Pipe M) where
  got_Wakens :
      (m : M)
      → p.in_active ≡ true
      → Wakens p (count_read (ms.has_more m) (record p { inq = (Queue.read p.inq).1 }))
  got_Wakens m act =
      let p1 : Pipe M = record p { inq = (Queue.read p.inq).1 } in
      let (in_, out, awake) = count_read_same (ms.has_more m) p1 in
      awake_Wakens p (count_read (ms.has_more m) p1) (Queue.read p.inq).1 in_ out (awake ∙ act)
        (λ v. (read_lem p.inq v).0)

  pub Outcome-Wakens : (p' : Pipe M) → Outcome ms p p' → Wakens p p'
  unfolding Queue.write
  Outcome-Wakens p' stays = idle_Wakens p
  Outcome-Wakens p' (wrote m wide room) =
      out_Wakens p (written ms m p) (write-IsWf p.outq m (ms.has_more m)) (λ v h. inl h) refl refl
  Outcome-Wakens p' (filled h) =
      out_Wakens p (record p { out_active = false }) (λ v. v) (λ v h. inl h) refl refl
  Outcome-Wakens p' (flushed awake) =
      out_Wakens p (record p { outq = (Queue.flush p.outq).1 }) (flush-IsWf p.outq)
        (λ v h. elim (flush_calls p.outq h) [
          | inl still ↦ inl still
          | inr slept ↦ absurd (cc (awake, slept))
        ])
        refl refl
  Outcome-Wakens p' (called asleep) =
      out_Wakens p (send activate_read (record p { outq = (Queue.flush p.outq).1 }))
        (flush-IsWf p.outq) (λ v h. inr (Called-append p.sent (activate_read ∷ []) (inr tt))) refl
        refl
  Outcome-Wakens p' (rolled q e) =
      let (wf, c) = unwrite_all-Rolls ms (suc (length p.outq.items)) p.outq q e in
      out_Wakens p (record p { outq = q }) wf (λ v h. inl (c ∙ h)) refl refl
  Outcome-Wakens p' (missed at) =
      slept_Wakens p (Queue.read p.inq).1 (λ v. (read_lem p.inq v).0) (λ v. read_none p.inq v at)
  Outcome-Wakens p' (got m act at) = got_Wakens m act
  Outcome-Wakens p' (emptied h) =
      slept_Wakens p (Queue.check_read p.inq).1 (check_read-IsWf p.inq)
        (λ v. check_read_none p.inq h)
  Outcome-Wakens p' (probes act) =
      let q : Ypipe M = (Queue.probe ms.is_delimiter (Queue.check_read p.inq).1).1 in
      awake_Wakens p (record p { inq = q }) q refl refl act
        (λ v. probe-IsWf ms.is_delimiter (Queue.check_read p.inq).1 (check_read-IsWf p.inq v))
