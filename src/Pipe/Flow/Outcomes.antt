-- ===== src/Pipe/Flow/Outcomes.antt =====
-- What an end can be after an act that leaves it active, one case for each way through the code.
use cctas.Base.{
  suc, ◌+◌, ◌%◌, ◌^◌, ◌<◌, ◌==◌, ◌≡◌, ◌≢◌, refl, sym, ap, ◌∙◌, subst, ltb, Bool, true, false, not,
  ◌&&◌, ◌||◌, Option, none, some, if◌then◌else◌, Bool-cases, Option-cases, inl, inr, length,
}
use cctas.Ypipe.{Ypipe}
use cctas.Ypipe as Queue
use cctas.Pipe.{
  Pipe, Parts, Status, active, delimited, pending, terminating, terminated, double_terminated,
  is_active, is_open, send, give_up_out, activate_read,
}
use cctas.Pipe.Reading.{check_read, read, delimit, delimit_in, refused, probed, count_read}
use cctas.Pipe.Writing.{
  in_flight, check_write, write, flush, rollback, unwrite_all, with_outq, is_terminating,
}
use cctas.Pipe.Flow.{Act, reads, checks, writes, flushes, rolls_back}

is_awake : (a o : Bool) → (not a || not o) ≡ false → a ≡ true
is_awake true o h = refl
is_awake false o h = cc (h)

module _ {M : Type 0} where
  -- A delimiter that is taken ends the active state.
  delimited_in :
      {A : Type 0} (a a' : A) (p p' : Pipe M) (st : Status)
      → refused a (delimit_in st p) ≡ some (a', p')
      → p'.state ≢ active
  delimited_in a a' p p' active h k =
      let e : record p { state = delimited } ≡ p' = cc (h) in
      let e' : delimited ≡ p'.state = ap (λ (x : Pipe M). x.state) e in cc (e', k)
  delimited_in a a' p p' delimited h k = cc (h)
  delimited_in a a' p p' pending h k =
      let e : record (give_up_out p) { state = terminating } ≡ p' = cc (h) in
      let e' : terminating ≡ p'.state = ap (λ (x : Pipe M). x.state) e in cc (e', k)
  delimited_in a a' p p' terminating h k = cc (h)
  delimited_in a a' p p' terminated h k = cc (h)
  delimited_in a a' p p' double_terminated h k = cc (h)

  delimited_ends :
      {A : Type 0} (a a' : A) (p p' : Pipe M)
      → refused a (delimit p) ≡ some (a', p')
      → p'.state ≢ active
  unfolding delimit
  delimited_ends a a' p p' h = delimited_in a a' p p' p.state h

module _ {M : Type 0} (ms : Parts M) where
  -- the end behind a message that was written
  abbrev pub written : M → Pipe M → Pipe M
  written m p = record p {
    outq = Queue.write p.outq m (ms.has_more m);
    msgs_written = if ms.has_more m then p.msgs_written else (p.msgs_written + 1) % 2 ^ 64;
  }

  pub data Outcome (p : Pipe M) : Pipe M → Type 0 where
    stays : Outcome p p
    wrote :
        (m : M) → p.msgs_written + 1 < 2 ^ 64 → (check_write p).0 ≡ true → Outcome p (written m p)
    filled : (check_write p).0 ≡ false → Outcome p (record p { out_active = false })
    flushed : (Queue.flush p.outq).0 ≡ true → Outcome p (record p { outq = (Queue.flush p.outq).1 })
    called :
        (Queue.flush p.outq).0 ≡ false
        → Outcome p (send activate_read (record p { outq = (Queue.flush p.outq).1 }))
    rolled :
        (q : Ypipe M)
        → unwrite_all ms (suc (length p.outq.items)) p.outq ≡ some q
        → Outcome p (record p { outq = q })
    missed :
        (Queue.read p.inq).0 ≡ none
        → Outcome p (record p { inq = (Queue.read p.inq).1; in_active = false })
    got :
        (m : M)
        → p.in_active ≡ true
        → (Queue.read p.inq).0 ≡ some m
        → Outcome p (count_read (ms.has_more m) (record p { inq = (Queue.read p.inq).1 }))
    emptied :
        (Queue.check_read p.inq).0 ≡ false
        → Outcome p (record p { inq = (Queue.check_read p.inq).1; in_active = false })
    probes :
        p.in_active ≡ true
        → Outcome p (record p { inq = (Queue.probe ms.is_delimiter (Queue.check_read p.inq).1).1 })

  becomes : (p q p' : Pipe M) → Outcome p q → q ≡ p' → Outcome p p'
  becomes p q p' o same = subst (Outcome p) same o

  write-Outcome : (m : M) (p : Pipe M) → p.msgs_written + 1 < 2 ^ 64 → Outcome p (write ms m p).1
  unfolding write check_write
  write-Outcome m p wide = elim (Bool-cases (not p.out_active || not (is_active p.state))) [
    | inl stopped ↦ becomes p p (write ms m p).1 stays (rw stopped refl)
    | inr goes ↦ elim (Bool-cases (ltb 0 p.hwm && (in_flight p == p.hwm))) [
      | inl full ↦
          becomes p (record p { out_active = false }) (write ms m p).1
            (filled (rw (goes, full) refl)) (rw (goes, full) refl)
      | inr room ↦
          becomes p (written m p) (write ms m p).1 (wrote m wide (rw (goes, room) refl))
            (rw (goes, room) refl)
    ]
  ]

  flush-Outcome : (p : Pipe M) → Outcome p (flush p)
  unfolding flush
  flush-Outcome p =
      let p1 : Pipe M = record p { outq = (Queue.flush p.outq).1 } in
      elim (Bool-cases (is_terminating p.state)) [
        | inl ending ↦ becomes p p (flush p) stays (simp ending refl)
        | inr goes ↦ elim (Bool-cases p.has_out) [
          | inl has ↦ elim (Bool-cases (Queue.flush p.outq).0) [
            | inl awake ↦ becomes p p1 (flush p) (flushed awake) (simp (goes, has, awake) refl)
            | inr asleep ↦
                becomes p (send activate_read p1) (flush p) (called asleep)
                  (simp (goes, has, asleep) refl)
          ]
          | inr lost ↦ becomes p p (flush p) stays (simp (goes, lost) refl)
        ]
      ]

  rolled_back :
      (p p' : Pipe M) (o : Option (Ypipe M))
      → unwrite_all ms (suc (length p.outq.items)) p.outq ≡ o
      → with_outq ms p o ≡ some p'
      → Outcome p p'
  rolled_back p p' none e h = absurd (cc (h))
  rolled_back p p' (some q) e h = becomes p (record p { outq = q }) p' (rolled q e) (cc (h))

  rollback-Outcome : (p p' : Pipe M) → rollback ms p ≡ some p' → Outcome p p'
  unfolding rollback
  rollback-Outcome p p' h =
      let after : Option (Ypipe M) = unwrite_all ms (suc (length p.outq.items)) p.outq in
      elim (Bool-cases p.has_out) [
        | inl has ↦
            let e : rollback ms p ≡ with_outq ms p after = simp has refl in
            rolled_back p p' after refl (sym e ∙ h)
        | inr lost ↦
            let e : rollback ms p ≡ some p = simp lost refl in becomes p p p' stays (cc (sym e ∙ h))
      ]

  got-Outcome :
      (p p' : Pipe M) (o : Option M) (m : M)
      → p.in_active ≡ true
      → (Queue.read p.inq).0 ≡ some m
      → (if ms.is_delimiter m
          then refused none (delimit (record p { inq = (Queue.read p.inq).1 }))
          else some (some m, count_read (ms.has_more m) (record p { inq = (Queue.read p.inq).1 })))
        ≡ some (o, p')
      → p'.state ≡ active
      → Outcome p p'
  got-Outcome p p' o m act at h goes =
      let p1 : Pipe M = record p { inq = (Queue.read p.inq).1 } in
      elim (Bool-cases (ms.is_delimiter m)) [
        | inl ends ↦ absurd (delimited_ends none o p1 p' (rw ends at h) goes)
        | inr part ↦ becomes p (count_read (ms.has_more m) p1) p' (got m act at) (cc (rw part at h))
      ]

  read-Outcome :
      (p p' : Pipe M) (o : Option M) → read ms p ≡ some (o, p') → p'.state ≡ active → Outcome p p'
  unfolding read
  read-Outcome p p' o h goes = elim (Bool-cases (not p.in_active || not (is_open p.state))) [
    | inl stopped ↦ becomes p p p' stays (cc (rw stopped at h))
    | inr open_ ↦ elim (Option-cases (Queue.read p.inq).0) [
      | inl at ↦
          becomes p (record p { inq = (Queue.read p.inq).1; in_active = false }) p' (missed at)
            (cc (rw (open_, at) at h))
      | inr (m, at) ↦
          got-Outcome p p' o m (is_awake p.in_active (is_open p.state) open_) at
            (rw (open_, at) at h) goes
    ]
  ]

  probed-Outcome :
      (p p' : Pipe M) (o : Option Bool) (q : Ypipe M) (b : Bool)
      → Outcome p (record p { inq = q })
      → probed ms (o, q) p ≡ some (b, p')
      → p'.state ≡ active
      → Outcome p p'
  probed-Outcome p p' none q b out h goes = cc (h)
  probed-Outcome p p' (some false) q b out h goes = becomes p (record p { inq = q }) p' out (cc (h))
  probed-Outcome p p' (some true) q b out h goes = elim (Option-cases (Queue.read q).0) [
    | inl nothing ↦ cc (rw (nothing, probed) at h)
    | inr (m, at) ↦ absurd (
        delimited_ends false b (record p { inq = (Queue.read q).1 }) p' (rw (at, probed) at h) goes)
  ]

  check_read-Outcome :
      (p p' : Pipe M) (b : Bool) → check_read ms p ≡ some (b, p') → p'.state ≡ active → Outcome p p'
  unfolding check_read
  check_read-Outcome p p' b h goes =
      let q : Ypipe M = (Queue.check_read p.inq).1 in
      let r : Option Bool × Ypipe M = Queue.probe ms.is_delimiter q in
      elim (Bool-cases (not p.in_active || not (is_open p.state))) [
        | inl stopped ↦ becomes p p p' stays (cc (rw stopped at h))
        | inr open_ ↦ elim (Bool-cases (Queue.check_read p.inq).0) [
          | inl some_ ↦
              probed-Outcome p p' r.0 r.1 b (probes (is_awake p.in_active (is_open p.state) open_))
                (rw (open_, some_) at h) goes
          | inr none_ ↦
              becomes p (record p { inq = q; in_active = false }) p' (emptied none_)
                (cc (rw (open_, none_) at h))
        ]
      ]

  pub Act-Outcome : (p p' : Pipe M) → Act ms p p' → p'.state ≡ active → Outcome p p'
  Act-Outcome p p' (reads o p1 e) goes = read-Outcome p p' o e goes
  Act-Outcome p p' (checks b p1 e) goes = check_read-Outcome p p' b e goes
  Act-Outcome p p' (writes m wide) goes = write-Outcome m p wide
  Act-Outcome p p' flushes goes = flush-Outcome p
  Act-Outcome p p' (rolls_back p1 e) goes = rollback-Outcome p p' e
