-- ===== src/Pipe/Handshake/Quiet.antt =====
-- The handlers of pipe_t that leave the handshake alone, and the reader's, which may go on with it.
use cctas.Base.{
  ℕ, ◌≡◌, sym, ap, subst, ◌∙◌, refl, ◌==◌, ◌+◌, ◌%◌, ◌^◌, ltb, Bool, true, false, not, ◌&&◌, ◌||◌,
  Option, none, some, List, [], ◌∷◌, ◌++◌, append-nil, if◌then◌else◌, Bool-cases, Option-cases, inl,
  inr, arith,
}
use cctas.Ypipe.{Ypipe}
use cctas.Ypipe as Queue
use cctas.Pipe.{
  Pipe, Parts, is_active, is_open, Command, activate_read, activate_write, hiccup_to, send, tell,
  hiccuped,
}
use cctas.Pipe.Reading.{
  delimit, delimit_in, refused, probed, check_read, read, process_activate_read, hiccup, count_read,
}
use cctas.Pipe.Writing.{check_write, write, flush, is_terminating, process_activate_write}
use cctas.Pipe.Closing.{process_hiccup}
use cctas.Pipe.Handshake.{Word, words, words-append, spoken, heard}
use cctas.Pipe.Handshake.Moves.{Moves, MovesIf, delimit_in-Moves}

-- Nothing that the handshake depends on has changed.
pub record Quiet {M : Type 0} (p p' : Pipe M) : Type 0 where
  pub state : p'.state ≡ p.state
  pub alive : p'.alive ≡ p.alive
  pub sent : words p'.sent ≡ words p.sent

module _ {M : Type 0} where
  pub Quiet-Moves : (p p' : Pipe M) → Quiet p p' → Moves p [] p'
  Quiet-Moves p p' q = record {
    more = [];
    says = q.sent ∙ sym (append-nil (words p.sent));
    speaks = rw (q.state, q.alive) (sym (append-nil (spoken p.state p.alive)));
    hears = rw (q.state, q.alive) (sym (append-nil (heard p.state p.alive)));
  }

  -- Quiet changes behind a move.
  pub Moves-quietly :
      (p p1 p' : Pipe M) (ws : List Word) → Moves p ws p1 → Quiet p1 p' → Moves p ws p'
  Moves-quietly p p1 p' ws m q = record {
    more = m.more;
    says = q.sent ∙ m.says;
    speaks = rw (q.state, q.alive) m.speaks;
    hears = rw (q.state, q.alive) m.hears;
  }

  silent : (c : Command M) (p : Pipe M) → words (c ∷ []) ≡ [] → words (send c p).sent ≡ words p.sent
  silent c p e =
      words-append p.sent (c ∷ []) ∙ ap (λ l. words p.sent ++ l) e ∙ append-nil (words p.sent)

  pub flush-Quiet : (p : Pipe M) → Quiet p (flush p)
  unfolding flush
  flush-Quiet p = elim (Bool-cases (is_terminating p.state)) [
    | inl over ↦ rw over (record { state = refl; alive = refl; sent = refl })
    | inr on ↦ elim (Bool-cases p.has_out) [
      | inl out ↦ elim (Bool-cases (Queue.flush p.outq).0) [
        | inl awake ↦ rw (on, out, awake) (record { state = refl; alive = refl; sent = refl })
        | inr asleep ↦
            rw (on, out, asleep)
              (record { state = refl; alive = refl; sent = silent activate_read p refl })
      ]
      | inr gone ↦ rw (on, gone) (record { state = refl; alive = refl; sent = refl })
    ]
  ]

  pub process_activate_read-Quiet : (p : Pipe M) → Quiet p (process_activate_read p)
  unfolding process_activate_read
  process_activate_read-Quiet p = elim (Bool-cases (not p.in_active && is_open p.state)) [
    | inl wakes ↦ rw wakes (record { state = refl; alive = refl; sent = refl })
    | inr keeps ↦ rw keeps (record { state = refl; alive = refl; sent = refl })
  ]

  pub process_activate_write-Quiet : (n : ℕ) (p : Pipe M) → Quiet p (process_activate_write n p)
  unfolding process_activate_write
  process_activate_write-Quiet n p = elim (Bool-cases (not p.out_active && is_active p.state)) [
    | inl wakes ↦ rw wakes (record { state = refl; alive = refl; sent = refl })
    | inr keeps ↦ rw keeps (record { state = refl; alive = refl; sent = refl })
  ]

  pub hiccup-Quiet : (p : Pipe M) → Quiet p (hiccup p)
  unfolding hiccup
  hiccup-Quiet p = elim (Bool-cases (is_active p.state)) [
    | inl on ↦
        rw on (record { state = refl; alive = refl; sent = silent (hiccup_to Queue.ypipe) p refl })
    | inr over ↦ rw over (record { state = refl; alive = refl; sent = refl })
  ]

  count_read-Quiet : (more : Bool) (p : Pipe M) → Quiet p (count_read more p)
  count_read-Quiet more p =
      let n = if more then p.msgs_read else (p.msgs_read + 1) % 2 ^ 64 in
      elim (Bool-cases (ltb 0 p.lwm)) [
        | inl bounded ↦ elim (Bool-cases (n % p.lwm == 0)) [
          | inl due ↦
              rw (bounded, due)
                (record { state = refl; alive = refl; sent = silent (activate_write n) p refl })
          | inr not_due ↦ rw (bounded, not_due) (record { state = refl; alive = refl; sent = refl })
        ]
        | inr unbounded ↦ rw unbounded (record { state = refl; alive = refl; sent = refl })
      ]

  check_write-Quiet : (p : Pipe M) → Quiet p (check_write p).1
  unfolding check_write
  check_write-Quiet p = record { state = ground arith; alive = ground arith; sent = ground arith }

  pub write-Quiet : (ms : Parts M) (m : M) (p : Pipe M) → Quiet p (write ms m p).1
  unfolding write
  write-Quiet ms m p =
      let quiet = check_write-Quiet p in
      elim (Bool-cases (check_write p).0) [
        | inl room ↦
            rw room (record { state = quiet.state; alive = quiet.alive; sent = quiet.sent })
        | inr full ↦ rw full quiet
      ]

  told_Quiet :
      (b : Bool) (q : Ypipe M) (p : Pipe M)
      → let p1 = record p { outq = q; out_active = true } in
        Quiet p (if b then tell hiccuped p1 else p1)
  told_Quiet true q p = record { state = refl; alive = refl; sent = refl }
  told_Quiet false q p = record { state = refl; alive = refl; sent = refl }

  pub process_hiccup-MovesIf : (q : Ypipe M) (p : Pipe M) → MovesIf p [] (process_hiccup q p)
  unfolding process_hiccup
  process_hiccup-MovesIf q p =
      let p1 = record p { outq = q; out_active = true } in
      let p2 = if is_active p.state then tell hiccuped p1 else p1 in
      elim (Bool-cases p.has_out) [
        | inl out ↦
            subst (MovesIf p []) (ap (λ b. if b then some p2 else none) (sym out))
              (Quiet-Moves p p2 (told_Quiet (is_active p.state) q p))
        | inr gone ↦ subst (MovesIf p []) (ap (λ b. if b then some p2 else none) (sym gone)) tt
      ]

  -- Quiet changes before a handler that may fail.
  pub before_MovesIf :
      (p p1 : Pipe M) (ws : List Word) (o : Option (Pipe M))
      → p1.state ≡ p.state
      → p1.alive ≡ p.alive
      → words p1.sent ≡ words p.sent
      → MovesIf p1 ws o
      → MovesIf p ws o
  before_MovesIf p p1 ws none s a w m = tt
  before_MovesIf p p1 ws (some p') s a w m = record {
    more = m.more;
    says = m.says ∙ ap (λ l. l ++ m.more) w;
    speaks = m.speaks ∙ rw (s, a) refl;
    hears = m.hears ∙ rw (s, a) refl;
  }

  -- What read and check_read leave, beside their answer.
  abbrev pub AnswersIf : {A : Type 0} → Pipe M → Option (A × Pipe M) → Type 0
  AnswersIf p none = Unit
  AnswersIf p (some (a, p')) = Moves p [] p'

  refused-AnswersIf :
      {A : Type 0} (a : A) (p : Pipe M) (o : Option (Pipe M))
      → MovesIf p [] o
      → AnswersIf p (refused a o)
  refused-AnswersIf a p none m = tt
  refused-AnswersIf a p (some p') m = m

  delimit-AnswersIf :
      {A : Type 0} (a : A) (p : Pipe M) (q : Ypipe M)
      → p.alive ≡ true
      → AnswersIf p (refused a (delimit (record p { inq = q })))
  unfolding delimit
  delimit-AnswersIf a p q live =
      let p1 = record p { inq = q } in
      refused-AnswersIf a p (delimit_in p1.state p1) (
        before_MovesIf p p1 [] (delimit_in p1.state p1) refl refl refl
          (delimit_in-Moves p.state p1 refl live))

  pub read-AnswersIf : (ms : Parts M) (p : Pipe M) → p.alive ≡ true → AnswersIf p (read ms p)
  unfolding read
  read-AnswersIf ms p live = elim (Bool-cases (not p.in_active || not (is_open p.state))) [
    | inl stopped ↦
        rw stopped (Quiet-Moves p p (record { state = refl; alive = refl; sent = refl }))
    | inr goes ↦ elim (Option-cases (Queue.read p.inq).0) [
      | inl nothing ↦
          rw (goes, nothing) (Quiet-Moves p _ (record { state = refl; alive = refl; sent = refl }))
      | inr (m, got) ↦ elim (Bool-cases (ms.is_delimiter m)) [
        | inl last ↦ rw (goes, got, last) (delimit-AnswersIf none p (Queue.read p.inq).1 live)
        | inr message ↦
            let p1 = record p { inq = (Queue.read p.inq).1 } in
            let counted = count_read-Quiet (ms.has_more m) p1 in
            rw (goes, got, message)
              (Quiet-Moves p _
                (record { state = counted.state; alive = counted.alive; sent = counted.sent }))
      ]
    ]
  ]

  probed-AnswersIf :
      (ms : Parts M) (r : Option Bool × Ypipe M) (p : Pipe M)
      → p.alive ≡ true
      → AnswersIf p (probed ms r p)
  probed-AnswersIf ms (none, q) p live = tt
  probed-AnswersIf ms (some false, q) p live =
      Quiet-Moves p _ (record { state = refl; alive = refl; sent = refl })
  probed-AnswersIf ms (some true, q) p live = elim (Option-cases (Queue.read q).0) [
    | inl nothing ↦ rw (nothing, probed) tt
    | inr (m, got) ↦ rw (got, probed) (delimit-AnswersIf false p (Queue.read q).1 live)
  ]

  pub check_read-AnswersIf :
      (ms : Parts M) (p : Pipe M) → p.alive ≡ true → AnswersIf p (check_read ms p)
  unfolding check_read
  check_read-AnswersIf ms p live = elim (Bool-cases (not p.in_active || not (is_open p.state))) [
    | inl stopped ↦
        rw stopped (Quiet-Moves p p (record { state = refl; alive = refl; sent = refl }))
    | inr goes ↦ elim (Bool-cases (Queue.check_read p.inq).0) [
      | inl ready ↦
          rw (goes, ready)
            (probed-AnswersIf ms (Queue.probe ms.is_delimiter (Queue.check_read p.inq).1) p live)
      | inr empty ↦
          rw (goes, empty) (Quiet-Moves p _ (record { state = refl; alive = refl; sent = refl }))
    ]
  ]
