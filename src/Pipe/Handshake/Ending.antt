-- ===== src/Pipe/Handshake/Ending.antt =====
-- terminate of pipe_t and the handshake.
use cctas.Base.{
  suc, ◌≡◌, sym, ap, subst, ◌∙◌, refl, Bool, true, false, Option, none, some, List, [], ◌∷◌, ◌++◌,
  append-nil, append_assoc, if◌then◌else◌, Bool-cases, inl, inr, arith, length,
}
use cctas.Ypipe.{Ypipe}
use cctas.Ypipe as Queue
use cctas.Pipe.{
  Pipe, Parts, Status, active, delimited, pending, terminating, terminated, double_terminated,
  pipe_term, pipe_term_ack,
}
use cctas.Pipe.Writing.{flush, rollback, with_outq, unwrite_all}
use cctas.Pipe.Closing.{close_in, stop_outbound, write_delimiter, terminate}
use cctas.Pipe.Handshake.{Word, term, ack, words, words-append, spoken, heard}
use cctas.Pipe.Handshake.Moves.{Moves, MovesIf}
use cctas.Pipe.Handshake.Quiet.{Quiet-Moves, Moves-quietly, flush-Quiet, before_MovesIf}

module _ {M : Type 0} where
  with_outq-MovesIf :
      (ms : Parts M) (p : Pipe M) (o : Option (Ypipe M)) → MovesIf p [] (with_outq ms p o)
  with_outq-MovesIf ms p none = tt
  with_outq-MovesIf ms p (some q) =
      Quiet-Moves p _ (record { state = refl; alive = refl; sent = refl })

  pub rollback-MovesIf : (ms : Parts M) (p : Pipe M) → MovesIf p [] (rollback ms p)
  unfolding rollback unwrite_all
  rollback-MovesIf ms p = elim (Bool-cases p.has_out) [
    | inl out ↦
        let o = with_outq ms p (unwrite_all ms (suc (length p.outq.items)) p.outq) in
        subst (MovesIf p []) (ap (λ b. if b then o else some p) (sym out))
          (with_outq-MovesIf ms p (unwrite_all ms (suc (length p.outq.items)) p.outq))
    | inr gone ↦
        let o = with_outq ms p (unwrite_all ms (suc (length p.outq.items)) p.outq) in
        subst (MovesIf p []) (ap (λ b. if b then o else some p) (sym gone))
          (Quiet-Moves p p (record { state = refl; alive = refl; sent = refl }))
  ]

  -- A move, and a handler that hears nothing behind it.
  then_MovesIf :
      (p p1 : Pipe M) (ws : List Word) (o : Option (Pipe M))
      → Moves p ws p1
      → MovesIf p1 [] o
      → MovesIf p ws o
  then_MovesIf p p1 ws none m n = tt
  then_MovesIf p p1 ws (some p') m n = record {
    more = m.more ++ n.more;
    says = n.says ∙ ap (λ l. l ++ n.more) m.says ∙ append_assoc (words p.sent) m.more n.more;
    speaks =
        n.speaks
        ∙ ap (λ l. l ++ n.more) m.speaks
        ∙ append_assoc (spoken p.state p.alive) m.more n.more;
    hears = n.hears ∙ append-nil (heard p1.state p1.alive) ∙ m.hears;
  }

  write_delimiter-MovesIf :
      (ms : Parts M) (p : Pipe M) (o : Option (Pipe M))
      → MovesIf p [] o
      → MovesIf p [] (write_delimiter ms o)
  write_delimiter-MovesIf ms p none m = tt
  write_delimiter-MovesIf ms p (some p1) m =
      let p2 = record p1 { outq = Queue.write p1.outq ms.delimiter false } in
      let flushed = flush-Quiet p2 in
      Moves-quietly p p1 (flush p2) [] m
        (record { state = flushed.state; alive = flushed.alive; sent = flushed.sent })

  stop_outbound-MovesIf : (ms : Parts M) (p : Pipe M) → MovesIf p [] (stop_outbound ms p)
  stop_outbound-MovesIf ms p = elim (Bool-cases p.has_out) [
    | inl out ↦
        subst (MovesIf p [])
          (ap (λ b. if b then write_delimiter ms (rollback ms p) else some p) (sym out))
          (write_delimiter-MovesIf ms p (rollback ms p) (rollback-MovesIf ms p))
    | inr gone ↦
        subst (MovesIf p [])
          (ap (λ b. if b then write_delimiter ms (rollback ms p) else some p) (sym gone))
          (Quiet-Moves p p (record { state = refl; alive = refl; sent = refl }))
  ]

  -- Stopping the outbound flow behind a change of state.
  stopped-MovesIf :
      (ms : Parts M) (p p1 : Pipe M)
      → Moves p [] p1
      → MovesIf p [] (stop_outbound ms (record p1 { out_active = false }))
  stopped-MovesIf ms p p1 m =
      let p2 = record p1 { out_active = false } in
      then_MovesIf p p2 [] (stop_outbound ms p2)
        (Moves-quietly p p1 p2 [] m (record { state = refl; alive = refl; sent = refl }))
        (stop_outbound-MovesIf ms p2)

  -- terminate, by what it makes of the state.
  ended : (ms : Parts M) → Bool → Pipe M → Option (Pipe M) → Option (Pipe M)
  ended ms delay p o = elim o [
    | none ↦ some (record p { delay = delay })
    | some p1 ↦ stop_outbound ms (record p1 { out_active = false })
  ]

  ended-MovesIf :
      (ms : Parts M) (delay : Bool) (p : Pipe M) (o : Option (Pipe M))
      → MovesIf p [] o
      → MovesIf p [] (ended ms delay p o)
  unfolding ended
  ended-MovesIf ms delay p none m =
      Quiet-Moves p _ (record { state = refl; alive = refl; sent = refl })
  ended-MovesIf ms delay p (some p1) m = stopped-MovesIf ms p p1 m

  close_in-MovesIf :
      (s : Status) (p : Pipe M) → p.state ≡ s → p.alive ≡ true → MovesIf p [] (close_in s p)
  close_in-MovesIf terminated p e live = tt
  close_in-MovesIf double_terminated p e live = tt
  close_in-MovesIf terminating p e live = tt
  close_in-MovesIf active p e live = record {
    more = term ∷ [];
    says = words-append p.sent (pipe_term ∷ []);
    speaks = ground (arith, e, live);
    hears = ground (arith, e, live);
  }
  close_in-MovesIf delimited p e live = record {
    more = term ∷ [];
    says = words-append p.sent (pipe_term ∷ []);
    speaks = ground (arith, e, live);
    hears = ground (arith, e, live);
  }
  close_in-MovesIf pending p e live = elim (Bool-cases p.delay) [
    | inl late ↦ rw late (record {
      more = [];
      says = sym (append-nil (words p.sent));
      speaks = sym (append-nil (spoken p.state p.alive));
      hears = sym (append-nil (heard p.state p.alive));
    })
    | inr now ↦ rw now (record {
      more = ack ∷ [];
      says = words-append p.sent (pipe_term_ack ∷ []);
      speaks = ground (arith, e, live);
      hears = ground (arith, e, live);
    })
  ]

  pub terminate-MovesIf :
      (ms : Parts M) (delay : Bool) (p : Pipe M)
      → p.alive ≡ true
      → MovesIf p [] (terminate ms delay p)
  unfolding terminate ended
  terminate-MovesIf ms delay p live =
      let p1 = record p { delay = delay } in
      ended-MovesIf ms delay p (close_in p.state p1) (
        before_MovesIf p p1 [] (close_in p.state p1) refl refl refl
          (close_in-MovesIf p.state p1 refl live))
