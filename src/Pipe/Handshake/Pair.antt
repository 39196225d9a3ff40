-- ===== src/Pipe/Handshake/Pair.antt =====
-- Two ends of a pipe that exchange their commands; every end takes the other's in their order.
use cctas.Base.{
  ℕ, ◌≡◌, refl, sym, ap, subst, ◌∙◌, Bool, true, Option, some, List, [], ◌∷◌, ◌++◌, append-nil,
  append_assoc,
}
use cctas.Ypipe.{Ypipe}
use cctas.Pipe.{Pipe, Parts, pipe}
use cctas.Pipe.Reading.{check_read, read, process_activate_read, hiccup}
use cctas.Pipe.Writing.{write, flush, rollback, process_activate_write}
use cctas.Pipe.Closing.{process_hiccup, terminate}
use cctas.Pipe.Handshake.{Word, words, spoken, heard}
use cctas.Pipe.Handshake.Moves.{Moves, MovesIf}
use cctas.Pipe.Handshake.Quiet.{
  Quiet-Moves, flush-Quiet, process_activate_read-Quiet, process_activate_write-Quiet, hiccup-Quiet,
  write-Quiet, process_hiccup-MovesIf, read-AnswersIf, check_read-AnswersIf, AnswersIf,
}
use cctas.Pipe.Handshake.Ending.{rollback-MovesIf, terminate-MovesIf}
use cctas.Pipe.Handshake.Accepts.{accept, process, process_runs, process-MovesIf}

-- The two ends, and the handshake words that each has taken from the other.
pub record Pair (M : Type 0) : Type 0 where
  pub here : Pipe M
  pub there : Pipe M
  pub took_here : List Word
  pub took_there : List Word

module _ {M : Type 0} (ms : Parts M) where
  -- What an end does by itself, for its socket, or for another command. The last one is what the
  -- peer does to the two queues.
  pub data Act (p : Pipe M) : Pipe M → Type 0 where
    reads : (o : Option M) (p' : Pipe M) → read ms p ≡ some (o, p') → Act p p'
    checks : (b : Bool) (p' : Pipe M) → check_read ms p ≡ some (b, p') → Act p p'
    writes : (m : M) → Act p (write ms m p).1
    flushes : Act p (flush p)
    rolls_back : (p' : Pipe M) → rollback ms p ≡ some p' → Act p p'
    hiccups : Act p (hiccup p)
    terminates : (delay : Bool) (p' : Pipe M) → terminate ms delay p ≡ some p' → Act p p'
    activates_read : Act p (process_activate_read p)
    activates_write : (n : ℕ) → Act p (process_activate_write n p)
    takes_hiccup : (q : Ypipe M) (p' : Pipe M) → process_hiccup q p ≡ some p' → Act p p'
    shares : (q q' : Ypipe M) → Act p (record p { inq = q; outq = q' })

  -- One step: an end that was not deleted acts, or takes the next word; or the view turns.
  pub data Step (s : Pair M) : Pair M → Type 0 where
    acts : (p' : Pipe M) → s.here.alive ≡ true → Act s.here p' → Step s (record s { here = p' })
    takes :
        (w : Word) (rest : List Word) (p' : Pipe M)
        → words s.there.sent ≡ s.took_here ++ (w ∷ rest)
        → process w s.here ≡ some p'
        → Step s (record s { here = p'; took_here = s.took_here ++ (w ∷ []) })
    turns : Step s (record {
      here = s.there;
      there = s.here;
      took_here = s.took_there;
      took_there = s.took_here;
    })

  pub data Reachable : Pair M → Type 0 where
    fresh :
        (hwm hwm' : ℕ) (delay delay' : Bool)
        → Reachable (record {
          here = pipe hwm' hwm delay;
          there = pipe hwm hwm' delay';
          took_here = [];
          took_there = [];
        })
    steps : {s s' : Pair M} → Reachable s → Step s s' → Reachable s'

  Act-Moves : {p p' : Pipe M} → Act p p' → p.alive ≡ true → Moves p [] p'
  Act-Moves (reads o p' e) live = subst (AnswersIf _) e (read-AnswersIf ms _ live)
  Act-Moves (checks b p' e) live = subst (AnswersIf _) e (check_read-AnswersIf ms _ live)
  Act-Moves (writes m) live = Quiet-Moves _ _ (write-Quiet ms m _)
  Act-Moves flushes live = Quiet-Moves _ _ (flush-Quiet _)
  Act-Moves (rolls_back p' e) live = subst (MovesIf _ []) e (rollback-MovesIf ms _)
  Act-Moves hiccups live = Quiet-Moves _ _ (hiccup-Quiet _)
  Act-Moves (terminates delay p' e) live =
      subst (MovesIf _ []) e (terminate-MovesIf ms delay _ live)
  Act-Moves activates_read live = Quiet-Moves _ _ (process_activate_read-Quiet _)
  Act-Moves (activates_write n) live = Quiet-Moves _ _ (process_activate_write-Quiet n _)
  Act-Moves (takes_hiccup q p' e) live = subst (MovesIf _ []) e (process_hiccup-MovesIf q _)
  Act-Moves (shares q q') live =
      Quiet-Moves _ _ (record { state = refl; alive = refl; sent = refl })

  -- Each end has said what its state says, has taken what its state has heard, and that is a front
  -- part of what the other end has said.
  record IsSound (s : Pair M) : Type 0 where
    here_said : words s.here.sent ≡ spoken s.here.state s.here.alive
    there_said : words s.there.sent ≡ spoken s.there.state s.there.alive
    here_took : s.took_here ≡ heard s.here.state s.here.alive
    there_took : s.took_there ≡ heard s.there.state s.there.alive
    here_front : (r : List Word) × (words s.there.sent ≡ s.took_here ++ r)
    there_front : (r : List Word) × (words s.here.sent ≡ s.took_there ++ r)

  moved-IsSound :
      (s : Pair M) (ws : List Word) (p' : Pipe M)
      → IsSound s
      → ((r : List Word) × (words s.there.sent ≡ (s.took_here ++ ws) ++ r))
      → Moves s.here ws p'
      → IsSound (record s { here = p'; took_here = s.took_here ++ ws })
  moved-IsSound s ws p' v front m = record {
    here_said = m.says ∙ ap (λ l. l ++ m.more) v.here_said ∙ sym m.speaks;
    there_said = v.there_said;
    here_took = ap (λ l. l ++ ws) v.here_took ∙ sym m.hears;
    there_took = v.there_took;
    here_front = front;
    there_front = (
      v.there_front.0 ++ m.more,
      m.says
          ∙ ap (λ l. l ++ m.more) v.there_front.1
          ∙ append_assoc s.took_there v.there_front.0 m.more,
    );
  }

  -- The next word for an end finds it alive, and can be taken.
  next_word :
      (s : Pair M) (w : Word) (rest : List Word)
      → IsSound s
      → words s.there.sent ≡ s.took_here ++ (w ∷ rest)
      → (s.here.alive ≡ true) × ((p' : Pipe M) × (process w s.here ≡ some p'))
  next_word s w rest v e =
      let (live, ok) =
        accept s.here.state s.here.alive s.there.state s.there.alive w rest v.there_front.0
          (sym v.there_said ∙ e ∙ ap (λ l. l ++ (w ∷ rest)) v.here_took)
          (sym v.here_said ∙ v.there_front.1 ∙ ap (λ l. l ++ v.there_front.0) v.there_took) in
      (live, process_runs w s.here ok)

  step-IsSound : {s s' : Pair M} → Step s s' → IsSound s → IsSound s'
  step-IsSound {s = s} (acts p' live a) v =
      subst (λ l. IsSound (record s { here = p'; took_here = l })) (append-nil s.took_here)
        (moved-IsSound s [] p' v
          (
            v.here_front.0,
            v.here_front.1 ∙ ap (λ l. l ++ v.here_front.0) (sym (append-nil s.took_here)),
          )
          (Act-Moves a live))
  step-IsSound {s = s} (takes w rest p' e run) v =
      let (live, _) = next_word s w rest v e in
      moved-IsSound s (w ∷ []) p' v (rest, e ∙ sym (append_assoc s.took_here (w ∷ []) rest))
        (subst (MovesIf s.here (w ∷ [])) run (process-MovesIf w s.here live))
  step-IsSound turns v = record {
    here_said = v.there_said;
    there_said = v.here_said;
    here_took = v.there_took;
    there_took = v.here_took;
    here_front = v.there_front;
    there_front = v.here_front;
  }

  Reachable-IsSound : {s : Pair M} → Reachable s → IsSound s
  unfolding pipe
  Reachable-IsSound (fresh hwm hwm' delay delay') = record {
    here_said = refl;
    there_said = refl;
    here_took = refl;
    there_took = refl;
    here_front = ([], refl);
    there_front = ([], refl);
  }
  Reachable-IsSound (steps r st) = step-IsSound st (Reachable-IsSound r)

  -- However two ends act and take each other's commands, the next pipe_term or pipe_term_ack for an
  -- end finds it not yet deleted, and its handler fails no assertion.
  pub process-Reachable :
      (s : Pair M) (w : Word) (rest : List Word)
      → Reachable s
      → words s.there.sent ≡ s.took_here ++ (w ∷ rest)
      → (s.here.alive ≡ true) × ((p' : Pipe M) × (process w s.here ≡ some p'))
  process-Reachable s w rest r e = next_word s w rest (Reachable-IsSound r) e
