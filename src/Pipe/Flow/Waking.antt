-- ===== src/Pipe/Flow/Waking.antt =====
-- No lost call: a reader that sleeps while something is flushed for it has been called.
use cctas.Base.{
  ℕ, ◌≡◌, ◌⊎◌, refl, sym, ap, ◌∙◌, subst, Bool, true, false, none, some, List, [], ◌∷◌, ◌-◌, take,
  arith, Bool-cases, inl, inr,
}
use cctas.Ypipe.{Ypipe, ypipe}
use cctas.Ypipe.Wf.{IsWf, ypipe-IsWf, flushed}
use cctas.Pipe.{
  Pipe, Parts, active, is_open, pipe, pipepair, Command, activate_read, activate_write, hiccup_to,
  pipe_term, pipe_term_ack, tell, read_activated,
}
use cctas.Pipe.Reading.{process_activate_read}
use cctas.Pipe.Flow.{
  Link, Step, acts, takes, turns, Reachable, fresh, steps, posted, process_command,
}
use cctas.Pipe.Flow.Calling.{
  Called, Called-append, Wakens, in_Wakens, out_Wakens, idle_Wakens, Outcome-Wakens,
}
use cctas.Pipe.Flow.Ends.{Climbs}
use cctas.Pipe.Flow.Outcomes.{Act-Outcome}
use cctas.Pipe.Flow.Writer.{heard_of, activate_write_fields}
use cctas.Pipe.Flow.Invariant.{Flow, Flows, Reachable-Flows}

module _ {M : Type 0} (ms : Parts M) where
  -- One direction: the writer's queue, its reader, and the mail to the reader.
  pub record Wakes (q : Ypipe M) (r : Pipe M) (mail : List (Command M)) : Type 0 where
    pub same_queue : r.inq ≡ q
    pub wf : IsWf q
    pub asleep : r.in_active ≡ false → (q.c ≡ none) ⊎ Called mail

  -- Both directions.
  pub record Wake (s : Link M) : Type 0 where
    pub outward : Wakes s.here.outq s.there s.to_there
    pub inward : Wakes s.there.outq s.here s.to_here

  Wakens-Wake :
      (s : Link M) (p' : Pipe M) (rest : List (Command M))
      → Wake s
      → Wakens s.here p'
      → (p'.in_active ≡ false → Called s.to_here → Called rest)
      → Wake (record (posted ms s p') { to_here = rest })
  Wakens-Wake s p' rest w k left =
      let out = w.outward in
      let inn = w.inward in
      let wf_in : IsWf s.here.inq = subst IsWf (sym inn.same_queue) inn.wf in
      record {
        outward = record {
          same_queue = refl;
          wf = k.out_wf out.wf;
          asleep = λ h. elim (out.asleep h) [
            | inl null ↦ elim (k.calls out.wf null) [
              | inl still ↦ inl still
              | inr calls ↦ inr (Called-append s.to_there p'.sent (inr calls))
            ]
            | inr called ↦ inr (Called-append s.to_there p'.sent (inl called))
          ];
        };
        inward = record {
          same_queue = refl;
          wf = k.in_wf wf_in;
          asleep = λ h. elim (k.sleeps wf_in h) [
            | inl (before, same) ↦
                let c : p'.inq.c ≡ s.there.outq.c =
                  ap (λ (q : Ypipe M). q.c) (same ∙ inn.same_queue) in
                elim (inn.asleep before) [
                  | inl null ↦ inl (c ∙ null)
                  | inr called ↦ inr (left h called)
                ]
            | inr null ↦ inl null
          ];
        };
      }

  -- an end that has taken activate_read
  read_word :
      (p : Pipe M)
      → p.state ≡ active
      → Wakens p (process_activate_read p) × ((process_activate_read p).in_active ≡ true)
  unfolding process_activate_read
  read_word p goes =
      let live : is_open p.state ≡ true = ap is_open goes in
      elim (Bool-cases p.in_active) [
        | inl awake ↦
            let e : process_activate_read p ≡ p = simp awake refl in
            (subst (Wakens p) (sym e) (idle_Wakens p), ap (λ (q : Pipe M). q.in_active) e ∙ awake)
        | inr asleep ↦
            let p1 : Pipe M = tell read_activated (record p { in_active = true }) in
            let e : process_activate_read p ≡ p1 = simp (asleep, live) refl in
            (
              subst (Wakens p) (sym e) (in_Wakens p p1 refl (λ v. v) (λ v h. absurd (cc (h)))),
              ap (λ (q : Pipe M). q.in_active) e,
            )
      ]

  takes-Wake :
      (s : Link M) (c : Command M) (rest : List (Command M)) (p' : Pipe M)
      → Wake s
      → Flow ms s.here s.there s.to_here
      → s.to_here ≡ c ∷ rest
      → process_command ms c s.here ≡ some p'
      → Wake (record (posted ms s p') { to_here = rest })
  takes-Wake s activate_read rest p' w f at e =
      let (k, awake) = read_word s.here f.window.goes_on in
      let same : process_activate_read s.here ≡ p' = cc (e) in
      let up : p'.in_active ≡ true = ap (λ (q : Pipe M). q.in_active) (sym same) ∙ awake in
      Wakens-Wake s p' rest w (subst (Wakens s.here) same k) (λ h. absurd (cc (up, h)))
  takes-Wake s (activate_write n) rest p' w f at e =
      let (b, t, eq) = activate_write_fields n s.here in
      let same : heard_of n b t s.here ≡ p' = sym eq ∙ cc (e) in
      Wakens-Wake s p' rest w
        (subst (Wakens s.here) same
          (out_Wakens s.here (heard_of n b t s.here) (λ v. v) (λ v h. inl h) refl refl))
        (λ h called. subst Called at called)
  takes-Wake s (hiccup_to q) rest p' w f at e =
      absurd (subst (λ cs. Climbs s.here.peers_msgs_read cs s.there.msgs_read) at f.climbs)
  takes-Wake s pipe_term rest p' w f at e =
      absurd (subst (λ cs. Climbs s.here.peers_msgs_read cs s.there.msgs_read) at f.climbs)
  takes-Wake s pipe_term_ack rest p' w f at e =
      absurd (subst (λ cs. Climbs s.here.peers_msgs_read cs s.there.msgs_read) at f.climbs)

  Step-Wake : (s s' : Link M) → Step ms s s' → Flows ms s → Wake s → Wake s'
  Step-Wake s s' (acts p' act goes) f w =
      Wakens-Wake s p' s.to_here w (Outcome-Wakens ms s.here p' (Act-Outcome ms s.here p' act goes))
        (λ h called. called)
  Step-Wake s s' (takes c rest p' at e goes) f w = takes-Wake s c rest p' w f.outward at e
  Step-Wake s s' turns f w = record { outward = w.inward; inward = w.outward }

  fresh_Wakes : (hwm hwm' : ℕ) (delay : Bool) → Wakes ypipe (pipe hwm hwm' delay) []
  unfolding pipe
  fresh_Wakes hwm hwm' delay = record {
    same_queue = refl;
    wf = ypipe-IsWf;
    asleep = λ h. absurd (cc (h));
  }

  Reachable-Wake : {s : Link M} → Reachable ms s → Wake s
  unfolding pipepair pipe
  Reachable-Wake (fresh (hwm, hwm') (delay, delay')) = record {
    outward = fresh_Wakes hwm hwm' delay';
    inward = fresh_Wakes hwm' hwm delay;
  }
  Reachable-Wake (steps {s} {s'} r st) = Step-Wake s s' st (Reachable-Flows ms r) (Reachable-Wake r)

  -- Whatever two active ends read, check, write, flush and roll back, and whichever commands they
  -- take, fewer than 2 ^ 64 messages in all: where the reader of a queue sleeps, nothing is flushed
  -- for it, or activate_read is on its way to it.
  pub flushed-Called :
      (s : Link M)
      → Reachable ms s
      → s.there.in_active ≡ false
      → (flushed s.here.outq ≡ []) ⊎ Called s.to_there
  flushed-Called s r h =
      let w = (Reachable-Wake r).outward in
      elim (w.asleep h) [
        | inl null ↦
            let nothing : s.here.outq.w - s.here.outq.front ≡ 0 = omega (arith, w.wf.asleep null) in
            inl (ap (λ n. take n s.here.outq.items) nothing)
        | inr called ↦ inr called
      ]
