-- ===== src/Pipe/Flow/Invariant.antt =====
-- What holds of two active ends, whatever they do.
use cctas.Base.{
  ℕ, ◌+◌, ◌%◌, ◌^◌, ◌≤◌, ◌<◌, ◌≡◌, refl, sym, ap, ap₂, ◌∙◌, subst, Bool, some, List, [], ◌∷◌, ◌++◌,
  arith,
}
use cctas.Pipe.{
  Pipe, Parts, active, compute_lwm, pipe, pipepair, Command, activate_read, activate_write,
  hiccup_to, pipe_term, pipe_term_ack,
}
use cctas.Pipe.Reading.{process_activate_read}
use cctas.Pipe.Writing.{process_activate_write}
use cctas.Ypipe.{Ypipe, ypipe}
use cctas.Pipe.Flow.{
  Link, Step, acts, takes, turns, Reachable, fresh, steps, posted, process_command,
}
use cctas.Pipe.Flow.Counting.{whole}
use cctas.Pipe.Flow.Ends.{
  Climbs, latest, latest-append, latest-le, le-latest, Climbs-append, Writes, Written, Taken, Works,
  unsaid_Taken, still_Written,
}
use cctas.Pipe.Flow.Outcomes.{Act-Outcome}
use cctas.Pipe.Flow.Works.{Outcome-Works}
use cctas.Pipe.Flow.Writer.{activate_write-Written, heard_of, activate_write_fields}
use cctas.Pipe.Flow.Reader.{activate_read-Works}

module _ {M : Type 0} (ms : Parts M) where
  -- One direction: a writing end, the other end as its reader, and the mail to the writer.
  pub record Flow (w r : Pipe M) (mail : List (Command M)) : Type 0 where
    pub marks : r.lwm ≡ compute_lwm w.hwm
    pub same_queue : r.inq ≡ w.outq
    pub counted : w.msgs_written ≡ r.msgs_read + whole ms w.outq.items
    pub climbs : Climbs w.peers_msgs_read mail r.msgs_read
    pub acked : 0 < r.lwm → latest w.peers_msgs_read mail + r.msgs_read % r.lwm ≡ r.msgs_read
    pub window : Writes w

  -- Both directions, with all commands posted.
  pub record Flows (s : Link M) : Type 0 where
    pub posted_here : s.here.sent ≡ []
    pub posted_there : s.there.sent ≡ []
    pub outward : Flow s.here s.there s.to_here
    pub inward : Flow s.there s.here s.to_there

  -- The writer has become p'.
  writer_Flow :
      (p p' r : Pipe M) (mail : List (Command M))
      → Flow p r mail
      → Written ms p p'
      → p'.state ≡ active
      → Flow (record p' { sent = [] }) (record r { inq = p'.outq; outq = p'.inq }) mail
  writer_Flow p p' r mail f d goes =
      let v : Writes p' = d.writes goes f.window in
      record {
        marks = f.marks ∙ ap compute_lwm (sym d.same_hwm);
        same_queue = refl;
        counted = omega (arith, f.counted, d.counted);
        climbs = subst (λ k. Climbs k mail r.msgs_read) (sym d.same_peers) f.climbs;
        acked = λ pos.
            subst (λ k. latest k mail + r.msgs_read % r.lwm ≡ r.msgs_read) (sym d.same_peers)
              (f.acked pos);
        window = settled p' v;
      }
    where
      settled : (q : Pipe M) → Writes q → Writes (record q { sent = [] })
      settled q u = record {
        window = record {
          small = u.window.small;
          peer_behind = u.window.peer_behind;
          bounded = u.window.bounded;
        };
        blocked = u.blocked;
        goes_on = u.goes_on;
      }

  -- The reader has become p', which sent the writer its word.
  reader_Flow :
      (w p p' : Pipe M) (mail : List (Command M))
      → Flow w p mail
      → Taken ms p p'
      → Flow (record w { inq = p'.outq; outq = p'.inq }) (record p' { sent = [] }) (mail ++ p'.sent)
  reader_Flow w p p' mail f d =
      let before : whole ms p.inq.items ≡ whole ms w.outq.items =
        ap (λ (q : Ypipe M). whole ms q.items) f.same_queue in
      let up : latest w.peers_msgs_read mail ≤ p.msgs_read =
        latest-le w.peers_msgs_read mail p.msgs_read f.climbs in
      record {
        marks = d.same_lwm ∙ f.marks;
        same_queue = refl;
        counted = omega (arith, f.counted, d.counted, before);
        climbs =
            Climbs-append w.peers_msgs_read mail p'.sent p.msgs_read p'.msgs_read f.climbs
              (d.climbs (latest w.peers_msgs_read mail) up);
        acked = λ pos.
            (let open_ : 0 < p.lwm = omega (arith, d.same_lwm, pos) in
              ap₂ (λ a b. a + p'.msgs_read % b) (latest-append w.peers_msgs_read mail p'.sent)
                d.same_lwm
              ∙ d.acked (latest w.peers_msgs_read mail) open_ (f.acked open_));
        window = record {
          window = record {
            small = f.window.window.small;
            peer_behind = f.window.window.peer_behind;
            bounded = f.window.window.bounded;
          };
          blocked = f.window.blocked;
          goes_on = f.window.goes_on;
        };
      }

  -- What an end has read and what waits for it is what the other end has written.
  few :
      (p r : Pipe M) (mail : List (Command M))
      → Flow r p mail
      → p.msgs_read + whole ms p.inq.items < 2 ^ 64
  few p r mail g =
      let before : whole ms p.inq.items ≡ whole ms r.outq.items =
        ap (λ (q : Ypipe M). whole ms q.items) g.same_queue in
      omega (arith, before, g.counted, g.window.window.small)

  -- A step in which an end works as its own reader and writer.
  Works-Flows :
      (s : Link M) (p' : Pipe M) (rest : List (Command M))
      → Flows s
      → Flow s.here s.there rest
      → Works ms s.here p'
      → p'.state ≡ active
      → Flows (record (posted ms s p') { to_here = rest })
  Works-Flows s p' rest f out (wr, tk) goes = record {
    posted_here = refl;
    posted_there = f.posted_there;
    outward = writer_Flow s.here p' s.there rest out wr goes;
    inward = reader_Flow s.there s.here p' s.to_there f.inward tk;
  }

  -- The writer has taken the reader's word, which is in its mail.
  activate_write-Flows :
      (n : ℕ) (s : Link M) (rest : List (Command M)) (p' : Pipe M)
      → Flows s
      → Flow s.here s.there (activate_write n ∷ rest)
      → process_activate_write n s.here ≡ p'
      → Flows (record (posted ms s p') { to_here = rest })
  activate_write-Flows n s rest p' f out e =
      let (b, t, eq) = activate_write_fields n s.here in
      let p1 : Pipe M = heard_of n b t s.here in
      let within : n ≤ s.here.msgs_written =
        omega (arith, le-latest n rest s.there.msgs_read out.climbs.1, out.counted) in
      let v : Writes p1 =
        subst Writes eq (activate_write-Written n s.here out.climbs.0 within out.window) in
      let heard : Flow p1 s.there rest = record {
        marks = out.marks;
        same_queue = out.same_queue;
        counted = out.counted;
        climbs = out.climbs.1;
        acked = out.acked;
        window = v;
      } in
      subst (λ (q : Pipe M). Flows (record (posted ms s q) { to_here = rest })) (sym eq ∙ e)
        (record {
          posted_here = refl;
          posted_there = f.posted_there;
          outward =
              writer_Flow p1 p1 s.there rest heard (still_Written ms p1 p1 refl refl refl refl refl)
                v.goes_on;
          inward =
              reader_Flow s.there s.here p1 s.to_there f.inward
                (unsaid_Taken ms s.here p1 refl refl refl f.posted_here);
        })

  takes-Flows :
      (s : Link M) (c : Command M) (rest : List (Command M)) (p' : Pipe M)
      → Flows s
      → Flow s.here s.there (c ∷ rest)
      → process_command ms c s.here ≡ some p'
      → p'.state ≡ active
      → Flows (record (posted ms s p') { to_here = rest })
  takes-Flows s activate_read rest p' f out e goes =
      let same : process_activate_read s.here ≡ p' = cc (e) in
      let out' : Flow s.here s.there rest = record {
        marks = out.marks;
        same_queue = out.same_queue;
        counted = out.counted;
        climbs = out.climbs;
        acked = out.acked;
        window = out.window;
      } in
      Works-Flows s p' rest f out'
        (subst (Works ms s.here) same (activate_read-Works ms s.here f.posted_here)) goes
  takes-Flows s (activate_write n) rest p' f out e goes =
      activate_write-Flows n s rest p' f out (cc (e))
  takes-Flows s (hiccup_to q) rest p' f out e goes = absurd out.climbs
  takes-Flows s pipe_term rest p' f out e goes = absurd out.climbs
  takes-Flows s pipe_term_ack rest p' f out e goes = absurd out.climbs

  Step-Flows : (s s' : Link M) → Step ms s s' → Flows s → Flows s'
  Step-Flows s s' (acts p' act goes) f =
      Works-Flows s p' s.to_here f f.outward
        (Outcome-Works ms s.here f.posted_here p' (few s.here s.there s.to_there f.inward)
          (Act-Outcome ms s.here p' act goes))
        goes
  Step-Flows s s' (takes c rest p' at e goes) f =
      takes-Flows s c rest p' f (subst (Flow s.here s.there) at f.outward) e goes
  Step-Flows s s' turns f = record {
    posted_here = f.posted_there;
    posted_there = f.posted_here;
    outward = f.inward;
    inward = f.outward;
  }

  fresh_Flow :
      (hwm hwm' : ℕ) (delay delay' : Bool) → Flow (pipe hwm' hwm delay) (pipe hwm hwm' delay') []
  unfolding pipe ypipe
  fresh_Flow hwm hwm' delay delay' = record {
    marks = refl;
    same_queue = refl;
    counted = refl;
    climbs = omega arith;
    acked = λ pos. ground arith;
    window = record {
      window = record {
        small = omega arith;
        peer_behind = omega arith;
        bounded = λ b. omega arith;
      };
      blocked = λ b. cc (b);
      goes_on = refl;
    };
  }

  pub Reachable-Flows : {s : Link M} → Reachable ms s → Flows s
  unfolding pipepair pipe
  Reachable-Flows (fresh (hwm, hwm') (delay, delay')) = record {
    posted_here = refl;
    posted_there = refl;
    outward = fresh_Flow hwm hwm' delay delay';
    inward = fresh_Flow hwm' hwm delay' delay;
  }
  Reachable-Flows (steps {s} {s'} r st) = Step-Flows s s' st (Reachable-Flows r)
