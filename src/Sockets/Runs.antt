-- ===== src/Sockets/Runs.antt =====
-- What a user and the pipes can bring about on a socket that takes turns, and why the turns are
-- kept. REQ and REP sockets share this.
use cctas.Base.{◌≡◌, sym, ◌∙◌, subst, Bool, true, false, not, Option, none, some, List, [], ◌∷◌}
use cctas.Framing.{Msg}
use cctas.Sockets.{Errno, Rc, done, error, Got, got, failed, more}
use cctas.Sockets.Turns.{Event, sent, received, receives_next, Alternates}

-- The calls that the user's zmq_send, zmq_recv and zmq_poll make.
pub record Calls (S : Type 0) : Type 0 where
  pub xsend : S → Msg → Option (Rc × S)
  pub xrecv : S → Option (Got × S)
  pub xhas_in : S → Option (Bool × S)
  pub xhas_out : S → Bool × S

-- What a call says of the turn before and after it; `waits` reads off the state that the next part
-- has to be received.
module _ {S : Type 0} (waits : S → Bool) where
  abbrev pub AfterSend : S → Msg → Option (Rc × S) → Type 0
  AfterSend s m none = Unit
  AfterSend s m (some (error e, s')) = waits s' ≡ waits s
  AfterSend s m (some (done, s')) = (waits s ≡ false) × (waits s' ≡ not (more m))

  abbrev pub AfterReceive : S → Option (Got × S) → Type 0
  AfterReceive s none = Unit
  AfterReceive s (some (failed e, s')) = waits s' ≡ waits s
  AfterReceive s (some (got m, s')) = (waits s ≡ true) × (waits s' ≡ more m)

  abbrev pub AfterAsk : S → Option (Bool × S) → Type 0
  AfterAsk s none = Unit
  AfterAsk s (some (ready, s')) = waits s' ≡ waits s

module _ {S : Type 0} (c : Calls S) (Start : S → Type 0) (Change : S → S → Type 0) where
  -- A run with the parts that the user's calls sent and received. `Start` says how the socket
  -- starts, and `Change` what its pipes and its other operations do between two calls.
  pub data Run : S → List Event → Type 0 where
    starts : (s : S) → Start s → Run s []
    sends :
        {s s' : S} {es : List Event} (m : Msg)
        → Run s es
        → c.xsend s m ≡ some (done, s')
        → Run s' (sent m ∷ es)
    sends_not :
        {s s' : S} {es : List Event} (m : Msg) (e : Errno)
        → Run s es
        → c.xsend s m ≡ some (error e, s')
        → Run s' es
    receives :
        {s s' : S} {es : List Event} (m : Msg)
        → Run s es
        → c.xrecv s ≡ some (got m, s')
        → Run s' (received m ∷ es)
    receives_not :
        {s s' : S} {es : List Event} (e : Errno)
        → Run s es
        → c.xrecv s ≡ some (failed e, s')
        → Run s' es
    asks_in :
        {s s' : S} {es : List Event} (ready : Bool)
        → Run s es
        → c.xhas_in s ≡ some (ready, s')
        → Run s' es
    asks_out : {s : S} {es : List Event} → Run s es → Run (c.xhas_out s).1 es
    changes : {s : S} {es : List Event} (s' : S) → Run s es → Change s s' → Run s' es

  -- A property of the state and the parts, which every call and change keeps, holds in every run.
  pub record Keeps (Q : S → List Event → Type 0) : Type 0 where
    pub starts_kept : (s : S) → Start s → Q s []
    pub sent_kept :
        (s s' : S) (es : List Event) (m : Msg)
        → Q s es
        → c.xsend s m ≡ some (done, s')
        → Q s' (sent m ∷ es)
    pub unsent_kept :
        (s s' : S) (es : List Event) (m : Msg) (e : Errno)
        → Q s es
        → c.xsend s m ≡ some (error e, s')
        → Q s' es
    pub received_kept :
        (s s' : S) (es : List Event) (m : Msg)
        → Q s es
        → c.xrecv s ≡ some (got m, s')
        → Q s' (received m ∷ es)
    pub unreceived_kept :
        (s s' : S) (es : List Event) (e : Errno)
        → Q s es
        → c.xrecv s ≡ some (failed e, s')
        → Q s' es
    pub in_kept :
        (s s' : S) (es : List Event) (ready : Bool)
        → Q s es
        → c.xhas_in s ≡ some (ready, s')
        → Q s' es
    pub out_kept : (s : S) (es : List Event) → Q s es → Q (c.xhas_out s).1 es
    pub change_kept : (s s' : S) (es : List Event) → Q s es → Change s s' → Q s' es

  pub run_kept :
      {Q : S → List Event → Type 0} (k : Keeps Q) (s : S) (es : List Event) → Run s es → Q s es
  run_kept k s es (starts x new) = k.starts_kept s new
  run_kept k s es (sends {s = q} {es = es'} m run h) =
      k.sent_kept q s es' m (run_kept k q es' run) h
  run_kept k s es (sends_not {s = q} m e run h) = k.unsent_kept q s es m e (run_kept k q es run) h
  run_kept k s es (receives {s = q} {es = es'} m run h) =
      k.received_kept q s es' m (run_kept k q es' run) h
  run_kept k s es (receives_not {s = q} e run h) =
      k.unreceived_kept q s es e (run_kept k q es run) h
  run_kept k s es (asks_in {s = q} ready run h) = k.in_kept q s es ready (run_kept k q es run) h
  run_kept k s es (asks_out {s = q} run) = k.out_kept q es (run_kept k q es run)
  run_kept k s es (changes {s = q} s' run h) = k.change_kept q s es (run_kept k q es run) h

  -- A socket whose `waits` says that the next part has to be received.
  module _ (waits : S → Bool) where
    pub record TakesTurns (start : Bool) : Type 0 where
      pub starts-waits : (s : S) → Start s → waits s ≡ start
      pub xsend-AfterSend : (s : S) (m : Msg) → AfterSend waits s m (c.xsend s m)
      pub xrecv-AfterReceive : (s : S) → AfterReceive waits s (c.xrecv s)
      pub xhas_in-AfterAsk : (s : S) → AfterAsk waits s (c.xhas_in s)
      pub xhas_out-waits : (s : S) → waits (c.xhas_out s).1 ≡ waits s
      pub change-waits : (s s' : S) → Change s s' → waits s' ≡ waits s

    -- A socket that takes turns knows in every run whose turn it is, and the parts stand in their
    -- order.
    turns_kept :
        {start : Bool}
        → TakesTurns start
        → Keeps (λ s es. (waits s ≡ receives_next start es) × Alternates start es)
    unfolding Alternates
    turns_kept t = record {
      starts_kept = λ s new. (t.starts-waits s new, tt);
      sent_kept = λ s s' es m k h.
          let (free, next) = subst (AfterSend waits s m) h (t.xsend-AfterSend s m) in
          (next, (sym free ∙ k.0, k.1));
      unsent_kept =
          λ s s' es m e k h. (subst (AfterSend waits s m) h (t.xsend-AfterSend s m) ∙ k.0, k.1);
      received_kept = λ s s' es m k h.
          let (waiting, next) = subst (AfterReceive waits s) h (t.xrecv-AfterReceive s) in
          (next, (sym waiting ∙ k.0, k.1));
      unreceived_kept =
          λ s s' es e k h. (subst (AfterReceive waits s) h (t.xrecv-AfterReceive s) ∙ k.0, k.1);
      in_kept = λ s s' es ready k h. (subst (AfterAsk waits s) h (t.xhas_in-AfterAsk s) ∙ k.0, k.1);
      out_kept = λ s es k. (t.xhas_out-waits s ∙ k.0, k.1);
      change_kept = λ s s' es k h. (t.change-waits s s' h ∙ k.0, k.1);
    }

    pub Run-turns :
        {start : Bool} (t : TakesTurns start) (s : S) (es : List Event)
        → Run s es
        → (waits s ≡ receives_next start es) × Alternates start es
    Run-turns t s es run = run_kept (turns_kept t) s es run
