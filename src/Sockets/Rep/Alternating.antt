-- ===== src/Sockets/Rep/Alternating.antt =====
-- A REP socket sends and receives whole messages in turn.
use cctas.Base.{
  ◌≡◌, refl, ap, ◌∙◌, Bool, true, false, not, inl, inr, Bool-cases, Option, none, some, List, arith,
  suc,
}
use cctas.Framing.{Msg}
use cctas.Sockets.{efsm, Rc, done, error, Got, got, failed, BaseClass}
use cctas.Sockets.Turns.{Event, receives_next, Alternates}
use cctas.Sockets.Rep.{
  Rep, rep, xsend, sent_part, xrecv, received_part, received_labels, label_loop, xhas_in, asked,
  xhas_out, calls, Starts, Changes,
}
use cctas.Sockets.Runs.{Run, TakesTurns, Run-turns}
use cctas.Sockets.Runs

not_cancel : (x y : Bool) → not x ≡ not y → x ≡ y
not_cancel x y h = ground arith

module _ {D : Type 0} (b : BaseClass D) where
  abbrev waits : Rep D → Bool
  waits r = not r.sending_reply

  abbrev AfterSend : Rep D → Msg → Option (Rc × Rep D) → Type 0
  AfterSend = Runs.AfterSend waits

  abbrev AfterReceive : Rep D → Option (Got × Rep D) → Type 0
  AfterReceive = Runs.AfterReceive waits

  abbrev AfterAsk : Rep D → Option (Bool × Rep D) → Type 0
  AfterAsk = Runs.AfterAsk waits

  sent_part-AfterSend :
      (r : Rep D) (m : Msg) (o : Option (Rc × D))
      → r.sending_reply ≡ true
      → AfterSend r m (sent_part b r m o)
  sent_part-AfterSend r m none h = tt
  sent_part-AfterSend r m (some (error e, d)) h = refl
  sent_part-AfterSend r m (some (done, d)) h = (ap not h, ground arith)

  xsend-AfterSend : (r : Rep D) (m : Msg) → AfterSend r m (xsend b r m)
  unfolding xsend
  xsend-AfterSend r m = elim (Bool-cases r.sending_reply) [
    | inl sending ↦ simp sending (sent_part-AfterSend r m (b.xsend r.base m) sending)
    | inr waiting ↦ simp waiting refl
  ]

  received_part-AfterReceive :
      (r : Rep D) (o : Option (Got × D))
      → r.sending_reply ≡ false
      → AfterReceive r (received_part b r o)
  received_part-AfterReceive r none h = tt
  received_part-AfterReceive r (some (failed e, d)) h = refl
  received_part-AfterReceive r (some (got m, d)) h = (ap not h, ground arith)

  received_labels-AfterReceive :
      (r : Rep D) (o : Option (Rc × D))
      → r.sending_reply ≡ false
      → AfterReceive r (received_labels b r o)
  received_labels-AfterReceive r none h = tt
  received_labels-AfterReceive r (some (error e, d)) h = refl
  received_labels-AfterReceive r (some (done, d)) h =
      received_part-AfterReceive (record r { base = d; request_begins = false }) (b.xrecv d) h

  xrecv-AfterReceive : (r : Rep D) → AfterReceive r (xrecv b r)
  unfolding xrecv
  xrecv-AfterReceive r = elim (Bool-cases r.sending_reply) [
    | inl sending ↦ simp sending refl
    | inr waiting ↦ elim (Bool-cases r.request_begins) [
      | inl first ↦
          simp (waiting, first)
            (received_labels-AfterReceive r (label_loop b (suc (b.left r.base)) r.base) waiting)
      | inr later ↦ simp (waiting, later) (received_part-AfterReceive r (b.xrecv r.base) waiting)
    ]
  ]

  asked-AfterAsk : (r : Rep D) (o : Option (Bool × D)) → AfterAsk r (asked b r o)
  asked-AfterAsk r none = tt
  asked-AfterAsk r (some (ready, d)) = refl

  xhas_in-AfterAsk : (r : Rep D) → AfterAsk r (xhas_in b r)
  unfolding xhas_in
  xhas_in-AfterAsk r = elim (Bool-cases r.sending_reply) [
    | inl sending ↦ simp sending refl
    | inr waiting ↦ simp waiting (asked-AfterAsk r (b.xhas_in r.base))
  ]

  xhas_out-waits : (r : Rep D) → waits (xhas_out b r).1 ≡ waits r
  unfolding xhas_out
  xhas_out-waits r = ground arith

  module _ (Fresh : D → Type 0) (Change : D → D → Type 0) where
    takes_turns : TakesTurns (calls b) (Starts b Fresh) (Changes b Change) waits true
    unfolding rep
    takes_turns = record {
      starts-waits = λ r (d, e, new). ap waits e;
      xsend-AfterSend = xsend-AfterSend;
      xrecv-AfterReceive = xrecv-AfterReceive;
      xhas_in-AfterAsk = xhas_in-AfterAsk;
      xhas_out-waits = xhas_out-waits;
      change-waits = λ r r' (d, e, c). ap waits e;
    }

    -- The parts that the calls on a REP socket send and receive, in any run, are whole requests and
    -- whole replies in turn, a request first.
    pub rep-Alternates :
        (r : Rep D) (es : List Event)
        → Run (calls b) (Starts b Fresh) (Changes b Change) r es
        → Alternates true es
    rep-Alternates r es run =
        (Run-turns (calls b) (Starts b Fresh) (Changes b Change) waits takes_turns r es run).1

    -- In every run a call out of turn on a REP socket fails with EFSM and changes nothing: xsend
    -- where the next part has to be received, and xrecv where it has to be sent.
    pub rep_out_of_turn :
        (r : Rep D) (es : List Event) (m : Msg)
        → Run (calls b) (Starts b Fresh) (Changes b Change) r es
        → (receives_next true es ≡ true → xsend b r m ≡ some (error efsm, r))
          × (receives_next true es ≡ false → xrecv b r ≡ some (failed efsm, r))
    unfolding xsend xrecv
    rep_out_of_turn r es m run =
        let turn =
          (Run-turns (calls b) (Starts b Fresh) (Changes b Change) waits takes_turns r es run).0 in
        (
          (λ waiting.
              let now : r.sending_reply ≡ false =
                not_cancel r.sending_reply false (turn ∙ waiting) in
              simp now refl),
          (λ free.
              let now : r.sending_reply ≡ true = not_cancel r.sending_reply true (turn ∙ free) in
              simp now refl),
        )
