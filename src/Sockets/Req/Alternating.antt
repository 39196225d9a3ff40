-- ===== src/Sockets/Req/Alternating.antt =====
-- A REQ socket sends and receives whole messages in turn.
use cctas.Base.{
  ◌≡◌, refl, ap, ◌∙◌, Bool, true, false, not, inl, inr, Bool-cases, Option, none, some, List, ◌||◌,
  arith, suc,
}
use cctas.Framing.{Msg}
use cctas.Sockets.{efsm, Rc, done, error, Got, got, failed, more, is_empty, BaseClass}
use cctas.Sockets.Turns.{Event, receives_next, Alternates}
use cctas.Sockets.Req.{
  Req, req, xsend, sent_part, sent_bottom, xrecv, received_part, received_bottom, dropped,
  drop_loop, xhas_in, asked, xhas_out, bottom_msg, calls, Starts, Changes,
}
use cctas.Sockets.Runs.{Run, TakesTurns, Run-turns}
use cctas.Sockets.Runs

module _ {D : Type 0} (b : BaseClass D) where
  abbrev waits : Req D → Bool
  waits r = r.receiving_reply

  abbrev AfterSend : Req D → Msg → Option (Rc × Req D) → Type 0
  AfterSend = Runs.AfterSend waits

  abbrev AfterReceive : Req D → Option (Got × Req D) → Type 0
  AfterReceive = Runs.AfterReceive waits

  abbrev AfterAsk : Req D → Option (Bool × Req D) → Type 0
  AfterAsk = Runs.AfterAsk waits

  sent_part-AfterSend :
      (r : Req D) (m : Msg) (o : Option (Rc × D))
      → r.receiving_reply ≡ false
      → AfterSend r m (sent_part b r m o)
  sent_part-AfterSend r m none h = tt
  sent_part-AfterSend r m (some (error e, d)) h = refl
  sent_part-AfterSend r m (some (done, d)) h = (h, ground arith)

  sent_bottom-AfterSend :
      (r : Req D) (m : Msg) (o : Option (Rc × D))
      → r.receiving_reply ≡ false
      → AfterSend r m (sent_bottom b r m o)
  sent_bottom-AfterSend r m none h = tt
  sent_bottom-AfterSend r m (some (error e, d)) h = refl
  sent_bottom-AfterSend r m (some (done, d)) h =
      sent_part-AfterSend (record r { base = d; message_begins = false }) m (b.xsend d m) h

  xsend-AfterSend : (r : Req D) (m : Msg) → AfterSend r m (xsend b r m)
  unfolding xsend
  xsend-AfterSend r m = elim (Bool-cases r.receiving_reply) [
    | inl waiting ↦ simp waiting refl
    | inr free ↦ elim (Bool-cases r.message_begins) [
      | inl first ↦ simp (free, first) (sent_bottom-AfterSend r m (b.xsend r.base bottom_msg) free)
      | inr later ↦ simp (free, later) (sent_part-AfterSend r m (b.xsend r.base m) free)
    ]
  ]

  dropped-AfterReceive : (r : Req D) (o : Option D) → AfterReceive r (dropped b r o)
  dropped-AfterReceive r none = tt
  dropped-AfterReceive r (some d) = refl

  received_part-AfterReceive :
      (r : Req D) (o : Option (Got × D))
      → r.receiving_reply ≡ true
      → AfterReceive r (received_part b r o)
  received_part-AfterReceive r none h = tt
  received_part-AfterReceive r (some (failed e, d)) h = refl
  received_part-AfterReceive r (some (got m, d)) h = (h, ground arith)

  received_bottom-AfterReceive :
      (r : Req D) (o : Option (Got × D))
      → r.receiving_reply ≡ true
      → AfterReceive r (received_bottom b r o)
  received_bottom-AfterReceive r none h = tt
  received_bottom-AfterReceive r (some (failed e, d)) h = refl
  received_bottom-AfterReceive r (some (got m, d)) h =
      elim (Bool-cases (not (more m) || not (is_empty m))) [
        | inl malformed ↦ rw malformed (dropped-AfterReceive r (drop_loop b (suc (b.left d)) d))
        | inr good ↦ rw good (
            received_part-AfterReceive (record r { base = d; message_begins = false }) (b.xrecv d)
              h)
      ]

  xrecv-AfterReceive : (r : Req D) → AfterReceive r (xrecv b r)
  unfolding xrecv
  xrecv-AfterReceive r = elim (Bool-cases r.receiving_reply) [
    | inr free ↦ simp free refl
    | inl waiting ↦ elim (Bool-cases r.message_begins) [
      | inl first ↦ simp (waiting, first) (received_bottom-AfterReceive r (b.xrecv r.base) waiting)
      | inr later ↦ simp (waiting, later) (received_part-AfterReceive r (b.xrecv r.base) waiting)
    ]
  ]

  asked-AfterAsk : (r : Req D) (o : Option (Bool × D)) → AfterAsk r (asked b r o)
  asked-AfterAsk r none = tt
  asked-AfterAsk r (some (ready, d)) = refl

  xhas_in-AfterAsk : (r : Req D) → AfterAsk r (xhas_in b r)
  unfolding xhas_in
  xhas_in-AfterAsk r = elim (Bool-cases r.receiving_reply) [
    | inl waiting ↦ simp waiting (asked-AfterAsk r (b.xhas_in r.base))
    | inr free ↦ simp free refl
  ]

  xhas_out-waits : (r : Req D) → waits (xhas_out b r).1 ≡ waits r
  unfolding xhas_out
  xhas_out-waits r = ground arith

  module _ (Fresh : D → Type 0) (Change : D → D → Type 0) where
    takes_turns : TakesTurns (calls b) (Starts b Fresh) (Changes b Change) waits false
    unfolding req
    takes_turns = record {
      starts-waits = λ r (d, e, new). ap waits e;
      xsend-AfterSend = xsend-AfterSend;
      xrecv-AfterReceive = xrecv-AfterReceive;
      xhas_in-AfterAsk = xhas_in-AfterAsk;
      xhas_out-waits = xhas_out-waits;
      change-waits = λ r r' (d, e, c). ap waits e;
    }

    -- The parts that the calls on a REQ socket send and receive, in any run, are whole requests and
    -- whole replies in turn, a request first.
    pub req-Alternates :
        (r : Req D) (es : List Event)
        → Run (calls b) (Starts b Fresh) (Changes b Change) r es
        → Alternates false es
    req-Alternates r es run =
        (Run-turns (calls b) (Starts b Fresh) (Changes b Change) waits takes_turns r es run).1

    -- In every run a call out of turn on a REQ socket fails with EFSM and changes nothing: xsend
    -- where the next part has to be received, and xrecv where it has to be sent.
    pub req_out_of_turn :
        (r : Req D) (es : List Event) (m : Msg)
        → Run (calls b) (Starts b Fresh) (Changes b Change) r es
        → (receives_next false es ≡ true → xsend b r m ≡ some (error efsm, r))
          × (receives_next false es ≡ false → xrecv b r ≡ some (failed efsm, r))
    unfolding xsend xrecv
    req_out_of_turn r es m run =
        let turn =
          (Run-turns (calls b) (Starts b Fresh) (Changes b Change) waits takes_turns r es run).0 in
        (
          (λ waiting. let now : r.receiving_reply ≡ true = turn ∙ waiting in simp now refl),
          (λ free. let now : r.receiving_reply ≡ false = turn ∙ free in simp now refl),
        )
