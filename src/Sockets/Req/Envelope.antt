-- ===== src/Sockets/Req/Envelope.antt =====
-- What a REQ socket hands to its base class: each request behind one empty part.
use cctas.Base.{
  ℕ, zero, suc, ◌≡◌, refl, sym, ◌∙◌, subst, Bool, true, false, not, ◌&&◌, ◌||◌, Bool-cases, inl,
  inr, if◌then◌else◌, Option, none, some, List, [], ◌∷◌, arith,
}
use cctas.Framing.{Msg}
use cctas.Sockets.{Rc, done, error, Got, got, failed, more, is_empty, BaseClass}
use cctas.Sockets.Turns.{Event, sent, received}
use cctas.Sockets.Logged.{log_sent, keep_log, logged, NoLog, SameLog}
use cctas.Sockets.Req.{
  Req, req, xsend, sent_part, sent_bottom, xrecv, received_part, received_bottom, dropped,
  drop_loop, xhas_in, asked, xhas_out, bottom_msg, calls, Starts, Changes,
}
use cctas.Sockets.Runs.{Run, Keeps, run_kept}

-- Whether the next part that is sent begins a request.
abbrev begins : List Event → Bool
begins [] = true
begins (sent m ∷ es) = not (more m)
begins (received m ∷ es) = true

-- The parts of the requests, each request behind the bottom part; the last part first.
pub wire : List Event → List Msg
wire [] = []
wire (sent m ∷ es) = if begins es then m ∷ bottom_msg ∷ wire es else m ∷ wire es
wire (received m ∷ es) = wire es

module _ {D : Type 0} (b : BaseClass D) where
  -- The bottom part is out and the first part of its request is not.
  abbrev pub is_pending : Req (D × List Msg) → List Event → Bool
  is_pending r es = not r.receiving_reply && (not r.message_begins && begins es)

  abbrev pub Wired : Req (D × List Msg) → List Event → Type 0
  Wired r es = r.base.1 ≡ (if is_pending r es then bottom_msg ∷ wire es else wire es)

  abbrev Kept : Req (D × List Msg) → List Event → Type 0
  Kept r es = Wired r es × (r.receiving_reply ≡ false → r.message_begins ≡ true → begins es ≡ true)

  abbrev AfterSend : List Event → Msg → Option (Rc × Req (D × List Msg)) → Type 0
  AfterSend es m none = Unit
  AfterSend es m (some (error e, r)) = Kept r es
  AfterSend es m (some (done, r)) = Kept r (sent m ∷ es)

  sent_part-AfterSend :
      (r : Req (D × List Msg)) (es : List Event) (m : Msg) (o : Option (Rc × D))
      → r.receiving_reply ≡ false
      → r.message_begins ≡ false
      → Wired r es
      → AfterSend es m (sent_part (logged b) r m (log_sent r.base.1 m o))
  unfolding wire
  sent_part-AfterSend r es m none free later w = tt
  sent_part-AfterSend r es m (some (error e, d)) free later w = (w, λ f g. absurd (cc))
  sent_part-AfterSend r es m (some (done, d)) free later w = ground arith

  sent_bottom-AfterSend :
      (r : Req (D × List Msg)) (es : List Event) (m : Msg) (o : Option (Rc × D))
      → r.receiving_reply ≡ false
      → r.message_begins ≡ true
      → Kept r es
      → AfterSend es m (sent_bottom (logged b) r m (log_sent r.base.1 bottom_msg o))
  sent_bottom-AfterSend r es m none free first k = tt
  sent_bottom-AfterSend r es m (some (error e, d)) free first (w, at_start) = (w, at_start)
  sent_bottom-AfterSend r es m (some (done, d)) free first (w, at_start) =
      let q : Req (D × List Msg) = record r {
        base = (d, bottom_msg ∷ r.base.1);
        message_begins = false;
      } in
      sent_part-AfterSend q es m (b.xsend d m) free refl
        (let new : begins es ≡ true = at_start free first in ground arith)

  xsend-AfterSend :
      (r : Req (D × List Msg)) (es : List Event) (m : Msg)
      → Kept r es
      → AfterSend es m (xsend (logged b) r m)
  unfolding xsend
  xsend-AfterSend r es m k = elim (Bool-cases r.receiving_reply) [
    | inl waits ↦ simp waits (simp waits at k)
    | inr free ↦ elim (Bool-cases r.message_begins) [
      | inl first ↦
          simp (free, first)
            (sent_bottom-AfterSend r es m (b.xsend r.base.0 bottom_msg) free first k)
      | inr later ↦
          simp (free, later) (sent_part-AfterSend r es m (b.xsend r.base.0 m) free later k.0)
    ]
  ]

  abbrev AfterReceive : List Event → Option (Got × Req (D × List Msg)) → Type 0
  AfterReceive es none = Unit
  AfterReceive es (some (failed e, r)) = Kept r es
  AfterReceive es (some (got m, r)) = Kept r (received m ∷ es)

  -- While a reply is received nothing is added.
  waiting-Kept :
      (r q : Req (D × List Msg)) (es : List Event)
      → r.receiving_reply ≡ true
      → q.receiving_reply ≡ true
      → q.base.1 ≡ r.base.1
      → Kept r es
      → Kept q es
  waiting-Kept r q es waits waits' same (w, at_start) = ground arith

  received_part-AfterReceive :
      (r : Req (D × List Msg)) (es : List Event) (o : Option (Got × D))
      → r.receiving_reply ≡ true
      → Kept r es
      → AfterReceive es (received_part (logged b) r (keep_log r.base.1 o))
  unfolding wire
  received_part-AfterReceive r es none waits k = tt
  received_part-AfterReceive r es (some (failed e, d)) waits k =
      waiting-Kept r (record r { base = (d, r.base.1) }) es waits waits refl k
  received_part-AfterReceive r es (some (got m, d)) waits (w, at_start) = ground arith

  abbrev LogIs : List Msg → Option (D × List Msg) → Type 0
  LogIs log none = Unit
  LogIs log (some s) = s.1 ≡ log

  if_LogIs :
      (c : Bool) (log : List Msg) (o o' : Option (D × List Msg))
      → LogIs log o
      → LogIs log o'
      → LogIs log (if c then o else o')
  if_LogIs true log o o' h h' = h
  if_LogIs false log o o' h h' = h'

  drop_round-LogIs :
      (n : ℕ) (s : D × List Msg) (o : Option (Got × D))
      → ((d : D) → LogIs s.1 (drop_loop (logged b) n (d, s.1)))
      → b.xrecv s.0 ≡ o
      → LogIs s.1 (drop_loop (logged b) (suc n) s)
  unfolding drop_loop
  drop_round-LogIs n s none rest h = rw (h, drop_loop) tt
  drop_round-LogIs n s (some (failed e, d)) rest h = rw (h, drop_loop) tt
  drop_round-LogIs n s (some (got m, d)) rest h =
      rw (h, drop_loop)
        (if_LogIs (more m) s.1 (drop_loop (logged b) n (d, s.1)) (some (d, s.1)) (rest d) refl)

  drop_loop-LogIs : (n : ℕ) (s : D × List Msg) → LogIs s.1 (drop_loop (logged b) n s)
  unfolding drop_loop
  drop_loop-LogIs zero s = tt
  drop_loop-LogIs (suc n) s =
      drop_round-LogIs n s (b.xrecv s.0) (λ d. drop_loop-LogIs n (d, s.1)) refl

  dropped-AfterReceive :
      (r : Req (D × List Msg)) (es : List Event) (o : Option (D × List Msg))
      → LogIs r.base.1 o
      → r.receiving_reply ≡ true
      → Kept r es
      → AfterReceive es (dropped (logged b) r o)
  dropped-AfterReceive r es none same waits k = tt
  dropped-AfterReceive r es (some s) same waits k =
      waiting-Kept r (record r { base = s }) es waits waits same k

  received_bottom-AfterReceive :
      (r : Req (D × List Msg)) (es : List Event) (o : Option (Got × D))
      → r.receiving_reply ≡ true
      → Kept r es
      → AfterReceive es (received_bottom (logged b) r (keep_log r.base.1 o))
  received_bottom-AfterReceive r es none waits k = tt
  received_bottom-AfterReceive r es (some (failed e, d)) waits k =
      waiting-Kept r (record r { base = (d, r.base.1) }) es waits waits refl k
  received_bottom-AfterReceive r es (some (got m, d)) waits k =
      elim (Bool-cases (not (more m) || not (is_empty m))) [
        | inl malformed ↦ simp malformed (
            dropped-AfterReceive r es (drop_loop (logged b) (suc (b.left d)) (d, r.base.1))
              (drop_loop-LogIs (suc (b.left d)) (d, r.base.1)) waits k)
        | inr good ↦
            let q : Req (D × List Msg) = record r {
              base = (d, r.base.1);
              message_begins = false;
            } in
            simp good (
              received_part-AfterReceive q es (b.xrecv d) waits
                (waiting-Kept r q es waits waits refl k))
      ]

  xrecv-AfterReceive :
      (r : Req (D × List Msg)) (es : List Event) → Kept r es → AfterReceive es (xrecv (logged b) r)
  unfolding xrecv
  xrecv-AfterReceive r es k = elim (Bool-cases r.receiving_reply) [
    | inr free ↦ simp free (simp free at k)
    | inl waits ↦ elim (Bool-cases r.message_begins) [
      | inl first ↦
          simp (waits, first) (received_bottom-AfterReceive r es (b.xrecv r.base.0) waits k)
      | inr later ↦ simp (waits, later) (received_part-AfterReceive r es (b.xrecv r.base.0) waits k)
    ]
  ]

  abbrev AskedKept : List Event → Option (Bool × Req (D × List Msg)) → Type 0
  AskedKept es none = Unit
  AskedKept es (some (ready, r)) = Kept r es

  asked-Kept :
      (r : Req (D × List Msg)) (es : List Event) (o : Option (Bool × D))
      → Kept r es
      → AskedKept es (asked (logged b) r (keep_log r.base.1 o))
  asked-Kept r es none k = tt
  asked-Kept r es (some (ready, d)) k = k

  xhas_in-Kept :
      (r : Req (D × List Msg)) (es : List Event) → Kept r es → AskedKept es (xhas_in (logged b) r)
  unfolding xhas_in
  xhas_in-Kept r es k = elim (Bool-cases r.receiving_reply) [
    | inl waits ↦ simp waits (asked-Kept r es (b.xhas_in r.base.0) k)
    | inr free ↦ simp free (simp free at k)
  ]

  xhas_out-Kept :
      (r : Req (D × List Msg)) (es : List Event) → Kept r es → Kept (xhas_out (logged b) r).1 es
  unfolding xhas_out
  xhas_out-Kept r es (w, at_start) = ground arith

  -- A run on a fresh socket whose log is empty.
  abbrev pub LoggedRun : Req (D × List Msg) → List Event → Type 0
  LoggedRun = Run (calls (logged b)) (Starts (logged b) NoLog) (Changes (logged b) SameLog)

  kept : Keeps (calls (logged b)) (Starts (logged b) NoLog) (Changes (logged b) SameLog) Kept
  unfolding req wire
  kept = record {
    starts_kept = λ r (d, e, new). subst (λ q. Kept q []) (sym e) (new, λ f g. refl);
    sent_kept = λ r r' es m k h. subst (AfterSend es m) h (xsend-AfterSend r es m k);
    unsent_kept = λ r r' es m e k h. subst (AfterSend es m) h (xsend-AfterSend r es m k);
    received_kept = λ r r' es m k h. subst (AfterReceive es) h (xrecv-AfterReceive r es k);
    unreceived_kept = λ r r' es e k h. subst (AfterReceive es) h (xrecv-AfterReceive r es k);
    in_kept = λ r r' es ready k h. subst (AskedKept es) h (xhas_in-Kept r es k);
    out_kept = xhas_out-Kept;
    change_kept = λ r r' es k (d, e, same). subst (λ q. Kept q es) (sym e) (same ∙ k.0, k.1);
  }

  -- In every run that starts with an empty log, the parts that dealer_t took from a REQ socket are
  -- the parts that the user's calls sent, with one empty part ahead of each request; where a call
  -- failed after the empty part of its request was taken, that part is there already.
  pub req-Wired : (r : Req (D × List Msg)) (es : List Event) → LoggedRun r es → Wired r es
  req-Wired r es run =
      (run_kept (calls (logged b)) (Starts (logged b) NoLog) (Changes (logged b) SameLog) kept r es
        run).0
