-- ===== src/Sockets/Tests.antt =====
-- A REQ and a REP socket over a queue, and a ROUTER socket with two peers.
use cctas.Base.{
  ℕ, suc, ◌≡◌, ◌<◌, refl, true, false, Option, none, some, List, [], ◌∷◌, length, arith,
}
use cctas.Framing.{Msg}
use cctas.Sockets.{eagain, efsm, done, error, Got, got, failed, BaseClass}
use cctas.Sockets.Turns.{sent, received, Alternates}
use cctas.Sockets.Runs.{Run, starts, sends, receives}
use cctas.Sockets.Logged.{logged}
use cctas.Sockets.Draining.{Draining}
use cctas.Sockets.Req.{Req, req, bottom_msg, calls, Starts, Changes, xsend, xrecv}
use cctas.Sockets.Req.Alternating.{req-Alternates, req_out_of_turn}
use cctas.Sockets.Req.Envelope.{Wired, LoggedRun, req-Wired}
use cctas.Sockets.Rep
use cctas.Sockets.Rep.{Rep, rep}
use cctas.Sockets.Rep.Alternating.{rep-Alternates}
use cctas.Sockets.Rep.Envelope.{delimiter, label, onto, rep-xrecv_labels}
use cctas.Sockets.Router.{Router, PeerPipes, router, find}
use cctas.Sockets.Router.Receiving
use cctas.Sockets.Router.Receiving.{parts_left, router_class}
use cctas.Sockets.Router.Fetching.{Receives}
use cctas.Sockets.Router.Drains.{PeerBounded}
use cctas.Sockets.Rep.Labels.{Copies}
use cctas.Sockets.Rep.OverRouter.{label_loop-router}
use cctas.Sockets.Router.Routing.{Routed, xsend-Routed}

-- The base class gives the parts of a queue and takes every part.
abbrev from_queue : List Msg → Option (Got × List Msg)
from_queue [] = some (failed eagain, [])
from_queue (m ∷ ms) = some (got m, ms)

abbrev queue : BaseClass (List Msg)
queue = record {
  xsend = λ d m. some (done, d);
  xrecv = from_queue;
  xhas_in = λ d. some (true, d);
  xhas_out = λ d. (true, d);
  rollback = λ d. d;
  left = λ d. length d;
}

queue_falls : (d d' : List Msg) (m : Msg) → from_queue d ≡ some (got m, d') → length d' < length d
queue_falls [] d' m h = absurd (cc)
queue_falls (x ∷ d) d' m h = let same : d ≡ d' = cc in ground (arith, same)

queue-Draining : Draining queue
queue-Draining = record {
  xrecv_left = queue_falls;
  xsend_left = λ d d' m rc h. let same : d ≡ d' = cc in ground (arith, same);
  rollback_left = λ d. omega arith;
}

abbrev hello : Msg
hello = record { flags = 0; body = 104 ∷ [] }

abbrev world : Msg
world = record { flags = 0; body = 119 ∷ [] }

abbrev peer_id : Msg
peer_id = record { flags = 1; body = 7 ∷ [] }

abbrev Any : List Msg → Type 0
Any d = Unit

abbrev Never : List Msg → List Msg → Type 0
Never d d' = true ≡ false

abbrev replies : List Msg
replies = bottom_msg ∷ world ∷ []

-- one request and its reply
request-Run :
    Run
      (calls queue)
      (Starts queue Any)
      (Changes queue Never)
      (req queue [])
      (received world ∷ sent hello ∷ [])
unfolding req xsend xrecv
request-Run =
    receives world (sends hello (starts (req queue replies) (replies, refl, tt)) refl) refl

req-Alternates_example : Alternates false (received world ∷ sent hello ∷ [])
req-Alternates_example = req-Alternates queue Any Never (req queue []) _ request-Run

req_out_of_turn_example :
    (true ≡ true
      → xsend queue (record { base = replies; receiving_reply = true; message_begins = true }) hello
        ≡ some
            (error efsm, record { base = replies; receiving_reply = true; message_begins = true }))
    × (true ≡ false
        → xrecv queue (record { base = replies; receiving_reply = true; message_begins = true })
          ≡ some (
            failed efsm,
            record { base = replies; receiving_reply = true; message_begins = true },
          ))
unfolding req xsend
req_out_of_turn_example =
    req_out_of_turn queue Any Never
      (record { base = replies; receiving_reply = true; message_begins = true }) (sent hello ∷ [])
      hello (sends hello (starts (req queue replies) (replies, refl, tt)) refl)

abbrev after_hello : Req (List Msg × List Msg)
after_hello = record {
  base = (replies, hello ∷ bottom_msg ∷ []);
  receiving_reply = true;
  message_begins = true;
}

logged_run : LoggedRun queue after_hello (sent hello ∷ [])
unfolding req xsend
logged_run =
    sends hello (starts (req (logged queue) (replies, [])) ((replies, []), refl, refl)) refl

req-Wired_example : Wired queue after_hello (sent hello ∷ [])
req-Wired_example = req-Wired queue after_hello (sent hello ∷ []) logged_run

reply-Run :
    Run
      (Rep.calls queue)
      (Rep.Starts queue Any)
      (Rep.Changes queue Never)
      (record { base = []; sending_reply = true; request_begins = true })
      (received hello ∷ [])
unfolding rep Rep.xrecv Rep.label_loop
reply-Run =
    receives hello
      (starts (rep queue (peer_id ∷ bottom_msg ∷ hello ∷ []))
        (peer_id ∷ bottom_msg ∷ hello ∷ [], refl, tt))
      refl

rep-Alternates_example : Alternates true (received hello ∷ [])
rep-Alternates_example = rep-Alternates queue Any Never _ (received hello ∷ []) reply-Run

abbrev fresh_rep : Rep (List Msg × List Msg)
fresh_rep = record {
  base = (peer_id ∷ bottom_msg ∷ hello ∷ [], []);
  sending_reply = false;
  request_begins = true;
}

rep-xrecv_labels_example :
    (Rep.xrecv (logged queue) fresh_rep
      ≡ some (
        got hello,
        record {
          base = ([], bottom_msg ∷ peer_id ∷ []);
          sending_reply = true;
          request_begins = true;
        },
      ))
    × (bottom_msg ∷ peer_id ∷ [] ≡ onto (peer_id ∷ bottom_msg ∷ []) [])
rep-xrecv_labels_example =
    rep-xrecv_labels queue fresh_rep (peer_id ∷ bottom_msg ∷ [])
      (hello ∷ [], bottom_msg ∷ peer_id ∷ []) ([], bottom_msg ∷ peer_id ∷ []) hello queue-Draining
      refl refl (label peer_id refl refl refl refl (delimiter bottom_msg refl refl refl refl)) refl

-- Pipes with room for all, whose state is what was written; pipe 1 is the peer with identity 7.
abbrev Written : Type 0
Written = List (ℕ × Msg)

abbrev roomy : PeerPipes Written
roomy = record {
  pipes = record {
    has_more = λ m. false;
    write = λ p x m. (true, (x, m) ∷ p);
    check_write = λ p x. (true, p);
    flush = λ p x. p;
    read = λ p x. (none, p);
    check_read = λ p x. (false, p);
  };
  get_identity = λ p x. 7 ∷ [];
  set_identity = λ p x k. p;
  rollback = λ p x. p;
  waiting = λ p. 0;
}

abbrev one_peer : Router
unfolding router
one_peer = record (router 5) { outpipes = (7 ∷ [], record { pipe = 1; active = true }) ∷ [] }

xsend-Routed_example :
    Routed roomy one_peer [] peer_id (hello ∷ []) (find (7 ∷ []) one_peer.outpipes)
unfolding router
xsend-Routed_example = xsend-Routed roomy one_peer [] peer_id (hello ∷ []) refl refl refl refl

roomy-PeerBounded : PeerBounded roomy
roomy-PeerBounded = record {
  reads = record { read_some = λ p x m h. absurd (cc); read_none = λ p x h. omega arith };
  write_kept = λ p x m. omega arith;
  check_write_kept = λ p x. omega arith;
  flush_kept = λ p x. omega arith;
  rollback_kept = λ p x. omega arith;
}

-- one peer, whose identity and message are prefetched
abbrev asked_router : Router
unfolding router
asked_router = record one_peer {
  prefetched = true;
  prefetched_id = peer_id;
  prefetched_msg = bottom_msg;
}

label_loop-router_example :
    Copies
      (router_class roomy)
      (asked_router, [])
      (Rep.label_loop
        (router_class roomy)
        (suc (parts_left roomy (asked_router, [])))
        (asked_router, []))
    × ((s : Router × Written) → Receives roomy s (Receiving.xrecv roomy s))
label_loop-router_example = label_loop-router roomy roomy-PeerBounded (asked_router, [])
