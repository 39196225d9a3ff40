-- ===== src/Sockets/Xsub.antt =====
-- xsub.cpp and sub.cpp: xsub_t, which fetches messages by fq_t, passes those on that its trie_t has a
-- subscription for, and sends subscriptions to all peers by dist_t; and sub_t, which is one with the
-- filter on. The interface stands for pipe_t. `waiting` is how many parts the pipes can still give.
pub mod Filtering
pub mod Prefetching
mod Tests
use cctas.Base.{
  ℕ, zero, suc, ◌==◌, Bool, true, false, not, ◌||◌, if◌then◌else◌, Option, none, some, List, [],
  ◌∷◌,
}
use cctas.Framing.{Msg}
use cctas.Balance.{Pipes}
use cctas.Balance.Fq
use cctas.Balance.Fq.{Fq, Received, part, try_again, recvpipe}
use cctas.Balance.Dist
use cctas.Balance.Dist.{Dist}
use cctas.Trie
use cctas.Trie.{Trie}
use cctas.Sockets.{eagain, einval, enotsup, Rc, done, error, Got, got, failed, more}

pub record Xsub : Type 0 where
  pub fq : Fq
  pub dist : Dist
  pub subscriptions : Trie
  pub has_message : Bool
  pub message : Msg
  pub more_in : Bool
  pub filter : Bool

abbrev pub no_msg : Msg
no_msg = record { flags = 0; body = [] }

-- the constructor of xsub_t, and that of sub_t, which switches the filter on
unfoldable pub xsub : Xsub
xsub = record {
  fq = Fq.fq;
  dist = Dist.dist;
  subscriptions = Trie.empty;
  has_message = false;
  message = no_msg;
  more_in = false;
  filter = false;
}

unfoldable pub sub : Xsub
unfolding xsub
sub = record xsub { filter = true }

pub xread_activated : Xsub → ℕ → Xsub
xread_activated x pipe_ = record x { fq = Fq.activated x.fq pipe_ }

pub xwrite_activated : Xsub → ℕ → Xsub
xwrite_activated x pipe_ = record x { dist = Dist.activated x.dist pipe_ }

pub xterminated : Xsub → ℕ → Xsub
xterminated x pipe_ = record x {
  fq = Fq.terminated x.fq pipe_;
  dist = Dist.terminated x.dist pipe_;
}

-- Whether data start a subscription (true) or an unsubscription, with the key; none is malformed.
abbrev pub subscription : List ℕ → Option (Bool × List ℕ)
subscription [] = none
subscription (c ∷ key) =
    if c == 1 then some (true, key) else if c == 0 then some (false, key) else none

-- the function `match`
abbrev pub match_msg : Trie → Msg → Option Bool
match_msg t m = Trie.check m.body t

module _ {P : Type 0} (ps : Pipes P Msg) (waiting : P → ℕ) where
  -- send_subscription; a message that the pipe does not take is dropped.
  pub send_subscription : ℕ → P → List ℕ → P
  send_subscription pipe_ p key = (ps.write p pipe_ (record { flags = 0; body = 1 ∷ key })).1

  pub send_subscriptions : ℕ → P → List (List ℕ) → P
  unfolding send_subscription
  send_subscriptions pipe_ p [] = p
  send_subscriptions pipe_ p (key ∷ keys) =
      send_subscriptions pipe_ (send_subscription pipe_ p key) keys

  -- the cached subscriptions, to a new peer or after a hiccup
  pub xhiccuped : Xsub × P → ℕ → Xsub × P
  unfolding send_subscriptions
  xhiccuped (x, p) pipe_ =
      (x, ps.flush (send_subscriptions pipe_ p (Trie.keys [] x.subscriptions)) pipe_)

  pub xattach_pipe : Xsub × P → ℕ → Xsub × P
  unfolding xhiccuped
  xattach_pipe (x, p) pipe_ =
      xhiccuped (record x { fq = Fq.attach x.fq pipe_; dist = Dist.attach x.dist pipe_ }, p) pipe_

  -- A subscription that changes the trie's keys goes to all peers; any other is only counted.
  abbrev pub processed : Xsub → P → Msg → Option (Bool × Trie) → Option (Rc × (Xsub × P))
  processed x p m none = none
  processed x p m (some (true, t)) =
      let (d, p1) = Dist.send_to_all ps x.dist p m in
      some (done, (record x { subscriptions = t; dist = d }, p1))
  processed x p m (some (false, t)) = some (done, (record x { subscriptions = t }, p))

  abbrev pub subscribe : Xsub → P → Msg → Option (Bool × List ℕ) → Option (Rc × (Xsub × P))
  subscribe x p m none = some (error einval, (x, p))
  subscribe x p m (some (true, key)) = processed x p m (Trie.add key x.subscriptions)
  subscribe x p m (some (false, key)) = processed x p m (Trie.rm key x.subscriptions)

  pub xsend : Xsub × P → Msg → Option (Rc × (Xsub × P))
  xsend (x, p) m = subscribe x p m (subscription m.body)

  -- sub_t::xsetsockopt: ZMQ_SUBSCRIBE is true, ZMQ_UNSUBSCRIBE false, and none any other option.
  pub xsetsockopt : Xsub × P → Option Bool → List ℕ → Option (Rc × (Xsub × P))
  unfolding xsend
  xsetsockopt (x, p) none key = some (error einval, (x, p))
  xsetsockopt (x, p) (some subscribes) key =
      xsend (x, p) (record { flags = 0; body = (if subscribes then 1 else 0) ∷ key })

  -- sub_t::xsend
  abbrev pub sub_xsend : Xsub × P → Msg → Rc × (Xsub × P)
  sub_xsend s m = (error enotsup, s)

  -- The loop that pops the remaining parts of a message; none where recv fails.
  unfoldable pub drop_rest : ℕ → Msg → Fq → P → Option (Fq × P)
  drop_rest zero m q p = none
  drop_rest (suc n) m q p = elim (more m) [
    | false ↦ some (q, p)
    | true ↦ elim (recvpipe ps q p) [
      | none ↦ none
      | some (try_again, q1, p1) ↦ none
      | some (part m1 pipe_, q1, p1) ↦ drop_rest n m1 q1 p1
    ]
  ]

  -- The loop of xrecv and xhas_in: the next part that passes, with none where an assertion fails.
  unfoldable pub filter_loop : ℕ → Bool → Trie → Fq → P → Option (Got × Fq × P)
  unfolding drop_rest
  filter_loop zero passes t q p = none
  filter_loop (suc n) passes t q p = elim (recvpipe ps q p) [
    | none ↦ none
    | some (try_again, q1, p1) ↦ some (failed eagain, q1, p1)
    | some (part m pipe_, q1, p1) ↦ elim (if passes then some true else match_msg t m) [
      | none ↦ none
      | some true ↦ some (got m, q1, p1)
      | some false ↦ elim (drop_rest (suc (waiting p1)) m q1 p1) [
        | none ↦ none
        | some (q2, p2) ↦ filter_loop n passes t q2 p2
      ]
    ]
  ]

  abbrev pub after_filter : Xsub → Option (Got × Fq × P) → Option (Got × (Xsub × P))
  after_filter x none = none
  after_filter x (some (failed e, q, p)) = some (failed e, (record x { fq = q }, p))
  after_filter x (some (got m, q, p)) = some (got m, (record x { fq = q; more_in = more m }, p))

  -- A message that is moved away leaves an empty one.
  unfoldable pub xrecv : Xsub × P → Option (Got × (Xsub × P))
  unfolding filter_loop
  xrecv (x, p) =
      if x.has_message
      then some (
        got x.message,
        (record x { has_message = false; message = no_msg; more_in = more x.message }, p),
      )
      else after_filter x
          (filter_loop (suc (waiting p)) (x.more_in || not x.filter) x.subscriptions x.fq p)

  -- recv leaves an empty message where it fails.
  abbrev pub prefetched : Xsub → Option (Got × Fq × P) → Option (Bool × (Xsub × P))
  prefetched x none = none
  prefetched x (some (failed e, q, p)) = some (false, (record x { fq = q; message = no_msg }, p))
  prefetched x (some (got m, q, p)) =
      some (true, (record x { fq = q; has_message = true; message = m }, p))

  unfoldable pub xhas_in : Xsub × P → Option (Bool × (Xsub × P))
  unfolding filter_loop
  xhas_in (x, p) =
      if x.more_in || x.has_message
      then some (true, (x, p))
      else prefetched x (filter_loop (suc (waiting p)) (not x.filter) x.subscriptions x.fq p)

-- xsub_t::xhas_out and sub_t::xhas_out
abbrev pub xhas_out : Xsub → Bool
xhas_out x = true

abbrev pub sub_xhas_out : Xsub → Bool
sub_xhas_out x = false
