-- ===== src/Sockets/Router/Peers.antt =====
-- router.cpp: the pipes that come and go, and the identities of their peers.
use cctas.Base.{
  ℕ, ◌+◌, ◌%◌, ◌^◌, ◌==◌, Bool, true, false, if◌then◌else◌, Option, none, some, List, [], ◌∷◌,
}
use cctas.Framing.{Msg}
use cctas.Wire.{put_uint32}
use cctas.Balance.Fq
use cctas.Sockets.{is_empty}
use cctas.Sockets.Router.{Outpipe, Router, PeerPipes, find, erase_out}

-- anonymous_pipes.find and erase
abbrev pub is_in : ℕ → List ℕ → Bool
is_in x [] = false
is_in x (y ∷ ys) = if x == y then true else is_in x ys

abbrev pub erase_pipe : ℕ → List ℕ → List ℕ
erase_pipe x [] = []
erase_pipe x (y ∷ ys) = if x == y then ys else y ∷ erase_pipe x ys

module _ {P : Type 0} (ps : PeerPipes P) where
  abbrev pub add_peer : Router → P → ℕ → List ℕ → Router × P
  add_peer r p x k = (
    record r { outpipes = (k, record { pipe = x; active = true }) ∷ r.outpipes },
    ps.set_identity p x k,
  )

  -- an identity that router_t makes up
  abbrev pub generated : Router → List ℕ
  generated r = 0 ∷ put_uint32 r.next_peer_id

  -- identify_peer by what pipe_->read gives; none where zmq_assert (ok) fails
  abbrev pub identify : Router → P → ℕ → Option Msg → Option (Bool × (Router × P))
  identify r p x none = some (false, (r, p))
  identify r p x (some m) =
      if is_empty m
      then (elim (find (generated r) r.outpipes) [
        | some o ↦ none
        | none ↦ some (
          true,
          add_peer (record r { next_peer_id = (r.next_peer_id + 1) % 2 ^ 32 }) p x (generated r),
        )
      ])
      else (elim (find m.body r.outpipes) [
        | some o ↦ some (false, (r, p))
        | none ↦ some (true, add_peer r p x m.body)
      ])

  pub identify_peer : Router → P → ℕ → Option (Bool × (Router × P))
  identify_peer r p x = let (o, p1) = ps.pipes.read p x in identify r p1 x o

  abbrev pub attached : ℕ → Option (Bool × (Router × P)) → Option (Router × P)
  attached x none = none
  attached x (some (true, (r, p))) = some (record r { fq = Fq.attach r.fq x }, p)
  attached x (some (false, (r, p))) = some (record r { anonymous_pipes = x ∷ r.anonymous_pipes }, p)

  pub xattach_pipe : Router → P → ℕ → Option (Router × P)
  xattach_pipe r p x = attached x (identify_peer r p x)

  abbrev pub named : ℕ → Option (Bool × (Router × P)) → Option (Router × P)
  named x none = none
  named x (some (true, (r, p))) =
      some (record r { anonymous_pipes = erase_pipe x r.anonymous_pipes; fq = Fq.attach r.fq x }, p)
  named x (some (false, (r, p))) = some (r, p)

  pub xread_activated : Router → P → ℕ → Option (Router × P)
  xread_activated r p x =
      if is_in x r.anonymous_pipes
      then named x (identify_peer r p x)
      else some (record r { fq = Fq.activated r.fq x }, p)

  -- current_out without a pipe that has ended
  abbrev pub unless_gone : ℕ → Option ℕ → Option ℕ
  unless_gone x none = none
  unless_gone x (some y) = if x == y then none else some y

  -- none where the assertion fails that the pipe is known
  pub xterminated : Router → P → ℕ → Option Router
  xterminated r p x =
      if is_in x r.anonymous_pipes
      then some (record r { anonymous_pipes = erase_pipe x r.anonymous_pipes })
      else (elim (find (ps.get_identity p x) r.outpipes) [
        | none ↦ none
        | some o ↦ some (record r {
          outpipes = erase_out (ps.get_identity p x) r.outpipes;
          fq = Fq.terminated r.fq x;
          current_out = unless_gone x r.current_out;
        })
      ])

-- The entry of a pipe, whose `active` has to be false, made active; none where an assertion fails.
abbrev pub activate : ℕ → List (List ℕ × Outpipe) → Option (List (List ℕ × Outpipe))
activate x [] = none
activate x ((k, o) ∷ os) =
    if x == o.pipe
    then (if o.active then none else some ((k, record o { active = true }) ∷ os))
    else (elim (activate x os) [ none ↦ none | some os' ↦ some ((k, o) ∷ os') ])

pub xwrite_activated : Router → ℕ → Option Router
xwrite_activated r x = elim (activate x r.outpipes) [
  | none ↦ none
  | some os ↦ some (record r { outpipes = os })
]
