-- ===== src/Sockets/Router.antt =====
-- router.cpp: router_t, which tells its user where a message comes from and sends a message to the
-- pipe that its first part names. Sending and receiving are in Sending and Receiving, the pipes
-- that come and go in Peers.
pub mod Sending
pub mod Receiving
pub mod Peers
pub mod Routing
pub mod Drains
pub mod Fetching
use cctas.Base.{
  ℕ, zero, suc, ◌-◌, Bool, true, false, ◌&&◌, ◌==◌, if◌then◌else◌, Option, none, some, List, [],
  ◌∷◌,
}
use cctas.Framing.{Msg}
use cctas.Balance.{Pipes}
use cctas.Balance.Fq
use cctas.Balance.Fq.{Fq}

-- outpipe_t
pub record Outpipe : Type 0 where
  pub pipe : ℕ
  pub active : Bool

-- `outpipes` has the identities in no order; current_out is none for NULL.
pub record Router : Type 0 where
  pub fq : Fq
  pub prefetched : Bool
  pub identity_sent : Bool
  pub prefetched_id : Msg
  pub prefetched_msg : Msg
  pub more_in : Bool
  pub anonymous_pipes : List ℕ
  pub outpipes : List (List ℕ × Outpipe)
  pub current_out : Option ℕ
  pub more_out : Bool
  pub next_peer_id : ℕ
  pub mandatory : Bool

-- What router_t calls of pipe_t beside the calls of the balancers.
pub record PeerPipes (P : Type 0) : Type 0 where
  pub pipes : Pipes P Msg
  pub get_identity : P → ℕ → List ℕ
  pub set_identity : P → ℕ → List ℕ → P
  pub rollback : P → ℕ → P
  pub waiting : P → ℕ

abbrev pub no_msg : Msg
no_msg = record { flags = 0; body = [] }

-- the constructor; `random` is what generate_random gives
unfoldable pub router : ℕ → Router
router random = record {
  fq = Fq.fq;
  prefetched = false;
  identity_sent = false;
  prefetched_id = no_msg;
  prefetched_msg = no_msg;
  more_in = false;
  anonymous_pipes = [];
  outpipes = [];
  current_out = none;
  more_out = false;
  next_peer_id = random;
  mandatory = false;
}

-- equality of two identities
abbrev pub is_same : List ℕ → List ℕ → Bool
is_same [] [] = true
is_same [] (y ∷ ys) = false
is_same (x ∷ xs) [] = false
is_same (x ∷ xs) (y ∷ ys) = (x == y) && is_same xs ys

-- outpipes.find
unfoldable pub find : List ℕ → List (List ℕ × Outpipe) → Option Outpipe
find k [] = none
find k ((k', o) ∷ os) = if is_same k k' then some o else find k os

-- outpipes.erase
unfoldable pub erase_out : List ℕ → List (List ℕ × Outpipe) → List (List ℕ × Outpipe)
erase_out k [] = []
erase_out k ((k', o) ∷ os) = if is_same k k' then os else (k', o) ∷ erase_out k os

-- it->second.active = value, for the entry of an identity
unfoldable pub set_active : List ℕ → Bool → List (List ℕ × Outpipe) → List (List ℕ × Outpipe)
set_active k value [] = []
set_active k value ((k', o) ∷ os) =
    if is_same k k' then (k', record o { active = value }) ∷ os else (k', o) ∷ set_active k value os
