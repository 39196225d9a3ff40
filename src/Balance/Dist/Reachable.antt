-- ===== src/Balance/Dist/Reachable.antt =====
-- The states of dist_t that a socket can bring about, whatever the pipes answer.
use cctas.Base.{ℕ, ◌≤◌, ◌≡◌, ◌≢◌, false, some, get_elem?}
use cctas.Array.{index}
use cctas.Array.Wf.{Stored}
use cctas.Balance.{Pipes}
use cctas.Balance.Dist.{
  Dist, dist, attach, match_pipe, unmatch, terminated, activated, send_to_matching, send_to_all,
}

module _ {P M : Type 0} (ps : Pipes P M) where
  -- One call. A socket attaches a pipe once, matches between two messages, reports that a pipe has
  -- room only if a write gave it up before, and reports the end of a pipe that it has.
  pub data Call (d : Dist) : Dist → Type 0 where
    attaches : (x : ℕ) → ((i : ℕ) → get_elem? d.pipes.items i ≢ some x) → Call d (attach d x)
    activates : (x : ℕ) → Stored d.pipes x → d.eligible ≤ index d.pipes x → Call d (activated d x)
    terminates : (x : ℕ) → Stored d.pipes x → Call d (terminated d x)
    matches : (x : ℕ) → d.more ≡ false → Call d (match_pipe d x)
    unmatches : Call d (unmatch d)
    sends_to_matching : (p : P) (m : M) → Call d (send_to_matching ps d p m).0
    sends_to_all : (p : P) (m : M) → Call d (send_to_all ps d p m).0

  pub data Reachable : Dist → Type 0 where
    fresh : Reachable dist
    calls : {d d' : Dist} → Reachable d → Call d d' → Reachable d'
