-- ===== src/Pipe/Handshake/Accepts.antt =====
-- Which words an end can take, from what its peer can have said.
use cctas.Base.{◌≡◌, refl, Bool, true, false, Option, some, List, [], ◌∷◌, ◌++◌}
use cctas.Pipe.{
  Pipe, Status, active, delimited, pending, terminating, terminated, double_terminated, tell,
  sink_terminated,
}
use cctas.Pipe.Closing.{
  process_pipe_term, process_pipe_term_in, process_pipe_term_ack, process_pipe_term_ack_in,
}
use cctas.Pipe.Handshake.Moves.{MovesIf, process_pipe_term_in-Moves, process_pipe_term_ack_in-Moves}
use cctas.Pipe.Handshake.Quiet.{before_MovesIf}
use cctas.Pipe.Handshake.{Word, term, ack, spoken, heard}

abbrev accepts : Word → Status → Bool
accepts term active = true
accepts term delimited = true
accepts term pending = false
accepts term terminating = false
accepts term terminated = true
accepts term double_terminated = false
accepts ack active = false
accepts ack delimited = false
accepts ack pending = false
accepts ack terminating = true
accepts ack terminated = true
accepts ack double_terminated = true

-- An end says ack before term only when it was asked, and nothing behind its ack.
ack_first :
    (t : Status) (c : Bool) (l : List Word)
    → spoken t c ≡ ack ∷ l
    → (l ≡ []) × ((r : List Word) → [] ≡ heard t c ++ r → ⊥)
ack_first active c l e = absurd (cc)
ack_first delimited c l e = absurd (cc)
ack_first pending c l e = absurd (cc)
ack_first terminating true l e = (cc, λ r f. absurd (cc))
ack_first terminating false l e = (cc, λ r f. absurd (cc))
ack_first terminated true l e = absurd (cc)
ack_first terminated false l e = absurd (cc)
ack_first double_terminated c l e = absurd (cc)

term_first :
    (t : Status) (c : Bool) (x : Word) (l : List Word)
    → spoken t c ≡ term ∷ x ∷ l
    → (x ≡ ack) × (l ≡ []) × ((r : List Word) → [] ≡ heard t c ++ r → ⊥)
term_first active c x l e = absurd (cc)
term_first delimited c x l e = absurd (cc)
term_first pending c x l e = absurd (cc)
term_first terminating c x l e = absurd (cc)
term_first terminated true x l e = absurd (cc)
term_first terminated false x l e = (cc, cc, λ r f. absurd (cc))
term_first double_terminated true x l e = (cc, cc, λ r f. absurd (cc))
term_first double_terminated false x l e = (cc, cc, λ r f. absurd (cc))

term_not_ack : term ≡ ack → ⊥
term_not_ack e = absurd (cc)

not_empty : (w : Word) (l : List Word) → w ∷ l ≡ [] → ⊥
not_empty w l e = absurd (cc)

-- The next word that the peer has said is one that the end can take, and the end is alive.
pub accept :
    (s : Status) (b : Bool) (t : Status) (c : Bool) (w : Word) (rest r : List Word)
    → spoken t c ≡ heard s b ++ (w ∷ rest)
    → spoken s b ≡ heard t c ++ r
    → (b ≡ true) × (accepts w s ≡ true)
accept active true t c term rest r e f = (refl, refl)
accept active true t c ack rest r e f = absurd ((ack_first t c rest e).1 r f)
accept active false t c w rest r e f = absurd (not_empty ack (w ∷ rest) (ack_first t c _ e).0)
accept delimited true t c term rest r e f = (refl, refl)
accept delimited true t c ack rest r e f = absurd ((ack_first t c rest e).1 r f)
accept delimited false t c w rest r e f = absurd (not_empty ack (w ∷ rest) (ack_first t c _ e).0)
accept pending true t c w rest r e f = absurd ((term_first t c w rest e).2 r f)
accept pending false t c w rest r e f = absurd (not_empty ack (w ∷ rest) (ack_first t c _ e).0)
accept terminating true t c term rest r e f = absurd (term_not_ack (term_first t c term rest e).0)
accept terminating true t c ack rest r e f = (refl, refl)
accept terminating false t c w rest r e f = absurd (not_empty w rest (term_first t c ack _ e).1)
accept terminated true t c term rest r e f = (refl, refl)
accept terminated true t c ack rest r e f = (refl, refl)
accept terminated false t c w rest r e f = absurd (not_empty w rest (ack_first t c _ e).0)
accept double_terminated true t c term rest r e f =
    absurd (term_not_ack (term_first t c term rest e).0)
accept double_terminated true t c ack rest r e f = (refl, refl)
accept double_terminated false t c w rest r e f =
    absurd (not_empty w rest (term_first t c ack _ e).1)

module _ {M : Type 0} where
  -- the handler of a word
  abbrev pub process : Word → Pipe M → Option (Pipe M)
  process term p = process_pipe_term p
  process ack p = process_pipe_term_ack p

  abbrev process_at : Word → Status → Pipe M → Option (Pipe M)
  process_at term s p = process_pipe_term_in s p
  process_at ack s p = process_pipe_term_ack_in s (tell sink_terminated p)

  runs :
      (w : Word) (s : Status) (p : Pipe M)
      → accepts w s ≡ true
      → (p' : Pipe M) × (process_at w s p ≡ some p')
  runs term active p h = (_, refl)
  runs term delimited p h = (_, refl)
  runs term terminated p h = (_, refl)
  runs ack terminated p h = (_, refl)
  runs ack terminating p h = (_, refl)
  runs ack double_terminated p h = (_, refl)
  runs term pending p h = absurd (cc)
  runs term terminating p h = absurd (cc)
  runs term double_terminated p h = absurd (cc)
  runs ack active p h = absurd (cc)
  runs ack delimited p h = absurd (cc)
  runs ack pending p h = absurd (cc)

  -- A handler that can take its word fails no assertion.
  pub process_runs :
      (w : Word) (p : Pipe M) → accepts w p.state ≡ true → (p' : Pipe M) × (process w p ≡ some p')
  unfolding process_pipe_term process_pipe_term_ack
  process_runs term p h = runs term p.state p h
  process_runs ack p h = runs ack p.state p h

  -- What a handler of a word does to the handshake.
  pub process-MovesIf : (w : Word) (p : Pipe M) → p.alive ≡ true → MovesIf p (w ∷ []) (process w p)
  unfolding process_pipe_term process_pipe_term_ack
  process-MovesIf term p live = process_pipe_term_in-Moves p.state p refl live
  process-MovesIf ack p live =
      let p1 = tell sink_terminated p in
      before_MovesIf p p1 (ack ∷ []) (process_pipe_term_ack_in p.state p1) refl refl refl
        (process_pipe_term_ack_in-Moves p.state p1 refl live)
