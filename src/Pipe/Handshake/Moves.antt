-- ===== src/Pipe/Handshake/Moves.antt =====
-- What each handler of pipe_t does to the handshake.
use cctas.Base.{
  ◌≡◌, sym, true, Option, none, some, List, [], ◌∷◌, ◌++◌, append-nil, Bool-cases, inl, inr, arith,
}
use cctas.Pipe.{
  Pipe, Status, active, delimited, pending, terminating, terminated, double_terminated,
  pipe_term_ack,
}
use cctas.Pipe.Reading.{delimit_in}
use cctas.Pipe.Closing.{process_pipe_term_in, process_pipe_term_ack_in}
use cctas.Pipe.Handshake.{Word, term, ack, words, words-append, spoken, heard}

-- A handler that takes the words `ws` from the peer and says some more.
pub record Moves {M : Type 0} (p : Pipe M) (ws : List Word) (p' : Pipe M) : Type 0 where
  pub more : List Word
  pub says : words p'.sent ≡ words p.sent ++ more
  pub speaks : spoken p'.state p'.alive ≡ spoken p.state p.alive ++ more
  pub hears : heard p'.state p'.alive ≡ heard p.state p.alive ++ ws

-- The same for a handler that may fail an assertion.
abbrev pub MovesIf : {M : Type 0} → Pipe M → List Word → Option (Pipe M) → Type 0
MovesIf p ws none = Unit
MovesIf p ws (some p') = Moves p ws p'

module _ {M : Type 0} where
  pub process_pipe_term_in-Moves :
      (s : Status) (p : Pipe M)
      → p.state ≡ s
      → p.alive ≡ true
      → MovesIf p (term ∷ []) (process_pipe_term_in s p)
  process_pipe_term_in-Moves active p e live = elim (Bool-cases p.delay) [
    | inl late ↦ rw late (record {
      more = [];
      says = sym (append-nil (words p.sent));
      speaks = ground (arith, e, live);
      hears = ground (arith, e, live);
    })
    | inr now ↦ rw now (record {
      more = ack ∷ [];
      says = words-append p.sent (pipe_term_ack ∷ []);
      speaks = ground (arith, e, live);
      hears = ground (arith, e, live);
    })
  ]
  process_pipe_term_in-Moves delimited p e live = record {
    more = ack ∷ [];
    says = words-append p.sent (pipe_term_ack ∷ []);
    speaks = ground (arith, e, live);
    hears = ground (arith, e, live);
  }
  process_pipe_term_in-Moves terminated p e live = record {
    more = ack ∷ [];
    says = words-append p.sent (pipe_term_ack ∷ []);
    speaks = ground (arith, e, live);
    hears = ground (arith, e, live);
  }
  process_pipe_term_in-Moves pending p e live = tt
  process_pipe_term_in-Moves terminating p e live = tt
  process_pipe_term_in-Moves double_terminated p e live = tt

  pub process_pipe_term_ack_in-Moves :
      (s : Status) (p : Pipe M)
      → p.state ≡ s
      → p.alive ≡ true
      → MovesIf p (ack ∷ []) (process_pipe_term_ack_in s p)
  process_pipe_term_ack_in-Moves terminated p e live = record {
    more = ack ∷ [];
    says = words-append p.sent (pipe_term_ack ∷ []);
    speaks = ground (arith, e, live);
    hears = ground (arith, e, live);
  }
  process_pipe_term_ack_in-Moves terminating p e live = record {
    more = [];
    says = sym (append-nil (words p.sent));
    speaks = ground (arith, e, live);
    hears = ground (arith, e, live);
  }
  process_pipe_term_ack_in-Moves double_terminated p e live = record {
    more = [];
    says = sym (append-nil (words p.sent));
    speaks = ground (arith, e, live);
    hears = ground (arith, e, live);
  }
  process_pipe_term_ack_in-Moves active p e live = tt
  process_pipe_term_ack_in-Moves delimited p e live = tt
  process_pipe_term_ack_in-Moves pending p e live = tt

  pub delimit_in-Moves :
      (s : Status) (p : Pipe M) → p.state ≡ s → p.alive ≡ true → MovesIf p [] (delimit_in s p)
  delimit_in-Moves active p e live = record {
    more = [];
    says = sym (append-nil (words p.sent));
    speaks = ground (arith, e, live);
    hears = ground (arith, e, live);
  }
  delimit_in-Moves pending p e live = record {
    more = ack ∷ [];
    says = words-append p.sent (pipe_term_ack ∷ []);
    speaks = ground (arith, e, live);
    hears = ground (arith, e, live);
  }
  delimit_in-Moves delimited p e live = tt
  delimit_in-Moves terminating p e live = tt
  delimit_in-Moves terminated p e live = tt
  delimit_in-Moves double_terminated p e live = tt
