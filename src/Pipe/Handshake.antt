-- ===== src/Pipe/Handshake.antt =====
-- The handshake by which the two ends of a pipe end: the commands pipe_term and pipe_term_ack.
pub mod Moves
pub mod Quiet
pub mod Ending
pub mod Accepts
pub mod Pair
mod Tests
use cctas.Base.{ℕ, ◌≡◌, Bool, true, false, List, [], ◌∷◌, ◌++◌, refl, ap}
use cctas.Pipe.{
  Pipe, Status, active, delimited, pending, terminating, terminated, double_terminated, Command,
  activate_read, activate_write, hiccup_to, pipe_term, pipe_term_ack,
}

pub data Word : Type 0 where
  term ack : Word

abbrev pub words_of : {M : Type 0} → Command M → List Word
words_of activate_read = []
words_of (activate_write n) = []
words_of (hiccup_to q) = []
words_of pipe_term = term ∷ []
words_of pipe_term_ack = ack ∷ []

-- The words among some commands.
abbrev pub words : {M : Type 0} → List (Command M) → List Word
words [] = []
words (c ∷ cs) = words_of c ++ words cs

pub words-append : {M : Type 0} (xs ys : List (Command M)) → words (xs ++ ys) ≡ words xs ++ words ys
words-append [] ys = refl
words-append (activate_read ∷ xs) ys = words-append xs ys
words-append (activate_write n ∷ xs) ys = words-append xs ys
words-append (hiccup_to q ∷ xs) ys = words-append xs ys
words-append (pipe_term ∷ xs) ys = ap (λ l. term ∷ l) (words-append xs ys)
words-append (pipe_term_ack ∷ xs) ys = ap (λ l. ack ∷ l) (words-append xs ys)

-- What an end in a state has said to its peer, and heard from it; the flag is `alive`. No end is
-- deleted in its first three states, which the two acks that no peer says stand for.
abbrev pub spoken : Status → Bool → List Word
spoken active b = []
spoken delimited b = []
spoken pending b = []
spoken terminating b = ack ∷ []
spoken terminated true = term ∷ []
spoken terminated false = term ∷ ack ∷ []
spoken double_terminated b = term ∷ ack ∷ []

abbrev pub heard : Status → Bool → List Word
heard active true = []
heard active false = ack ∷ ack ∷ []
heard delimited true = []
heard delimited false = ack ∷ ack ∷ []
heard pending true = term ∷ []
heard pending false = ack ∷ ack ∷ []
heard terminating true = term ∷ []
heard terminating false = term ∷ ack ∷ []
heard terminated true = []
heard terminated false = ack ∷ []
heard double_terminated true = term ∷ []
heard double_terminated false = term ∷ ack ∷ []
