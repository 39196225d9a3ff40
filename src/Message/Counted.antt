-- ===== src/Message/Counted.antt =====
-- The invariant behind the shared contents of messages: each allocated content is either one
-- message's, or its count is the number of the messages that point to it and of the references
-- that add_refs has made ahead of them.
use cctas.Base.{
  ℕ, ◌+◌, ◌^◌, ◌==◌, ◌≤◌, ◌<◌, ◌≡◌, subst, ◌⊎◌, Bool, true, false, ◌&&◌, ltb, Option, none, some,
}
use mathlib.Core.Path.{fun_ext}
use cctas.Message.{Message, Content, Freed, freed, is_lmsg}
use cctas.Message.Store.{Store}
use cctas.Message.Totals.{total}

-- whether a pointer is this address
abbrev pub points_at : ℕ → Option ℕ → Bool
points_at p none = false
points_at p (some q) = q == p

abbrev pub number : Bool → ℕ
number true = 1
number false = 0

-- whether a message points to a content, and does so as a shared message; whether it is a long
-- message that points to nothing
abbrev pub holds : ℕ → Message → ℕ
holds p m = number (is_lmsg m.kind && points_at p m.content)

abbrev pub holds_shared : ℕ → Message → ℕ
holds_shared p m = number ((is_lmsg m.kind && points_at p m.content) && m.flags.shared)

abbrev pub lacks_content : Option ℕ → Bool
lacks_content none = true
lacks_content (some p) = false

abbrev pub holds_null : Message → ℕ
holds_null m = number (is_lmsg m.kind && lacks_content m.content)

-- how often an address was freed
abbrev pub is_freed : ℕ → Freed → ℕ
is_freed p (freed q place ffn hint) = number (q == p)

-- A content, the messages that point to it, those that do so as shared ones, and the references
-- made ahead.
abbrev pub CountedAs : Option Content → ℕ → ℕ → ℕ → Type 0
CountedAs none refs shared ahead = (refs ≡ 0) × (shared ≡ 0) × (ahead ≡ 0)
CountedAs (some c) refs shared ahead =
    ((refs ≡ 1) × (shared ≡ 0) × (ahead ≡ 0))
    ⊎ ((0 < refs + ahead) × (shared ≡ refs) × (c.refcnt ≡ refs + ahead) × (refs + ahead < 2 ^ 32))

abbrev pub is_none : Option Content → Bool
is_none none = true
is_none (some c) = false

pub record IsCounted (ahead : ℕ → ℕ) (s : Store) : Type 0 where
  pub counted :
      (p : ℕ)
      → CountedAs
          (s.heap.contents p)
          (total (holds p) s.messages)
          (total (holds_shared p) s.messages)
          (ahead p)
  pub pointed : total holds_null s.messages ≡ 0
  pub fresh : (p : ℕ) → s.heap.next ≤ p → s.heap.contents p ≡ none
  pub freed_once :
      (p : ℕ)
      → total (is_freed p) s.heap.freed ≡ number (ltb p s.heap.next && is_none (s.heap.contents p))

-- what is to hold of a call: it does not fault, and the counts are right after it
abbrev pub Keeps : {A : Type 0} → (ℕ → ℕ) → Option (A × Store) → Type 0
Keeps ahead none = ⊥
Keeps ahead (some (a, s)) = IsCounted ahead s

pub IsCounted-congr :
    {a b : ℕ → ℕ} {s : Store} → ((p : ℕ) → a p ≡ b p) → IsCounted a s → IsCounted b s
IsCounted-congr {s = s} eq v = subst (λ (f : ℕ → ℕ). IsCounted f s) (fun_ext eq) v

pub Keeps-congr :
    {A : Type 0} {a b : ℕ → ℕ} (o : Option (A × Store))
    → ((p : ℕ) → a p ≡ b p)
    → Keeps a o
    → Keeps b o
Keeps-congr none eq v = v
Keeps-congr (some (x, s)) eq v = IsCounted-congr eq v
