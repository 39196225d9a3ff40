-- ===== src/Message/Runs.antt =====
-- msg.cpp: the states that a program's calls lead to.
use cctas.Base.{
  ℕ, zero, suc, ◌<◌, ◌≡◌, ◌≢◌, refl, subst, false, none, some, List, [], ◌∷◌, get_elem?, arith,
}
use cctas.Message.{Message, Rc, lmsg, invalid, is_lmsg, data_of, size_of, no_flags}
use cctas.Message.Store.{Store}
use cctas.Message.Totals.{total}
use cctas.Message.Counted.{holds, holds_shared, holds_null, is_freed, IsCounted, Keeps}
use cctas.Message.Calls.{Call, run, Allowed, run-Keeps}
use cctas.Message.Closing.{content_lem}

-- n messages before the first call, when nothing is allocated
abbrev pub raw : Message
raw = record { kind = invalid; flags = no_flags; size = 0; inline = []; content = none }

abbrev pub raws : ℕ → List Message
raws zero = []
raws (suc n) = raw ∷ raws n

abbrev pub start_of : ℕ → Store
start_of n = record {
  messages = raws n;
  heap = record { contents = λ p. none; next = 0; freed = [] };
}

abbrev pub nothing_ahead : ℕ → ℕ
nothing_ahead p = 0

pub data Reachable (n : ℕ) : (ℕ → ℕ) → Store → Type 0 where
  at_start : Reachable n nothing_ahead (start_of n)
  after :
      {ahead next : ℕ → ℕ} {s s1 : Store} {c : Call} {rc : Rc}
      → Reachable n ahead s
      → Allowed ahead s c next
      → run c s ≡ some (rc, s1)
      → Reachable n next s1

raws-lacks : (f : Message → ℕ) → f raw ≡ 0 → (n : ℕ) → total f (raws n) ≡ 0
unfolding total
raws-lacks f z zero = refl
raws-lacks f z (suc n) = omega (arith, z, raws-lacks f z n)

start_of-IsCounted : (n : ℕ) → IsCounted nothing_ahead (start_of n)
unfolding total
start_of-IsCounted n = record {
  counted = λ p. (raws-lacks (holds p) refl n, raws-lacks (holds_shared p) refl n, refl);
  pointed = raws-lacks holds_null refl n;
  fresh = λ p h. refl;
  freed_once = λ p. ground arith;
}

pub Reachable-IsCounted :
    {n : ℕ} {ahead : ℕ → ℕ} {s : Store} → Reachable n ahead s → IsCounted ahead s
Reachable-IsCounted {n = n} at_start = start_of-IsCounted n
Reachable-IsCounted (after {next = next} r ok eq) =
    subst (Keeps next) eq (run-Keeps (Reachable-IsCounted r) ok)

-- After any allowed calls the next allowed one does not fault, and leaves each allocated content
-- either to one message that is not shared, or with a count of the messages that point to it and
-- of the references made ahead; each address was freed once if it is no longer allocated, and else
-- never.
pub run-Reachable :
    {n : ℕ} {ahead next : ℕ → ℕ} {s : Store} {c : Call}
    → Reachable n ahead s
    → Allowed ahead s c next
    → Keeps next (run c s)
run-Reachable r ok = run-Keeps (Reachable-IsCounted r) ok

lacks :
    (p : ℕ) (ms : List Message)
    → ((i : ℕ) (m : Message) → get_elem? ms i ≡ some m → is_lmsg m.kind ≡ false)
    → total (holds p) ms ≡ 0
unfolding total
lacks p [] no_long = refl
lacks p (m ∷ ms) no_long =
    ground (arith, no_long 0 m refl, lacks p ms (λ i x e. no_long (suc i) x e))

module _ {n : ℕ} {ahead : ℕ → ℕ} {s : Store} (r : Reachable n ahead s) where
  -- The data and the size of a long message can be read after any allowed calls: its content was
  -- not freed.
  pub data_of-Reachable :
      (i : ℕ) (m : Message)
      → get_elem? s.messages i ≡ some m
      → m.kind ≡ lmsg
      → (data_of m s.heap ≢ none)
        × (size_of m s.heap ≢ none)
        × (p : ℕ) × (m.content ≡ some p)
        × (total (is_freed p) s.heap.freed ≡ 0)
  unfolding data_of size_of
  data_of-Reachable i m e l =
      let v : IsCounted ahead s = Reachable-IsCounted r in
      let (p, c, at, live) = content_lem v i m e l in
      (ground arith, ground arith, p, at, ground (arith, v.freed_once p))

  -- When no message is long and no reference is made ahead, no content is left, and each one was
  -- freed once.
  pub freed-Reachable :
      ((i : ℕ) (m : Message) → get_elem? s.messages i ≡ some m → is_lmsg m.kind ≡ false)
      → ((p : ℕ) → ahead p ≡ 0)
      → (p : ℕ) → p < s.heap.next
      → (s.heap.contents p ≡ none) × (total (is_freed p) s.heap.freed ≡ 1)
  freed-Reachable none_long none_ahead p lt =
      let v : IsCounted ahead s = Reachable-IsCounted r in
      ground (arith, v.counted p, v.freed_once p, none_ahead p, lacks p s.messages none_long)
