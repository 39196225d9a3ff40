-- ===== src/Mtrie.antt =====
-- mtrie.cpp and mtrie.hpp: mtrie_t, which has a set of pipes at each key. A pipe is a number, by which
-- the sets are ordered as by its address; none is the NULL that a node holds without a set.
pub mod Add
pub mod Match
pub mod Sets
pub mod Prune
pub mod Leave
pub mod Leaving
pub mod Remove
mod Tests
use cctas.Base.{
  ℕ, zero, suc, ◌+◌, ◌-◌, ◌==◌, ltb, leb, Bool, true, false, not, ◌&&◌, ◌||◌, Option, none, some,
  List, [], ◌∷◌, ◌++◌, if◌then◌else◌,
}
use cctas.Tables.{
  Node, node, Slots, nil, null, ptr, count, slot, set_slot, outside, extend, add_with, first_ptr,
  end_ptr, take_slots, drop_slots,
}
use cctas.Tables.Load.{load}

abbrev pub Pipes : Type 0
Pipes = Option (List ℕ)

abbrev pub Mtrie : Type 0
Mtrie = Node Pipes

-- the constructor mtrie_t ()
abbrev pub empty : Mtrie
empty = node none 0 0 nil

-- std::set::insert, and erase with whether there was such a pipe
unfoldable pub insert : ℕ → List ℕ → List ℕ
insert x [] = x ∷ []
insert x (y ∷ ys) =
    let later = y ∷ insert x ys in if x == y then y ∷ ys else if ltb x y then x ∷ y ∷ ys else later

unfoldable pub erase : ℕ → List ℕ → List ℕ
erase x [] = []
erase x (y ∷ ys) = if x == y then ys else y ∷ erase x ys

unfoldable pub has : ℕ → List ℕ → Bool
has x [] = false
has x (y ∷ ys) = (x == y) || has x ys

abbrev pub is_empty : List ℕ → Bool
is_empty [] = true
is_empty (x ∷ xs) = false

-- what add_helper does at the node of the prefix
unfoldable pub add_pipe : ℕ → Pipes → Bool × Pipes
unfolding insert
add_pipe x none = (true, some (x ∷ []))
add_pipe x (some xs) = (false, some (insert x xs))

-- add and add_helper: whether the prefix is new, and the trie. No assertion stands there.
abbrev pub unchecked : ℕ → ℕ → Bool
unchecked n live = true

unfoldable pub add : List ℕ → ℕ → Mtrie → Option (Bool × Mtrie)
unfolding add_with extend add_pipe
add prefix x = add_with none unchecked (add_pipe x) prefix

-- is_redundant
abbrev pub is_null : Pipes → Bool
is_null none = true
is_null (some xs) = false

abbrev pub is_redundant : Mtrie → Bool
is_redundant (node pipes low live s) = is_null pipes && (live == 0)

-- a node with the part of its table that has n slots from slot i on
abbrev pub narrowed : {A : Type 0} → A → ℕ → ℕ → Slots A → ℕ → ℕ → Node A
narrowed a low live s i n = node a (low + i) live (take_slots n (drop_slots i s))

-- The compaction in rm_helper after the slot of c was emptied; none where a zmq_assert fails.
unfoldable pub compact : ℕ → Pipes → ℕ → ℕ → Slots Pipes → Option Mtrie
compact c pipes low live s =
    if live == 1
    then if ltb (first_ptr s) (count s)
      then some (narrowed pipes low live s (first_ptr s) 1)
      else none
    else if c == low
    then if ltb (first_ptr s) (count s)
      then some (narrowed pipes low live s (first_ptr s) (count s - first_ptr s))
      else none
    else if c + 1 == low + count s
    then if ltb 0 (end_ptr s) then some (narrowed pipes low live s 0 (end_ptr s)) else none
    else some (node pipes low live s)

-- the end of a redundant child in rm_helper
unfoldable pub prune : ℕ → Pipes → ℕ → ℕ → Slots Pipes → Option Mtrie
unfolding compact
prune c pipes low live s =
    if count s == 1
    then if live == 1 then some (node pipes low 0 nil) else none
    else if ltb 1 live
    then compact c pipes low (live - 1) (set_slot s (c - low) none)
    else none

abbrev pub with_flag : Bool → Option Mtrie → Option (Bool × Mtrie)
with_flag ret none = none
with_flag ret (some t) = some (ret, t)

abbrev pub after_rm :
    ℕ → Pipes → ℕ → ℕ → Slots Pipes → Option (Bool × Mtrie) → Option (Bool × Mtrie)
after_rm c pipes low live s none = none
after_rm c pipes low live s (some (ret, t)) =
    if is_redundant t
    then with_flag ret (prune c pipes low live s)
    else some (ret, node pipes low live (set_slot s (c - low) (some t)))

-- rm_helper at the node of the prefix: erased must be 1.
unfoldable pub rm_here : ℕ → Pipes → Option (Bool × Pipes)
unfolding has erase
rm_here x none = some (true, none)
rm_here x (some xs) =
    if has x xs
    then if is_empty (erase x xs) then some (true, none) else some (false, some (erase x xs))
    else none

abbrev pub rm_at_end : ℕ → ℕ → Slots Pipes → Option (Bool × Pipes) → Option (Bool × Mtrie)
rm_at_end low live s none = none
rm_at_end low live s (some (ret, pipes)) = some (ret, node pipes low live s)

-- rm with a prefix, and its rm_helper: whether the prefix is gone, and the trie
unfoldable pub rm : List ℕ → ℕ → Mtrie → Option (Bool × Mtrie)
unfolding prune rm_here
rm [] x (node pipes low live s) = rm_at_end low live s (rm_here x pipes)
rm (c ∷ cs) x (node pipes low live s) =
    if outside c low s then some (false, node pipes low live s) else elim (slot s (c - low)) [
      | none ↦ some (false, node pipes low live s)
      | some t ↦ after_rm c pipes low live s (rm cs x t)
    ]

-- match: the pipes that the function is called with, in order; none where a lone pointer is NULL.
abbrev pub members : Pipes → List ℕ
members none = []
members (some xs) = xs

abbrev pub and_then : List ℕ → Option (List ℕ) → Option (List ℕ)
and_then xs none = none
and_then xs (some ys) = some (xs ++ ys)

unfoldable pub matches : List ℕ → Mtrie → Option (List ℕ)
matches [] (node pipes low live s) = some (members pipes)
matches (c ∷ cs) (node pipes low live s) = and_then (members pipes) (
    if outside c low s then some [] else elim (slot s (c - low)) [
      | none ↦ if count s == 1 then none else some []
      | some t ↦ matches cs t
    ])

-- rm with a pipe, and its rm_helper: the keys that the function is called with, in order, and the
-- trie. At a node, whether the last pipe of its set went, and its set:
unfoldable pub leave : ℕ → Pipes → Bool × Pipes
unfolding has erase
leave x none = (false, none)
leave x (some xs) =
    if has x xs && is_empty (erase x xs) then (true, none) else (false, some (erase x xs))

abbrev pub called : Bool → List ℕ → List (List ℕ)
called true buff = buff ∷ []
called false buff = []

-- what the compaction after the loop makes of the table, in which `new_min` and `new_max` are the
-- places of the first and the last node; none where an assertion fails
unfoldable pub shrink : Pipes → ℕ → ℕ → Slots Pipes → Option Mtrie
shrink pipes low live s =
    if live == 0
    then some (node pipes low 0 nil)
    else if live == 1
    then if first_ptr s + 1 == end_ptr s
      then some (narrowed pipes low live s (first_ptr s) 1)
      else none
    else if ltb 0 (first_ptr s) || ltb (end_ptr s) (count s)
    then if ltb 1 (end_ptr s - first_ptr s)
      then some (narrowed pipes low live s (first_ptr s) (end_ptr s - first_ptr s))
      else none
    else some (node pipes low live s)

-- The table after the children were visited, n of which were pruned.
unfoldable pub finish : Pipes → ℕ → ℕ → ℕ → Slots Pipes → Option Mtrie
unfolding shrink
finish pipes low live n s =
    if count s == 0
    then some (node pipes low live s)
    else if count s == 1
    then if n == 0
      then some (node pipes low live s)
      else if live == 1
      then some (node pipes low 0 nil)
      else none
    else if leb n live
    then shrink pipes low (live - n) s
    else none

abbrev pub Visited : Type 0
Visited = List (List ℕ) × ℕ × Slots Pipes

abbrev pub visit : Option (List (List ℕ) × Mtrie) → Option Visited → Option Visited
visit none rest = none
visit (some (keys, t)) none = none
visit (some (keys, t)) (some (more, n, s)) =
    if is_redundant t then some (keys ++ more, n + 1, null s) else some (keys ++ more, n, ptr t s)

abbrev pub visit_null : Option Visited → Option Visited
visit_null none = none
visit_null (some (keys, n, s)) = some (keys, n, null s)

abbrev pub keyed : List (List ℕ) → Option Mtrie → Option (List (List ℕ) × Mtrie)
keyed keys none = none
keyed keys (some t) = some (keys, t)

abbrev pub after_visit :
    List (List ℕ) → Pipes → ℕ → ℕ → Option Visited → Option (List (List ℕ) × Mtrie)
after_visit keys pipes low live none = none
after_visit keys pipes low live (some (more, n, s)) =
    keyed (keys ++ more) (finish pipes low live n s)

-- A lone pointer is followed without a test.
abbrev pub lone_null : Slots Pipes → Bool
lone_null nil = false
lone_null (ptr t s) = false
lone_null (null s) = count s == 0

unfoldable mutual
  unfolding leave finish

  pub rm_pipe : ℕ → List ℕ → Mtrie → Option (List (List ℕ) × Mtrie)
  rm_pipe x buff (node pipes low live s) =
      if lone_null s
      then none
      else after_visit (called (leave x pipes).0 buff) (leave x pipes).1 low live
          (rm_slots x buff low s)

  pub rm_slots : ℕ → List ℕ → ℕ → Slots Pipes → Option Visited
  rm_slots x buff c nil = some ([], 0, nil)
  rm_slots x buff c (null s) = visit_null (rm_slots x buff (c + 1) s)
  rm_slots x buff c (ptr t s) = visit (rm_pipe x (buff ++ (c ∷ [])) t) (rm_slots x buff (c + 1) s)
