-- ===== src/Trie.antt =====
-- trie.cpp and trie.hpp: trie_t, the counted set of a socket's subscriptions. A node holds its count.
pub mod Add
pub mod Check
mod Trim
mod Prune
mod Waste
pub mod Remove
pub mod Apply
mod Tests
use cctas.Base.{
  ℕ, zero, suc, ◌+◌, ◌-◌, ◌%◌, ◌^◌, ◌==◌, ltb, leb, Bool, true, false, not, ◌&&◌, ◌||◌, Option,
  none, some, List, [], ◌∷◌, ◌++◌, if◌then◌else◌,
}
use cctas.Tables.{
  Node, node, Slots, nil, null, ptr, count, slot, set_slot, outside, extend, add_with,
}
use cctas.Tables.Load.{load}

abbrev pub Trie : Type 0
Trie = Node ℕ

-- the constructor trie_t ()
abbrev pub empty : Trie
empty = node 0 0 0 nil

-- The assertions of add after a node was made.
abbrev pub live_holds : ℕ → ℕ → Bool
live_holds n live = if n == 1 then live == 1 else ltb 1 live

-- refcnt is a uint32_t.
abbrev pub count_one : ℕ → Bool × ℕ
count_one refcnt = ((refcnt + 1) % 2 ^ 32 == 1, (refcnt + 1) % 2 ^ 32)

-- add: whether the prefix is new, and the trie. The result is none where a zmq_assert fails.
unfoldable pub add : List ℕ → Trie → Option (Bool × Trie)
unfolding add_with extend
add = add_with 0 live_holds count_one

-- The reference count that the trie holds for a key; 0 for a key without a node.
abbrev pub refs : List ℕ → Trie → ℕ
refs = load 0

-- is_redundant
abbrev pub is_redundant : Trie → Bool
is_redundant (node refcnt low live s) = (refcnt == 0) && (live == 0)

-- The loops that look for the first node pointer from the left (behind slot 0, which was just
-- emptied), and from the right: the table without the slots passed over.
abbrev pub trim_left : Slots ℕ → ℕ → ℕ × Slots ℕ
trim_left nil low = (low, nil)
trim_left (null s) low = trim_left s (low + 1)
trim_left (ptr t s) low = (low, ptr t s)

abbrev pub trim_step : Slots ℕ → Slots ℕ
trim_step nil = nil
trim_step (null s) = null (null s)
trim_step (ptr t s) = null (ptr t s)

abbrev pub trim_right : Slots ℕ → Slots ℕ
trim_right nil = nil
trim_right (null s) = trim_step (trim_right s)
trim_right (ptr t s) = ptr t (trim_right s)

-- The compaction of the table in rm, after the slot of c was emptied: none where a zmq_assert fails.
abbrev pub lone : ℕ → ℕ → ℕ → Option Trie → Option Trie
lone refcnt low live none = none
lone refcnt low live (some t) = some (node refcnt low live (ptr t nil))

abbrev pub trimmed : ℕ → ℕ → ℕ → Slots ℕ → Option Trie
trimmed refcnt low live nil = none
trimmed refcnt low live (null s) = some (node refcnt low live (null s))
trimmed refcnt low live (ptr t s) = some (node refcnt low live (ptr t s))

pub compact : ℕ → ℕ → ℕ → Slots ℕ → ℕ → Option Trie
compact refcnt low live s c =
    if live == 1
    then if c == low
      then lone refcnt (low + (count s - 1)) live (slot s (count s - 1))
      else if c + 1 == low + count s
      then lone refcnt low live (slot s 0)
      else none
    else if c == low
    then trimmed refcnt (trim_left s low).0 live (trim_left s low).1
    else if c + 1 == low + count s
    then trimmed refcnt low live (trim_right s)
    else some (node refcnt low live s)

-- the pruning of a redundant node in rm
pub prune : ℕ → ℕ → ℕ → Slots ℕ → ℕ → Option Trie
unfolding compact
prune refcnt low live s c =
    if count s == 1
    then if live == 1 then some (node refcnt low 0 nil) else none
    else if ltb 1 live
    then compact refcnt low (live - 1) (set_slot s (c - low) none) c
    else none

abbrev pub with_flag : Bool → Option Trie → Option (Bool × Trie)
with_flag ret none = none
with_flag ret (some t) = some (ret, t)

abbrev pub after_rm : ℕ → ℕ → ℕ → Slots ℕ → ℕ → Option (Bool × Trie) → Option (Bool × Trie)
after_rm refcnt low live s c none = none
after_rm refcnt low live s c (some (ret, t)) =
    if is_redundant t
    then with_flag ret (prune refcnt low live s c)
    else some (ret, node refcnt low live (set_slot s (c - low) (some t)))

-- rm: whether the prefix is gone now, and the trie.
pub rm : List ℕ → Trie → Option (Bool × Trie)
rm [] (node refcnt low live s) =
    if refcnt == 0
    then some (false, node refcnt low live s)
    else some (refcnt - 1 == 0, node (refcnt - 1) low live s)
rm (c ∷ cs) (node refcnt low live s) =
    if outside c low s then some (false, node refcnt low live s) else elim (slot s (c - low)) [
      | none ↦ some (false, node refcnt low live s)
      | some t ↦ after_rm refcnt low live s c (rm cs t)
    ]

-- check; with count == 1 the pointer is followed without a test, and NULL there is none here.
unfoldable pub check : List ℕ → Trie → Option Bool
check [] (node refcnt low live s) = some (not (refcnt == 0))
check (c ∷ cs) (node refcnt low live s) =
    if not (refcnt == 0)
    then some true
    else if outside c low s
    then some false
    else elim (slot s (c - low)) [
      | none ↦ if count s == 1 then none else some false
      | some t ↦ check cs t
    ]

-- apply: the keys that the function is called with, in order, each behind the bytes in the buffer. A
-- table of one slot is walked like the others: there is no NULL in it.
unfoldable mutual
  pub keys : List ℕ → Trie → List (List ℕ)
  keys buffer (node refcnt low live s) =
      (if refcnt == 0 then [] else buffer ∷ []) ++ keys_of_slots buffer low s

  pub keys_of_slots : List ℕ → ℕ → Slots ℕ → List (List ℕ)
  keys_of_slots buffer c nil = []
  keys_of_slots buffer c (null s) = keys_of_slots buffer (c + 1) s
  keys_of_slots buffer c (ptr t s) = keys (buffer ++ (c ∷ [])) t ++ keys_of_slots buffer (c + 1) s
