-- ===== src/Tables.antt =====
-- The tables of pointers of trie.cpp and mtrie.cpp, whose nodes differ only in what they hold: a
-- count of subscriptions in trie_t, a set of pipes in mtrie_t.
-- A node's `next` is a table of `count` pointers, so `count` is the number of its slots; where the
-- code keeps a lone pointer in the node instead of a table (count == 1), the table has that one
-- slot. Characters are bytes; all indices stay below 256, so no arithmetic on them wraps.
pub mod Table
pub mod Load
pub mod Shape
pub mod Extend
pub mod Adding
pub mod Narrow
pub mod Live
pub mod Shrunk
pub mod Replaced
pub mod Emptied
use cctas.Base.{
  ℕ, zero, suc, ◌+◌, ◌-◌, ◌==◌, ltb, leb, min, Bool, true, false, not, ◌&&◌, ◌||◌, Option, none,
  some, List, [], ◌∷◌, if◌then◌else◌,
}

mutual
  pub data Node (A : Type 0) : Type 0 where
    node : (load : A) → (low live_nodes : ℕ) → Slots A → Node A

  -- a table of pointers: NULL or a node in each slot
  pub data Slots (A : Type 0) : Type 0 where
    nil : Slots A
    null : Slots A → Slots A
    ptr : Node A → Slots A → Slots A

abbrev pub count : {A : Type 0} → Slots A → ℕ
count nil = 0
count (null s) = suc (count s)
count (ptr t s) = suc (count s)

-- next.table [i]; none for NULL
abbrev pub slot : {A : Type 0} → Slots A → ℕ → Option (Node A)
slot nil i = none
slot (null s) zero = none
slot (null s) (suc i) = slot s i
slot (ptr t s) zero = some t
slot (ptr t s) (suc i) = slot s i

-- next.table [i] = node
abbrev pub set_slot : {A : Type 0} → Slots A → ℕ → Option (Node A) → Slots A
set_slot nil i o = nil
set_slot (null s) zero none = null s
set_slot (null s) zero (some t) = ptr t s
set_slot (null s) (suc i) o = null (set_slot s i o)
set_slot (ptr u s) zero none = null s
set_slot (ptr u s) zero (some t) = ptr t s
set_slot (ptr u s) (suc i) o = ptr u (set_slot s i o)

-- n slots with NULL in front of a table
abbrev pub nulls : {A : Type 0} → ℕ → Slots A → Slots A
nulls zero s = s
nulls (suc n) s = null (nulls n s)

-- a table with n slots with NULL behind it
abbrev pub grow : {A : Type 0} → Slots A → ℕ → Slots A
grow nil n = nulls n nil
grow (null s) n = null (grow s n)
grow (ptr t s) n = ptr t (grow s n)

-- c < min || c >= min + count
abbrev pub outside : {A : Type 0} → ℕ → ℕ → Slots A → Bool
outside c low s = ltb c low || leb (low + count s) c

-- the extension of the table in add: the new min and the new table
unfoldable pub extend : {A : Type 0} → ℕ → ℕ → Slots A → ℕ × Slots A
extend c low s =
    if not (outside c low s)
    then (low, s)
    else if count s == 0
    then (c, null nil)
    else if count s == 1
    then (
      min low c,
      set_slot (nulls ((if ltb low c then c - low else low - c) + 1) nil) (low - min low c)
          (slot s 0),
    )
    else if ltb low c
    then (low, grow s (c - low + 1 - count s))
    else (c, nulls (low - c) s)

-- Where the first node of a table stands, `count` without one, and the place behind the last one, 0
-- without one; and a part of a table, as memmove makes it.
abbrev pub first_ptr : {A : Type 0} → Slots A → ℕ
first_ptr nil = 0
first_ptr (null s) = suc (first_ptr s)
first_ptr (ptr t s) = 0

abbrev pub end_ptr : {A : Type 0} → Slots A → ℕ
end_ptr nil = 0
end_ptr (null s) = if end_ptr s == 0 then 0 else suc (end_ptr s)
end_ptr (ptr t s) = suc (end_ptr s)

abbrev pub take_slots : {A : Type 0} → ℕ → Slots A → Slots A
take_slots zero s = nil
take_slots (suc n) nil = nil
take_slots (suc n) (null s) = null (take_slots n s)
take_slots (suc n) (ptr t s) = ptr t (take_slots n s)

abbrev pub drop_slots : {A : Type 0} → ℕ → Slots A → Slots A
drop_slots zero s = s
drop_slots (suc n) nil = nil
drop_slots (suc n) (null s) = drop_slots n s
drop_slots (suc n) (ptr t s) = drop_slots n s

-- The way of add to the node of a key, where `at_end` changes what the node holds; `empty` is what
-- a new node holds, and `holds` the assertion on count and live_nodes after a node was made, if there
-- is one. The result is none where it fails.
abbrev pub put_child :
    {A R : Type 0} → A → ℕ → ℕ → Slots A → ℕ → Option (R × Node A) → Option (R × Node A)
put_child a low live s i none = none
put_child a low live s i (some (r, t)) = some (r, node a low live (set_slot s i (some t)))

module _ {A R : Type 0} (empty : A) (holds : ℕ → ℕ → Bool) (at_end : A → R × A) where
  unfoldable pub add_with : List ℕ → Node A → Option (R × Node A)
  add_with [] (node a low live s) = some ((at_end a).0, node (at_end a).1 low live s)
  add_with (c ∷ cs) (node a low live s) =
      let low' = (extend c low s).0 in
      let s' = (extend c low s).1 in
      elim (slot s' (c - low')) [
        | some t ↦ put_child a low' live s' (c - low') (add_with cs t)
        | none ↦
            if holds (count s') (live + 1)
            then put_child a low' (live + 1) s' (c - low') (add_with cs (node empty 0 0 nil))
            else none
      ]
