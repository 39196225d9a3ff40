-- ===== src/Tables/Load.antt =====
-- What a trie stands for: what it holds at each key. And the shape that add and rm keep.
use cctas.Base.{ℕ, suc, ◌-◌, ◌≡◌, ◌==◌, Option, none, some, if◌then◌else◌, List, [], ◌∷◌}
use cctas.Tables.{Node, node, Slots, nil, null, ptr, count, slot, outside}

-- the child that the operations go to for the character c
abbrev pub child : {A : Type 0} → ℕ → ℕ → Slots A → Option (Node A)
child c low s = if outside c low s then none else slot s (c - low)

abbrev pub load_of : {A B : Type 0} → B → (Node A → B) → Option (Node A) → B
load_of empty f none = empty
load_of empty f (some t) = f t

-- What the trie holds at a key; `empty` for a key without a node.
unfoldable pub load : {A : Type 0} → A → List ℕ → Node A → A
load empty [] (node a low live s) = a
load empty (c ∷ cs) (node a low live s) = load_of empty (load empty cs) (child c low s)

abbrev pub is_ptr : {A : Type 0} → Option (Node A) → ℕ
is_ptr none = 0
is_ptr (some t) = 1

-- the number of nodes in a table
abbrev pub live_slots : {A : Type 0} → Slots A → ℕ
live_slots nil = 0
live_slots (null s) = live_slots s
live_slots (ptr t s) = suc (live_slots s)

-- A node's live_nodes counts its children; its table has a node at both ends;
-- and the children are such tries.
unfoldable mutual
  pub IsWf : {A : Type 0} → Node A → Type 0
  IsWf (node a low live s) =
      (live ≡ live_slots s)
      × (is_ptr (slot s 0) ≡ (if count s == 0 then 0 else 1))
      × (is_ptr (slot s (count s - 1)) ≡ (if count s == 0 then 0 else 1))
      × AllWf s

  pub AllWf : {A : Type 0} → Slots A → Type 0
  AllWf nil = Unit
  AllWf (null s) = AllWf s
  AllWf (ptr t s) = IsWf t × AllWf s

pub IsWf-parts :
    {A : Type 0} (a : A) (low live : ℕ) (s : Slots A)
    → IsWf (node a low live s)
    → (live ≡ live_slots s)
      × (is_ptr (slot s 0) ≡ (if count s == 0 then 0 else 1))
      × (is_ptr (slot s (count s - 1)) ≡ (if count s == 0 then 0 else 1))
      × AllWf s
unfolding IsWf
IsWf-parts a low live s w = w
