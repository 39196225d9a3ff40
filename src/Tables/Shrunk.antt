-- ===== src/Tables/Shrunk.antt =====
-- A node whose table lost the slots at its ends that are empty.
use cctas.Base.{ℕ, ◌+◌, ◌-◌, ◌≤◌, ◌<◌, ◌≡◌, refl, ap, ◌∙◌, none, arith, List, [], ◌∷◌}
use cctas.Tables.{Node, node, Slots, count, slot, first_ptr, end_ptr, take_slots, drop_slots}
use cctas.Tables.Load.{is_ptr, live_slots, child, load, load_of, IsWf, AllWf}
use cctas.Tables.Narrow.{
  child-part, part-IsWf, slot-before_first, slot-first_ptr, slot-from_end, slot-end_ptr, end_ptr-le,
  lt-end_ptr,
}
use cctas.Tables.Live.{slot_of_one, first_ptr-lt}
use cctas.Tables.Table.{slot_beyond}

-- t' is of the right shape, and holds what the node holds.
pub record Shrunk {A : Type 0} (empty a : A) (low live : ℕ) (s : Slots A) (t' : Node A)
    : Type 0 where
  pub wf : IsWf t'
  pub same : (q : List ℕ) → load empty q t' ≡ load empty q (node a low live s)

module _ {A : Type 0} (empty a : A) (low live : ℕ) (s : Slots A) (counted : live ≡ live_slots s)
    (all : AllWf s) where
  same_load :
      (low' : ℕ) (s' : Slots A)
      → ((d : ℕ) → child d low' s' ≡ child d low s)
      → (q : List ℕ) → load empty q (node a low' live s') ≡ load empty q (node a low live s)
  unfolding load
  same_load low' s' h [] = refl
  same_load low' s' h (d ∷ ds) = ap (load_of empty (load empty ds)) (h d)

  part-Shrunk :
      (i n : ℕ)
      → 0 < n
      → i + n ≤ count s
      → ((j : ℕ) → j < i → slot s j ≡ none)
      → ((j : ℕ) → i + n ≤ j → slot s j ≡ none)
      → is_ptr (slot s i) ≡ 1
      → is_ptr (slot s (i + n - 1)) ≡ 1
      → Shrunk empty a low live s (node a (low + i) live (take_slots n (drop_slots i s)))
  part-Shrunk i n pos inside before behind first last = record {
    wf = part-IsWf s i n pos inside before behind first last a low live counted all;
    same =
        same_load (low + i) (take_slots n (drop_slots i s))
          (λ d. child-part s i n pos inside before behind first last d low);
  }

  -- the one node that is left, where it stands in slot i
  pub alone-Shrunk :
      (i : ℕ)
      → live ≡ 1
      → i < count s
      → is_ptr (slot s i) ≡ 1
      → Shrunk empty a low live s (node a (low + i) live (take_slots 1 (drop_slots i s)))
  alone-Shrunk i one inside here =
      let end : i + 1 - 1 ≡ i = omega arith in
      part-Shrunk i 1 (omega arith) (omega arith)
        (λ j lt. slot_of_one s i j (omega arith) here (λ e. omega arith))
        (λ j le. slot_of_one s i j (omega arith) here (λ e. omega arith)) here
        (ap (λ k. is_ptr (slot s k)) end ∙ here)

  pub one-Shrunk :
      live ≡ 1
      → Shrunk empty a low live s
          (node a (low + first_ptr s) live (take_slots 1 (drop_slots (first_ptr s) s)))
  one-Shrunk one =
      let inside : first_ptr s < count s = first_ptr-lt s (omega arith) in
      alone-Shrunk (first_ptr s) one inside (slot-first_ptr s inside)

  -- from the first node on, where the last slot has one
  pub left-Shrunk :
      is_ptr (slot s (count s - 1)) ≡ 1
      → 0 < live_slots s
      → Shrunk empty a low live s (
          node a
            (low + first_ptr s)
            live
            (take_slots (count s - first_ptr s) (drop_slots (first_ptr s) s)))
  left-Shrunk last pos =
      let inside : first_ptr s < count s = first_ptr-lt s pos in
      let end : first_ptr s + (count s - first_ptr s) - 1 ≡ count s - 1 = omega arith in
      part-Shrunk (first_ptr s) (count s - first_ptr s) (omega arith) (omega arith)
        (slot-before_first s) (λ j le. slot_beyond s j (omega arith)) (slot-first_ptr s inside)
        (ap (λ i. is_ptr (slot s i)) end ∙ last)

  -- from the first slot, which has one, to the last node
  pub right-Shrunk :
      is_ptr (slot s 0) ≡ 1
      → Shrunk empty a low live s (node a (low + 0) live (take_slots (end_ptr s) (drop_slots 0 s)))
  right-Shrunk first =
      let pos : 0 < end_ptr s = lt-end_ptr s 0 first in
      part-Shrunk 0 (end_ptr s) pos (omega (arith, end_ptr-le s)) (λ j lt. absurd (omega arith))
        (λ j le. slot-from_end s j (omega arith)) first
        (let end : 0 + end_ptr s - 1 ≡ end_ptr s - 1 = omega arith in
          ap (λ i. is_ptr (slot s i)) end ∙ slot-end_ptr s (end_ptr s - 1) (omega arith))

  -- from the first node to the last one
  pub both-Shrunk :
      0 < live_slots s
      → Shrunk empty a low live s (
          node a
            (low + first_ptr s)
            live
            (take_slots (end_ptr s - first_ptr s) (drop_slots (first_ptr s) s)))
  both-Shrunk pos =
      let inside : first_ptr s < count s = first_ptr-lt s pos in
      let here : is_ptr (slot s (first_ptr s)) ≡ 1 = slot-first_ptr s inside in
      let lt : first_ptr s < end_ptr s = lt-end_ptr s (first_ptr s) here in
      let end : first_ptr s + (end_ptr s - first_ptr s) - 1 ≡ end_ptr s - 1 = omega arith in
      part-Shrunk (first_ptr s) (end_ptr s - first_ptr s) (omega arith)
        (omega (arith, end_ptr-le s)) (slot-before_first s)
        (λ j le. slot-from_end s j (omega arith)) here
        (ap (λ i. is_ptr (slot s i)) end ∙ slot-end_ptr s (end_ptr s - 1) (omega arith))
