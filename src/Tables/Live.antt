-- ===== src/Tables/Live.antt =====
-- How many nodes a table has, against where they stand.
use cctas.Base.{
  ℕ, zero, suc, ◌-◌, ◌≤◌, ◌<◌, ◌≡◌, ◌≢◌, refl, ap, Option, none, some, arith, Option-cases, inl,
  inr, dec_lt, List, ◌∷◌,
}
use cctas.Tables.{Node, node, Slots, nil, null, ptr, count, slot, first_ptr}
use cctas.Tables.Load.{is_ptr, live_slots, load}
use cctas.Tables.Adding.{live_slots_pos}

module _ {A : Type 0} where
  pub live_slots_two :
      (s : Slots A) (i j : ℕ)
      → is_ptr (slot s i) ≡ 1
      → is_ptr (slot s j) ≡ 1
      → i < j
      → 2 ≤ live_slots s
  live_slots_two nil i j h k lt = ground arith
  live_slots_two (null s) zero j h k lt = ground arith
  live_slots_two (null s) (suc i) zero h k lt = absurd (omega arith)
  live_slots_two (null s) (suc i) (suc j) h k lt = live_slots_two s i j h k (omega arith)
  live_slots_two (ptr t s) zero zero h k lt = absurd (omega arith)
  live_slots_two (ptr t s) zero (suc j) h k lt = ground (arith, live_slots_pos s j)
  live_slots_two (ptr t s) (suc i) zero h k lt = absurd (omega arith)
  live_slots_two (ptr t s) (suc i) (suc j) h k lt =
      omega (arith, live_slots_two s i j h k (omega arith))

  pub slot-is_ptr : (o : Option (Node A)) → is_ptr o ≡ 0 → o ≡ none
  slot-is_ptr none h = refl
  slot-is_ptr (some t) h = absurd (omega arith)

  pub is_ptr-le : (o : Option (Node A)) → is_ptr o ≤ 1
  is_ptr-le none = omega arith
  is_ptr-le (some t) = omega arith

  pub slot_of_none : (s : Slots A) (i : ℕ) → live_slots s ≡ 0 → slot s i ≡ none
  slot_of_none s i h = slot-is_ptr (slot s i) (omega (arith, live_slots_pos s i))

  pub first_ptr-lt : (s : Slots A) → 0 < live_slots s → first_ptr s < count s
  first_ptr-lt nil h = absurd (omega arith)
  first_ptr-lt (null s) h = omega (arith, first_ptr-lt s h)
  first_ptr-lt (ptr t s) h = omega arith

  -- With one node, all other slots are empty.
  pub slot_of_one :
      (s : Slots A) (i j : ℕ) → live_slots s ≡ 1 → is_ptr (slot s i) ≡ 1 → i ≢ j → slot s j ≡ none
  slot_of_one s i j one here ne = elim (Option-cases (slot s j)) [
    | inl lost ↦ lost
    | inr (t, found) ↦
        let there : is_ptr (slot s j) ≡ 1 = ap is_ptr found in
        elim (dec_lt i j) [
          | yes less ↦ absurd (omega (arith, live_slots_two s i j here there less))
          | no more ↦ absurd (omega (arith, live_slots_two s j i there here (omega arith)))
        ]
  ]

  -- A node without children holds nothing below itself.
  pub load_childless :
      (empty : A) (c : ℕ) (cs : List ℕ) (a : A) (low : ℕ) (s : Slots A)
      → live_slots s ≡ 0
      → load empty (c ∷ cs) (node a low 0 s) ≡ empty
  unfolding load
  load_childless empty c cs a low s h = ground (arith, slot_of_none s (c - low) h)
