-- ===== src/Tables/Narrow.antt =====
-- A part of a table that leaves out only empty slots keeps the children of the node.
use cctas.Base.{
  ℕ, zero, suc, ◌+◌, ◌-◌, ◌≤◌, ◌<◌, ◌≡◌, refl, ap, ◌∙◌, ltb, none, if◌then◌else◌, arith, dec_lt,
}
use cctas.Tables.{
  node, Slots, nil, null, ptr, count, slot, first_ptr, end_ptr, take_slots, drop_slots,
}
use cctas.Tables.Load.{is_ptr, live_slots, child, AllWf, IsWf}

module _ {A : Type 0} where
  pub slot-drop_slots : (n : ℕ) (s : Slots A) (i : ℕ) → slot (drop_slots n s) i ≡ slot s (n + i)
  slot-drop_slots zero s i = ground arith
  slot-drop_slots (suc n) nil i = ground arith
  slot-drop_slots (suc n) (null s) i = slot-drop_slots n s i ∙ ground arith
  slot-drop_slots (suc n) (ptr t s) i = slot-drop_slots n s i ∙ ground arith

  pub count-drop_slots : (n : ℕ) (s : Slots A) → count (drop_slots n s) ≡ count s - n
  count-drop_slots zero s = omega arith
  count-drop_slots (suc n) nil = omega arith
  count-drop_slots (suc n) (null s) = omega (arith, count-drop_slots n s)
  count-drop_slots (suc n) (ptr t s) = omega (arith, count-drop_slots n s)

  pub slot-take_slots :
      (n : ℕ) (s : Slots A) (i : ℕ) → slot (take_slots n s) i ≡ (if ltb i n then slot s i else none)
  slot-take_slots zero s i = ground arith
  slot-take_slots (suc n) nil i = ground arith
  slot-take_slots (suc n) (null s) zero = ground arith
  slot-take_slots (suc n) (null s) (suc i) = slot-take_slots n s i ∙ ground arith
  slot-take_slots (suc n) (ptr t s) zero = ground arith
  slot-take_slots (suc n) (ptr t s) (suc i) = slot-take_slots n s i ∙ ground arith

  pub count-take_slots : (n : ℕ) (s : Slots A) → n ≤ count s → count (take_slots n s) ≡ n
  count-take_slots zero s h = refl
  count-take_slots (suc n) nil h = absurd (omega arith)
  count-take_slots (suc n) (null s) h = omega (arith, count-take_slots n s (omega arith))
  count-take_slots (suc n) (ptr t s) h = omega (arith, count-take_slots n s (omega arith))

  pub slot-before_first : (s : Slots A) (i : ℕ) → i < first_ptr s → slot s i ≡ none
  slot-before_first nil i h = refl
  slot-before_first (null s) zero h = refl
  slot-before_first (null s) (suc i) h = slot-before_first s i (omega arith)
  slot-before_first (ptr t s) i h = absurd (omega arith)

  pub slot-first_ptr : (s : Slots A) → first_ptr s < count s → is_ptr (slot s (first_ptr s)) ≡ 1
  slot-first_ptr nil h = absurd (omega arith)
  slot-first_ptr (null s) h = slot-first_ptr s (omega arith)
  slot-first_ptr (ptr t s) h = refl

  pub first_ptr-le : (s : Slots A) (i : ℕ) → is_ptr (slot s i) ≡ 1 → first_ptr s ≤ i
  first_ptr-le nil i h = ground arith
  first_ptr-le (null s) zero h = ground arith
  first_ptr-le (null s) (suc i) h = omega (arith, first_ptr-le s i h)
  first_ptr-le (ptr t s) i h = omega arith

  pub slot-from_end : (s : Slots A) (i : ℕ) → end_ptr s ≤ i → slot s i ≡ none
  slot-from_end nil i h = refl
  slot-from_end (null s) zero h = refl
  slot-from_end (null s) (suc i) h = slot-from_end s i (ground arith)
  slot-from_end (ptr t s) zero h = absurd (omega arith)
  slot-from_end (ptr t s) (suc i) h = slot-from_end s i (omega arith)

  pub slot-end_ptr : (s : Slots A) (n : ℕ) → end_ptr s ≡ suc n → is_ptr (slot s n) ≡ 1
  slot-end_ptr nil n h = absurd (omega arith)
  slot-end_ptr (null s) zero h = ground arith
  slot-end_ptr (null s) (suc n) h = slot-end_ptr s n (ground arith)
  slot-end_ptr (ptr t s) zero h = refl
  slot-end_ptr (ptr t s) (suc n) h = slot-end_ptr s n (omega arith)

  pub lt-end_ptr : (s : Slots A) (i : ℕ) → is_ptr (slot s i) ≡ 1 → i < end_ptr s
  lt-end_ptr nil i h = ground arith
  lt-end_ptr (null s) zero h = ground arith
  lt-end_ptr (null s) (suc i) h = ground (arith, lt-end_ptr s i h)
  lt-end_ptr (ptr t s) zero h = omega arith
  lt-end_ptr (ptr t s) (suc i) h = omega (arith, lt-end_ptr s i h)

  pub end_ptr-le : (s : Slots A) → end_ptr s ≤ count s
  end_ptr-le nil = omega arith
  end_ptr-le (null s) = ground (arith, end_ptr-le s)
  end_ptr-le (ptr t s) = omega (arith, end_ptr-le s)

  pub AllWf-drop_slots : (n : ℕ) (s : Slots A) → AllWf s → AllWf (drop_slots n s)
  unfolding AllWf
  AllWf-drop_slots zero s w = w
  AllWf-drop_slots (suc n) nil w = w
  AllWf-drop_slots (suc n) (null s) w = AllWf-drop_slots n s w
  AllWf-drop_slots (suc n) (ptr t s) w = AllWf-drop_slots n s w.1

  pub AllWf-take_slots : (n : ℕ) (s : Slots A) → AllWf s → AllWf (take_slots n s)
  unfolding AllWf
  AllWf-take_slots zero s w = tt
  AllWf-take_slots (suc n) nil w = w
  AllWf-take_slots (suc n) (null s) w = AllWf-take_slots n s w
  AllWf-take_slots (suc n) (ptr t s) w = (w.0, AllWf-take_slots n s w.1)

  live_slots-drop_slots :
      (n : ℕ) (s : Slots A)
      → ((j : ℕ) → j < n → slot s j ≡ none)
      → live_slots (drop_slots n s) ≡ live_slots s
  live_slots-drop_slots zero s h = refl
  live_slots-drop_slots (suc n) nil h = refl
  live_slots-drop_slots (suc n) (null s) h =
      live_slots-drop_slots n s (λ j lt. h (suc j) (omega arith))
  live_slots-drop_slots (suc n) (ptr t s) h = absurd (ground (arith, h 0 (omega arith)))

  live_slots-none : (s : Slots A) → ((j : ℕ) → slot s j ≡ none) → live_slots s ≡ 0
  live_slots-none nil h = refl
  live_slots-none (null s) h = live_slots-none s (λ j. h (suc j))
  live_slots-none (ptr t s) h = absurd (ground (arith, h 0))

  live_slots-take_slots :
      (n : ℕ) (s : Slots A)
      → ((j : ℕ) → n ≤ j → slot s j ≡ none)
      → live_slots (take_slots n s) ≡ live_slots s
  live_slots-take_slots zero s h = ground (arith, live_slots-none s (λ j. h j (omega arith)))
  live_slots-take_slots (suc n) nil h = refl
  live_slots-take_slots (suc n) (null s) h =
      live_slots-take_slots n s (λ j le. h (suc j) (omega arith))
  live_slots-take_slots (suc n) (ptr t s) h =
      ap suc (live_slots-take_slots n s (λ j le. h (suc j) (omega arith)))

  -- n slots from i on, with all others empty and a node at both ends
  module _ (s : Slots A) (i n : ℕ) (some_left : 0 < n) (inside : i + n ≤ count s)
      (before : (j : ℕ) → j < i → slot s j ≡ none) (behind : (j : ℕ) → i + n ≤ j → slot s j ≡ none)
      (first : is_ptr (slot s i) ≡ 1) (last : is_ptr (slot s (i + n - 1)) ≡ 1) where
    abbrev pub part : Slots A
    part = take_slots n (drop_slots i s)

    pub count-part : count part ≡ n
    count-part = count-take_slots n (drop_slots i s) (omega (arith, count-drop_slots i s))

    slot-part : (j : ℕ) → slot part j ≡ (if ltb j n then slot s (i + j) else none)
    slot-part j = ground (arith, slot-take_slots n (drop_slots i s) j, slot-drop_slots i s j)

    pub child-part : (d low : ℕ) → child d (low + i) part ≡ child d low s
    child-part d low = elim (dec_lt d (low + i)) [
      | yes under ↦ ground (arith, count-part, before (d - low))
      | no over ↦
          let there : i + (d - (low + i)) ≡ d - low = omega arith in
          ground (arith, count-part, slot-part (d - (low + i)), ap (slot s) there, behind (d - low))
    ]

    pub part-IsWf :
        (a : A) (low live : ℕ) → live ≡ live_slots s → AllWf s → IsWf (node a (low + i) live part)
    unfolding IsWf
    part-IsWf a low live counted all = (
      omega (
        arith,
        counted,
        live_slots-take_slots n (drop_slots i s)
            (λ j le. slot-drop_slots i s j ∙ behind (i + j) (omega arith)),
        live_slots-drop_slots i s before,
      ),
      (let start : i + 0 ≡ i = omega arith in
          ground (arith, count-part, slot-part 0, ap (slot s) start, first)),
      (let end : i + (count part - 1) ≡ i + n - 1 = omega (arith, count-part) in
          ground (arith, count-part, slot-part (count part - 1), ap (slot s) end, last)),
      AllWf-take_slots n (drop_slots i s) (AllWf-drop_slots i s all),
    )
