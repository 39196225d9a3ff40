-- ===== src/Trie/Prune.antt =====
-- The end of a redundant child in rm: its slot is emptied, and the table is compacted.
use cctas.Base.{
  ℕ, ◌+◌, ◌-◌, ◌<◌, ◌≤◌, ◌≡◌, ◌≢◌, refl, ap, ◌∙◌, subst, ◌==◌, ltb, false, true, some, arith,
  ℕ_discrete,
}
use cctas.Tables.{
  node, Slots, nil, ptr, count, slot, outside, first_ptr, end_ptr, take_slots, drop_slots,
}
use cctas.Tables.Load.{IsWf, is_ptr}
use cctas.Tables.Live.{first_ptr-lt, live_slots_two}
use cctas.Tables.Narrow.{
  lt-end_ptr, slot-first_ptr, slot-drop_slots, slot-take_slots, count-drop_slots,
}
use cctas.Tables.Shrunk.{Shrunk, alone-Shrunk, left-Shrunk, right-Shrunk}
use cctas.Tables.Emptied.{Emptied, emptied, emptied_lem, lone_Shrunk, whole_Shrunk}
use cctas.Trie.Trim.{
  trim_left_low, trim_left_slots, take_slots_all, trim_right_lem, take_one, trimmed_ptr,
  is_ptr-some,
}
use cctas.Trie.{Trie, compact, prune}

module _ (c : ℕ) (refcnt low live : ℕ) (s : Slots ℕ) (u : Trie) (w : IsWf (node refcnt low live s))
    (inside : outside c low s ≡ false) (at_c : slot s (c - low) ≡ some u) where
  abbrev left : Slots ℕ
  left = emptied 0 c refcnt low live s u w inside at_c

  -- What compact is to leave.
  abbrev Compacted : Type 0
  Compacted =
      (t' : Trie) × (compact refcnt low (live - 1) left c ≡ some t')
      × Shrunk 0 refcnt low (live - 1) left t'

  -- What prune is to leave.
  abbrev pub Pruned : Type 0
  Pruned =
      (t' : Trie) × (prune refcnt low live s c ≡ some t') × Shrunk 0 refcnt low (live - 1) left t'

  module _ (e : Emptied 0 c refcnt low live s u w inside at_c) (many : 1 < count s) where
    wide : 1 < count left
    wide = omega (arith, many, e.size)

    left_lone : live ≡ 2 → c ≡ low → Compacted
    unfolding compact
    left_lone two lowest =
        let here = e.last (omega (arith, many, lowest)) in
        let (t, found) = is_ptr-some (slot left (count left - 1)) here in
        let down : (live - 1 == 1) ≡ true = ground arith in
        let at : (c == low) ≡ true = ground arith in
        (
          node refcnt (low + (count left - 1)) (live - 1) (ptr t nil),
          rw (down, at, found) refl,
          subst
              (λ s'.
                Shrunk 0 refcnt low (live - 1) left
                  (node refcnt (low + (count left - 1)) (live - 1) s'))
              (take_one left (count left - 1) t found)
              (alone-Shrunk 0 refcnt low (live - 1) left e.counted e.shape (count left - 1)
                (omega arith) (omega (arith, wide)) here),
        )

    right_lone : live ≡ 2 → c ≢ low → c + 1 ≡ low + count left → Compacted
    unfolding compact
    right_lone two above highest =
        let here = e.first above in
        let (t, found) = is_ptr-some (slot left 0) here in
        let down : (live - 1 == 1) ≡ true = ground arith in
        let at : (c == low) ≡ false = ground arith in
        let top : (c + 1 == low + count left) ≡ true = ground arith in
        (
          node refcnt (low + 0) (live - 1) (ptr t nil),
          rw (down, at, top, found) (ground arith),
          subst (λ s'. Shrunk 0 refcnt low (live - 1) left (node refcnt (low + 0) (live - 1) s'))
              (take_one left 0 t found)
              (alone-Shrunk 0 refcnt low (live - 1) left e.counted e.shape 0 (omega arith)
                (omega (arith, wide)) here),
        )

    from_left : live ≢ 2 → c ≡ low → Compacted
    unfolding compact
    from_left other lowest =
        let pos : first_ptr left < count left =
          first_ptr-lt left (omega (arith, e.counted, e.two)) in
        let rest : Slots ℕ = drop_slots (first_ptr left) left in
        let down : (live - 1 == 1) ≡ false = ground (arith, e.two) in
        let at : (c == low) ≡ true = ground arith in
        let start : first_ptr left + 0 ≡ first_ptr left = omega arith in
        let here : is_ptr (slot rest 0) ≡ 1 =
          ap is_ptr (slot-drop_slots (first_ptr left) left 0)
          ∙ ap (λ k. is_ptr (slot left k)) start
          ∙ slot-first_ptr left pos in
        let all : take_slots (count left - first_ptr left) rest ≡ rest =
          take_slots_all (count left - first_ptr left) rest
            (omega (arith, count-drop_slots (first_ptr left) left)) in
        (
          node refcnt (low + first_ptr left) (live - 1) rest,
          rw (down, at, trim_left_low left low, trim_left_slots left low)
              (trimmed_ptr refcnt (low + first_ptr left) (live - 1) rest 0 here),
          subst
              (λ s'.
                Shrunk 0 refcnt low (live - 1) left
                  (node refcnt (low + first_ptr left) (live - 1) s'))
              all
              (left-Shrunk 0 refcnt low (live - 1) left e.counted e.shape
                (e.last (omega (arith, many, lowest))) (omega (arith, e.counted, e.two))),
        )

    from_right : live ≢ 2 → c ≢ low → c + 1 ≡ low + count left → Compacted
    unfolding compact
    from_right other above highest =
        let kept : Slots ℕ = take_slots (end_ptr left) left in
        let here = e.first above in
        let pos : 0 < end_ptr left = lt-end_ptr left 0 here in
        let down : (live - 1 == 1) ≡ false = ground (arith, e.two) in
        let at : (c == low) ≡ false = ground arith in
        let top : (c + 1 == low + count left) ≡ true = ground arith in
        let front : is_ptr (slot kept 0) ≡ 1 =
          ap is_ptr (slot-take_slots (end_ptr left) left 0) ∙ ground (arith, here) in
        let same_low : low + 0 ≡ low = omega arith in
        (
          node refcnt low (live - 1) kept,
          rw (down, at, top, trim_right_lem left) (trimmed_ptr refcnt low (live - 1) kept 0 front),
          subst (λ l. Shrunk 0 refcnt low (live - 1) left (node refcnt l (live - 1) kept)) same_low
              (right-Shrunk 0 refcnt low (live - 1) left e.counted e.shape here),
        )

    within : c ≢ low → c + 1 ≢ low + count s → Compacted
    unfolding compact
    within above below =
        let three : 2 ≤ live - 1 = omega (
          arith,
          e.counted,
          live_slots_two left 0 (count left - 1) (e.first above) (e.last below)
              (omega (arith, wide)),
        ) in
        let down : (live - 1 == 1) ≡ false = ground arith in
        let at : (c == low) ≡ false = ground arith in
        let top : (c + 1 == low + count left) ≡ false = ground (arith, e.size) in
        (
          node refcnt low (live - 1) left,
          rw (down, at, top) refl,
          whole_Shrunk 0 c refcnt low live s u w inside at_c e many above below,
        )

    compact_lem : Compacted
    compact_lem = elim (ℕ_discrete c low) [
      | yes lowest ↦ elim (ℕ_discrete live 2) [
        | yes two ↦ left_lone two lowest
        | no other ↦ from_left other lowest
      ]
      | no above ↦ elim (ℕ_discrete (c + 1) (low + count s)) [
        | yes highest ↦
            let top : c + 1 ≡ low + count left = omega (arith, highest, e.size) in
            elim (ℕ_discrete live 2) [
              | yes two ↦ right_lone two above top
              | no other ↦ from_right other above top
            ]
        | no below ↦ within above below
      ]
    ]

  pub prune_lem : Pruned
  unfolding prune
  prune_lem = elim (ℕ_discrete (count s) 1) [
    | yes one ↦
        let (alone, shrunk) = lone_Shrunk 0 c refcnt low live s u w inside at_c one in
        (node refcnt low 0 nil, ground (arith, one, alone), shrunk)
    | no many ↦
        let several : 1 < count s = ground (arith, inside) in
        let e = emptied_lem 0 c refcnt low live s u w inside at_c several in
        let (t', eq, shrunk) = compact_lem e several in
        let alone : (count s == 1) ≡ false = ground arith in
        let more : ltb 1 live ≡ true = ground (arith, e.two) in (t', rw (alone, more) eq, shrunk)
  ]
