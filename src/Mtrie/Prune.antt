-- ===== src/Mtrie/Prune.antt =====
-- The end of a redundant child in rm: its slot is emptied, and the table is compacted.
use cctas.Base.{ℕ, ◌+◌, ◌-◌, ◌<◌, ◌≡◌, refl, ◌==◌, ltb, false, true, none, some, arith, ℕ_discrete}
use cctas.Tables.{node, Slots, nil, count, slot, outside, first_ptr, end_ptr}
use cctas.Tables.Load.{IsWf}
use cctas.Tables.Narrow.{lt-end_ptr}
use cctas.Tables.Live.{first_ptr-lt}
use cctas.Tables.Shrunk.{Shrunk, one-Shrunk, left-Shrunk, right-Shrunk}
use cctas.Tables.Emptied.{Emptied, emptied, emptied_lem, lone_Shrunk, whole_Shrunk}
use cctas.Mtrie.{Pipes, Mtrie, compact, prune, narrowed}

module _ (c : ℕ) (pipes : Pipes) (low live : ℕ) (s : Slots Pipes) (u : Mtrie)
    (w : IsWf (node pipes low live s)) (inside : outside c low s ≡ false)
    (at_c : slot s (c - low) ≡ some u) where
  abbrev left : Slots Pipes
  left = emptied none c pipes low live s u w inside at_c

  -- What prune is to leave.
  abbrev pub Pruned : Type 0
  Pruned =
      (t' : Mtrie) × (prune c pipes low live s ≡ some t') × Shrunk none pipes low (live - 1) left t'

  compact_Pruned : 1 < count s → Emptied none c pipes low live s u w inside at_c → Pruned
  unfolding prune compact
  compact_Pruned many e =
      let more : ltb 1 live ≡ true = ground (arith, e.two) in
      let wide : (count s == 1) ≡ false = ground arith in
      let found : ltb (first_ptr left) (count left) ≡ true =
        ground (arith, first_ptr-lt left, e.two, e.counted) in
      elim (ℕ_discrete live 2) [
        | yes one ↦
            let down : (live - 1 == 1) ≡ true = ground arith in
            (
              narrowed pipes low (live - 1) left (first_ptr left) 1,
              rw (wide, more, compact, down, found) refl,
              one-Shrunk none pipes low (live - 1) left e.counted e.shape (omega arith),
            )
        | no other ↦
            let down : (live - 1 == 1) ≡ false = ground (arith, e.two) in
            elim (ℕ_discrete c low) [
              | yes lowest ↦
                  let at : (c == low) ≡ true = ground arith in
                  (
                    narrowed pipes low (live - 1) left (first_ptr left)
                        (count left - first_ptr left),
                    rw (wide, more, compact, down, at, found) refl,
                    left-Shrunk none pipes low (live - 1) left e.counted e.shape
                        (e.last (omega arith)) (omega (arith, e.two, e.counted)),
                  )
              | no above ↦
                  let at : (c == low) ≡ false = ground arith in
                  elim (ℕ_discrete (c + 1) (low + count s)) [
                    | yes highest ↦
                        let top : (c + 1 == low + count left) ≡ true = ground (arith, e.size) in
                        let pos : ltb 0 (end_ptr left) ≡ true =
                          ground (arith, lt-end_ptr left 0 (e.first above)) in
                        (
                          narrowed pipes low (live - 1) left 0 (end_ptr left),
                          rw (wide, more, compact, down, at, top, pos) refl,
                          right-Shrunk none pipes low (live - 1) left e.counted e.shape
                              (e.first above),
                        )
                    | no below ↦
                        let top : (c + 1 == low + count left) ≡ false = ground (arith, e.size) in
                        (
                          node pipes low (live - 1) left,
                          rw (wide, more, compact, down, at, top) refl,
                          whole_Shrunk none c pipes low live s u w inside at_c e many above below,
                        )
                  ]
            ]
      ]

  pub prune_lem : Pruned
  unfolding prune
  prune_lem = elim (ℕ_discrete (count s) 1) [
    | yes one ↦
        let (alone, shrunk) = lone_Shrunk none c pipes low live s u w inside at_c one in
        (node pipes low 0 nil, ground (arith, one, alone), shrunk)
    | no many ↦
        let wide : 1 < count s = ground (arith, inside) in
        compact_Pruned wide (emptied_lem none c pipes low live s u w inside at_c wide)
  ]
