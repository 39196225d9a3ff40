-- ===== src/Mtrie/Leave.antt =====
-- rm of a pipe: it takes the pipe out of every set in the trie.
use cctas.Base.{
  ℕ, ◌+◌, ◌-◌, ◌≤◌, ◌<◌, ◌≡◌, refl, ap, ◌∙◌, ◌==◌, ◌||◌, false, true, ltb, leb, Bool-cases, inl,
  inr, Option, none, some, arith, List, [], ◌∷◌, if◌then◌else◌, ℕ_discrete,
}
use cctas.Tables.{node, Slots, nil, null, ptr, count, slot, first_ptr, end_ptr}
use cctas.Tables.Load.{is_ptr, live_slots, load, load_of, IsWf, AllWf}
use cctas.Tables.Table.{slot_beyond}
use cctas.Tables.Extend.{live_slots_one}
use cctas.Tables.Narrow.{slot-end_ptr, lt-end_ptr, end_ptr-le, slot-first_ptr}
use cctas.Tables.Live.{slot_of_none, live_slots_two, first_ptr-lt}
use cctas.Tables.Shrunk
use cctas.Tables.Shrunk.{one-Shrunk, both-Shrunk}
use cctas.Mtrie.{Pipes, Mtrie, leave, shrink, finish, has, erase, is_empty, narrowed}
use cctas.Mtrie.Sets.{IsPipeSet}

abbrev set_of : Pipes → Pipes
set_of none = none
set_of (some xs) = if is_empty xs then none else some xs

-- A set without a pipe; none where it was the only one.
abbrev pub without : ℕ → Pipes → Pipes
without x none = none
without x (some xs) = set_of (some (erase x xs))

-- what a slot holds at a key below it
abbrev pub held : List ℕ → Option Mtrie → Pipes
held q o = load_of none (load none q) o

live_slots-le-end_ptr : (s : Slots Pipes) → live_slots s ≤ end_ptr s
live_slots-le-end_ptr nil = omega arith
live_slots-le-end_ptr (null s) = ground (arith, live_slots-le-end_ptr s)
live_slots-le-end_ptr (ptr t s) = omega (arith, live_slots-le-end_ptr s)

live_slots-le-part : (s : Slots Pipes) → 0 < live_slots s → live_slots s + first_ptr s ≤ end_ptr s
live_slots-le-part nil h = omega arith
live_slots-le-part (null s) h = ground (arith, live_slots-le-part s, live_slots-le-end_ptr s)
live_slots-le-part (ptr t s) h = omega (arith, live_slots-le-end_ptr s)

module _ (pipes : Pipes) (low live : ℕ) (s : Slots Pipes) (counted : live ≡ live_slots s)
    (all : AllWf s) where
  abbrev Finished : Option Mtrie → Type 0
  Finished o = (t' : Mtrie) × (o ≡ some t') × Shrunk.Shrunk none pipes low live s t'

  nothing_left : live ≡ 0 → Shrunk.Shrunk none pipes low live s (node pipes low 0 nil)
  unfolding IsWf AllWf load
  nothing_left z = record {
    wf = (refl, refl, refl, tt);
    same = λ q.
        elim q as (λ k. load none k (node pipes low 0 nil) ≡ load none k (node pipes low live s)) [
          | [] ↦ refl
          | d ∷ ds ↦ ground (arith, slot_of_none s (d - low))
        ];
  }

  as_it_is :
      is_ptr (slot s 0) ≡ (if count s == 0 then 0 else 1)
      → is_ptr (slot s (count s - 1)) ≡ (if count s == 0 then 0 else 1)
      → Shrunk.Shrunk none pipes low live s (node pipes low live s)
  unfolding IsWf
  as_it_is first last = record { wf = (counted, first, last, all); same = λ q. refl }

  one_place :
      live ≡ 1
      → is_ptr (slot s (first_ptr s)) ≡ 1
      → is_ptr (slot s (end_ptr s - 1)) ≡ 1
      → first_ptr s < end_ptr s
      → (first_ptr s + 1 == end_ptr s) ≡ true
  one_place one start end lt = elim (ℕ_discrete (first_ptr s + 1) (end_ptr s)) [
    | yes e ↦ ground arith
    | no ne ↦
        absurd
          (omega (arith, live_slots_two s (first_ptr s) (end_ptr s - 1) start end (omega arith)))
  ]

  pub shrink_lem : 1 < count s → Finished (shrink pipes low live s)
  unfolding shrink
  shrink_lem many = elim (ℕ_discrete live 0) [
    | yes z ↦ (node pipes low 0 nil, ground arith, nothing_left z)
    | no some_left ↦
        let pos : 0 < live_slots s = omega arith in
        let start : is_ptr (slot s (first_ptr s)) ≡ 1 = slot-first_ptr s (first_ptr-lt s pos) in
        let lt : first_ptr s < end_ptr s = lt-end_ptr s (first_ptr s) start in
        let end : is_ptr (slot s (end_ptr s - 1)) ≡ 1 =
          slot-end_ptr s (end_ptr s - 1) (omega arith) in
        let z : (live == 0) ≡ false = ground arith in
        elim (ℕ_discrete live 1) [
          | yes one ↦
              let o : (live == 1) ≡ true = ground arith in
              let alone : (first_ptr s + 1 == end_ptr s) ≡ true = one_place one start end lt in
              (
                narrowed pipes low live s (first_ptr s) 1,
                rw (z, o, alone) refl,
                one-Shrunk none pipes low live s counted all one,
              )
          | no more ↦
              let o : (live == 1) ≡ false = ground arith in
              let wide : ltb 1 (end_ptr s - first_ptr s) ≡ true =
                ground (arith, live_slots-le-part s pos) in
              elim (Bool-cases (ltb 0 (first_ptr s) || ltb (end_ptr s) (count s))) [
                | inl cut ↦ (
                  narrowed pipes low live s (first_ptr s) (end_ptr s - first_ptr s),
                  rw (z, o, cut, wide) refl,
                  both-Shrunk none pipes low live s counted all pos,
                )
                | inr whole ↦ (
                  node pipes low live s,
                  rw (z, o, whole) refl,
                  (let front : first_ptr s ≡ 0 = ground (arith, whole) in
                      let back : end_ptr s - 1 ≡ count s - 1 =
                        ground (arith, whole, end_ptr-le s) in
                      as_it_is (ground (arith, ap (slot s) front, start))
                        (ground (arith, ap (slot s) back, end))),
                )
              ]
        ]
  ]

  -- the table after n children were pruned; a table with one slot had a node there
  pub finish_lem :
      (before n : ℕ)
      → before ≡ live + n
      → n ≤ count s
      → (count s ≡ 1 → before ≡ 1)
      → Finished (finish pipes low before n s)
  unfolding finish
  finish_lem before n sum few lone = elim (ℕ_discrete (count s) 0) [
    | yes z ↦
        let same : before ≡ live = omega arith in
        let lost : slot s 0 ≡ none = slot_beyond s 0 (omega arith) in
        let last : slot s (count s - 1) ≡ none = slot_beyond s (count s - 1) (omega arith) in
        (node pipes low live s, ground (arith, z, same), as_it_is (ground arith) (ground arith))
    | no some_slots ↦ elim (ℕ_discrete (count s) 1) [
      | yes one ↦ elim (ℕ_discrete n 0) [
        | yes kept ↦
            let same : before ≡ live = omega arith in
            let here : is_ptr (slot s 0) ≡ 1 = ground (arith, live_slots_one s one, lone one) in
            let at_end : is_ptr (slot s (count s - 1)) ≡ 1 =
              ap (λ k. is_ptr (slot s (k - 1))) one ∙ here in
            (
              node pipes low live s,
              ground (arith, one, kept, same),
              as_it_is (ground arith) (ground arith),
            )
        | no pruned ↦ (
          node pipes low 0 nil,
          ground (arith, one, lone one),
          nothing_left (omega (arith, lone one)),
        )
      ]
      | no many ↦
          let (t', eq, shrunk) = shrink_lem (omega arith) in
          let rest : before - n ≡ live = omega arith in
          let enough : leb n before ≡ true = ground arith in
          let z : (count s == 0) ≡ false = ground arith in
          let o : (count s == 1) ≡ false = ground arith in (t', rw (z, o, enough, rest) eq, shrunk)
    ]
  ]

-- A pipe that leaves a set.
erase_empty :
    (x : ℕ) (xs : List ℕ) → is_empty xs ≡ false → is_empty (erase x xs) ≡ true → has x xs ≡ true
unfolding erase has
erase_empty x [] h k = cc
erase_empty x (y ∷ ys) h k = ground arith

pub leave_lem : (x : ℕ) (o : Pipes) → IsPipeSet o → (leave x o).1 ≡ without x o
unfolding leave
leave_lem x none s = refl
leave_lem x (some xs) s = elim (Bool-cases (is_empty (erase x xs))) [
  | inl last ↦ (let there = erase_empty x xs s.1 last in rw (last, there) refl)
  | inr more ↦ elim (Bool-cases (has x xs)) [
    | inl there ↦ rw (more, there) refl
    | inr absent ↦ rw (more, absent) refl
  ]
]
