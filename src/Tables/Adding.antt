-- ===== src/Tables/Adding.antt =====
-- add: it runs to its end, keeps the shape, and changes what the trie holds at its key as `at_end`
-- says, and nothing at any other key.
use cctas.Base.{
  ℕ, zero, suc, ◌+◌, ◌-◌, ◌≤◌, ◌<◌, ◌≡◌, ◌≢◌, refl, sym, ap, ◌∙◌, subst, Bool, true, Option, none,
  some, List, [], ◌∷◌, arith, if◌then◌else◌, ltb, ◌==◌, ℕ_discrete,
}
use cctas.Tables.{
  Node, node, Slots, nil, null, ptr, count, slot, set_slot, extend, put_child, add_with,
}
use cctas.Tables.Table.{slot-set_slot, count-set_slot}
use cctas.Tables.Load.{is_ptr, live_slots, child, load, load_of, IsWf, AllWf, IsWf-parts}
use cctas.Tables.Shape.{OptionWf, live_slots-set_slot, AllWf-set_slot, AllWf-slot}
use cctas.Tables.Extend.{Extended, extend-Extended, extend-AllWf, live_slots_one}

pub child-set_slot :
    {A : Type 0} (c low : ℕ) (s : Slots A) (o : Option (Node A)) (d : ℕ)
    → low ≤ c
    → c < low + count s
    → child d low (set_slot s (c - low) o) ≡ (if d == c then o else child d low s)
child-set_slot c low s o d h h' =
    ground (arith, count-set_slot s (c - low) o, slot-set_slot s (c - low) (d - low) o)

pub live_slots_pos : {A : Type 0} (s : Slots A) (i : ℕ) → is_ptr (slot s i) ≤ live_slots s
live_slots_pos nil i = omega arith
live_slots_pos (null s) zero = omega arith
live_slots_pos (null s) (suc i) = live_slots_pos s i
live_slots_pos (ptr t s) zero = omega arith
live_slots_pos (ptr t s) (suc i) = omega (arith, live_slots_pos s i)

abbrev pub low_of : {A : Type 0} → ℕ → ℕ → Slots A → ℕ
low_of c low s = (extend c low s).0

abbrev pub table_of : {A : Type 0} → ℕ → ℕ → Slots A → Slots A
table_of c low s = (extend c low s).1

child_of_slot :
    {A : Type 0} (c low : ℕ) (s : Slots A) (low' : ℕ) (s' : Slots A) (o : Option (Node A))
    → Extended c low s low' s'
    → slot s' (c - low') ≡ o
    → child c low s ≡ o
child_of_slot c low s low' s' o e at_c =
    let found : child c low' s' ≡ slot s' (c - low') = ground (arith, e.above, e.below) in
    sym (e.same c) ∙ found ∙ at_c

-- After a node was created, live_nodes is what both assertions of trie_t want.
pub created_lem :
    {A : Type 0} (c low : ℕ) (s : Slots A) (low' : ℕ) (s' : Slots A) (live : ℕ)
    → Extended c low s low' s'
    → live ≡ live_slots s'
    → slot s' (c - low') ≡ none
    → (if count s' == 1 then live + 1 == 1 else ltb 1 (live + 1)) ≡ true
created_lem c low s low' s' live e counted new = elim (ℕ_discrete (count s') 1) [
  | yes one ↦
      let at_zero : c - low' ≡ 0 = omega (arith, e.lone one) in
      ground (arith, live_slots_one s' one, ap (slot s') at_zero, new)
  | no many ↦ ground (
    arith,
    live_slots_pos s' 0,
    live_slots_pos s' (count s' - 1),
    e.first,
    e.last,
    e.above,
    e.below,
  )
]

module _ {A R : Type 0} (empty : A) (at_end : A → R × A) where
  -- What add did: its result is that of `at_end`, and so is what the trie holds at the key; what it
  -- holds at other keys is as before, and the trie keeps its shape.
  pub record Added (p : List ℕ) (t : Node A) (r : R) (t' : Node A) : Type 0 where
    pub wf : IsWf t'
    pub flag : r ≡ (at_end (load empty p t)).0
    pub changed : load empty p t' ≡ (at_end (load empty p t)).1
    pub others : (q : List ℕ) → q ≢ p → load empty q t' ≡ load empty q t

  -- The node once the child for c is replaced in a table that was extended for c.
  put_child_lem :
      (c : ℕ) (cs : List ℕ) (a : A) (low live : ℕ) (s : Slots A) (low' live' : ℕ) (s' : Slots A)
      (r : R) (old new : Node A)
      → Extended c low s low' s'
      → AllWf s'
      → live' + is_ptr (slot s' (c - low')) ≡ live_slots s' + 1
      → ((q : List ℕ) → load_of empty (load empty q) (child c low s) ≡ load empty q old)
      → Added cs old r new
      → Added (c ∷ cs) (node a low live s) r (node a low' live' (set_slot s' (c - low') (some new)))
  unfolding load IsWf
  put_child_lem c cs a low live s low' live' s' r old new e all hl hq add =
      let i = c - low' in
      let inside : i < count s' = omega (arith, e.above, e.below) in
      let kept = count-set_slot s' i (some new) in
      let there = λ (d : ℕ). child-set_slot c low' s' (some new) d e.above e.below in
      let ho = hq cs in
      record {
        wf = (
          omega (arith, live_slots-set_slot s' i (some new) inside, hl),
          ground (arith, slot-set_slot s' i 0 (some new) inside, kept, e.first),
          let end : count (set_slot s' i (some new)) - 1 ≡ count s' - 1 = omega (arith, kept) in
              ground (
                arith,
                ap (slot (set_slot s' i (some new))) end,
                slot-set_slot s' i (count s' - 1) (some new) inside,
                kept,
                e.last,
              ),
          AllWf-set_slot s' i (some new) all add.wf,
        );
        flag = add.flag ∙ ap (λ n. (at_end n).0) (sym ho);
        changed =
            let here : child c low' (set_slot s' i (some new)) ≡ some new =
              there c ∙ ground arith in
            ap (load_of empty (load empty cs)) here ∙ add.changed ∙ ap (λ n. (at_end n).1) (sym ho);
        others = other_keys;
      }
    where
      final : Slots A
      final = set_slot s' (c - low') (some new)

      other_keys :
          (q : List ℕ)
          → q ≢ c ∷ cs
          → load empty q (node a low' live' final) ≡ load empty q (node a low live s)
      other_keys [] ne = refl
      other_keys (d ∷ ds) ne =
          let there = child-set_slot c low' s' (some new) d e.above e.below in
          elim (ℕ_discrete d c) [
            | yes same ↦
                let here : child d low' final ≡ some new = there ∙ ground arith in
                ap (load_of empty (load empty ds)) here
                ∙ add.others ds (λ h. ne (cc (same, h)))
                ∙ sym (hq ds)
                ∙ ap (λ x. load_of empty (load empty ds) (child x low s)) (sym same)
            | no differs ↦
                let here : child d low' final ≡ child d low' s' = there ∙ ground arith in
                ap (load_of empty (load empty ds)) (here ∙ e.same d)
          ]

  at_node :
      (a : A) (low live : ℕ) (s : Slots A)
      → IsWf (node a low live s)
      → Added [] (node a low live s) (at_end a).0 (node (at_end a).1 low live s)
  unfolding load IsWf
  at_node a low live s w = record {
    wf = w;
    flag = refl;
    changed = refl;
    others = λ q ne.
        elim q
            as (λ x.
              x ≢ []
              → load empty x (node (at_end a).1 low live s) ≡ load empty x (node a low live s)) [
                | [] ↦ λ no_. absurd (no_ refl)
                | d ∷ ds ↦ λ _. refl
              ]
          ne;
  }

  abbrev pub empty_node : Node A
  empty_node = node empty 0 0 nil

  empty-IsWf : IsWf empty_node
  unfolding IsWf AllWf
  empty-IsWf = (refl, refl, refl, tt)

  load-empty : (q : List ℕ) → load empty q empty_node ≡ empty
  unfolding load
  load-empty [] = refl
  load-empty (c ∷ cs) = ground arith

  -- an assertion that holds where those of trie_t do
  module _ (holds : ℕ → ℕ → Bool)
      (created : (n m : ℕ) → (if n == 1 then m == 1 else ltb 1 m) ≡ true → holds n m ≡ true) where
    -- What add does below a node, as a hypothesis of the step at the node.
    abbrev AddsAt : List ℕ → Node A → Type 0
    AddsAt p t =
        (r : R) × (t' : Node A) × (add_with empty holds at_end p t ≡ some (r, t')) × Added p t r t'

    add_below :
        (c : ℕ) (cs : List ℕ) (a : A) (low live : ℕ) (s : Slots A)
        → Extended c low s (low_of c low s) (table_of c low s)
        → AllWf (table_of c low s)
        → live ≡ live_slots (table_of c low s)
        → ((u : Node A) → IsWf u → AddsAt cs u)
        → (o : Option (Node A)) → slot (table_of c low s) (c - low_of c low s) ≡ o
        → AddsAt (c ∷ cs) (node a low live s)
    unfolding add_with
    add_below c cs a low live s e all counted below (some u) at_c =
        let there = child_of_slot c low s _ _ (some u) e at_c in
        let same = λ (q : List ℕ). ap (load_of empty (load empty q)) there in
        let wf_u : IsWf u = subst OptionWf at_c (AllWf-slot (table_of c low s) _ all) in
        let (r, new, run, add) = below u wf_u in
        (
          r,
          node a (low_of c low s) live
              (set_slot (table_of c low s) (c - low_of c low s) (some new)),
          rw (at_c, add_with)
              (ap (put_child a (low_of c low s) live (table_of c low s) (c - low_of c low s)) run),
          put_child_lem c cs a low live s _ live _ r u new e all
              (omega (arith, counted, ap is_ptr at_c)) same add,
        )
    add_below c cs a low live s e all counted below none at_c =
        let there = child_of_slot c low s _ _ none e at_c in
        let same : (q : List ℕ)
            → load_of empty (load empty q) (child c low s) ≡ load empty q empty_node =
          λ q. ap (load_of empty (load empty q)) there ∙ sym (load-empty q) in
        let (r, new, run, add) = below empty_node empty-IsWf in
        let checked : holds (count (table_of c low s)) (live + 1) ≡ true =
          created (count (table_of c low s)) (live + 1)
            (created_lem c low s _ _ live e counted at_c) in
        (
          r,
          node a (low_of c low s) (live + 1)
              (set_slot (table_of c low s) (c - low_of c low s) (some new)),
          rw (at_c, checked, add_with)
              (ap (put_child a (low_of c low s) (live + 1) (table_of c low s) (c - low_of c low s))
                run),
          put_child_lem c cs a low live s _ (live + 1) _ r empty_node new e all
              (omega (arith, counted, ap is_ptr at_c)) same add,
        )

    -- On a trie of the right shape add ends without a failed assertion.
    pub add_with_lem : (p : List ℕ) (t : Node A) → IsWf t → AddsAt p t
    unfolding add_with
    add_with_lem [] (node a low live s) w =
        ((at_end a).0, node (at_end a).1 low live s, refl, at_node a low live s w)
    add_with_lem (c ∷ cs) (node a low live s) w =
        let (counted, first, last, all) = IsWf-parts a low live s w in
        let e = extend-Extended c low s (first, last) in
        add_below c cs a low live s e (extend-AllWf c low s (first, last) all)
          (counted ∙ sym e.live) (add_with_lem cs) (slot (table_of c low s) (c - low_of c low s))
          refl
