-- ===== src/Tables/Replaced.antt =====
-- A node whose child for one character becomes another one, or goes.
use cctas.Base.{
  ℕ, ◌-◌, ◌<◌, ◌≡◌, ◌≢◌, refl, sym, ap, ◌∙◌, subst, false, none, some, arith, List, [], ◌∷◌,
  ℕ_discrete,
}
use cctas.Tables.{Node, node, Slots, count, slot, set_slot, outside}
use cctas.Tables.Load.{child, load, load_of, IsWf, IsWf-parts}
use cctas.Tables.Table.{slot-set_slot, count-set_slot}
use cctas.Tables.Shape.{live_slots-set_slot, AllWf-set_slot}
use cctas.Tables.Adding.{child-set_slot}
use cctas.Tables.Shrunk

-- a node whose child for c becomes another one
module _ {A : Type 0} (empty : A) (c : ℕ) (a : A) (low live : ℕ) (s : Slots A) (u : Node A)
    (w : IsWf (node a low live s)) (inside : outside c low s ≡ false)
    (at_c : slot s (c - low) ≡ some u) where
  pub record Replaced (u' t' : Node A) : Type 0 where
    pub wf : IsWf t'
    pub below : (q : List ℕ) → load empty (c ∷ q) t' ≡ load empty q u'
    pub at_node : load empty [] t' ≡ a
    pub beside :
        (d : ℕ) (q : List ℕ)
        → d ≢ c
        → load empty (d ∷ q) t' ≡ load empty (d ∷ q) (node a low live s)

  -- the child stays a node
  pub kept_Replaced :
      (u' : Node A) → IsWf u' → Replaced u' (node a low live (set_slot s (c - low) (some u')))
  unfolding IsWf load
  kept_Replaced u' wu =
      let (counted, first, last, all) = IsWf-parts a low live s w in
      let in_table : c - low < count s = ground (arith, inside) in
      let kept = count-set_slot s (c - low) (some u') in
      let there = λ (d : ℕ).
        child-set_slot c low s (some u') d (ground (arith, inside)) (ground (arith, inside)) in
      let final : Slots A = set_slot s (c - low) (some u') in
      let at_end : slot final (count final - 1) ≡ slot final (count s - 1) =
        ap (λ n. slot final (n - 1)) kept in
      record {
        wf = (
          ground (arith, counted, live_slots-set_slot s (c - low) (some u') in_table, at_c),
          ground (arith, kept, first, slot-set_slot s (c - low) 0 (some u') in_table),
          ground (
            arith,
            kept,
            last,
            at_end,
            slot-set_slot s (c - low) (count s - 1) (some u') in_table,
          ),
          AllWf-set_slot s (c - low) (some u') all wu,
        );
        below = λ q.
            (let here : child c low final ≡ some u' = there c ∙ ground arith in
              ap (load_of empty (load empty q)) here);
        at_node = refl;
        beside = λ d q ne.
            (let other : child d low final ≡ child d low s = there d ∙ ground arith in
              ap (load_of empty (load empty q)) other);
      }

  -- the child has gone
  pub pruned_Replaced :
      (u' t' : Node A)
      → IsWf u'
      → ((q : List ℕ) → load empty q u' ≡ empty)
      → Shrunk.Shrunk empty a low (live - 1) (set_slot s (c - low) none) t'
      → Replaced u' t'
  unfolding load
  pruned_Replaced u' t' wu gone shrunk =
      let there = λ (d : ℕ).
        child-set_slot c low s none d (ground (arith, inside)) (ground (arith, inside)) in
      record {
        wf = shrunk.wf;
        below = λ q.
            shrunk.same (c ∷ q)
            ∙ (let here : child c low (set_slot s (c - low) none) ≡ none = there c ∙ ground arith in
                ap (load_of empty (load empty q)) here)
            ∙ sym (gone q);
        at_node = shrunk.same [];
        beside = λ d q ne.
            shrunk.same (d ∷ q)
            ∙ (let other : child d low (set_slot s (c - low) none) ≡ child d low s =
                  there d ∙ ground arith in
                ap (load_of empty (load empty q)) other);
      }

  pub found_child : child c low s ≡ some u
  found_child = ground (arith, inside, at_c)

  -- what the trie held at a key below c
  pub load-found : (q : List ℕ) → load empty (c ∷ q) (node a low live s) ≡ load empty q u
  unfolding load
  load-found q = ap (load_of empty (load empty q)) found_child

  -- other keys than one below c, where the new child holds at other keys what the old one did
  pub Replaced-others :
      (cs : List ℕ) (u' t' : Node A)
      → Replaced u' t'
      → ((q : List ℕ) → q ≢ cs → load empty q u' ≡ load empty q u)
      → (q : List ℕ) → q ≢ c ∷ cs
      → load empty q t' ≡ load empty q (node a low live s)
  unfolding load
  Replaced-others cs u' t' r kept [] ne = r.at_node
  Replaced-others cs u' t' r kept (d ∷ ds) ne = elim (ℕ_discrete d c) [
    | yes same ↦
        subst (λ k. load empty (k ∷ ds) t' ≡ load empty (k ∷ ds) (node a low live s)) (sym same)
          (r.below ds ∙ kept ds (λ h. ne (cc (same, h))) ∙ sym (load-found ds))
    | no differs ↦ r.beside d ds differs
  ]
