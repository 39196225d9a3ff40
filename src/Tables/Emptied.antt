-- ===== src/Tables/Emptied.antt =====
-- A node whose slot for one character has just been emptied: what its table is like, and what is left
-- of the node when the table had one slot, or needs no compaction.
use cctas.Base.{
  ℕ, ◌+◌, ◌-◌, ◌≤◌, ◌<◌, ◌≡◌, ◌≢◌, refl, ap, ◌∙◌, ◌==◌, false, none, some, arith, List, [], ◌∷◌,
  if◌then◌else◌,
}
use cctas.Tables.{Node, node, Slots, nil, count, slot, set_slot, outside}
use cctas.Tables.Load.{is_ptr, live_slots, load, IsWf, AllWf, IsWf-parts}
use cctas.Tables.Table.{slot-set_slot, count-set_slot}
use cctas.Tables.Shape.{live_slots-set_slot, AllWf-set_slot}
use cctas.Tables.Extend.{live_slots_one}
use cctas.Tables.Live.{slot_of_none, live_slots_two}
use cctas.Tables.Shrunk.{Shrunk}

module _ {A : Type 0} (empty : A) (c : ℕ) (a : A) (low live : ℕ) (s : Slots A) (u : Node A)
    (w : IsWf (node a low live s)) (inside : outside c low s ≡ false)
    (at_c : slot s (c - low) ≡ some u) where
  abbrev pub emptied : Slots A
  emptied = set_slot s (c - low) none

  in_table : c - low < count s
  in_table = ground (arith, inside)

  emptied-slot : (j : ℕ) → slot emptied j ≡ (if j == c - low then none else slot s j)
  emptied-slot j = slot-set_slot s (c - low) j none in_table

  one_fewer : live_slots emptied + 1 ≡ live_slots s
  one_fewer = ground (arith, live_slots-set_slot s (c - low) none in_table, at_c)

  -- The table without the node for c, where it has more than one slot.
  pub record Emptied : Type 0 where
    pub two : 2 ≤ live
    pub counted : live - 1 ≡ live_slots emptied
    pub shape : AllWf emptied
    pub size : count emptied ≡ count s
    pub first : c ≢ low → is_ptr (slot emptied 0) ≡ 1
    pub last : c + 1 ≢ low + count s → is_ptr (slot emptied (count emptied - 1)) ≡ 1

  pub emptied_lem : 1 < count s → Emptied
  emptied_lem many =
      let (counted, first, last, all) = IsWf-parts a low live s w in
      let start : is_ptr (slot s 0) ≡ 1 = ground (arith, first) in
      let end : is_ptr (slot s (count s - 1)) ≡ 1 = ground (arith, last) in
      let kept : count emptied ≡ count s = count-set_slot s (c - low) none in
      let at_end : is_ptr (slot emptied (count emptied - 1)) ≡ is_ptr (slot emptied (count s - 1)) =
        ap (λ n. is_ptr (slot emptied (n - 1))) kept in
      record {
        two = omega (arith, counted, live_slots_two s 0 (count s - 1) start end (omega arith));
        counted = omega (arith, counted, one_fewer);
        shape = AllWf-set_slot s (c - low) none all tt;
        size = kept;
        first = λ ne. ground (arith, emptied-slot 0, start, inside);
        last = λ ne. at_end ∙ ground (arith, emptied-slot (count s - 1), end, inside);
      }

  emptied_lone :
      live_slots emptied ≡ 0
      → (q : List ℕ)
      → load empty q (node a low 0 nil) ≡ load empty q (node a low (live - 1) emptied)
  unfolding load
  emptied_lone h [] = refl
  emptied_lone h (d ∷ ds) = ground (arith, slot_of_none emptied (d - low) h)

  pub lone_Shrunk :
      count s ≡ 1 → (live ≡ 1) × Shrunk empty a low (live - 1) emptied (node a low 0 nil)
  unfolding IsWf AllWf
  lone_Shrunk one =
      let (counted, first, last, all) = IsWf-parts a low live s w in
      let all_live : live_slots s ≡ 1 = ground (arith, live_slots_one s one, first) in
      (
        omega (arith, counted, all_live),
        record {
          wf = (refl, refl, refl, tt);
          same = emptied_lone (omega (arith, one_fewer, all_live));
        },
      )

  pub whole_Shrunk :
      Emptied
      → 1 < count s
      → c ≢ low
      → c + 1 ≢ low + count s
      → Shrunk empty a low (live - 1) emptied (node a low (live - 1) emptied)
  unfolding IsWf
  whole_Shrunk e many ne ne' = record {
    wf = (
      e.counted,
      ground (arith, e.first ne, e.size),
      ground (arith, e.last ne', e.size),
      e.shape,
    );
    same = λ q. refl;
  }
