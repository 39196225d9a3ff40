-- ===== src/Tables/Extend.antt =====
-- The extension of a node's table in add: it makes room for a character and loses no child.
use cctas.Base.{
  ℕ, ◌+◌, ◌-◌, ◌≤◌, ◌<◌, min, ◌≡◌, ◌≢◌, refl, ap, ◌∙◌, false, arith, if◌then◌else◌, ltb, ◌==◌,
  Bool-cases, ◌⊎◌, inl, inr, ℕ_discrete, dec_lt,
}
use cctas.Tables.{Slots, nil, null, ptr, count, slot, set_slot, nulls, grow, outside, extend}
use cctas.Tables.Table.{
  slot-set_slot, count-set_slot, slot_beyond, slot-nulls, count-nulls, slot-grow, count-grow,
}
use cctas.Tables.Load.{is_ptr, live_slots, child, AllWf}
use cctas.Tables.Shape.{
  live_slots-set_slot, live_slots-nulls, live_slots-grow, AllWf-set_slot, AllWf-slot, AllWf-nulls,
  AllWf-grow,
}

-- There is a node at both ends of the table.
abbrev pub Ends : {A : Type 0} → Slots A → Type 0
Ends s =
    (is_ptr (slot s 0) ≡ (if count s == 0 then 0 else 1))
    × (is_ptr (slot s (count s - 1)) ≡ (if count s == 0 then 0 else 1))

-- What add needs of the extended table.
pub record Extended {A : Type 0} (c low : ℕ) (s : Slots A) (low' : ℕ) (s' : Slots A) : Type 0 where
  pub above : low' ≤ c
  pub below : c < low' + count s'
  pub same : (d : ℕ) → child d low' s' ≡ child d low s
  pub live : live_slots s' ≡ live_slots s
  pub first : (c ≡ low') ⊎ (is_ptr (slot s' 0) ≡ 1)
  pub last : (c + 1 ≡ low' + count s') ⊎ (is_ptr (slot s' (count s' - 1)) ≡ 1)
  pub lone : count s' ≡ 1 → c ≡ low'

pub live_slots_one : {A : Type 0} (s : Slots A) → count s ≡ 1 → live_slots s ≡ is_ptr (slot s 0)
live_slots_one nil h = absurd (omega arith)
live_slots_one (null nil) h = refl
live_slots_one (null (null s)) h = absurd (omega arith)
live_slots_one (null (ptr u s)) h = absurd (omega arith)
live_slots_one (ptr t nil) h = refl
live_slots_one (ptr t (null s)) h = absurd (omega arith)
live_slots_one (ptr t (ptr u s)) h = absurd (omega arith)

live_slots_zero : {A : Type 0} (s : Slots A) → count s ≡ 0 → live_slots s ≡ 0
live_slots_zero nil h = refl
live_slots_zero (null s) h = absurd (omega arith)
live_slots_zero (ptr t s) h = absurd (omega arith)

module _ {A : Type 0} (c low : ℕ) (s : Slots A) (e : Ends s) where
  above_lem :
      1 < count s → low + count s ≤ c → Extended c low s low (grow s (c - low + 1 - count s))
  above_lem h h' =
      let grown = count-grow s (c - low + 1 - count s) in
      record {
        above = omega (arith, h');
        below = omega (arith, grown, h');
        same = λ d.
            ground (
              arith,
              grown,
              slot-grow s (c - low + 1 - count s) (d - low),
              slot_beyond s (d - low),
            );
        live = live_slots-grow s (c - low + 1 - count s);
        first = inr (ground (arith, slot-grow s (c - low + 1 - count s) 0, e.0));
        last = inl (omega (arith, grown, h'));
        lone = λ one. omega (arith, one, grown, h, h');
      }

  below_lem : 1 < count s → c < low → Extended c low s c (nulls (low - c) s)
  below_lem h h' =
      let grown = count-nulls (low - c) s in
      record {
        above = omega arith;
        below = omega (arith, grown, h');
        same = λ d. elim (dec_lt d low) [
          | yes under ↦ ground (arith, grown, h', slot-nulls (low - c) s (d - c))
          | no over ↦
              let shifted : d - c - (low - c) ≡ d - low = omega (arith, h') in
              ground (
                arith,
                grown,
                h',
                slot-nulls (low - c) s (d - c),
                ap (slot s) shifted,
                slot_beyond s (d - low),
              )
        ];
        live = live_slots-nulls (low - c) s;
        first = inl refl;
        last =
            let back : count (nulls (low - c) s) - 1 - (low - c) ≡ count s - 1 =
              omega (arith, grown, h) in
            inr (
              ground (
                arith,
                grown,
                slot-nulls (low - c) s (count (nulls (low - c) s) - 1),
                ap (slot s) back,
                e.1,
              ));
        lone = λ one. omega (arith, one, grown, h, h');
      }

  -- The lone child of the node moves into a table that reaches from it to c.
  lone_lem :
      (k : ℕ)
      → count s ≡ 1
      → c ≢ low
      → k + min low c ≡ low + c + 1 - min low c
      → Extended c low s (min low c) (set_slot (nulls k nil) (low - min low c) (slot s 0))
  lone_lem k h ne hk =
      let i = low - min low c in
      let table : Slots A = nulls k nil in
      let size : count table ≡ k = count-nulls {A = A} k nil ∙ omega arith in
      let in_table : i < count table = omega (arith, size, hk) in
      let final = set_slot table i (slot s 0) in
      let kept = count-set_slot table i (slot s 0) in
      let written = λ (j : ℕ). slot-set_slot table i j (slot s 0) in_table in
      record {
        above = omega arith;
        below = omega (arith, kept, size, hk);
        same = λ d. elim (ℕ_discrete d low) [
          | yes here ↦
              let there : d - min low c ≡ i = omega (arith, here) in
              let zero_at : d - low ≡ 0 = omega (arith, here) in
              ground
                (arith, size, kept, hk, h, ap (slot final) there, ap (slot s) zero_at, written i)
          | no other ↦ ground (
            arith,
            size,
            kept,
            hk,
            h,
            written (d - min low c),
            slot-nulls {A = A} k nil (d - min low c),
          )
        ];
        live = ground (
          arith,
          live_slots-set_slot table i (slot s 0) in_table,
          slot-nulls {A = A} k nil i,
          live_slots-nulls {A = A} k nil,
          live_slots_one s h,
        );
        first = elim (dec_lt low c) [
          | yes after ↦
              let at_zero : i ≡ 0 = omega arith in
              inr (ground (arith, ap (slot final) at_zero, written i, e.0, h))
          | no before ↦ inl (omega arith)
        ];
        last = elim (dec_lt low c) [
          | yes after ↦ inl (omega (arith, kept, size, hk))
          | no before ↦
              let at_end : count final - 1 ≡ i = omega (arith, kept, size, hk) in
              inr (ground (arith, ap (slot final) at_end, written i, e.0, h))
        ];
        lone = λ one. omega (arith, one, kept, size, hk, ne);
      }

  unchanged_lem : outside c low s ≡ false → Extended c low s low s
  unchanged_lem h = record {
    above = ground arith;
    below = ground arith;
    same = λ d. refl;
    live = refl;
    first = ground (arith, e.0);
    last = ground (arith, e.1);
    lone = λ one. ground arith;
  }

  first_lem : count s ≡ 0 → Extended c low s c (null nil)
  first_lem h = record {
    above = omega arith;
    below = omega arith;
    same = λ d. ground arith;
    live = ground (arith, live_slots_zero s h);
    first = inl refl;
    last = inl (omega arith);
    lone = λ one. refl;
  }

  pub extend-Extended : Extended c low s (extend c low s).0 (extend c low s).1
  unfolding extend
  extend-Extended = elim (Bool-cases (outside c low s)) [
    | inr inside ↦ rw inside (unchanged_lem inside)
    | inl out ↦ rw out (elim (ℕ_discrete (count s) 0) [
      | yes none_yet ↦ rw none_yet (first_lem none_yet)
      | no some_slots ↦ elim (ℕ_discrete (count s) 1) [
        | yes one ↦ rw one (
            lone_lem ((if ltb low c then c - low else low - c) + 1) one (ground arith)
              (ground arith))
        | no many ↦
            let z : (count s == 0) ≡ false = ground arith in
            let o : (count s == 1) ≡ false = ground arith in
            elim (Bool-cases (ltb low c)) [
              | inl up ↦ rw (z, o, up) (above_lem (omega arith) (ground arith))
              | inr down ↦ rw (z, o, down) (below_lem (omega arith) (ground arith))
            ]
      ]
    ])
  ]

  pub extend-AllWf : AllWf s → AllWf (extend c low s).1
  unfolding extend AllWf
  extend-AllWf a = elim (Bool-cases (outside c low s)) [
    | inr inside ↦ rw inside a
    | inl out ↦ rw out (elim (Bool-cases (count s == 0)) [
      | inl none_yet ↦ rw none_yet tt
      | inr some_slots ↦ elim (Bool-cases (count s == 1)) [
        | inl one ↦
            let k = (if ltb low c then c - low else low - c) + 1 in
            rw (some_slots, one)
              (AllWf-set_slot (nulls k nil) (low - min low c) (slot s 0) (AllWf-nulls k nil tt)
                (AllWf-slot s 0 a))
        | inr many ↦ elim (Bool-cases (ltb low c)) [
          | inl up ↦ rw (some_slots, many, up) (AllWf-grow s (c - low + 1 - count s) a)
          | inr down ↦ rw (some_slots, many, down) (AllWf-nulls (low - c) s a)
        ]
      ]
    ])
  ]
