-- ===== src/Tables/Shape.antt =====
-- How the table operations change the number of children, and that they keep the children's shape.
use cctas.Base.{
  ℕ, ◌-◌, ◌==◌, false, ℕ_discrete, zero, suc, ◌+◌, ◌<◌, ◌≡◌, refl, ap, Option, none, some, arith,
}
use cctas.Tables.{Node, node, outside, Slots, nil, null, ptr, count, slot, set_slot, nulls, grow}
use cctas.Tables.Load.{is_ptr, live_slots, IsWf, AllWf, IsWf-parts}

abbrev pub OptionWf : {A : Type 0} → Option (Node A) → Type 0
OptionWf none = Unit
OptionWf (some t) = IsWf t

pub live_slots-set_slot :
    {A : Type 0} (s : Slots A) (i : ℕ) (o : Option (Node A))
    → i < count s
    → live_slots (set_slot s i o) + is_ptr (slot s i) ≡ live_slots s + is_ptr o
live_slots-set_slot nil i o h = absurd (omega arith)
live_slots-set_slot (null s) zero none h = refl
live_slots-set_slot (null s) zero (some t) h = omega arith
live_slots-set_slot (null s) (suc i) o h = live_slots-set_slot s i o (omega arith)
live_slots-set_slot (ptr u s) zero none h = omega arith
live_slots-set_slot (ptr u s) zero (some t) h = omega arith
live_slots-set_slot (ptr u s) (suc i) o h = omega (arith, live_slots-set_slot s i o (omega arith))

pub live_slots-nulls : {A : Type 0} (n : ℕ) (s : Slots A) → live_slots (nulls n s) ≡ live_slots s
live_slots-nulls zero s = refl
live_slots-nulls (suc n) s = live_slots-nulls n s

pub live_slots-grow : {A : Type 0} (s : Slots A) (n : ℕ) → live_slots (grow s n) ≡ live_slots s
live_slots-grow nil n = live_slots-nulls n nil
live_slots-grow (null s) n = live_slots-grow s n
live_slots-grow (ptr t s) n = ap suc (live_slots-grow s n)

pub AllWf-set_slot :
    {A : Type 0} (s : Slots A) (i : ℕ) (o : Option (Node A))
    → AllWf s
    → OptionWf o
    → AllWf (set_slot s i o)
unfolding AllWf
AllWf-set_slot nil i o a w = a
AllWf-set_slot (null s) zero none a w = a
AllWf-set_slot (null s) zero (some t) a w = (w, a)
AllWf-set_slot (null s) (suc i) o a w = AllWf-set_slot s i o a w
AllWf-set_slot (ptr u s) zero none a w = a.1
AllWf-set_slot (ptr u s) zero (some t) a w = (w, a.1)
AllWf-set_slot (ptr u s) (suc i) o a w = (a.0, AllWf-set_slot s i o a.1 w)

pub AllWf-slot : {A : Type 0} (s : Slots A) (i : ℕ) → AllWf s → OptionWf (slot s i)
unfolding AllWf
AllWf-slot nil i a = tt
AllWf-slot (null s) zero a = tt
AllWf-slot (null s) (suc i) a = AllWf-slot s i a
AllWf-slot (ptr u s) zero a = a.0
AllWf-slot (ptr u s) (suc i) a = AllWf-slot s i a.1

pub AllWf-nulls : {A : Type 0} (n : ℕ) (s : Slots A) → AllWf s → AllWf (nulls n s)
unfolding AllWf
AllWf-nulls zero s a = a
AllWf-nulls (suc n) s a = AllWf-nulls n s a

pub AllWf-grow : {A : Type 0} (s : Slots A) (n : ℕ) → AllWf s → AllWf (grow s n)
unfolding AllWf
AllWf-grow nil n a = AllWf-nulls n nil a
AllWf-grow (null s) n a = AllWf-grow s n a
AllWf-grow (ptr t s) n a = (a.0, AllWf-grow s n a.1)

-- A lone pointer is never NULL.
pub lone_found :
    {A : Type 0} (c low live : ℕ) (a : A) (s : Slots A)
    → IsWf (node a low live s)
    → outside c low s ≡ false
    → slot s (c - low) ≡ none
    → (count s == 1) ≡ false
lone_found c low live a s w inside new = elim (ℕ_discrete (count s) 1) [
  | yes one ↦
      let (_, first, _, _) = IsWf-parts a low live s w in
      let at_zero : c - low ≡ 0 = ground (arith, one) in
      absurd (ground (arith, first, one, ap (slot s) at_zero, new))
  | no many ↦ ground arith
]
