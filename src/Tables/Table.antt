-- ===== src/Tables/Table.antt =====
-- The tables of pointers: what each operation puts at each index.
use cctas.Base.{
  ℕ, zero, suc, ◌+◌, ◌-◌, ◌≤◌, ◌<◌, ◌≡◌, refl, ap, ◌∙◌, ◌==◌, ltb, Option, none, some,
  if◌then◌else◌, arith,
}
use cctas.Tables.{Node, Slots, nil, null, ptr, count, slot, set_slot, nulls, grow}

pub slot-set_slot :
    {A : Type 0} (s : Slots A) (i j : ℕ) (o : Option (Node A))
    → i < count s
    → slot (set_slot s i o) j ≡ (if j == i then o else slot s j)
slot-set_slot nil i j o h = absurd (omega arith)
slot-set_slot (null s) zero zero none h = ground arith
slot-set_slot (null s) zero (suc j) none h = ground arith
slot-set_slot (null s) zero zero (some u) h = ground arith
slot-set_slot (null s) zero (suc j) (some u) h = ground arith
slot-set_slot (null s) (suc i) zero o h = ground arith
slot-set_slot (null s) (suc i) (suc j) o h = slot-set_slot s i j o (omega arith) ∙ ground arith
slot-set_slot (ptr t s) zero zero none h = ground arith
slot-set_slot (ptr t s) zero (suc j) none h = ground arith
slot-set_slot (ptr t s) zero zero (some u) h = ground arith
slot-set_slot (ptr t s) zero (suc j) (some u) h = ground arith
slot-set_slot (ptr t s) (suc i) zero o h = ground arith
slot-set_slot (ptr t s) (suc i) (suc j) o h = slot-set_slot s i j o (omega arith) ∙ ground arith

pub count-set_slot :
    {A : Type 0} (s : Slots A) (i : ℕ) (o : Option (Node A)) → count (set_slot s i o) ≡ count s
count-set_slot nil i o = refl
count-set_slot (null s) zero none = refl
count-set_slot (null s) zero (some t) = refl
count-set_slot (null s) (suc i) o = ap suc (count-set_slot s i o)
count-set_slot (ptr u s) zero none = refl
count-set_slot (ptr u s) zero (some t) = refl
count-set_slot (ptr u s) (suc i) o = ap suc (count-set_slot s i o)

pub slot_beyond : {A : Type 0} (s : Slots A) (i : ℕ) → count s ≤ i → slot s i ≡ none
slot_beyond nil i h = refl
slot_beyond (null s) zero h = absurd (omega arith)
slot_beyond (null s) (suc i) h = slot_beyond s i (omega arith)
slot_beyond (ptr t s) zero h = absurd (omega arith)
slot_beyond (ptr t s) (suc i) h = slot_beyond s i (omega arith)

pub slot-nulls :
    {A : Type 0} (n : ℕ) (s : Slots A) (i : ℕ)
    → slot (nulls n s) i ≡ (if ltb i n then none else slot s (i - n))
slot-nulls zero s i = ground arith
slot-nulls (suc n) s zero = ground arith
slot-nulls (suc n) s (suc i) = slot-nulls n s i ∙ ground arith

pub count-nulls : {A : Type 0} (n : ℕ) (s : Slots A) → count (nulls n s) ≡ n + count s
count-nulls zero s = omega arith
count-nulls (suc n) s = omega (arith, count-nulls n s)

pub slot-grow : {A : Type 0} (s : Slots A) (n i : ℕ) → slot (grow s n) i ≡ slot s i
slot-grow nil n i = slot-nulls n nil i ∙ ground arith
slot-grow (null s) n zero = refl
slot-grow (null s) n (suc i) = slot-grow s n i
slot-grow (ptr t s) n zero = refl
slot-grow (ptr t s) n (suc i) = slot-grow s n i

pub count-grow : {A : Type 0} (s : Slots A) (n : ℕ) → count (grow s n) ≡ count s + n
count-grow nil n = omega (arith, count-nulls n nil)
count-grow (null s) n = omega (arith, count-grow s n)
count-grow (ptr t s) n = omega (arith, count-grow s n)
