-- ===== src/Trie/Trim.antt =====
-- The loops of rm that pass over the empty slots at an end of a table, against the positions of the
-- first and the last node.
use cctas.Base.{ℕ, zero, suc, ◌+◌, ◌<◌, ◌≤◌, ◌≡◌, refl, sym, ap, ◌∙◌, Option, none, some, arith}
use cctas.Tables.{
  node, Slots, nil, null, ptr, count, slot, first_ptr, end_ptr, take_slots, drop_slots,
}
use cctas.Tables.Load.{is_ptr}
use cctas.Tables.Narrow.{end_ptr-le}
use cctas.Trie.{Trie, trim_left, trim_right, trim_step, trimmed}

pub trim_left_low : (s : Slots ℕ) (low : ℕ) → (trim_left s low).0 ≡ low + first_ptr s
trim_left_low nil low = omega arith
trim_left_low (null s) low = omega (arith, trim_left_low s (low + 1))
trim_left_low (ptr t s) low = omega arith

pub trim_left_slots : (s : Slots ℕ) (low : ℕ) → (trim_left s low).1 ≡ drop_slots (first_ptr s) s
trim_left_slots nil low = refl
trim_left_slots (null s) low = trim_left_slots s (low + 1)
trim_left_slots (ptr t s) low = refl

pub take_slots_all : (n : ℕ) (s : Slots ℕ) → count s ≤ n → take_slots n s ≡ s
take_slots_all zero nil h = refl
take_slots_all zero (null s) h = absurd (omega arith)
take_slots_all zero (ptr t s) h = absurd (omega arith)
take_slots_all (suc n) nil h = refl
take_slots_all (suc n) (null s) h = ap null (take_slots_all n s (omega arith))
take_slots_all (suc n) (ptr t s) h = ap (ptr t) (take_slots_all n s (omega arith))

trim_right_nil : (s : Slots ℕ) → end_ptr s ≡ 0 → trim_right s ≡ nil
trim_right_nil nil h = refl
trim_right_nil (null s) h = ap trim_step (trim_right_nil s (ground arith))
trim_right_nil (ptr t s) h = absurd (omega arith)

trim_step_more :
    (s : Slots ℕ) (n : ℕ)
    → n < count s
    → trim_step (take_slots (suc n) s) ≡ null (take_slots (suc n) s)
trim_step_more nil n h = absurd (omega arith)
trim_step_more (null s) n h = refl
trim_step_more (ptr t s) n h = refl

trim_null :
    (s : Slots ℕ) (n : ℕ)
    → end_ptr s ≡ n
    → trim_right s ≡ take_slots n s
    → trim_right (null s) ≡ take_slots (end_ptr (null s)) (null s)
trim_null s zero e h =
    let stays : end_ptr (null s) ≡ 0 = ground arith in
    ap trim_step h ∙ ap (λ k. take_slots k (null s)) (sym stays)
trim_null s (suc n) e h =
    let grows : end_ptr (null s) ≡ suc (suc n) = ground (arith, e) in
    ap trim_step h
    ∙ trim_step_more s n (omega (arith, e, end_ptr-le s))
    ∙ ap (λ k. take_slots k (null s)) (sym grows)

pub trim_right_lem : (s : Slots ℕ) → trim_right s ≡ take_slots (end_ptr s) s
trim_right_lem nil = refl
trim_right_lem (null s) = trim_null s (end_ptr s) refl (trim_right_lem s)
trim_right_lem (ptr t s) = ap (ptr t) (trim_right_lem s)

pub take_one :
    (s : Slots ℕ) (i : ℕ) (t : Trie) → slot s i ≡ some t → take_slots 1 (drop_slots i s) ≡ ptr t nil
take_one nil i t h = absurd (ground arith)
take_one (null s) zero t h = absurd (ground arith)
take_one (null s) (suc i) t h = take_one s i t h
take_one (ptr u s) zero t h = ground (arith, h)
take_one (ptr u s) (suc i) t h = take_one s i t h

-- What the assertions on the trimmed table ask for.
pub trimmed_ptr :
    (refcnt low live : ℕ) (s : Slots ℕ) (i : ℕ)
    → is_ptr (slot s i) ≡ 1
    → trimmed refcnt low live s ≡ some (node refcnt low live s)
trimmed_ptr refcnt low live nil i h = absurd (omega arith)
trimmed_ptr refcnt low live (null s) i h = refl
trimmed_ptr refcnt low live (ptr t s) i h = refl

pub is_ptr-some : (o : Option Trie) → is_ptr o ≡ 1 → (t : Trie) × (o ≡ some t)
is_ptr-some none h = absurd (omega arith)
is_ptr-some (some t) h = (t, refl)
