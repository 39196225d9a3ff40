-- ===== src/Trie/Apply.antt =====
-- apply: it calls its function once for each subscribed key.
use cctas.Base.{
  ℕ, suc, ◌+◌, ◌-◌, ◌==◌, ltb, ◌≡◌, refl, sym, ap, ap₂, ◌∙◌, Bool, true, false, ◌&&◌, Option, none,
  some, List, [], ◌∷◌, ◌++◌, map, append-nil, append_assoc, if◌then◌else◌, arith, Bool-cases, inl,
  inr, dec_lt,
}
use cctas.Tables.{node, Slots, nil, null, ptr, slot, count}
use cctas.Tables.Load.{child, load, load_of}
use cctas.Tables.Table.{slot_beyond}
use cctas.Trie.{Trie, keys, keys_of_slots, refs}

abbrev same : List ℕ → List ℕ → Bool
same [] [] = true
same [] (y ∷ ys) = false
same (x ∷ xs) [] = false
same (x ∷ xs) (y ∷ ys) = (x == y) && same xs ys

-- How often a key is among some keys.
abbrev pub occurs : List ℕ → List (List ℕ) → ℕ
occurs q [] = 0
occurs q (k ∷ ks) = (if same q k then 1 else 0) + occurs q ks

occurs-append :
    (q : List ℕ) (xs ys : List (List ℕ)) → occurs q (xs ++ ys) ≡ occurs q xs + occurs q ys
occurs-append q [] ys = omega arith
occurs-append q (x ∷ xs) ys = omega (arith, occurs-append q xs ys)

-- the keys that start with c
occurs-below :
    (d : ℕ) (ds : List ℕ) (c : ℕ) (ks : List (List ℕ))
    → occurs (d ∷ ds) (map (λ k. c ∷ k) ks) ≡ (if d == c then occurs ds ks else 0)
occurs-below d ds c [] = ground arith
occurs-below d ds c (k ∷ ks) = ground (arith, occurs-below d ds c ks)

occurs-nil_below : (c : ℕ) (ks : List (List ℕ)) → occurs [] (map (λ k. c ∷ k) ks) ≡ 0
occurs-nil_below c [] = refl
occurs-nil_below c (k ∷ ks) = omega (arith, occurs-nil_below c ks)

map-append : (f : List ℕ → List ℕ) (xs ys : List (List ℕ)) → map f (xs ++ ys) ≡ map f xs ++ map f ys
map-append f [] ys = refl
map-append f (x ∷ xs) ys = ap (λ l. f x ∷ l) (map-append f xs ys)

map-shift :
    (b : List ℕ) (c : ℕ) (ks : List (List ℕ))
    → map (λ k. (b ++ (c ∷ [])) ++ k) ks ≡ map (λ k. b ++ k) (map (λ k. c ∷ k) ks)
map-shift b c [] = refl
map-shift b c (k ∷ ks) = ap₂ (λ h t. h ∷ t) (append_assoc b (c ∷ []) k) (map-shift b c ks)

-- The buffer stands before every key.
mutual
  unfolding keys

  keys_buffer : (b : List ℕ) (t : Trie) → keys b t ≡ map (λ k. b ++ k) (keys [] t)
  keys_buffer b (node refcnt low live s) = elim (Bool-cases (refcnt == 0)) [
    | inl idle ↦ rw idle (keys_of_slots_buffer b low s)
    | inr held ↦ rw held (ap₂ (λ h t. h ∷ t) (sym (append-nil b)) (keys_of_slots_buffer b low s))
  ]

  keys_of_slots_buffer :
      (b : List ℕ) (c : ℕ) (s : Slots ℕ)
      → keys_of_slots b c s ≡ map (λ k. b ++ k) (keys_of_slots [] c s)
  keys_of_slots_buffer b c nil = refl
  keys_of_slots_buffer b c (null s) = keys_of_slots_buffer b (c + 1) s
  keys_of_slots_buffer b c (ptr t s) =
      ap₂ (λ x y. x ++ y)
        (keys_buffer (b ++ (c ∷ [])) t
          ∙ map-shift b c (keys [] t)
          ∙ ap (map (λ k. b ++ k)) (sym (keys_buffer (c ∷ []) t)))
        (keys_of_slots_buffer b (c + 1) s)
      ∙ sym (map-append (λ k. b ++ k) (keys (c ∷ []) t) (keys_of_slots [] (c + 1) s))

-- What f gives in the slot of d, of a table that starts with c.
module _ (f : Trie → ℕ) (d : ℕ) where
  abbrev in_slot : ℕ → Slots ℕ → ℕ
  in_slot low table = if ltb d low then 0 else load_of 0 f (slot table (d - low))

  in_slot-null : (c : ℕ) (s : Slots ℕ) → in_slot (c + 1) s ≡ in_slot c (null s)
  in_slot-null c s = elim (dec_lt c d) [
    | yes above ↦
        let further : d - c ≡ suc (d - (c + 1)) = omega arith in
        let here : load_of 0 f (slot (null s) (d - c)) ≡ load_of 0 f (slot s (d - (c + 1))) =
          ap (λ i. load_of 0 f (slot (null s) i)) further in
        ground (arith, here)
    | no below ↦
        let start : d - c ≡ 0 = omega arith in
        let here : load_of 0 f (slot (null s) (d - c)) ≡ 0 =
          ap (λ i. load_of 0 f (slot (null s) i)) start in
        ground (arith, here)
  ]

  in_slot-ptr :
      (c : ℕ) (s : Slots ℕ) (t : Trie)
      → (if d == c then f t else 0) + in_slot (c + 1) s ≡ in_slot c (ptr t s)
  in_slot-ptr c s t = elim (dec_lt c d) [
    | yes above ↦
        let further : d - c ≡ suc (d - (c + 1)) = omega arith in
        let here : load_of 0 f (slot (ptr t s) (d - c)) ≡ load_of 0 f (slot s (d - (c + 1))) =
          ap (λ i. load_of 0 f (slot (ptr t s) i)) further in
        ground (arith, here)
    | no below ↦
        let start : d - c ≡ 0 = omega arith in
        let here : load_of 0 f (slot (ptr t s) (d - c)) ≡ f t =
          ap (λ i. load_of 0 f (slot (ptr t s) i)) start in
        ground (arith, here)
  ]

-- What is called for a key below a table: what is called in the slot of its first character.
occurs-slots :
    (d : ℕ) (ds : List ℕ) (c : ℕ) (s : Slots ℕ)
    → occurs (d ∷ ds) (keys_of_slots [] c s) ≡ in_slot (λ t. occurs ds (keys [] t)) d c s
unfolding keys
occurs-slots d ds c nil = ground arith
occurs-slots d ds c (null s) =
    occurs-slots d ds (c + 1) s ∙ in_slot-null (λ t. occurs ds (keys [] t)) d c s
occurs-slots d ds c (ptr t s) =
    occurs-append (d ∷ ds) (keys (c ∷ []) t) (keys_of_slots [] (c + 1) s)
    ∙ ap₂ (λ m n. m + n)
        (ap (occurs (d ∷ ds)) (keys_buffer (c ∷ []) t) ∙ occurs-below d ds c (keys [] t))
        (occurs-slots d ds (c + 1) s)
    ∙ in_slot-ptr (λ t'. occurs ds (keys [] t')) d c s t

occurs-slots_nil : (c : ℕ) (s : Slots ℕ) → occurs [] (keys_of_slots [] c s) ≡ 0
unfolding keys
occurs-slots_nil c nil = refl
occurs-slots_nil c (null s) = occurs-slots_nil (c + 1) s
occurs-slots_nil c (ptr t s) =
    occurs-append [] (keys (c ∷ []) t) (keys_of_slots [] (c + 1) s)
    ∙ ap₂ (λ m n. m + n) (ap (occurs []) (keys_buffer (c ∷ []) t) ∙ occurs-nil_below c (keys [] t))
        (occurs-slots_nil (c + 1) s)

-- the child that the operations go to, where it is in the table
load-in_slot :
    (f : Trie → ℕ) (d low : ℕ) (s : Slots ℕ) → in_slot f d low s ≡ load_of 0 f (child d low s)
load-in_slot f d low s = elim (dec_lt d low) [
  | yes below ↦ ground arith
  | no above ↦ elim (dec_lt (d - low) (count s)) [
    | yes inside ↦ ground arith
    | no beyond ↦
        let lost : load_of 0 f (slot s (d - low)) ≡ 0 =
          ap (load_of 0 f) (slot_beyond s (d - low) (omega arith)) in
        ground (arith, lost)
  ]
]

keys_child :
    (ds : List ℕ) (o : Option Trie)
    → ((t : Trie) → occurs ds (keys [] t) ≡ (if refs ds t == 0 then 0 else 1))
    → load_of 0 (λ t. occurs ds (keys [] t)) o ≡ (if load_of 0 (refs ds) o == 0 then 0 else 1)
keys_child ds none h = ground arith
keys_child ds (some t) h = h t

-- apply calls its function once for each key with a subscription, and for no other.
pub keys_lem : (q : List ℕ) (t : Trie) → occurs q (keys [] t) ≡ (if refs q t == 0 then 0 else 1)
unfolding keys load
keys_lem [] (node refcnt low live s) = elim (Bool-cases (refcnt == 0)) [
  | inl idle ↦ rw idle (occurs-slots_nil low s)
  | inr held ↦ rw held (ap (λ n. 1 + n) (occurs-slots_nil low s))
]
keys_lem (d ∷ ds) (node refcnt low live s) =
    let below : occurs (d ∷ ds) (keys_of_slots [] low s)
        ≡ load_of 0 (λ t. occurs ds (keys [] t)) (child d low s) =
      occurs-slots d ds low s ∙ load-in_slot (λ t. occurs ds (keys [] t)) d low s in
    let each : load_of 0 (λ t. occurs ds (keys [] t)) (child d low s)
        ≡ (if load_of 0 (refs ds) (child d low s) == 0 then 0 else 1) =
      keys_child ds (child d low s) (keys_lem ds) in
    elim (Bool-cases (refcnt == 0)) [
      | inl idle ↦ rw idle (below ∙ each)
      | inr held ↦
          let behind : 0 + occurs (d ∷ ds) (keys_of_slots [] low s)
              ≡ occurs (d ∷ ds) (keys_of_slots [] low s) =
            omega arith in
          rw held (behind ∙ below ∙ each)
    ]
