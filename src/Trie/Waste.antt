-- ===== src/Trie/Waste.antt =====
-- Redundant nodes: rm leaves no more of them than there were.
use cctas.Base.{
  ℕ, zero, suc, ◌+◌, ◌-◌, ◌≤◌, ◌<◌, ◌==◌, ltb, ◌≡◌, refl, ap, ◌∙◌, Bool, false, Option, none, some,
  List, [], ◌∷◌, if◌then◌else◌, arith, Bool-cases, Option-cases, inl, inr,
}
use cctas.Tables.{node, Slots, nil, null, ptr, count, slot, set_slot, outside}
use cctas.Trie.{
  Trie, is_redundant, trim_left, trim_right, trim_step, lone, trimmed, compact, prune, with_flag,
  after_rm, rm,
}

-- How many nodes below the root of a trie are redundant.
unfoldable mutual
  pub waste : Trie → ℕ
  waste (node refcnt low live s) = waste_slots s

  pub waste_slots : Slots ℕ → ℕ
  waste_slots nil = 0
  waste_slots (null s) = waste_slots s
  waste_slots (ptr t s) = (if is_redundant t then 1 else 0) + waste t + waste_slots s

-- What a slot holds of them.
abbrev held : Option Trie → ℕ
held none = 0
held (some t) = (if is_redundant t then 1 else 0) + waste t

waste-set_slot :
    (s : Slots ℕ) (i : ℕ) (o : Option Trie)
    → i < count s
    → waste_slots (set_slot s i o) + held (slot s i) ≡ waste_slots s + held o
unfolding waste
waste-set_slot nil i o h = absurd (omega arith)
waste-set_slot (null s) zero none h = refl
waste-set_slot (null s) zero (some t) h = omega arith
waste-set_slot (null s) (suc i) o h = waste-set_slot s i o (omega arith)
waste-set_slot (ptr t s) zero none h = omega arith
waste-set_slot (ptr t s) zero (some u) h = omega arith
waste-set_slot (ptr t s) (suc i) o h = omega (arith, waste-set_slot s i o (omega arith))

held-le : (s : Slots ℕ) (i : ℕ) → held (slot s i) ≤ waste_slots s
unfolding waste
held-le nil i = omega arith
held-le (null s) zero = omega arith
held-le (null s) (suc i) = held-le s i
held-le (ptr t s) zero = omega arith
held-le (ptr t s) (suc i) = omega (arith, held-le s i)

trim_left_waste : (s : Slots ℕ) (low : ℕ) → waste_slots (trim_left s low).1 ≡ waste_slots s
unfolding waste
trim_left_waste nil low = refl
trim_left_waste (null s) low = trim_left_waste s (low + 1)
trim_left_waste (ptr t s) low = refl

trim_step_waste : (s : Slots ℕ) → waste_slots (trim_step s) ≡ waste_slots s
unfolding waste
trim_step_waste nil = refl
trim_step_waste (null s) = refl
trim_step_waste (ptr t s) = refl

trim_right_waste : (s : Slots ℕ) → waste_slots (trim_right s) ≡ waste_slots s
unfolding waste
trim_right_waste nil = refl
trim_right_waste (null s) = trim_step_waste (trim_right s) ∙ trim_right_waste s
trim_right_waste (ptr t s) = omega (arith, trim_right_waste s)

-- What is left, where no assertion fails, has at most n redundant nodes.
abbrev AtMost : ℕ → Option Trie → Type 0
AtMost n none = Unit
AtMost n (some t) = waste t ≤ n

AtMost-weaken : (k n : ℕ) (o : Option Trie) → k ≤ n → AtMost k o → AtMost n o
AtMost-weaken k n none le m = tt
AtMost-weaken k n (some t) le m = omega arith

lone-AtMost :
    (refcnt low live n : ℕ) (o : Option Trie) → held o ≤ n → AtMost n (lone refcnt low live o)
unfolding waste
lone-AtMost refcnt low live n none h = tt
lone-AtMost refcnt low live n (some t) h = omega (arith, h)

trimmed-AtMost :
    (refcnt low live n : ℕ) (s : Slots ℕ) → waste_slots s ≡ n → AtMost n (trimmed refcnt low live s)
unfolding waste
trimmed-AtMost refcnt low live n nil h = tt
trimmed-AtMost refcnt low live n (null s) h = omega (arith, h)
trimmed-AtMost refcnt low live n (ptr t s) h = omega (arith, h)

compact-AtMost :
    (refcnt low live : ℕ) (s : Slots ℕ) (c : ℕ)
    → AtMost (waste_slots s) (compact refcnt low live s c)
unfolding compact waste
compact-AtMost refcnt low live s c =
    let n = waste_slots s in
    elim (Bool-cases (live == 1)) [
      | inl one ↦ elim (Bool-cases (c == low)) [
        | inl first ↦
            rw (one, first)
              (lone-AtMost refcnt (low + (count s - 1)) live n (slot s (count s - 1))
                (held-le s (count s - 1)))
        | inr above ↦ elim (Bool-cases (c + 1 == low + count s)) [
          | inl last ↦
              rw (one, above, last) (lone-AtMost refcnt low live n (slot s 0) (held-le s 0))
          | inr below ↦ rw (one, above, below) tt
        ]
      ]
      | inr more ↦ elim (Bool-cases (c == low)) [
        | inl first ↦
            rw (more, first)
              (trimmed-AtMost refcnt (trim_left s low).0 live n (trim_left s low).1
                (trim_left_waste s low))
        | inr above ↦ elim (Bool-cases (c + 1 == low + count s)) [
          | inl last ↦
              rw (more, above, last)
                (trimmed-AtMost refcnt low live n (trim_right s) (trim_right_waste s))
          | inr below ↦ rw (more, above, below) (omega arith)
        ]
      ]
    ]

prune-AtMost :
    (refcnt low live : ℕ) (s : Slots ℕ) (c n : ℕ)
    → waste_slots (set_slot s (c - low) none) ≤ n
    → AtMost n (prune refcnt low live s c)
unfolding prune waste
prune-AtMost refcnt low live s c n h =
    let bare = set_slot s (c - low) none in
    elim (Bool-cases (count s == 1)) [
      | inl single ↦ elim (Bool-cases (live == 1)) [
        | inl last ↦ rw (single, last) (omega arith)
        | inr lost ↦ rw (single, lost) tt
      ]
      | inr several ↦ elim (Bool-cases (ltb 1 live)) [
        | inl others ↦
            rw (several, others)
              (AtMost-weaken (waste_slots bare) n (compact refcnt low (live - 1) bare c) h
                (compact-AtMost refcnt low (live - 1) bare c))
        | inr lost ↦ rw (several, lost) tt
      ]
    ]

-- rm, with the flag.
abbrev pub Leaves : ℕ → Option (Bool × Trie) → Type 0
Leaves n none = Unit
Leaves n (some (gone, t)) = waste t ≤ n

with_flag-Leaves : (n : ℕ) (ret : Bool) (o : Option Trie) → AtMost n o → Leaves n (with_flag ret o)
with_flag-Leaves n ret none m = tt
with_flag-Leaves n ret (some t) m = m

after_rm-Leaves :
    (refcnt low live : ℕ) (s : Slots ℕ) (c : ℕ) (u : Trie) (o : Option (Bool × Trie))
    → outside c low s ≡ false
    → slot s (c - low) ≡ some u
    → Leaves (waste u) o
    → Leaves (waste_slots s) (after_rm refcnt low live s c o)
unfolding waste
after_rm-Leaves refcnt low live s c u none inside at h = tt
after_rm-Leaves refcnt low live s c u (some (gone, u')) inside at h =
    let i = c - low in
    let there : i < count s = ground (arith, inside) in
    let had : held (slot s i) ≡ held (some u) = ap held at in
    elim (Bool-cases (is_redundant u')) [
      | inl spare ↦
          let freed = waste-set_slot s i none there in
          rw spare (
            with_flag-Leaves (waste_slots s) gone (prune refcnt low live s c)
              (prune-AtMost refcnt low live s c (waste_slots s) (omega (arith, freed))))
      | inr needed ↦
          let kept = waste-set_slot s i (some u') there in
          let none_more : held (some u') ≡ waste u' = ground (arith, needed) in
          rw needed (omega (arith, kept, none_more, had, h))
    ]

pub rm-Leaves : (p : List ℕ) (t : Trie) → Leaves (waste t) (rm p t)
unfolding rm waste
rm-Leaves [] (node refcnt low live s) = elim (Bool-cases (refcnt == 0)) [
  | inl idle ↦ rw idle (omega arith)
  | inr kept ↦ rw kept (omega arith)
]
rm-Leaves (c ∷ cs) (node refcnt low live s) = elim (Bool-cases (outside c low s)) [
  | inl out ↦ rw out (omega arith)
  | inr inside ↦ elim (Option-cases (slot s (c - low))) [
    | inl empty ↦ rw (inside, empty) (omega arith)
    | inr (u, at) ↦
        rw (inside, at) (after_rm-Leaves refcnt low live s c u (rm cs u) inside at (rm-Leaves cs u))
  ]
]
