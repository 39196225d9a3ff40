-- ===== src/Trie/Check.antt =====
-- check: whether some subscription is a front part of the data.
use cctas.Base.{
  ℕ, zero, suc, ◌-◌, ◌≤◌, ◌≡◌, ◌≢◌, ◌↔◌, refl, sym, ap, ◌∙◌, subst, Bool, true, false, not, Option,
  none, some, List, [], ◌∷◌, arith, ◌==◌, length, take, Bool-cases, inl, inr, ℕ_discrete,
}
use cctas.Tables.{node, Slots, slot, outside}
use cctas.Tables.Load.{child, load, load_of, IsWf, IsWf-parts}
use cctas.Tables.Shape.{OptionWf, AllWf-slot, lone_found}
use cctas.Trie.{Trie, check, refs}

-- Some front part of the data, the empty one and the whole included, is a subscribed key.
abbrev pub Covered : List ℕ → Trie → Type 0
Covered d t = (n : ℕ) × (n ≤ length d) × (refs (take n d) t ≢ 0)

-- What check is to answer.
abbrev Answers : List ℕ → Trie → Type 0
Answers d t = (b : Bool) × (check d t ≡ some b) × ((b ≡ true) ↔ Covered d t)

Covered-nil :
    (refcnt low live : ℕ) → (s : Slots ℕ) → Covered [] (node refcnt low live s) → refcnt ≢ 0
unfolding load
Covered-nil refcnt low live s (zero, le, ne) = ne
Covered-nil refcnt low live s (suc n, le, ne) = ne

module _ (c : ℕ) (cs : List ℕ) (refcnt low live : ℕ) (s : Slots ℕ) where
  not-Covered : refcnt ≡ 0 → child c low s ≡ none → ¬ Covered (c ∷ cs) (node refcnt low live s)
  unfolding load
  not-Covered idle lost (zero, le, ne) = ne idle
  not-Covered idle lost (suc n, le, ne) = ne (ap (load_of 0 (refs (take n cs))) lost)

  Covered-below :
      (u : Trie) → child c low s ≡ some u → Covered cs u → Covered (c ∷ cs) (node refcnt low live s)
  unfolding load
  Covered-below u found (n, le, ne) =
      (suc n, omega (arith, le), λ e. ne (sym (ap (load_of 0 (refs (take n cs))) found) ∙ e))

  Covered-above :
      (u : Trie)
      → refcnt ≡ 0
      → child c low s ≡ some u
      → Covered (c ∷ cs) (node refcnt low live s)
      → Covered cs u
  unfolding load
  Covered-above u idle found (zero, le, ne) = absurd (ne idle)
  Covered-above u idle found (suc n, le, ne) =
      (n, omega (arith, le), λ e. ne (ap (load_of 0 (refs (take n cs))) found ∙ e))

  check_below :
      IsWf (node refcnt low live s)
      → ((u : Trie) → IsWf u → Answers cs u)
      → refcnt ≡ 0
      → outside c low s ≡ false
      → (o : Option Trie) → slot s (c - low) ≡ o
      → Answers (c ∷ cs) (node refcnt low live s)
  unfolding check
  check_below w below idle inside none at_c =
      let lost : child c low s ≡ none = ground (arith, inside, at_c) in
      let live_lone = lone_found c low live refcnt s w inside at_c in
      let awake : not (refcnt == 0) ≡ false = ground arith in
      (
        false,
        rw (awake, inside, at_c, live_lone, check),
        ((λ e. absurd (cc)), (λ k. absurd (not-Covered idle lost k))),
      )
  check_below w below idle inside (some u) at_c =
      let found : child c low s ≡ some u = ground (arith, inside, at_c) in
      let awake : not (refcnt == 0) ≡ false = ground arith in
      let (_, _, _, all) = IsWf-parts refcnt low live s w in
      let (b, run, answer) = below u (subst OptionWf at_c (AllWf-slot s (c - low) all)) in
      (
        b,
        rw (awake, inside, at_c, check) run,
        ((λ e. Covered-below u found (answer.0 e)), (λ k. answer.1 (Covered-above u idle found k))),
      )

-- On a trie of the right shape check returns, and it answers true exactly if some front part of
-- the data is a key with a subscription.
pub check_lem :
    (d : List ℕ) (t : Trie)
    → IsWf t
    → (b : Bool) × (check d t ≡ some b) × ((b ≡ true) ↔ Covered d t)
unfolding check load
check_lem [] (node refcnt low live s) w = (
  not (refcnt == 0),
  refl,
  ((λ e. (0, omega arith, ground arith)), (λ k. ground (arith, Covered-nil refcnt low live s k))),
)
check_lem (c ∷ cs) (node refcnt low live s) w = elim (ℕ_discrete refcnt 0) [
  | no awake ↦
      let yes_ : not (refcnt == 0) ≡ true = ground arith in
      (true, rw (yes_, check), ((λ e. (0, omega arith, awake)), (λ k. refl)))
  | yes idle ↦ elim (Bool-cases (outside c low s)) [
    | inl out ↦
        let asleep : not (refcnt == 0) ≡ false = ground arith in
        let lost : child c low s ≡ none = ground (arith, out) in
        (
          false,
          rw (asleep, out, check),
          ((λ e. absurd (cc)), (λ k. absurd (not-Covered c cs refcnt low live s idle lost k))),
        )
    | inr inside ↦
        check_below c cs refcnt low live s w (check_lem cs) idle inside (slot s (c - low)) refl
  ]
]
