-- ===== src/Mtrie/Remove.antt =====
-- rm: it ends the subscription of its pipe at its key and changes nothing else.
use cctas.Base.{
  ℕ, ◌-◌, ◌≡◌, ◌≢◌, refl, sym, ap, ◌∙◌, subst, Bool, false, true, Bool-cases, inl, inr, Option,
  none, some, arith, List, [], ◌∷◌,
}
use cctas.Tables.{node, Slots, slot, set_slot, outside}
use cctas.Tables.Load.{child, load, load_of, IsWf, IsWf-parts}
use cctas.Tables.Shape.{OptionWf, AllWf-slot}
use cctas.Tables.Live.{slot_of_none}
use cctas.Tables.Replaced.{Replaced, kept_Replaced, pruned_Replaced, load-found, Replaced-others}
use cctas.Mtrie.{Pipes, Mtrie, rm, after_rm, has, members, is_redundant, rm_here}
use cctas.Mtrie.Sets.{IsPipeSet, Without, rm_here_lem}
use cctas.Mtrie.Prune.{prune_lem}

-- Every set in the trie is a set.
abbrev pub HasSets : Mtrie → Type 0
HasSets t = (q : List ℕ) → IsPipeSet (load none q t)

-- What rm did: its pipe is taken out of the set at the key, the flag tells whether none is left, all
-- other keys have what they had, and the trie keeps its shape.
pub record Removed (p : List ℕ) (x : ℕ) (t : Mtrie) (gone : Bool) (t' : Mtrie) : Type 0 where
  pub wf : IsWf t'
  pub there : Without x (load none p t) gone (load none p t')
  pub others : (q : List ℕ) → q ≢ p → load none q t' ≡ load none q t

pub redundant_load :
    (u : Mtrie) → IsWf u → is_redundant u ≡ true → (q : List ℕ) → load none q u ≡ none
unfolding IsWf load
redundant_load (node none low live s) w r [] = refl
redundant_load (node none low live s) w r (c ∷ cs) = ground (arith, slot_of_none s (c - low))
redundant_load (node (some xs) low live s) w r q = cc

-- a node whose child for c becomes another one
module _ (c : ℕ) (pipes : Pipes) (low live : ℕ) (s : Slots Pipes) (u : Mtrie)
    (w : IsWf (node pipes low live s)) (inside : outside c low s ≡ false)
    (at_c : slot s (c - low) ≡ some u) where
  -- rm below the node leaves one or the other.
  after_rm_lem :
      (ret : Bool) (u' : Mtrie)
      → IsWf u'
      → (t' : Mtrie) × (after_rm c pipes low live s (some (ret, u')) ≡ some (ret, t'))
        × Replaced none c pipes low live s u w inside at_c u' t'
  after_rm_lem ret u' wu = elim (Bool-cases (is_redundant u')) [
    | inl r ↦
        (let (t', eq, shrunk) = prune_lem c pipes low live s u w inside at_c in
          (
            t',
            rw (r, eq) refl,
            pruned_Replaced none c pipes low live s u w inside at_c u' t' wu
                (redundant_load u' wu r) shrunk,
          ))
    | inr no_ ↦ (
      node pipes low live (set_slot s (c - low) (some u')),
      rw no_ refl,
      kept_Replaced none c pipes low live s u w inside at_c u' wu,
    )
  ]

  Replaced-Removed :
      (cs : List ℕ) (x : ℕ) (ret : Bool) (u' t' : Mtrie)
      → Replaced none c pipes low live s u w inside at_c u' t'
      → Removed cs x u ret u'
      → Removed (c ∷ cs) x (node pipes low live s) ret t'
  Replaced-Removed cs x ret u' t' r m = record {
    wf = r.wf;
    there = rw (r.below cs, load-found none c pipes low live s u w inside at_c cs) m.there;
    others = Replaced-others none c pipes low live s u w inside at_c cs u' t' r m.others;
  }

at_end_others :
    (pipes pipes' : Pipes) (low live : ℕ) (s : Slots Pipes) (q : List ℕ)
    → q ≢ []
    → load none q (node pipes' low live s) ≡ load none q (node pipes low live s)
unfolding load
at_end_others pipes pipes' low live s [] ne = absurd (ne refl)
at_end_others pipes pipes' low live s (d ∷ ds) ne = refl

-- What rm does to a trie, as a hypothesis of the step at the node above it.
abbrev RemovesAt : List ℕ → ℕ → Mtrie → Type 0
RemovesAt p x t =
    (gone : Bool) × (t' : Mtrie) × (rm p x t ≡ some (gone, t')) × Removed p x t gone t'

not_has_none : (x : ℕ) → has x [] ≡ true → ⊥
unfolding has
not_has_none x h = cc

rm_below :
    (c : ℕ) (cs : List ℕ) (x : ℕ) (pipes : Pipes) (low live : ℕ) (s : Slots Pipes)
    → IsWf (node pipes low live s)
    → HasSets (node pipes low live s)
    → has x (members (load_of none (load none cs) (child c low s))) ≡ true
    → ((u : Mtrie)
        → IsWf u
        → HasSets u
        → has x (members (load none cs u)) ≡ true
        → RemovesAt cs x u)
    → outside c low s ≡ false
    → (o : Option Mtrie) → slot s (c - low) ≡ o
    → RemovesAt (c ∷ cs) x (node pipes low live s)
unfolding rm load
rm_below c cs x pipes low live s w sets h below inside none at_c =
    let lost : child c low s ≡ none = ground (arith, inside, at_c) in
    absurd
      (not_has_none x (subst (λ o. has x (members (load_of none (load none cs) o)) ≡ true) lost h))
rm_below c cs x pipes low live s w sets h below inside (some u) at_c =
    let found : child c low s ≡ some u = ground (arith, inside, at_c) in
    let (_, _, _, all) = IsWf-parts pipes low live s w in
    let wf_u : IsWf u = subst OptionWf at_c (AllWf-slot s (c - low) all) in
    let sets_u : HasSets u =
      λ q. subst (λ o. IsPipeSet (load_of none (load none q) o)) found (sets (c ∷ q)) in
    let h_u : has x (members (load none cs u)) ≡ true =
      subst (λ o. has x (members (load_of none (load none cs) o)) ≡ true) found h in
    let (gone, u', eq, m) = below u wf_u sets_u h_u in
    let (t', eq', r) = after_rm_lem c pipes low live s u w inside at_c gone u' m.wf in
    (
      gone,
      t',
      rw (inside, at_c, eq, rm) eq',
      Replaced-Removed c pipes low live s u w inside at_c cs x gone u' t' r m,
    )

-- On a trie of the right shape whose sets are sets, rm of a pipe that is subscribed at the key fails
-- no assertion; it takes the pipe out of the set there, its flag tells whether none is left, every
-- other key has the pipes that it had, and the trie has the right shape.
pub rm_lem :
    (p : List ℕ) (x : ℕ) (t : Mtrie)
    → IsWf t
    → HasSets t
    → has x (members (load none p t)) ≡ true
    → (gone : Bool) × (t' : Mtrie) × (rm p x t ≡ some (gone, t')) × Removed p x t gone t'
unfolding rm load
rm_lem [] x (node pipes low live s) w sets h =
    let (gone, pipes', eq, without) = rm_here_lem x pipes (sets []) h in
    (
      gone,
      node pipes' low live s,
      rw eq refl,
      record {
        wf = unfold IsWf in w;
        there = without;
        others = at_end_others pipes pipes' low live s;
      },
    )
rm_lem (c ∷ cs) x (node pipes low live s) w sets h = elim (Bool-cases (outside c low s)) [
  | inl out ↦
      let lost : child c low s ≡ none = ground (arith, out) in
      absurd (
        not_has_none x (subst (λ o. has x (members (load_of none (load none cs) o)) ≡ true) lost h))
  | inr inside ↦
      rm_below c cs x pipes low live s w sets h (rm_lem cs x) inside (slot s (c - low)) refl
]

fails_below :
    (c : ℕ) (cs : List ℕ) (x : ℕ) (pipes : Pipes) (low live : ℕ) (s : Slots Pipes) (xs : List ℕ)
    → load_of none (load none cs) (child c low s) ≡ some xs
    → ((u : Mtrie) → load none cs u ≡ some xs → rm cs x u ≡ none)
    → outside c low s ≡ false
    → (o : Option Mtrie) → slot s (c - low) ≡ o
    → rm (c ∷ cs) x (node pipes low live s) ≡ none
unfolding rm
fails_below c cs x pipes low live s xs here below inside none at_c =
    let lost : child c low s ≡ none = ground (arith, inside, at_c) in
    absurd (ground (arith, here, ap (load_of none (load none cs)) lost))
fails_below c cs x pipes low live s xs here below inside (some u) at_c =
    let found : child c low s ≡ some u = ground (arith, inside, at_c) in
    let there : load none cs u ≡ some xs = sym (ap (load_of none (load none cs)) found) ∙ here in
    rw (inside, at_c, below u there, rm) refl

-- rm of a pipe that is not in the set at the key, where there is a set, fails an assertion.
pub rm_fails :
    (p : List ℕ) (x : ℕ) (t : Mtrie) (xs : List ℕ)
    → load none p t ≡ some xs
    → has x xs ≡ false
    → rm p x t ≡ none
unfolding rm load
rm_fails [] x (node pipes low live s) xs here absent =
    let eq : rm_here x pipes ≡ none = unfold rm_here in ground (arith, here, absent) in rw eq refl
rm_fails (c ∷ cs) x (node pipes low live s) xs here absent = elim (Bool-cases (outside c low s)) [
  | inl out ↦
      let lost : child c low s ≡ none = ground (arith, out) in
      absurd (ground (arith, here, ap (load_of none (load none cs)) lost))
  | inr inside ↦
      fails_below c cs x pipes low live s xs here (λ u h. rm_fails cs x u xs h absent) inside
        (slot s (c - low)) refl
]
