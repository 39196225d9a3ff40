-- ===== src/Mtrie/Match.antt =====
-- match: which pipes it visits.
use cctas.Base.{
  ℕ, ◌-◌, ◌≡◌, refl, sym, ap, subst, Option, none, some, List, [], ◌∷◌, ◌++◌, map, arith,
  Bool-cases, inl, inr, false, append-nil,
}
use cctas.Tables.{node, Slots, slot, outside}
use cctas.Tables.Load.{child, load, IsWf, IsWf-parts}
use cctas.Tables.Shape.{OptionWf, AllWf-slot, lone_found}
use cctas.Mtrie.{Pipes, Mtrie, members, matches}

-- the front parts of a message, the empty one first
abbrev pub prefixes : List ℕ → List (List ℕ)
prefixes [] = [] ∷ []
prefixes (c ∷ cs) = [] ∷ map (◌∷◌ c) (prefixes cs)

-- the pipes subscribed to one of some keys, in the order of the keys
pub subscribed : List (List ℕ) → Mtrie → List ℕ
subscribed [] t = []
subscribed (q ∷ qs) t = members (load none q t) ++ subscribed qs t

module _ (c : ℕ) (pipes : Pipes) (low live : ℕ) (s : Slots Pipes) where
  subscribed_lost :
      (qs : List (List ℕ))
      → child c low s ≡ none
      → subscribed (map (◌∷◌ c) qs) (node pipes low live s) ≡ []
  unfolding subscribed load
  subscribed_lost [] lost = refl
  subscribed_lost (q ∷ qs) lost = simp lost (subscribed_lost qs lost)

  subscribed_below :
      (u : Mtrie) (qs : List (List ℕ))
      → child c low s ≡ some u
      → subscribed (map (◌∷◌ c) qs) (node pipes low live s) ≡ subscribed qs u
  unfolding subscribed load
  subscribed_below u [] found = refl
  subscribed_below u (q ∷ qs) found =
      simp found (ap (◌++◌ (members (load none q u))) (subscribed_below u qs found))

  matches_below :
      (cs : List ℕ)
      → IsWf (node pipes low live s)
      → ((u : Mtrie) → IsWf u → matches cs u ≡ some (subscribed (prefixes cs) u))
      → outside c low s ≡ false
      → (o : Option Mtrie) → slot s (c - low) ≡ o
      → matches (c ∷ cs) (node pipes low live s)
        ≡ some (subscribed (prefixes (c ∷ cs)) (node pipes low live s))
  unfolding matches subscribed load
  matches_below cs w below inside none at_c =
      let lost : child c low s ≡ none = ground (arith, inside, at_c) in
      let rest = subscribed_lost (prefixes cs) lost in
      let many = lone_found c low live pipes s w inside at_c in
      rw (inside, at_c, many, rest, matches) refl
  matches_below cs w below inside (some u) at_c =
      let found : child c low s ≡ some u = ground (arith, inside, at_c) in
      let (_, _, _, all) = IsWf-parts pipes low live s w in
      let rest = subscribed_below u (prefixes cs) found in
      let wf_u : IsWf u = subst OptionWf at_c (AllWf-slot s (c - low) all) in
      rw (inside, at_c, rest, matches, below u wf_u) refl

-- On a trie of the right shape match ends, and visits exactly the pipes that are subscribed to a
-- front part of the data, shorter ones first.
pub matches_lem : (d : List ℕ) (t : Mtrie) → IsWf t → matches d t ≡ some (subscribed (prefixes d) t)
unfolding matches subscribed load
matches_lem [] (node pipes low live s) w = ap some (sym (append-nil (members pipes)))
matches_lem (c ∷ cs) (node pipes low live s) w = elim (Bool-cases (outside c low s)) [
  | inl out ↦
      let lost : child c low s ≡ none = ground (arith, out) in
      let rest = subscribed_lost c pipes low live s (prefixes cs) lost in
      rw (out, rest, matches) refl
  | inr inside ↦
      matches_below c pipes low live s cs w (matches_lem cs) inside (slot s (c - low)) refl
]
