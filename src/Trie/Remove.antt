-- ===== src/Trie/Remove.antt =====
-- rm: it takes one reference from its key and changes nothing else.
use cctas.Base.{
  ℕ, ◌-◌, ◌≤◌, ◌==◌, ◌≡◌, ◌≢◌, refl, ap, subst, Bool, false, true, Bool-cases, inl, inr, ℕ_discrete,
  Option, none, some, arith, List, [], ◌∷◌,
}
use cctas.Tables.{node, Slots, slot, set_slot, outside}
use cctas.Tables.Load.{child, load, load_of, IsWf, IsWf-parts}
use cctas.Tables.Shape.{OptionWf, AllWf-slot}
use cctas.Tables.Live.{slot_of_none}
use cctas.Tables.Replaced.{Replaced, kept_Replaced, pruned_Replaced, load-found, Replaced-others}
use cctas.Trie.{Trie, rm, after_rm, refs, is_redundant}
use cctas.Trie.Prune.{prune_lem}
use cctas.Trie.Waste.{waste, Leaves, rm-Leaves}

-- What rm did: the flag tells whether the last reference of the key went, its count is one lower and
-- stays at 0, all others are as before, and the trie keeps its shape.
pub record Dropped (p : List ℕ) (t : Trie) (gone : Bool) (t' : Trie) : Type 0 where
  pub wf : IsWf t'
  pub flag : gone ≡ (refs p t == 1)
  pub counted : refs p t' ≡ refs p t - 1
  pub others : (q : List ℕ) → q ≢ p → refs q t' ≡ refs q t

-- What rm does to a trie.
abbrev DropsAt : List ℕ → Trie → Type 0
DropsAt p t = (gone : Bool) × (t' : Trie) × (rm p t ≡ some (gone, t')) × Dropped p t gone t'

redundant_refs : (u : Trie) → IsWf u → is_redundant u ≡ true → (q : List ℕ) → refs q u ≡ 0
unfolding IsWf load
redundant_refs (node refcnt low live s) w r [] = ground arith
redundant_refs (node refcnt low live s) w r (c ∷ cs) =
    let bare : live ≡ 0 = ground (arith, r) in ground (arith, slot_of_none s (c - low))

-- A key without a node has nothing to lose.
unchanged : (p : List ℕ) (t : Trie) → IsWf t → refs p t ≡ 0 → Dropped p t false t
unchanged p t w h = record {
  wf = w;
  flag = ground (arith, h);
  counted = omega (arith, h);
  others = λ q ne. refl;
}

others_here :
    (refcnt refcnt' low live : ℕ) (s : Slots ℕ) (q : List ℕ)
    → q ≢ []
    → refs q (node refcnt' low live s) ≡ refs q (node refcnt low live s)
unfolding load
others_here refcnt refcnt' low live s [] ne = absurd (ne refl)
others_here refcnt refcnt' low live s (d ∷ ds) ne = refl

rm_here :
    (refcnt low live : ℕ) (s : Slots ℕ)
    → IsWf (node refcnt low live s)
    → DropsAt [] (node refcnt low live s)
unfolding rm load IsWf
rm_here refcnt low live s w = elim (ℕ_discrete refcnt 0) [
  | yes idle ↦ (
    false,
    node refcnt low live s,
    ground (arith, idle),
    unchanged [] (node refcnt low live s) w idle,
  )
  | no held ↦ (
    refcnt - 1 == 0,
    node (refcnt - 1) low live s,
    ground (arith, held),
    record {
      wf = w;
      flag = ground (arith, held);
      counted = refl;
      others = others_here refcnt (refcnt - 1) low live s;
    },
  )
]

module _ (c : ℕ) (refcnt low live : ℕ) (s : Slots ℕ) (u : Trie) (w : IsWf (node refcnt low live s))
    (inside : outside c low s ≡ false) (at_c : slot s (c - low) ≡ some u) where
  after_rm_lem :
      (ret : Bool) (u' : Trie)
      → IsWf u'
      → (t' : Trie) × (after_rm refcnt low live s c (some (ret, u')) ≡ some (ret, t'))
        × Replaced 0 c refcnt low live s u w inside at_c u' t'
  after_rm_lem ret u' wu = elim (Bool-cases (is_redundant u')) [
    | inl r ↦
        (let (t', eq, shrunk) = prune_lem c refcnt low live s u w inside at_c in
          (
            t',
            rw (r, eq) refl,
            pruned_Replaced 0 c refcnt low live s u w inside at_c u' t' wu (redundant_refs u' wu r)
                shrunk,
          ))
    | inr no_ ↦ (
      node refcnt low live (set_slot s (c - low) (some u')),
      rw no_ refl,
      kept_Replaced 0 c refcnt low live s u w inside at_c u' wu,
    )
  ]

  Replaced-Dropped :
      (cs : List ℕ) (ret : Bool) (u' t' : Trie)
      → Replaced 0 c refcnt low live s u w inside at_c u' t'
      → Dropped cs u ret u'
      → Dropped (c ∷ cs) (node refcnt low live s) ret t'
  Replaced-Dropped cs ret u' t' r m =
      let held : refs (c ∷ cs) (node refcnt low live s) ≡ refs cs u =
        load-found 0 c refcnt low live s u w inside at_c cs in
      record {
        wf = r.wf;
        flag = rw held m.flag;
        counted = rw (r.below cs, held) m.counted;
        others = Replaced-others 0 c refcnt low live s u w inside at_c cs u' t' r m.others;
      }

rm_below :
    (c : ℕ) (cs : List ℕ) (refcnt low live : ℕ) (s : Slots ℕ)
    → IsWf (node refcnt low live s)
    → ((u : Trie) → IsWf u → DropsAt cs u)
    → outside c low s ≡ false
    → (o : Option Trie) → slot s (c - low) ≡ o
    → DropsAt (c ∷ cs) (node refcnt low live s)
unfolding rm load
rm_below c cs refcnt low live s w below inside none at_c =
    let lost : child c low s ≡ none = ground (arith, inside, at_c) in
    (
      false,
      node refcnt low live s,
      rw (inside, at_c) refl,
      unchanged (c ∷ cs) (node refcnt low live s) w (ap (load_of 0 (refs cs)) lost),
    )
rm_below c cs refcnt low live s w below inside (some u) at_c =
    let (_, _, _, all) = IsWf-parts refcnt low live s w in
    let wf_u : IsWf u = subst OptionWf at_c (AllWf-slot s (c - low) all) in
    let (gone, u', eq, m) = below u wf_u in
    let (t', eq', r) = after_rm_lem c refcnt low live s u w inside at_c gone u' m.wf in
    (
      gone,
      t',
      rw (inside, at_c, eq) eq',
      Replaced-Dropped c refcnt low live s u w inside at_c cs gone u' t' r m,
    )

drops_at : (p : List ℕ) (t : Trie) → IsWf t → DropsAt p t
unfolding rm load
drops_at [] (node refcnt low live s) w = rm_here refcnt low live s w
drops_at (c ∷ cs) (node refcnt low live s) w = elim (Bool-cases (outside c low s)) [
  | inl out ↦
      let lost : child c low s ≡ none = ground (arith, out) in
      (
        false,
        node refcnt low live s,
        rw out refl,
        unchanged (c ∷ cs) (node refcnt low live s) w (ap (load_of 0 (refs cs)) lost),
      )
  | inr inside ↦ rm_below c cs refcnt low live s w (drops_at cs) inside (slot s (c - low)) refl
]

-- On a trie of the right shape, rm ends without a failed assertion, its flag tells whether the last
-- reference of the key went, and afterwards the key's count is one lower, or still 0, every other
-- key's count is as before, and the trie has the right shape, with no more redundant nodes than
-- before: where every node had a use, every node has one.
pub trie_rm_lem :
    (p : List ℕ) (t : Trie)
    → IsWf t
    → (gone : Bool) × (t' : Trie) × (rm p t ≡ some (gone, t'))
      × Dropped p t gone t'
      × (waste t' ≤ waste t)
trie_rm_lem p t w =
    let (gone, t', eq, m) = drops_at p t w in
    (gone, t', eq, m, subst (Leaves (waste t)) eq (rm-Leaves p t))
