-- ===== src/Mtrie/Tests.antt =====
-- A trie with two pipes at one key, at the theorems on mtrie_t.
use cctas.Base.{ℕ, ◌≡◌, refl, sym, subst, Bool, true, none, some, List, [], ◌∷◌, arith, ℕ_discrete}
use cctas.Tables.{node, nil, ptr}
use cctas.Tables.Load.{IsWf, load, load_of, child}
use cctas.Mtrie.{Pipes, Mtrie, matches, rm, rm_pipe, has}
use cctas.Mtrie.Match.{prefixes, subscribed, matches_lem}
use cctas.Mtrie.Sets.{IsPipeSet}
use cctas.Mtrie.Remove.{HasSets, Removed, rm_lem, rm_fails}
use cctas.Mtrie.Leaving.{Left, rm_pipe_lem}

-- The pipes 3 and 5 at the key `a`.
abbrev leaf : Mtrie
leaf = node (some (3 ∷ 5 ∷ [])) 0 0 nil

abbrev two_pipes : Mtrie
two_pipes = node none 97 1 (ptr leaf nil)

two_pipes-IsWf : IsWf two_pipes
unfolding IsWf
two_pipes-IsWf = (refl, refl, refl, ((refl, refl, refl, tt), tt))

leaf-HasSets : HasSets leaf
unfolding load
leaf-HasSets [] = ((omega arith, (tt, tt)), refl)
leaf-HasSets (c ∷ cs) =
    let lost : child {A = Pipes} c 0 nil ≡ none = ground arith in
    subst (λ o. IsPipeSet (load_of none (load none cs) o)) (sym lost) tt

two_pipes-HasSets : HasSets two_pipes
unfolding load
two_pipes-HasSets [] = tt
two_pipes-HasSets (c ∷ cs) = elim (ℕ_discrete c 97) [
  | yes e ↦
      let found : child c 97 (ptr leaf nil) ≡ some leaf = ground arith in
      subst (λ o. IsPipeSet (load_of none (load none cs) o)) (sym found) (leaf-HasSets cs)
  | no ne ↦
      let lost : child c 97 (ptr leaf nil) ≡ none = ground arith in
      subst (λ o. IsPipeSet (load_of none (load none cs) o)) (sym lost) tt
]

matches_lem_example :
    matches (97 ∷ 98 ∷ []) two_pipes ≡ some (subscribed (prefixes (97 ∷ 98 ∷ [])) two_pipes)
matches_lem_example = matches_lem (97 ∷ 98 ∷ []) two_pipes two_pipes-IsWf

two_match : matches (97 ∷ 98 ∷ []) two_pipes ≡ some (3 ∷ 5 ∷ [])
unfolding matches
two_match = refl

rm_lem_example :
    (gone : Bool) × (t' : Mtrie) × (rm (97 ∷ []) 5 two_pipes ≡ some (gone, t'))
    × Removed (97 ∷ []) 5 two_pipes gone t'
unfolding load has
rm_lem_example = rm_lem (97 ∷ []) 5 two_pipes two_pipes-IsWf two_pipes-HasSets refl

rm_pipe_lem_example :
    (keys : List (List ℕ)) × (t' : Mtrie) × (rm_pipe 5 [] two_pipes ≡ some (keys, t'))
    × Left 5 two_pipes t'
rm_pipe_lem_example = rm_pipe_lem 5 two_pipes two_pipes-IsWf two_pipes-HasSets

-- the last pipe of a key leaves, and the key is reported
last_leaves :
    rm_pipe 4 [] (node none 97 1 (ptr (node (some (4 ∷ [])) 0 0 nil) nil))
    ≡ some ((97 ∷ []) ∷ [], node none 97 0 nil)
unfolding rm_pipe
last_leaves = refl

rm_fails_example : rm (97 ∷ []) 4 two_pipes ≡ none
unfolding load has
rm_fails_example = rm_fails (97 ∷ []) 4 two_pipes (3 ∷ 5 ∷ []) refl refl

-- Nobody is subscribed to the empty key, and rm there tells that the last subscription ended.
rm_of_nothing : rm [] 4 two_pipes ≡ some (true, two_pipes)
unfolding rm
rm_of_nothing = refl
