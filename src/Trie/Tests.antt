-- ===== src/Trie/Tests.antt =====
-- A trie with one subscription, and one that it gets.
use cctas.Base.{◌≤◌, ◌≡◌, ◌↔◌, refl, Bool, true, some, [], ◌∷◌, arith}
use cctas.Tables.{node, nil, null, ptr}
use cctas.Tables.Load.{IsWf, load}
use cctas.Trie.{Trie, add, check, prune, rm, keys}
use cctas.Trie.Add.{Added, add_lem}
use cctas.Trie.Check.{Covered, check_lem}
use cctas.Trie.Apply.{occurs, keys_lem}
use cctas.Trie.Waste.{waste}
use cctas.Trie.Remove.{Dropped, trie_rm_lem}

-- The key `a`, subscribed twice.
abbrev one_key : Trie
one_key = node 0 97 1 (ptr (node 2 0 0 nil) nil)

one_key-IsWf : IsWf one_key
unfolding IsWf
one_key-IsWf = (refl, refl, refl, ((refl, refl, refl, tt), tt))

-- The table has to be extended to the left, from `a` to `A`.
add_lem_example :
    (fresh : Bool) × (t' : Trie) × (add (65 ∷ 98 ∷ []) one_key ≡ some (fresh, t'))
    × Added (65 ∷ 98 ∷ []) one_key fresh t'
unfolding load
add_lem_example = add_lem (65 ∷ 98 ∷ []) one_key one_key-IsWf (omega arith)

check_lem_example :
    (b : Bool) × (check (97 ∷ 98 ∷ []) one_key ≡ some b)
    × ((b ≡ true) ↔ Covered (97 ∷ 98 ∷ []) one_key)
check_lem_example = check_lem (97 ∷ 98 ∷ []) one_key one_key-IsWf

-- The keys `a` and `c`, of which `c` goes, and its node with it.
abbrev two_keys : Trie
two_keys = node 0 97 2 (ptr (node 2 0 0 nil) (null (ptr (node 1 0 0 nil) nil)))

two_keys-IsWf : IsWf two_keys
unfolding IsWf
two_keys-IsWf = (refl, refl, refl, ((refl, refl, refl, tt), ((refl, refl, refl, tt), tt)))

trie_rm_lem_example :
    (gone : Bool) × (t' : Trie) × (rm (99 ∷ []) two_keys ≡ some (gone, t'))
    × Dropped (99 ∷ []) two_keys gone t'
    × (waste t' ≤ waste two_keys)
trie_rm_lem_example = trie_rm_lem (99 ∷ []) two_keys two_keys-IsWf

-- The table is the one node for `a` again.
rm_test : rm (99 ∷ []) two_keys ≡ some (true, node 0 97 1 (ptr (node 2 0 0 nil) nil))
unfolding rm prune
rm_test = refl

keys_lem_example : occurs (99 ∷ []) (keys [] two_keys) ≡ 1
unfolding load
keys_lem_example = keys_lem (99 ∷ []) two_keys
