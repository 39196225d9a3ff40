-- ===== src/Mtrie/Add.antt =====
-- add: it subscribes its pipe at its key and changes nothing else.
use cctas.Base.{ℕ, ◌==◌, ◌≡◌, ◌≢◌, refl, ◌∙◌, Bool, ◌||◌, none, some, List, [], ◌∷◌, arith}
use cctas.Tables.Load.{load, IsWf}
use cctas.Tables.Adding
use cctas.Mtrie.{Pipes, Mtrie, insert, has, add_pipe, add, members, is_null, unchecked}

-- What add did: the flag tells whether no pipe was at the key, the pipe is at the key beside those
-- that were there, all other keys have what they had, and the trie keeps its shape.
pub record Added (p : List ℕ) (x : ℕ) (t : Mtrie) (fresh : Bool) (t' : Mtrie) : Type 0 where
  pub wf : IsWf t'
  pub flag : fresh ≡ is_null (load none p t)
  pub joined :
      (y : ℕ) → has y (members (load none p t')) ≡ (y == x) || has y (members (load none p t))
  pub others : (q : List ℕ) → q ≢ p → load none q t' ≡ load none q t

pub has-insert : (y x : ℕ) (xs : List ℕ) → has y (insert x xs) ≡ (y == x) || has y xs
unfolding has insert
has-insert y x [] = ground arith
has-insert y x (z ∷ zs) = ground (arith, has-insert y x zs)

add_pipe-joins :
    (y x : ℕ) (o : Pipes) → has y (members (add_pipe x o).1) ≡ (y == x) || has y (members o)
unfolding add_pipe has
add_pipe-joins y x none = refl
add_pipe-joins y x (some xs) = has-insert y x xs

add_pipe-flag : (x : ℕ) (o : Pipes) → (add_pipe x o).0 ≡ is_null o
unfolding add_pipe
add_pipe-flag x none = refl
add_pipe-flag x (some xs) = refl

-- On a trie of the right shape add ends, its flag tells whether no pipe was at the key, the key has
-- its pipes and the new one afterwards, every other key has the pipes that it had, and the trie has
-- the right shape.
pub mtrie_add_lem :
    (p : List ℕ) (x : ℕ) (t : Mtrie)
    → IsWf t
    → (fresh : Bool) × (t' : Mtrie) × (add p x t ≡ some (fresh, t')) × Added p x t fresh t'
unfolding add
mtrie_add_lem p x t w =
    let (fresh, t', run, a) =
      Adding.add_with_lem none (add_pipe x) unchecked (λ n m h. refl) p t w in
    (
      fresh,
      t',
      run,
      record {
        wf = a.wf;
        flag = a.flag ∙ add_pipe-flag x (load none p t);
        joined = λ y. rw (a.changed) (add_pipe-joins y x (load none p t));
        others = a.others;
      },
    )
