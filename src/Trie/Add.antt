-- ===== src/Trie/Add.antt =====
-- add: it adds one reference to its key and to no other.
use cctas.Base.{ℕ, ◌+◌, ◌%◌, ◌^◌, ◌<◌, ◌==◌, ◌≡◌, ◌≢◌, ◌∙◌, Bool, some, List, arith}
use cctas.Tables.Load.{IsWf}
use cctas.Tables.Adding
use cctas.Trie.{Trie, add, refs, live_holds, count_one}

-- What add did: the flag tells whether the key is new, its count is one higher, all others are as
-- before, and the trie keeps its shape.
pub record Added (p : List ℕ) (t : Trie) (fresh : Bool) (t' : Trie) : Type 0 where
  pub wf : IsWf t'
  pub flag : fresh ≡ (refs p t == 0)
  pub counted : refs p t' ≡ refs p t + 1
  pub others : (q : List ℕ) → q ≢ p → refs q t' ≡ refs q t

-- On a trie of the right shape, whose count for the key is below the type's last value, add ends
-- without a failed assertion, its flag tells whether the key is new, and afterwards the key's count
-- is one higher, every other key's count is as before, and the trie has the right shape.
pub add_lem :
    (p : List ℕ) (t : Trie)
    → IsWf t
    → refs p t + 1 < 2 ^ 32
    → (fresh : Bool) × (t' : Trie) × (add p t ≡ some (fresh, t')) × Added p t fresh t'
unfolding add
add_lem p t w small =
    let (fresh, t', run, a) = Adding.add_with_lem 0 count_one live_holds (λ n m h. h) p t w in
    let exact : (refs p t + 1) % 2 ^ 32 ≡ refs p t + 1 = omega arith in
    (
      fresh,
      t',
      run,
      record {
        wf = a.wf;
        flag = a.flag ∙ ground arith;
        counted = a.changed ∙ exact;
        others = a.others;
      },
    )
