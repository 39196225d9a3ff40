-- ===== src/Mtrie/Leaving.antt =====
-- rm of a pipe: the walk through the trie.
use cctas.Base.{
  ℕ, zero, suc, ◌+◌, ◌-◌, ◌≤◌, ◌≡◌, refl, sym, ap, ◌∙◌, subst, ◌==◌, false, true, Bool-cases, inl,
  inr, none, some, arith, List, [], ◌∷◌, ◌++◌, if◌then◌else◌,
}
use cctas.Tables.{node, Slots, nil, null, ptr, count, slot}
use cctas.Tables.Load.{is_ptr, live_slots, child, load, IsWf, AllWf, IsWf-parts}
use cctas.Tables.Table.{slot_beyond}
use cctas.Tables.Extend.{live_slots_one}
use cctas.Mtrie.{Pipes, Mtrie, leave, rm_pipe, rm_slots, is_redundant, lone_null, called}
use cctas.Mtrie.Sets.{IsPipeSet}
use cctas.Mtrie.Remove.{HasSets, redundant_load}
use cctas.Mtrie.Leave.{without, held, leave_lem, finish_lem}

-- every set below a table is a set
abbrev pub SetsIn : Slots Pipes → Type 0
SetsIn s = (i : ℕ) (q : List ℕ) → IsPipeSet (held q (slot s i))

-- What the walk over a table did: the slots stay, n of them were emptied, and each holds what it
-- did without the pipe.
pub record Walked (x : ℕ) (s : Slots Pipes) (n : ℕ) (s' : Slots Pipes) : Type 0 where
  pub size : count s' ≡ count s
  pub lives : live_slots s' + n ≡ live_slots s
  pub shape : AllWf s'
  pub each : (i : ℕ) (q : List ℕ) → held q (slot s' i) ≡ without x (held q (slot s i))

-- What rm of a pipe did to a trie: it has the right shape, and the pipe is in no set.
pub record Left (x : ℕ) (t t' : Mtrie) : Type 0 where
  pub wf : IsWf t'
  pub each : (q : List ℕ) → load none q t' ≡ without x (load none q t)

live_slots-le-count : (s : Slots Pipes) → live_slots s ≤ count s
live_slots-le-count nil = omega arith
live_slots-le-count (null s) = omega (arith, live_slots-le-count s)
live_slots-le-count (ptr t s) = omega (arith, live_slots-le-count s)

lone_found :
    (s : Slots Pipes) → is_ptr (slot s 0) ≡ (if count s == 0 then 0 else 1) → lone_null s ≡ false
lone_found nil h = refl
lone_found (null s) h = ground arith
lone_found (ptr t s) h = refl

Walked-null : (x n : ℕ) (s s' : Slots Pipes) → Walked x s n s' → Walked x (null s) n (null s')
unfolding AllWf
Walked-null x n s s' w = record {
  size = ap suc w.size;
  lives = w.lives;
  shape = w.shape;
  each = λ i q. elim i as (λ k. held q (slot (null s') k) ≡ without x (held q (slot (null s) k))) [
    | zero ↦ refl
    | suc k ↦ w.each k q
  ];
}

Walked-ptr :
    (x n : ℕ) (t t' : Mtrie) (s s' : Slots Pipes)
    → Left x t t'
    → Walked x s n s'
    → Walked x (ptr t s) n (ptr t' s')
unfolding AllWf
Walked-ptr x n t t' s s' l w = record {
  size = ap suc w.size;
  lives = omega (arith, w.lives);
  shape = (l.wf, w.shape);
  each = λ i q.
      elim i as (λ k. held q (slot (ptr t' s') k) ≡ without x (held q (slot (ptr t s) k))) [
        | zero ↦ l.each q
        | suc k ↦ w.each k q
      ];
}

Walked-pruned :
    (x n : ℕ) (t t' : Mtrie) (s s' : Slots Pipes)
    → Left x t t'
    → is_redundant t' ≡ true
    → Walked x s n s'
    → Walked x (ptr t s) (n + 1) (null s')
unfolding AllWf
Walked-pruned x n t t' s s' l r w = record {
  size = ap suc w.size;
  lives = omega (arith, w.lives);
  shape = w.shape;
  each = λ i q. elim i as (λ k. held q (slot (null s') k) ≡ without x (held q (slot (ptr t s) k))) [
    | zero ↦ sym (redundant_load t' l.wf r q) ∙ l.each q
    | suc k ↦ w.each k q
  ];
}

-- the node above a table that was walked
module _ (x : ℕ) (buff : List ℕ) (pipes : Pipes) (low live : ℕ) (s : Slots Pipes)
    (w : IsWf (node pipes low live s)) (good : IsPipeSet pipes) where
  Walked-node :
      (more : List (List ℕ)) (n : ℕ) (s' : Slots Pipes)
      → rm_slots x buff low s ≡ some (more, n, s')
      → Walked x s n s'
      → (keys : List (List ℕ)) × (t' : Mtrie) × (rm_pipe x buff (node pipes low live s)
          ≡ some (keys, t'))
        × Left x (node pipes low live s) t'
  unfolding rm_pipe load
  Walked-node more n s' run wk =
      let (counted, first, last, all) = IsWf-parts pipes low live s w in
      let one_child : count s' ≡ 1 → live ≡ 1 =
        λ one. ground (arith, wk.size, counted, first, live_slots_one s (sym wk.size ∙ one)) in
      let (t', eq, shrunk) =
        finish_lem (leave x pipes).1 low (live_slots s') s' refl wk.shape live n
          (omega (arith, counted, wk.lives))
          (omega (arith, wk.lives, wk.size, live_slots-le-count s)) one_child in
      (
        called (leave x pipes).0 buff ++ more,
        t',
        rw (lone_found s first, run, rm_pipe, eq) refl,
        record {
          wf = shrunk.wf;
          each = λ q.
              shrunk.same q
              ∙ elim q
                  as (λ k.
                    load none k (node (leave x pipes).1 low (live_slots s') s')
                    ≡ without x (load none k (node pipes low live s))) [
                      | [] ↦ leave_lem x pipes good
                      | d ∷ ds ↦ ground (arith, wk.size, wk.each (d - low) ds)
                    ];
        },
      )

-- what rm of a pipe does to a trie and to a table, for the walk
abbrev LeavesAt : ℕ → List ℕ → Mtrie → Type 0
LeavesAt x buff t =
    (keys : List (List ℕ)) × (t' : Mtrie) × (rm_pipe x buff t ≡ some (keys, t')) × Left x t t'

abbrev WalksAt : ℕ → List ℕ → ℕ → Slots Pipes → Type 0
WalksAt x buff c s =
    (keys : List (List ℕ)) × (n : ℕ) × (s' : Slots Pipes) × (rm_slots x buff c s
      ≡ some (keys, n, s'))
    × Walked x s n s'

visited :
    (x : ℕ) (buff : List ℕ) (c : ℕ) (t : Mtrie) (s : Slots Pipes)
    → LeavesAt x (buff ++ (c ∷ [])) t
    → WalksAt x buff (c + 1) s
    → WalksAt x buff c (ptr t s)
unfolding rm_slots
visited x buff c t s (keys, t', run, l) (more, n, s', run', wk) =
    elim (Bool-cases (is_redundant t')) [
      | inl r ↦ (
        keys ++ more,
        n + 1,
        null s',
        rw (run, run', rm_slots, r) refl,
        Walked-pruned x n t t' s s' l r wk,
      )
      | inr kept ↦ (
        keys ++ more,
        n,
        ptr t' s',
        rw (run, run', rm_slots, kept) refl,
        Walked-ptr x n t t' s s' l wk,
      )
    ]

child_at : (low i : ℕ) (s : Slots Pipes) → child (low + i) low s ≡ slot s i
child_at low i s =
    let back : low + i - low ≡ i = omega arith in ground (arith, ap (slot s) back, slot_beyond s i)

mutual
  unfolding rm_slots AllWf load

  rm_pipe-Left : (x : ℕ) (buff : List ℕ) (t : Mtrie) → IsWf t → HasSets t → LeavesAt x buff t
  rm_pipe-Left x buff (node pipes low live s) w sets =
      let (counted, first, last, all) = IsWf-parts pipes low live s w in
      let (more, n, s', run, wk) =
        rm_slots-Walked x buff low s all
          (λ i q. subst (λ o. IsPipeSet (held q o)) (child_at low i s) (sets ((low + i) ∷ q))) in
      Walked-node x buff pipes low live s w (sets []) more n s' run wk

  rm_slots-Walked :
      (x : ℕ) (buff : List ℕ) (c : ℕ) (s : Slots Pipes) → AllWf s → SetsIn s → WalksAt x buff c s
  rm_slots-Walked x buff c nil all sets =
      ([], 0, nil, refl, record { size = refl; lives = refl; shape = tt; each = λ i q. refl })
  rm_slots-Walked x buff c (null s) all sets =
      let (more, n, s', run, wk) = rm_slots-Walked x buff (c + 1) s all (λ i q. sets (suc i) q) in
      (more, n, null s', rw (run, rm_slots) refl, Walked-null x n s s' wk)
  rm_slots-Walked x buff c (ptr t s) all sets =
      visited x buff c t s (rm_pipe-Left x (buff ++ (c ∷ [])) t all.0 (λ q. sets 0 q))
        (rm_slots-Walked x buff (c + 1) s all.1 (λ i q. sets (suc i) q))

-- On a trie of the right shape whose sets are sets, rm of a pipe fails no assertion, takes the pipe
-- out of the set at every key, where a set that has no other pipe goes, and leaves a trie of the right
-- shape.
pub rm_pipe_lem :
    (x : ℕ) (t : Mtrie)
    → IsWf t
    → HasSets t
    → (keys : List (List ℕ)) × (t' : Mtrie) × (rm_pipe x [] t ≡ some (keys, t')) × Left x t t'
rm_pipe_lem x t w sets = rm_pipe-Left x [] t w sets
