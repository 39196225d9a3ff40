-- ===== src/Mtrie/Sets.antt =====
-- The sets of pipes at the nodes: ascending, and not empty where there is one.
use cctas.Base.{
  ℕ, ◌<◌, ◌==◌, ◌≡◌, refl, Bool, true, false, not, ◌&&◌, ◌||◌, none, some, List, [], ◌∷◌, arith,
  Bool-cases, inl, inr, sym, subst, ℕ_discrete, ltb,
}
use cctas.Mtrie.{Pipes, insert, erase, has, is_empty, is_null, members, add_pipe, rm_here}

abbrev pub Above : ℕ → List ℕ → Type 0
Above x [] = Unit
Above x (y ∷ ys) = x < y

abbrev pub IsAscending : List ℕ → Type 0
IsAscending [] = Unit
IsAscending (x ∷ xs) = Above x xs × IsAscending xs

abbrev pub IsPipeSet : Pipes → Type 0
IsPipeSet none = Unit
IsPipeSet (some xs) = IsAscending xs × (is_empty xs ≡ false)

Above-not_has : (x : ℕ) (xs : List ℕ) → Above x xs → IsAscending xs → has x xs ≡ false
unfolding has
Above-not_has x [] a s = refl
Above-not_has x (y ∷ []) a s = ground arith
Above-not_has x (y ∷ z ∷ zs) a s = ground (arith, Above-not_has x (z ∷ zs))

has_behind :
    (here gone there : Bool)
    → (here ≡ true → gone ≡ false)
    → (here || (not gone && there)) ≡ (not gone && (here || there))
has_behind true gone there h = ground (arith, h refl)
has_behind false true there h = refl
has_behind false false there h = refl

pub has-erase :
    (y x : ℕ) (xs : List ℕ) → IsAscending xs → has y (erase x xs) ≡ not (y == x) && has y xs
unfolding has erase
has-erase y x [] s = ground arith
has-erase y x (z ∷ zs) s = elim (ℕ_discrete x z) [
  | yes same ↦
      let here : (x == z) ≡ true = ground arith in
      let alone : has z zs ≡ false = Above-not_has z zs s.0 s.1 in
      simp here (elim (ℕ_discrete y z) [
        | yes e ↦
            (let alone_y : has y zs ≡ false = subst (λ k. has k zs ≡ false) (sym e) alone in
              ground (arith, alone_y))
        | no ne ↦ ground arith
      ])
  | no differs ↦
      let there : (x == z) ≡ false = ground arith in
      let ih : has y (erase x zs) ≡ not (y == x) && has y zs = has-erase y x zs s.1 in
      simp (there, ih) (has_behind (y == z) (y == x) (has y zs) (λ e. ground arith))
]

erase-Above : (w x : ℕ) (xs : List ℕ) → Above w xs → IsAscending xs → Above w (erase x xs)
unfolding erase
erase-Above w x [] a s = tt
erase-Above w x (y ∷ []) a s = ground arith
erase-Above w x (y ∷ z ∷ zs) a s = ground (arith)

pub erase-IsAscending : (x : ℕ) (xs : List ℕ) → IsAscending xs → IsAscending (erase x xs)
unfolding erase
erase-IsAscending x [] s = tt
erase-IsAscending x (y ∷ ys) s = elim (Bool-cases (x == y)) [
  | inl same ↦ simp same (s.1)
  | inr differs ↦ simp differs (erase-Above y x ys s.0 s.1, erase-IsAscending x ys s.1)
]

insert-Above : (w x : ℕ) (xs : List ℕ) → w < x → Above w xs → Above w (insert x xs)
unfolding insert
insert-Above w x [] h a = h
insert-Above w x (y ∷ ys) h a = ground arith

pub insert-IsAscending : (x : ℕ) (xs : List ℕ) → IsAscending xs → IsAscending (insert x xs)
unfolding insert
insert-IsAscending x [] s = (tt, tt)
insert-IsAscending x (y ∷ ys) s = elim (Bool-cases (x == y)) [
  | inl same ↦ simp same s
  | inr differs ↦ elim (Bool-cases (ltb x y)) [
    | inl below ↦ simp (differs, below) (ground (arith, below), (s.0, s.1))
    | inr above ↦
        simp (differs, above)
          (insert-Above y x ys (ground (arith, differs, above)) s.0, insert-IsAscending x ys s.1)
  ]
]

insert-not_empty : (x : ℕ) (xs : List ℕ) → is_empty (insert x xs) ≡ false
unfolding insert
insert-not_empty x [] = refl
insert-not_empty x (y ∷ ys) = ground arith

pub add_pipe-IsPipeSet : (x : ℕ) (o : Pipes) → IsPipeSet o → IsPipeSet (add_pipe x o).1
unfolding add_pipe
add_pipe-IsPipeSet x none s = ((tt, tt), refl)
add_pipe-IsPipeSet x (some xs) s = (insert-IsAscending x xs s.0, insert-not_empty x xs)

has-empty : (y : ℕ) (xs : List ℕ) → is_empty xs ≡ true → has y xs ≡ false
unfolding has
has-empty y [] h = refl
has-empty y (x ∷ xs) h = cc

-- What rm does to the pipes of its key: one is taken out.
pub record Without (x : ℕ) (o : Pipes) (gone : Bool) (o' : Pipes) : Type 0 where
  pub a_set : IsPipeSet o'
  pub flag : gone ≡ is_null o'
  pub left : (y : ℕ) → has y (members o') ≡ not (y == x) && has y (members o)

pub rm_here_lem :
    (x : ℕ) (o : Pipes)
    → IsPipeSet o
    → has x (members o) ≡ true
    → (gone : Bool) × (o' : Pipes) × (rm_here x o ≡ some (gone, o')) × Without x o gone o'
unfolding rm_here
rm_here_lem x none s h = absurd (unfold has in cc)
rm_here_lem x (some xs) s h = elim (Bool-cases (is_empty (erase x xs))) [
  | inl last ↦ (
    true,
    none,
    simp (h, last) refl,
    record {
      a_set = tt;
      flag = refl;
      left = λ y. unfold has in ground (arith, has-erase y x xs s.0, has-empty y (erase x xs) last);
    },
  )
  | inr more ↦ (
    false,
    some (erase x xs),
    simp (h, more) refl,
    record {
      a_set = (erase-IsAscending x xs s.0, more);
      flag = refl;
      left = λ y. has-erase y x xs s.0;
    },
  )
]
