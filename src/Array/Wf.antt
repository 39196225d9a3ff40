-- ===== src/Array/Wf.antt =====
-- Every object of an array knows its index, and the operations keep that.
use cctas.Base.{
  ℕ, ◌+◌, ◌<◌, ◌≡◌, ◌≢◌, sym, ◌∙◌, ◌==◌, some, [], ◌∷◌, ◌++◌, if◌then◌else◌, length, get_elem?, set,
  arith, Option-cases, inl, inr, length-set, get_elem?-set_self, get_elem?-set_ne, ℕ_discrete,
  length-append, get_elem?_lt, get_elem?-some, get_elem?-none, get_elem?-append_left,
  get_elem?-append_end, dec_lt,
}
use cctas.Array.{Array, size, index, push_back, swap, swap_items, set_array_index}

-- items [index (x)] is x for every x that is stored, so no object is stored twice.
pub record IsWf (a : Array) : Type 0 where
  pub known : (i x : ℕ) → get_elem? a.items i ≡ some x → a.index_of x ≡ i

abbrev pub Stored : Array → ℕ → Type 0
Stored a x = get_elem? a.items (a.index_of x) ≡ some x

-- What stands where after a swap of two valid indices.
pub swap_lem :
    (a : Array) (i j x y : ℕ)
    → get_elem? a.items i ≡ some x
    → get_elem? a.items j ≡ some y
    → swap a i j ≡ record {
      items = set (set a.items i y) j x;
      index_of = set_array_index (set_array_index a.index_of x j) y i;
    }
unfolding swap
swap_lem a i j x y hx hy = rw (hx, hy, swap_items)

pub size-swap : (a : Array) (i j : ℕ) → size (swap a i j) ≡ size a
unfolding swap
size-swap a i j = elim (Option-cases (get_elem? a.items i)) [
  | inl e ↦ rw (e, swap_items)
  | inr (x, e) ↦ elim (Option-cases (get_elem? a.items j)) [
    | inl e' ↦ rw (e, e', swap_items)
    | inr (y, e') ↦
        rw (e, e', swap_items) (length-set (set a.items i y) j x ∙ length-set a.items i y)
  ]
]

-- The element at each index after the swap.
pub get_elem?-swap :
    (a : Array) (i j k x y : ℕ)
    → get_elem? a.items i ≡ some x
    → get_elem? a.items j ≡ some y
    → get_elem? (swap a i j).items k
      ≡ (if k == j then some x else if k == i then some y else get_elem? a.items k)
get_elem?-swap a i j k x y hx hy = rw (swap_lem a i j x y hx hy) (elim (ℕ_discrete j k) [
  | yes e ↦ ground (
    arith,
    get_elem?-set_self (set a.items i y) j x,
    length-set a.items i y,
    get_elem?_lt a.items j y hy,
  )
  | no ne ↦ elim (ℕ_discrete i k) [
    | yes e ↦ ground (
      arith,
      get_elem?-set_ne (set a.items i y) x ne,
      get_elem?-set_self a.items i y,
      get_elem?_lt a.items i x hx,
    )
    | no ne' ↦
        ground (arith, get_elem?-set_ne (set a.items i y) x ne, get_elem?-set_ne a.items y ne')
  ]
])

pub swap-IsWf : (a : Array) (i j : ℕ) → i < size a → j < size a → IsWf a → IsWf (swap a i j)
swap-IsWf a i j hi hj w =
    let (x, hx) = get_elem?-some a.items i hi in
    let (y, hy) = get_elem?-some a.items j hj in
    record {
      known = λ k z h. rw (swap_lem a i j x y hx hy) (
          ground (
            arith,
            sym (get_elem?-swap a i j k x y hx hy) ∙ h,
            w.known i x hx,
            w.known j y hy,
            w.known k z,
          ));
    }

pub push_back-IsWf :
    (a : Array) (x : ℕ) → ((i : ℕ) → get_elem? a.items i ≢ some x) → IsWf a → IsWf (push_back a x)
unfolding push_back
push_back-IsWf a x fresh w = record {
  known = λ k z h. elim (dec_lt k (length a.items)) [
    | yes lt ↦ ground (arith, get_elem?-append_left a.items (x ∷ []) k lt, fresh k, w.known k z)
    | no ge ↦ elim (ℕ_discrete k (length a.items)) [
      | yes e ↦ ground (arith, get_elem?-append_end a.items x)
      | no ne ↦ ground (
        arith,
        get_elem?-none (a.items ++ x ∷ []) k (omega (arith, length-append a.items (x ∷ []))),
      )
    ]
  ];
}

pub size-push_back : (a : Array) (x : ℕ) → size (push_back a x) ≡ size a + 1
unfolding push_back
size-push_back a x = length-append a.items (x ∷ [])

-- A stored object that is swapped to index j stands there and knows it.
pub index-swap :
    (a : Array) (x j : ℕ)
    → IsWf a
    → Stored a x
    → j < size a
    → (index (swap a (index a x) j) x ≡ j) × Stored (swap a (index a x) j) x
index-swap a x j w st hj =
    let (y, hy) = get_elem?-some a.items j hj in
    let there = get_elem?-swap a (index a x) j j x y st hy in
    let knows =
      (swap-IsWf a (index a x) j (get_elem?_lt a.items _ x st) hj w).known j x
        (ground (arith, there)) in
    (knows, rw knows (ground (arith, there)))
