-- ===== src/Array.antt =====
-- array.hpp: array_t, a vector of objects that each know their own index.
-- An object is named by a number, and `index_of` holds every object's array_index; lb_t, fq_t and
-- dist_t store no NULL pointer, so the tests for NULL are left out.
pub mod Wf
pub mod Erase
mod Tests
use cctas.Base.{
  ℕ, ◌-◌, ◌==◌, Option, none, some, List, [], ◌∷◌, ◌++◌, if◌then◌else◌, length, get_elem?, set,
  take,
}

pub record Array : Type 0 where
  pub items : List ℕ
  pub index_of : ℕ → ℕ

abbrev pub empty : Array
empty = record { items = []; index_of = λ x. 0 }

-- size
abbrev pub size : Array → ℕ
size a = length a.items

-- set_array_index
abbrev pub set_array_index : (ℕ → ℕ) → ℕ → ℕ → ℕ → ℕ
set_array_index f x i y = if y == x then i else f y

-- index
abbrev pub index : Array → ℕ → ℕ
index a x = a.index_of x

unfoldable pub push_back : Array → ℕ → Array
push_back a x = record {
  items = a.items ++ (x ∷ []);
  index_of = set_array_index a.index_of x (length a.items);
}

-- erase (size_type); an index or a back () out of range is outside the contract.
unfoldable pub erase_at : Array → ℕ → Array
erase_at a i = elim (get_elem? a.items (length a.items - 1)) [
  | none ↦ a
  | some back ↦ record {
    items = take (length a.items - 1) (set a.items i back);
    index_of = set_array_index a.index_of back i;
  }
]

-- erase (T *)
unfoldable pub erase : Array → ℕ → Array
unfolding erase_at
erase a x = erase_at a (a.index_of x)

swap_items : Array → ℕ → ℕ → Option ℕ → Option ℕ → Array
swap_items a i j (some x) (some y) = record {
  items = set (set a.items i y) j x;
  index_of = set_array_index (set_array_index a.index_of x j) y i;
}
swap_items a i j none y = a
swap_items a i j (some x) none = a

-- swap; indices out of range are outside the contract.
unfoldable pub swap : Array → ℕ → ℕ → Array
unfolding swap_items
swap a i j = swap_items a i j (get_elem? a.items i) (get_elem? a.items j)
