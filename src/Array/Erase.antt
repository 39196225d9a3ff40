-- ===== src/Array/Erase.antt =====
-- Removing an object from an array: the last one takes its place.
use cctas.Base.{
  ℕ, ◌+◌, ◌-◌, ◌<◌, ◌≡◌, sym, ◌∙◌, ◌==◌, none, some, if◌then◌else◌, length, get_elem?, set, take,
  arith, length-set, get_elem?-set_self, get_elem?-set_ne, ℕ_discrete, length-take, get_elem?-take,
  get_elem?-some, get_elem?-none, dec_lt,
}
use cctas.Array.Wf.{IsWf}
use cctas.Array.{Array, size, erase_at, erase}

-- What stands where once the object at index i is erased: the last one takes its place.
pub get_elem?-erase_at :
    (a : Array) (i k : ℕ)
    → i < size a
    → get_elem? (erase_at a i).items k ≡ (
        if k + 1 == size a
        then none
        else if k == i
        then get_elem? a.items (size a - 1)
        else get_elem? a.items k)
unfolding erase_at
get_elem?-erase_at a i k h =
    let n = length a.items in
    let (back, hb) = get_elem?-some a.items (n - 1) (omega arith) in
    let written = set a.items i back in
    let same = length-set a.items i back in
    rw (hb, erase_at)
      (elim (dec_lt k (n - 1)) [
        | yes lt ↦ elim (ℕ_discrete i k) [
          | yes e ↦
              ground (arith, get_elem?-take (n - 1) written k lt, get_elem?-set_self a.items i back)
          | no ne ↦
              ground (arith, get_elem?-take (n - 1) written k lt, get_elem?-set_ne a.items back ne)
        ]
        | no ge ↦ ground (
          arith,
          get_elem?-none (take (n - 1) written) k
              (omega (arith, length-take (n - 1) written, same)),
          get_elem?-none a.items k,
        )
      ])

pub size-erase_at : (a : Array) (i : ℕ) → i < size a → size (erase_at a i) ≡ size a - 1
unfolding erase_at
size-erase_at a i h =
    let (back, hb) = get_elem?-some a.items (length a.items - 1) (omega arith) in
    rw (hb, erase_at)
      (omega
        (arith, length-take (length a.items - 1) (set a.items i back), length-set a.items i back))

index-erase_at :
    (a : Array) (i back z : ℕ)
    → get_elem? a.items (size a - 1) ≡ some back
    → (erase_at a i).index_of z ≡ (if z == back then i else a.index_of z)
unfolding erase_at
index-erase_at a i back z hb = rw (hb, erase_at)

pub erase_at-IsWf : (a : Array) (i : ℕ) → i < size a → IsWf a → IsWf (erase_at a i)
erase_at-IsWf a i h w = record {
  known = λ k z e.
      let (back, hb) = get_elem?-some a.items (size a - 1) (omega arith) in
      ground (
        arith,
        index-erase_at a i back z hb,
        sym (get_elem?-erase_at a i k h) ∙ e,
        w.known (size a - 1) back hb,
        w.known k z,
        w.known i z,
        get_elem?-none a.items k,
      );
}

-- erase of a stored object
pub get_elem?-erase :
    (a : Array) (x k : ℕ)
    → a.index_of x < size a
    → get_elem? (erase a x).items k ≡ (
        if k + 1 == size a
        then none
        else if k == a.index_of x
        then get_elem? a.items (size a - 1)
        else get_elem? a.items k)
unfolding erase
get_elem?-erase a x k h = get_elem?-erase_at a (a.index_of x) k h

pub size-erase : (a : Array) (x : ℕ) → a.index_of x < size a → size (erase a x) ≡ size a - 1
unfolding erase
size-erase a x h = size-erase_at a (a.index_of x) h

-- Erasing an object that stands in a valid place leaves every other object knowing its index, the
-- one that is moved into the gap included.
pub erase-IsWf : (a : Array) (x : ℕ) → a.index_of x < size a → IsWf a → IsWf (erase a x)
unfolding erase
erase-IsWf a x h w = erase_at-IsWf a (a.index_of x) h w
