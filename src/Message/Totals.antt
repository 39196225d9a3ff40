-- ===== src/Message/Totals.antt =====
-- Sums over the messages of a program, and what they are after one of them has changed.
use cctas.Base.{ℕ, zero, suc, ◌+◌, ◌≤◌, ◌≡◌, refl, List, [], ◌∷◌, get_elem?, set, some, arith}

module _ {A : Type 0} (f : A → ℕ) where
  unfoldable pub total : List A → ℕ
  total [] = 0
  total (x ∷ xs) = f x + total xs

  pub total-set :
      (xs : List A) (i : ℕ) (x y : A)
      → get_elem? xs i ≡ some x
      → total (set xs i y) + f x ≡ total xs + f y
  unfolding total
  total-set [] i x y h = ground arith
  total-set (z ∷ xs) zero x y h = ground arith
  total-set (z ∷ xs) (suc i) x y h = omega (arith, total-set xs i x y h)

  pub le-total : (xs : List A) (i : ℕ) (x : A) → get_elem? xs i ≡ some x → f x ≤ total xs
  unfolding total
  le-total [] i x h = ground arith
  le-total (z ∷ xs) zero x h = ground arith
  le-total (z ∷ xs) (suc i) x h = omega (arith, le-total xs i x h)

  -- two different positions
  pub le-total_two :
      (xs : List A) (i j : ℕ) (x y : A)
      → get_elem? xs i ≡ some x
      → get_elem? xs j ≡ some y
      → (i ≡ j → ⊥)
      → f x + f y ≤ total xs
  unfolding total
  le-total_two [] i j x y h k n = ground arith
  le-total_two (z ∷ xs) zero zero x y h k n = absurd (n refl)
  le-total_two (z ∷ xs) zero (suc j) x y h k n = ground (arith, le-total xs j y)
  le-total_two (z ∷ xs) (suc i) zero x y h k n = ground (arith, le-total xs i x)
  le-total_two (z ∷ xs) (suc i) (suc j) x y h k n =
      omega (arith, le-total_two xs i j x y h k (λ e. n (omega arith)))

-- where each number is at most another's
pub total-le :
    {A : Type 0} (f g : A → ℕ) (le : (a : A) → f a ≤ g a) (xs : List A) → total f xs ≤ total g xs
unfolding total
total-le f g le [] = omega arith
total-le f g le (x ∷ xs) = omega (arith, le x, total-le f g le xs)

pub total-excess :
    {A : Type 0} (f g : A → ℕ) (le : (a : A) → f a ≤ g a) (xs : List A) (i : ℕ) (x : A)
    → get_elem? xs i ≡ some x
    → total f xs + g x ≤ total g xs + f x
unfolding total
total-excess f g le [] i x h = ground arith
total-excess f g le (z ∷ xs) zero x h = ground (arith, total-le f g le xs)
total-excess f g le (z ∷ xs) (suc i) x h = omega (arith, le z, total-excess f g le xs i x h)
