-- ===== src/Balance/Examples.antt =====
-- Pipes and an array of pipes that the examples share.
use cctas.Base.{
  ℕ, zero, suc, ◌-◌, ◌≡◌, ◌==◌, ltb, Bool, true, false, none, some, [], ◌∷◌, arith, get_elem?,
  if◌then◌else◌,
}
use cctas.Array.{Array}
use cctas.Array.Wf.{IsWf}
use cctas.Balance.{Pipes}

-- The state is the room that every pipe has; a part with `more` is true.
abbrev pub rooms : Pipes (ℕ → ℕ) Bool
rooms = record {
  has_more = λ m. m;
  write = λ p x m. if p x == 0 then (false, p) else (true, λ y. if y == x then p x - 1 else p y);
  check_write = λ p x. (ltb 0 (p x), p);
  flush = λ p x. p;
  read = λ p x. (none, p);
  check_read = λ p x. (false, p);
}

-- the first two pipes have room for two parts each
abbrev pub two_each : ℕ → ℕ
two_each x = if ltb x 2 then 2 else 0

abbrev pub three : Array
three = record { items = 0 ∷ 1 ∷ 2 ∷ []; index_of = λ x. x }

three_known : (i x : ℕ) → get_elem? (0 ∷ 1 ∷ 2 ∷ []) i ≡ some x → x ≡ i
three_known zero x h = ground arith
three_known (suc zero) x h = ground arith
three_known (suc (suc zero)) x h = ground arith
three_known (suc (suc (suc i))) x h = absurd (cc)

pub three-IsWf : IsWf three
three-IsWf = record { known = three_known }
