-- ===== src/Array/Tests.antt =====
-- Arrays of three objects.
use cctas.Base.{ℕ, zero, suc, ◌≡◌, some, [], ◌∷◌, arith, get_elem?}
use cctas.Array.{Array}
use cctas.Array.Wf.{IsWf}

abbrev three : Array
three = record { items = 0 ∷ 1 ∷ 2 ∷ []; index_of = λ x. x }

three_known : (i x : ℕ) → get_elem? (0 ∷ 1 ∷ 2 ∷ []) i ≡ some x → x ≡ i
three_known zero x h = ground arith
three_known (suc zero) x h = ground arith
three_known (suc (suc zero)) x h = ground arith
three_known (suc (suc (suc i))) x h = absurd (cc)

three-IsWf : IsWf three
three-IsWf = record { known = three_known }
