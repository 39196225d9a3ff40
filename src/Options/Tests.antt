-- ===== src/Options/Tests.antt =====
-- Options that are set and read; a filter is resolved to its own bytes.
use cctas.Base.{ℕ, ◌≡◌, refl, Bool, Option, none, some, List, [], ◌∷◌, arith}
use cctas.Options.Numbers.{negsuc, int_of}
use cctas.Options.{Options, options, setsockopt, getsockopt, zmq_linger, zmq_rate}
use cctas.Options.RoundTrip.{getsockopt-setsockopt}
use cctas.Options.Range.{InRange, set_all, set_all-options-InRange}

abbrev resolve : List ℕ → Bool → Option (List ℕ)
resolve bytes ipv4only = some bytes

-- -1 as an int
abbrev minus_one : List ℕ
minus_one = 255 ∷ 255 ∷ 255 ∷ 255 ∷ []

abbrev no_linger : Options (List ℕ)
unfolding options
no_linger = record options { linger = negsuc 0 }

linger_is_set : setsockopt resolve zmq_linger (some minus_one) options ≡ some no_linger
unfolding setsockopt options int_of
linger_is_set = refl

-- -5 has no meaning as a linger period, and is taken.
abbrev minus_five : List ℕ
minus_five = 251 ∷ 255 ∷ 255 ∷ 255 ∷ []

minus_five_test :
    setsockopt resolve zmq_linger (some minus_five) options
    ≡ some (record options { linger = negsuc 4 })
unfolding setsockopt options int_of
minus_five_test = refl

rate_is_refused : setsockopt resolve zmq_rate (some minus_one) options ≡ none
unfolding setsockopt options int_of
rate_is_refused = refl

getsockopt-setsockopt_example : getsockopt zmq_linger 8 no_linger ≡ some minus_one
getsockopt-setsockopt_example =
    getsockopt-setsockopt resolve zmq_linger minus_one options no_linger 8 (λ e. absurd (cc))
      (omega arith, (omega arith, (omega arith, (omega arith, tt)))) (omega arith) linger_is_set

set_all-options-InRange_example :
    InRange
      (set_all resolve ((zmq_rate, some minus_one) ∷ (zmq_linger, some minus_one) ∷ []) options)
set_all-options-InRange_example =
    set_all-options-InRange resolve ((zmq_rate, some minus_one) ∷ (zmq_linger, some minus_one) ∷ [])
