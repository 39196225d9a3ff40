-- ===== src/Sockets/Turns.antt =====
-- The order that req.hpp and rep.hpp promise their users: whole messages are sent and received in
-- turn. An event is a part that a call sent or received; the last one is the first of the list.
use cctas.Base.{◌≡◌, Bool, true, false, not, List, [], ◌∷◌}
use cctas.Framing.{Msg}
use cctas.Sockets.{more}

pub data Event : Type 0 where
  sent : Msg → Event
  received : Msg → Event

abbrev pub is_received : Event → Bool
is_received (sent m) = false
is_received (received m) = true

-- Whether the next part has to be received: the last message goes on, or the turn changes.
-- `start` is the answer before the first part.
abbrev pub receives_next : Bool → List Event → Bool
receives_next start [] = start
receives_next start (sent m ∷ es) = not (more m)
receives_next start (received m ∷ es) = more m

unfoldable pub Alternates : Bool → List Event → Type 0
Alternates start [] = Unit
Alternates start (e ∷ es) = (is_received e ≡ receives_next start es) × Alternates start es
