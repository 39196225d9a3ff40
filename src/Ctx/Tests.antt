-- ===== src/Ctx/Tests.antt =====
-- A context with one socket.
use cctas.Base.{◌≡◌, ◌-◌, ◌^◌, refl, true, false, some, arith}
use cctas.Ctx.{Ctx, ctx, zmq_max_sockets, emfile, set, create_socket}
use cctas.Ctx.Slots.{IsSlotted, fresh, calls, creates, ctx-IsSlotted}

abbrev one_socket : Ctx
one_socket = (create_socket (some 7) (ctx 0)).1

ctx-IsSlotted_example : IsSlotted one_socket
unfolding create_socket ctx
ctx-IsSlotted_example = ctx-IsSlotted one_socket (calls (fresh 0) (creates (some 7))) (omega arith)

-- With ZMQ_MAX_SOCKETS at INT_MAX, which set takes, slot_count is no int, and no socket can be made.
abbrev greedy : Ctx
greedy = (set zmq_max_sockets (2 ^ 31 - 1) (ctx 0)).1

no_slot_test : (create_socket (some 7) greedy).0 ≡ emfile
unfolding set create_socket ctx
no_slot_test = refl

int_max_test : (set zmq_max_sockets (2 ^ 31 - 1) (ctx 0)).0 ≡ true
unfolding set
int_max_test = refl

minus_one_test : (set zmq_max_sockets (2 ^ 32 - 1) (ctx 0)).0 ≡ false
unfolding set
minus_one_test = refl
