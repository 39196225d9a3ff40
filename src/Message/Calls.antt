-- ===== src/Message/Calls.antt =====
-- msg.cpp: the calls that a program makes on its messages, and what it owes them.
use cctas.Base.{ℕ, ◌+◌, ◌≤◌, ◌<◌, ◌≡◌, Bool, true, false, Option, none, some, get_elem?}
use cctas.Message.{Message, Flags, Rc, done, is_lmsg}
use cctas.Message.Store.{
  Store, init_at, init_delimiter_at, init_size_at, init_data_at, close_at, move, copy, set_flags_at,
  reset_flags_at, add_refs_at, rm_refs_at, assign, pass_on, give_up,
}
use cctas.Message.Counted.{holds, IsCounted, Keeps}
use cctas.Message.Closing.{close_at-Keeps}
use cctas.Message.Sharing.{raised, lowered}
use cctas.Message.References.{HasRoom, add_refs_at-Keeps}
use cctas.Message.Copying.{assign-Keeps, pass_on-Keeps, move-Keeps, copy-Keeps}
use cctas.Message.Removing.{rm_refs_at-Keeps, give_up-Keeps}
use cctas.Message.Starting.{
  init_at-Keeps, init_delimiter_at-Keeps, init_size_at-Keeps, init_data_at-Keeps,
  set_flags_at-Keeps, reset_flags_at-Keeps,
}

-- The calls. The last four are what dist_t does: references ahead, a plain copy of a message, the
-- same where it is the last, and rm_refs with the message emptied.
pub data Call : Type 0 where
  start start_delimiter finish : ℕ → Call
  start_size : (i n : ℕ) → Call
  start_data : (i address n : ℕ) → (ffn : Option ℕ) → (hint : ℕ) → Call
  move_to copy_to : (i j : ℕ) → Call
  set reset : Flags → ℕ → Call
  refer unrefer : (n i : ℕ) → Call
  hand_out hand_over : (i j : ℕ) → Call
  drop : (n i : ℕ) → Call

abbrev pub forget : Option (Bool × Store) → Option (Rc × Store)
forget none = none
forget (some (b, s)) = some (done, s)

-- malloc has memory.
unfoldable pub run : Call → Store → Option (Rc × Store)
unfolding init_at init_delimiter_at close_at init_size_at init_data_at move copy set_flags_at
    reset_flags_at add_refs_at rm_refs_at assign pass_on give_up
run (start i) s = init_at i s
run (start_delimiter i) s = init_delimiter_at i s
run (finish i) s = close_at i s
run (start_size i n) s = init_size_at true i n s
run (start_data i address n ffn hint) s = init_data_at true i address n ffn hint s
run (move_to i j) s = move i j s
run (copy_to i j) s = copy i j s
run (set f i) s = set_flags_at f i s
run (reset f i) s = reset_flags_at f i s
run (refer n i) s = add_refs_at n i s
run (unrefer n i) s = forget (rm_refs_at n i s)
run (hand_out i j) s = assign i j s
run (hand_over i j) s = pass_on i j s
run (drop n i) s = give_up n i s

-- A position with its message, and one whose message owns nothing.
abbrev pub At : Store → ℕ → Message → Type 0
At s i m = get_elem? s.messages i ≡ some m

-- What a caller owes: the positions are the program's; a message that is started or written over
-- owns nothing; the flag `shared` is not touched; the count has room; a plain copy is made for a
-- reference ahead, and rm_refs takes back no more than there are, or these and the message's own.
-- The second function has the references ahead after the call.
pub data Allowed (ahead : ℕ → ℕ) (s : Store) : Call → (ℕ → ℕ) → Type 0 where
  may_start :
      {i : ℕ} {m : Message} → At s i m → is_lmsg m.kind ≡ false → Allowed ahead s (start i) ahead
  may_start_delimiter :
      {i : ℕ} {m : Message}
      → At s i m
      → is_lmsg m.kind ≡ false
      → Allowed ahead s (start_delimiter i) ahead
  may_finish : {i : ℕ} {m : Message} → At s i m → Allowed ahead s (finish i) ahead
  may_start_size :
      {i n : ℕ} {m : Message}
      → At s i m
      → is_lmsg m.kind ≡ false
      → Allowed ahead s (start_size i n) ahead
  may_start_data :
      {i address n hint : ℕ} {ffn : Option ℕ} {m : Message}
      → At s i m
      → is_lmsg m.kind ≡ false
      → Allowed ahead s (start_data i address n ffn hint) ahead
  may_move : {i j : ℕ} {a b : Message} → At s i a → At s j b → Allowed ahead s (move_to i j) ahead
  may_copy :
      {i j : ℕ} {a b : Message}
      → At s i a
      → At s j b
      → HasRoom ahead s b 1
      → Allowed ahead s (copy_to i j) ahead
  may_set :
      {i : ℕ} {m : Message} {f : Flags}
      → At s i m
      → f.shared ≡ false
      → Allowed ahead s (set f i) ahead
  may_reset :
      {i : ℕ} {m : Message} {f : Flags}
      → At s i m
      → f.shared ≡ false
      → Allowed ahead s (reset f i) ahead
  may_refer :
      {i n : ℕ} {m : Message}
      → At s i m
      → HasRoom ahead s m n
      → Allowed ahead s (refer n i) (raised m n ahead)
  may_unrefer :
      {i n : ℕ} {m : Message}
      → At s i m
      → ((p : ℕ) → holds p m ≡ 1 → n ≤ ahead p)
      → Allowed ahead s (unrefer n i) (lowered m n ahead)
  may_hand_out :
      {i j : ℕ} {a b : Message}
      → At s i a
      → At s j b
      → is_lmsg a.kind ≡ false
      → ((p : ℕ) → holds p b ≡ 1 → 0 < ahead p)
      → Allowed ahead s (hand_out i j) (lowered b 1 ahead)
  may_hand_over :
      {i j : ℕ} {a b : Message}
      → At s i a
      → At s j b
      → is_lmsg a.kind ≡ false
      → Allowed ahead s (hand_over i j) ahead
  may_drop :
      {i n : ℕ} {m : Message}
      → At s i m
      → ((p : ℕ) → holds p m ≡ 1 → n ≡ ahead p + 1)
      → Allowed ahead s (drop n i) (lowered m n ahead)

forget-Keeps : (a : ℕ → ℕ) (o : Option (Bool × Store)) → Keeps a o → Keeps a (forget o)
forget-Keeps a none v = v
forget-Keeps a (some (b, s)) v = v

pub run-Keeps :
    {ahead next : ℕ → ℕ} {s : Store} {c : Call}
    → IsCounted ahead s
    → Allowed ahead s c next
    → Keeps next (run c s)
unfolding run
run-Keeps v (may_start {i = i} {m = m} e l) = init_at-Keeps v i m e l
run-Keeps v (may_start_delimiter {i = i} {m = m} e l) = init_delimiter_at-Keeps v i m e l
run-Keeps v (may_finish {i = i} {m = m} e) = close_at-Keeps v i m e
run-Keeps v (may_start_size {i = i} {n = n} {m = m} e l) = init_size_at-Keeps v i m e l n
run-Keeps v (may_start_data {i = i} {address = p} {n = n} {hint = h} {ffn = f} {m = m} e l) =
    init_data_at-Keeps v i m e l p n f h
run-Keeps v (may_move {i = i} {j = j} {a = a} {b = b} ea eb) = move-Keeps v i j a b ea eb
run-Keeps v (may_copy {i = i} {j = j} {a = a} {b = b} ea eb room) = copy-Keeps v i j a b ea eb room
run-Keeps v (may_set {i = i} {m = m} {f = f} e no_shared) = set_flags_at-Keeps v i m e f no_shared
run-Keeps v (may_reset {i = i} {m = m} {f = f} e no_shared) =
    reset_flags_at-Keeps v i m e f no_shared
run-Keeps v (may_refer {i = i} {n = n} {m = m} e room) = add_refs_at-Keeps v i m e n room
run-Keeps {ahead = ahead} {s = s} v (may_unrefer {i = i} {n = n} {m = m} e le) =
    forget-Keeps (lowered m n ahead) (rm_refs_at n i s) (rm_refs_at-Keeps v i m e n le)
run-Keeps v (may_hand_out {i = i} {j = j} {a = a} {b = b} ea eb l made) =
    assign-Keeps v i j a b ea eb l made
run-Keeps v (may_hand_over {i = i} {j = j} {a = a} {b = b} ea eb l) =
    pass_on-Keeps v i j a b ea eb l
run-Keeps v (may_drop {i = i} {n = n} {m = m} e le) = give_up-Keeps v i m e n le
