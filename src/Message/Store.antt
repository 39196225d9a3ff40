-- ===== src/Message/Store.antt =====
-- msg.cpp: the messages of a program side by side, which are named by their positions, and the
-- operations on them. The source of a move or a copy may be the message itself.
use cctas.Base.{ℕ, Bool, Option, none, some, List, get_elem?, set, if◌then◌else◌}
use cctas.Message
use cctas.Message.{
  Message, Flags, Heap, Rc, done, enomem, efault, check_type, set_flags, reset_flags,
}

pub record Store : Type 0 where
  pub messages : List Message
  pub heap : Heap

-- none is a fault, such as a read through a pointer that leads nowhere.
abbrev pub M : Type 0 → Type 0
M A = Store → Option (A × Store)

abbrev pub pure : {A : Type 0} → A → M A
pure a s = some (a, s)

abbrev pub bound : {A B : Type 0} → (A → M B) → Option (A × Store) → Option (B × Store)
bound f none = none
bound f (some (a, s)) = f a s

infixl 5 ◌>>=◌ ◌>>◌
abbrev pub ◌>>=◌ : {A B : Type 0} → M A → (A → M B) → M B
◌>>=◌ m f s = bound f (m s)

abbrev pub ◌>>◌ : {A B : Type 0} → M A → M B → M B
m >> k = m >>= λ _. k

abbrev pub load : ℕ → M Message
load i s = elim (get_elem? s.messages i) [ none ↦ none | some m ↦ some (m, s) ]

abbrev pub save : ℕ → Message → M (Unit {0})
save i m s = some (tt, record s { messages = set s.messages i m })

-- an operation on the message at a position, with the heap
abbrev pub stored : {A : Type 0} → ℕ → Store → Option (A × Message × Heap) → Option (A × Store)
stored i s none = none
stored i s (some (a, m, h)) = some (a, record { messages = set s.messages i m; heap = h })

abbrev pub on_message : {A : Type 0} → ℕ → (Message → Heap → Option (A × Message × Heap)) → M A
on_message i f = do m ← load i; (λ s. stored i s (f m s.heap))

unfoldable pub init_at : ℕ → M Rc
unfolding Message.init
init_at i = on_message i (λ m h. some (done, Message.init m, h))

unfoldable pub init_delimiter_at : ℕ → M Rc
unfolding Message.init_delimiter
init_delimiter_at i = on_message i (λ m h. some (done, Message.init_delimiter m, h))

unfoldable pub init_size_at : Bool → ℕ → ℕ → M Rc
unfolding Message.init_size
init_size_at room i n = on_message i (λ m h. some (Message.init_size room n m h))

unfoldable pub init_data_at : Bool → ℕ → ℕ → ℕ → Option ℕ → ℕ → M Rc
unfolding Message.init_data
init_data_at room i address n ffn hint =
    on_message i (λ m h. some (Message.init_data room address n ffn hint m h))

unfoldable pub close_at : ℕ → M Rc
unfolding Message.close
close_at i = on_message i Message.close

-- what follows if a call returned 0; its error is returned
abbrev pub if_done : M Rc → Rc → M Rc
if_done k done = k
if_done k enomem = pure enomem
if_done k efault = pure efault

-- Check the validity of the source.
abbrev pub if_valid : Message → M Rc → M Rc
if_valid src k = if check_type src then k else pure efault

-- move and copy: `this` is at i and src_ at j.
unfoldable pub assign : ℕ → ℕ → M Rc
assign i j = do src ← load j; save i src; pure done

-- a message as it lies, and an empty one in its place
unfoldable pub pass_on : ℕ → ℕ → M Rc
unfolding assign init_at
pass_on i j = assign i j >> init_at j

unfoldable pub move : ℕ → ℕ → M Rc
unfolding close_at pass_on
move i j = do src ← load j; if_valid src (close_at i >>= if_done (pass_on i j))

unfoldable pub share_at : ℕ → M Rc
unfolding Message.share
share_at j =
    on_message j
      (λ m h. elim (Message.share m h) [ none ↦ none | some (m1, h1) ↦ some (done, m1, h1) ])

unfoldable pub copy : ℕ → ℕ → M Rc
unfolding close_at share_at assign
copy i j = do src ← load j; if_valid src (close_at i >>= if_done (share_at j >> assign i j))

unfoldable pub add_refs_at : ℕ → ℕ → M Rc
unfolding Message.add_refs
add_refs_at n i =
    on_message i
      (λ m h. elim (Message.add_refs n m h) [ none ↦ none | some (m1, h1) ↦ some (done, m1, h1) ])

unfoldable pub rm_refs_at : ℕ → ℕ → M Bool
unfolding Message.rm_refs
rm_refs_at n i = on_message i (Message.rm_refs n)

-- what a caller of rm_refs does with a message whose references it has all given away
unfoldable pub give_up : ℕ → ℕ → M Rc
unfolding rm_refs_at init_at
give_up n i = do _ ← rm_refs_at n i; init_at i

-- the flags
unfoldable pub set_flags_at : Flags → ℕ → M Rc
set_flags_at f i = on_message i (λ m h. some (done, set_flags f m, h))

unfoldable pub reset_flags_at : Flags → ℕ → M Rc
reset_flags_at f i = on_message i (λ m h. some (done, reset_flags f m, h))
