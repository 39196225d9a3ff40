-- ===== src/Own.antt =====
-- own.cpp: own_t, an object in the tree of owners, with its counts of commands and of
-- acknowledgements; and the commands of object.cpp that it sends and handles.
pub mod Ending
mod Tests
use cctas.Base.{
  ℕ, ◌+◌, ◌-◌, ◌%◌, ◌^◌, ◌==◌, ltb, Bool, true, false, ◌&&◌, if◌then◌else◌, Option, none, some,
  List, [], ◌∷◌, length,
}
use cctas.Options.Numbers.{ℤ, pos, negsuc}

-- The commands that own_t sends, with the object they go to; objects are numbers.
pub data Command : Type 0 where
  plug : ℕ → Command
  own_object : ℕ → ℕ → Command
  term_req : ℕ → ℕ → Command
  term : ℕ → ℤ → Command
  term_ack : ℕ → Command

-- `owner` is none for NULL, `linger` is options.linger; `destroyed` says that the object was
-- deleted, and `sent` has the commands that it sent, the last one first.
pub record Own : Type 0 where
  pub terminating : Bool
  pub sent_seqnum : ℕ
  pub processed_seqnum : ℕ
  pub owner : Option ℕ
  pub owned : List ℕ
  pub term_acks : ℕ
  pub linger : ℤ
  pub destroyed : Bool
  pub sent : List Command

-- the constructor, with the linger of the options
unfoldable pub own : ℤ → Own
own linger = record {
  terminating = false;
  sent_seqnum = 0;
  processed_seqnum = 0;
  owner = none;
  owned = [];
  term_acks = 0;
  linger = linger;
  destroyed = false;
  sent = [];
}

abbrev pub post : Command → Own → Own
post c o = record o { sent = c ∷ o.sent }

-- none where zmq_assert (!owner) fails
pub set_owner : ℕ → Own → Option Own
set_owner w o = elim o.owner [ none ↦ some (record o { owner = some w }) | some w' ↦ none ]

-- sent_seqnum is an atomic_counter_t of 32 bits.
unfoldable pub inc_seqnum : Own → Own
inc_seqnum o = record o { sent_seqnum = (o.sent_seqnum + 1) % 2 ^ 32 }

-- The term_ack to the owner, if there is one.
abbrev pub farewell : Option ℕ → List Command → List Command
farewell none cs = cs
farewell (some w) cs = term_ack w ∷ cs

abbrev pub is_empty : List ℕ → Bool
is_empty [] = true
is_empty (x ∷ xs) = false

-- check_term_acks with process_destroy; none where zmq_assert (owned.empty ()) fails
unfoldable pub check_term_acks : Own → Option Own
check_term_acks o =
    if o.terminating && ((o.processed_seqnum == o.sent_seqnum) && (o.term_acks == 0))
    then (if is_empty o.owned
        then some (record o { sent = farewell o.owner o.sent; destroyed = true })
        else none)
    else some o

unfoldable pub process_seqnum : Own → Option Own
process_seqnum o =
    check_term_acks (record o { processed_seqnum = (o.processed_seqnum + 1) % 2 ^ 64 })

abbrev pub register_term_acks : ℕ → Own → Own
register_term_acks n o = record o { term_acks = o.term_acks + n }

-- none where zmq_assert (term_acks > 0) fails
unfoldable pub unregister_term_ack : Own → Option Own
unregister_term_ack o =
    if ltb 0 o.term_acks then check_term_acks (record o { term_acks = o.term_acks - 1 }) else none

abbrev pub process_term_ack : Own → Option Own
process_term_ack = unregister_term_ack

-- owned.find, erase and insert
abbrev pub is_owned : ℕ → List ℕ → Bool
is_owned x [] = false
is_owned x (y ∷ ys) = if x == y then true else is_owned x ys

abbrev pub disown : ℕ → List ℕ → List ℕ
disown x [] = []
disown x (y ∷ ys) = if x == y then ys else y ∷ disown x ys

abbrev pub insert : ℕ → List ℕ → List ℕ
insert x xs = if is_owned x xs then xs else x ∷ xs

pub process_term_req : ℕ → Own → Own
process_term_req x o =
    if o.terminating
    then o
    else if is_owned x o.owned
    then post (term x (o.linger)) (register_term_acks 1 (record o { owned = disown x o.owned }))
    else o

pub term_child : ℕ → Own → Own
term_child x o = process_term_req x o

unfoldable pub process_own : ℕ → Own → Own
process_own x o =
    if o.terminating
    then post (term x (pos 0)) (register_term_acks 1 o)
    else record o { owned = insert x o.owned }

-- send_term to every owned object
abbrev pub send_terms : ℤ → List ℕ → List Command → List Command
send_terms linger [] cs = cs
send_terms linger (x ∷ xs) cs = send_terms linger xs (term x linger ∷ cs)

-- none where zmq_assert (!terminating) fails
unfoldable pub process_term : ℤ → Own → Option Own
process_term linger o =
    if o.terminating
    then none
    else check_term_acks (record o {
      sent = send_terms linger o.owned o.sent;
      term_acks = o.term_acks + length o.owned;
      owned = [];
      terminating = true;
    })

-- `self` is the object's own number.
pub terminate : ℕ → Own → Option Own
terminate self o = if o.terminating then some o else (elim o.owner [
  | none ↦ process_term (o.linger) o
  | some w ↦ some (post (term_req w self) o)
])

-- launch_child of the object `self` with a child: the states of the two. The commands that it
-- sends count in the seqnum of their destination.
abbrev pub launched : ℕ → ℕ → Own → Option Own → Option (Own × Own)
launched self x o none = none
launched self x o (some child) =
    some (inc_seqnum (post (own_object self x) (post (plug x) o)), inc_seqnum child)

pub launch_child : ℕ → ℕ → Own → Own → Option (Own × Own)
launch_child self x o child = launched self x o (set_owner self child)
