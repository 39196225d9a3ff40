-- ===== src/Message.antt =====
-- msg.cpp, msg.hpp and atomic_counter.hpp: msg_t, a message in one of four states, with the contents
-- that several messages share by a count of references. Operations on one message are here;
-- Message/Store has the messages of a program side by side, where the two of move or copy may be
-- the same. The flags that are never used are left out, and an address is used once.
pub mod Store
pub mod Totals
pub mod Counted
pub mod Closing
pub mod Sharing
pub mod References
pub mod Copying
pub mod Removing
pub mod Starting
pub mod Calls
pub mod Runs
mod Tests
use cctas.Base.{
  ℕ, ◌+◌, ◌-◌, ◌%◌, ◌^◌, ◌==◌, leb, Bool, true, false, not, ◌&&◌, ◌||◌, if◌then◌else◌, Option, none,
  some, List, ◌∷◌,
}

-- type_vsm, type_lmsg and type_delimiter; `invalid` for every other value
pub data Kind : Type 0 where
  vsm lmsg delimiter invalid : Kind

pub record Flags : Type 0 where
  pub more : Bool
  pub identity : Bool
  pub shared : Bool

-- The union: `size` and `inline` are those of u.vsm, `content` is the pointer of u.lmsg, none for
-- NULL. What a type does not use stays as it is.
pub record Message : Type 0 where
  pub kind : Kind
  pub flags : Flags
  pub size : ℕ
  pub inline : List ℕ
  pub content : Option ℕ

-- where the data are: in the message, behind the content at an address, or in the user's memory
pub data Place : Type 0 where
  inside : Place
  behind user : ℕ → Place

-- content_t; `ffn` is none for NULL.
pub record Content : Type 0 where
  pub place : Place
  pub size : ℕ
  pub ffn : Option ℕ
  pub hint : ℕ
  pub refcnt : ℕ

-- a call of ffn
pub data Freed : Type 0 where
  freed : (address : ℕ) → (place : Place) → (ffn : Option ℕ) → (hint : ℕ) → Freed

-- The contents that are allocated; `next` is the address that malloc gives next, and `freed` has
-- what was freed, the last one first, with the function that was called on its data, if any.
pub record Heap : Type 0 where
  pub contents : ℕ → Option Content
  pub next : ℕ
  pub freed : List Freed

pub data Rc : Type 0 where
  done enomem efault : Rc

abbrev pub no_flags : Flags
no_flags = record { more = false; identity = false; shared = false }

abbrev pub valid : Kind → Bool
valid vsm = true
valid lmsg = true
valid delimiter = true
valid invalid = false

abbrev pub is_lmsg : Kind → Bool
is_lmsg vsm = false
is_lmsg lmsg = true
is_lmsg delimiter = false
is_lmsg invalid = false

-- the function `check`
abbrev pub check_type : Message → Bool
check_type m = valid m.kind

unfoldable pub init : Message → Message
init m = record m { kind = vsm; flags = no_flags; size = 0 }

unfoldable pub init_delimiter : Message → Message
init_delimiter m = record m { kind = delimiter; flags = no_flags }

abbrev pub put : ℕ → Option Content → (ℕ → Option Content) → ℕ → Option Content
put p o f q = if q == p then o else f q

-- A new content, or ENOMEM if there is no room; its pointer is in the message either way.
abbrev pub allocate : Bool → Content → Message → Heap → Rc × Message × Heap
allocate room c m h =
    let m1 = record m { kind = lmsg; flags = no_flags } in
    if room
    then (
      done,
      record m1 { content = some h.next },
      record h { contents = put h.next (some c) h.contents; next = h.next + 1 },
    )
    else (enomem, record m1 { content = none }, h)

unfoldable pub init_size : Bool → ℕ → Message → Heap → Rc × Message × Heap
init_size room n m h =
    if leb n 29
    then (done, record m { kind = vsm; flags = no_flags; size = n % 256 }, h)
    else allocate room
        (record { place = behind h.next; size = n; ffn = none; hint = 0; refcnt = 0 }) m h

unfoldable pub init_data : Bool → ℕ → ℕ → Option ℕ → ℕ → Message → Heap → Rc × Message × Heap
init_data room address n ffn hint m h =
    allocate room (record { place = user address; size = n; ffn = ffn; hint = hint; refcnt = 0 }) m
      h

-- The end of a content: ffn is called on its data, and its memory is freed.
abbrev pub destroy : ℕ → Content → Heap → Heap
destroy p c h = record h {
  contents = put p none h.contents;
  freed = freed p c.place c.ffn c.hint ∷ h.freed;
}

-- atomic_counter_t::add and sub
abbrev pub counter_add : ℕ → ℕ → ℕ
counter_add k n = (n + k) % 2 ^ 32

abbrev pub counter_sub : ℕ → ℕ → ℕ
counter_sub k n = (n + 2 ^ 32 - k) % 2 ^ 32

abbrev pub set_refcnt : ℕ → Content → ℕ → Heap → Heap
set_refcnt p c n h = record h { contents = put p (some (record c { refcnt = n })) h.contents }

-- refcnt.sub (k), and the end of the content if the count drops to zero: whether it is still used
unfoldable pub drop_refs : ℕ → ℕ → Content → Heap → Bool × Heap
drop_refs k p c h =
    let n = counter_sub k c.refcnt in
    if n == 0 then (false, destroy p c h) else (true, set_refcnt p c n h)

-- The content that a long message points to; none for a pointer to nothing.
abbrev pub deref : Option ℕ → Heap → Option (ℕ × Content)
deref none h = none
deref (some p) h = elim (h.contents p) [ none ↦ none | some c ↦ some (p, c) ]

-- What close does to the content of a long message; none where a pointer leads nowhere.
abbrev pub release_content : Bool → Option (ℕ × Content) → Heap → Option Heap
release_content shared none h = none
release_content false (some (p, c)) h = some (destroy p c h)
release_content true (some (p, c)) h = some (drop_refs 1 p c h).1

abbrev pub closed : Message → Option Heap → Option (Rc × Message × Heap)
closed m none = none
closed m (some h) = some (done, record m { kind = invalid }, h)

unfoldable pub close : Message → Heap → Option (Rc × Message × Heap)
close m h =
    if check_type m
    then closed m
        (if is_lmsg m.kind then release_content m.flags.shared (deref m.content h) h else some h)
    else some (efault, m, h)

-- What copy does to its source before the message is copied: a long message is shared by one more.
abbrev pub share_content : Message → Option (ℕ × Content) → Heap → Option (Message × Heap)
share_content m none h = none
share_content m (some (p, c)) h =
    if m.flags.shared
    then some (m, set_refcnt p c (counter_add 1 c.refcnt) h)
    else some (record m { flags = record (m.flags) { shared = true } }, set_refcnt p c 2 h)

unfoldable pub share : Message → Heap → Option (Message × Heap)
share m h = if is_lmsg m.kind then share_content m (deref m.content h) h else some (m, h)

-- add_refs; a negative number fails an assertion, and is left out.
abbrev pub add_to_content : ℕ → Message → Option (ℕ × Content) → Heap → Option (Message × Heap)
add_to_content n m none h = none
add_to_content n m (some (p, c)) h =
    if m.flags.shared
    then some (m, set_refcnt p c (counter_add n c.refcnt) h)
    else some (
      record m { flags = record (m.flags) { shared = true } },
      set_refcnt p c ((n + 1) % 2 ^ 32) h,
    )

unfoldable pub add_refs : ℕ → Message → Heap → Option (Message × Heap)
add_refs n m h =
    if n == 0
    then some (m, h)
    else if is_lmsg m.kind
    then add_to_content n m (deref m.content h) h
    else some (m, h)

-- rm_refs: whether the message is still used, and the message.
abbrev pub rm_from_content :
    ℕ → Message → Option (ℕ × Content) → Heap → Option (Bool × Message × Heap)
rm_from_content n m none h = none
rm_from_content n m (some (p, c)) h = let (used, h1) = drop_refs n p c h in some (used, m, h1)

abbrev pub rm_closed : Option (Rc × Message × Heap) → Option (Bool × Message × Heap)
rm_closed none = none
rm_closed (some (rc, m, h)) = some (false, m, h)

unfoldable pub rm_refs : ℕ → Message → Heap → Option (Bool × Message × Heap)
unfolding close
rm_refs n m h =
    if n == 0
    then some (true, m, h)
    else if not (is_lmsg m.kind) || not m.flags.shared
    then rm_closed (close m h)
    else rm_from_content n m (deref m.content h) h

-- data and size; none where an assertion fails.
pub data_of : Message → Heap → Option Place
data_of m h = elim (m.kind) [
  | vsm ↦ some inside
  | lmsg ↦ elim (deref m.content h) [ none ↦ none | some (p, c) ↦ some (c.place) ]
  | _ ↦ none
]

pub size_of : Message → Heap → Option ℕ
size_of m h = elim (m.kind) [
  | vsm ↦ some (m.size)
  | lmsg ↦ elim (deref m.content h) [ none ↦ none | some (p, c) ↦ some (c.size) ]
  | _ ↦ none
]

unfoldable pub set_flags : Flags → Message → Message
set_flags f m = record m {
  flags = record {
    more = m.flags.more || f.more;
    identity = m.flags.identity || f.identity;
    shared = m.flags.shared || f.shared;
  };
}

unfoldable pub reset_flags : Flags → Message → Message
reset_flags f m = record m {
  flags = record {
    more = m.flags.more && not f.more;
    identity = m.flags.identity && not f.identity;
    shared = m.flags.shared && not f.shared;
  };
}

abbrev pub is_delimiter : Message → Bool
is_delimiter m = elim (m.kind) [ delimiter ↦ true | _ ↦ false ]

abbrev pub is_vsm : Message → Bool
is_vsm m = elim (m.kind) [ vsm ↦ true | _ ↦ false ]
