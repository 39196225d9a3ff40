-- ===== src/Ctx.antt =====
-- ctx.cpp: ctx_t, with the thread slots of its sockets, its options, its I/O threads and its inproc
-- endpoints. A mutex makes each operation one step. What terminate waits for, and the threads
-- themselves, are not modelled; memory is always there.
pub mod Slots
pub mod Endpoints
mod Tests
use cctas.Base.{
  ℕ, zero, suc, ◌+◌, ◌-◌, ◌*◌, ◌/◌, ◌%◌, ◌^◌, ◌==◌, ltb, leb, Bool, true, false, not, ◌&&◌, ◌||◌,
  if◌then◌else◌, Option, none, some, List, [], ◌∷◌, length,
}
use cctas.Options.Numbers.{ℤ, pos, negsuc, signed}

-- A socket object with its get_tid () and its socket ID, which is an int: there are fewer than 2 ^ 31.
pub record Socket : Type 0 where
  pub object : ℕ
  pub tid : ℕ
  pub sid : ℕ

-- what a slot points to
pub data Mailbox : Type 0 where
  of_term of_reaper : Mailbox
  of_io_thread : ℕ → Mailbox
  of_socket : ℕ → Mailbox

-- The back of empty_slots is the first of the list. `slots` is none for NULL, `io_threads` is how
-- many were launched, and `stops` has the objects that were sent the stop command: sockets by their
-- number, the reaper as none. max_socket_id is a static member.
pub record Ctx : Type 0 where
  pub sockets : List Socket
  pub empty_slots : List ℕ
  pub starting : Bool
  pub terminating : Bool
  pub io_threads : ℕ
  pub slot_count : ℕ
  pub slots : ℕ → Option Mailbox
  pub max_socket_id : ℕ
  pub max_sockets : ℕ
  pub io_thread_count : ℕ
  pub stops : List (Option ℕ)

-- the constructor, with ZMQ_MAX_SOCKETS_DFLT and ZMQ_IO_THREADS_DFLT
unfoldable pub ctx : ℕ → Ctx
ctx last_id = record {
  sockets = [];
  empty_slots = [];
  starting = true;
  terminating = false;
  io_threads = 0;
  slot_count = 0;
  slots = λ i. none;
  max_socket_id = last_id;
  max_sockets = 1024;
  io_thread_count = 1;
  stops = [];
}

-- ZMQ_MAX_SOCKETS, ZMQ_IO_THREADS and any other number
pub data Name : Type 0 where
  zmq_max_sockets zmq_io_threads unknown : Name

-- set, to the number that the int optval_ is; the flag is false for -1 with EINVAL.
abbrev pub set_number : Name → ℤ → Ctx → Bool × Ctx
set_number zmq_max_sockets (pos n) c =
    if leb 1 n then (true, record c { max_sockets = n }) else (false, c)
set_number zmq_max_sockets (negsuc n) c = (false, c)
set_number zmq_io_threads (pos n) c = (true, record c { io_thread_count = n })
set_number zmq_io_threads (negsuc n) c = (false, c)
set_number unknown v c = (false, c)

-- set; optval_ is given by its 32 bits.
unfoldable pub set : Name → ℕ → Ctx → Bool × Ctx
set k optval c = set_number k (signed (2 ^ 31) (optval % 2 ^ 32)) c

-- get; none for -1 with EINVAL
pub get : Name → Ctx → Option ℕ
get zmq_max_sockets c = some (c.max_sockets)
get zmq_io_threads c = some (c.io_thread_count)
get unknown c = none

-- Words of 32 bits in their order as signed integers: w is before v where biased w < biased v.
abbrev pub biased : ℕ → ℕ
biased w = (w + 2 ^ 31) % 2 ^ 32

-- How many rounds the loop over the unused part makes: from (int32_t) slot_count - 1 down to
-- (int32_t) ios + 2, where the sums of ints wrap around.
abbrev pub unused : ℕ → ℕ → ℕ
unused slot_count ios =
    let top = biased (slot_count + (2 ^ 32 - 1)) in
    let bottom = biased (ios + 2) in if leb bottom top then top - bottom + 1 else 0

-- n slots from i on, as the loop over the unused part leaves empty_slots
abbrev pub slots_from : ℕ → ℕ → List ℕ
slots_from i zero = []
slots_from i (suc n) = i ∷ slots_from (suc i) n

-- the slots of the threads
abbrev pub thread_slot : ℕ → ℕ → Option Mailbox
thread_slot ios i =
    if i == 0
    then some of_term
    else if i == 1
    then some of_reaper
    else if ltb i (ios + 2)
    then some (of_io_thread i)
    else none

-- What the first create_socket does. slot_count is a uint32_t, and the sum of ints wraps around.
abbrev pub launch : Ctx → Ctx
launch c =
    let n = (c.max_sockets + c.io_thread_count + 2) % 2 ^ 32 in
    if c.starting
    then record c {
      starting = false;
      slot_count = n;
      io_threads = c.io_thread_count;
      empty_slots = slots_from (c.io_thread_count + 2) (unused n c.io_thread_count);
      slots = thread_slot c.io_thread_count;
    }
    else c

-- slots [i] = m
abbrev pub put_slot : ℕ → Option Mailbox → (ℕ → Option Mailbox) → ℕ → Option Mailbox
put_slot i m slots = λ j. if j == i then m else slots j

pub data Created : Type 0 where
  created : Socket → Created
  eterm emfile not_made : Created

-- The part of create_socket that takes a slot. socket_base_t::create makes the object, unless the
-- type is wrong; `made` is none then.
abbrev pub take_slot : Option ℕ → List ℕ → Ctx → Created × Ctx
take_slot made [] c = (emfile, c)
take_slot none (slot ∷ rest) c =
    (not_made, record c { max_socket_id = (c.max_socket_id + 1) % 2 ^ 32 })
take_slot (some x) (slot ∷ rest) c =
    let s : Socket = record { object = x; tid = slot; sid = c.max_socket_id + 1 } in
    (
      created s,
      record c {
        max_socket_id = (c.max_socket_id + 1) % 2 ^ 32;
        empty_slots = rest;
        sockets = s ∷ c.sockets;
        slots = put_slot slot (some (of_socket x)) c.slots;
      },
    )

unfoldable pub create_socket : Option ℕ → Ctx → Created × Ctx
create_socket made c =
    let c1 = launch c in if c1.terminating then (eterm, c1) else take_slot made c1.empty_slots c1

-- sockets.erase
abbrev pub is_same : Socket → Socket → Bool
is_same s t = (s.object == t.object) && (s.tid == t.tid)

unfoldable pub erase_socket : Socket → List Socket → List Socket
erase_socket s [] = []
erase_socket s (t ∷ ts) = if is_same s t then ts else t ∷ erase_socket s ts

abbrev pub is_empty : List Socket → Bool
is_empty [] = true
is_empty (s ∷ ss) = false

unfoldable pub destroy_socket : Socket → Ctx → Ctx
destroy_socket s c =
    let rest = erase_socket s c.sockets in
    record c {
      empty_slots = s.tid ∷ c.empty_slots;
      slots = put_slot s.tid none c.slots;
      sockets = rest;
      stops = if c.terminating && is_empty rest then none ∷ c.stops else c.stops;
    }

abbrev pub stop_all : List Socket → List (Option ℕ) → List (Option ℕ)
stop_all [] out = out
stop_all (s ∷ ss) out = stop_all ss (some (s.object) ∷ out)

-- terminate up to where it waits for the reaper; where no socket was created it deletes the context
-- at once.
unfoldable pub terminate : Ctx → Ctx
terminate c = if c.starting || c.terminating then c else record c {
  terminating = true;
  stops = if is_empty c.sockets then none ∷ c.stops else stop_all c.sockets c.stops;
}

-- choose_io_thread, from the thread i on: `loads` are the get_load () of the threads that are left,
-- and `best` the chosen thread with its load, none for NULL.
abbrev pub is_eligible : ℕ → ℕ → Bool
is_eligible affinity i = (affinity == 0) || (affinity / 2 ^ i % 2 == 1)

abbrev pub is_better : ℕ → Option (ℕ × ℕ) → Bool
is_better load none = true
is_better load (some (thread, min_load)) = ltb load min_load

unfoldable pub choose_loop : ℕ → ℕ → List ℕ → Option (ℕ × ℕ) → Option (ℕ × ℕ)
choose_loop affinity i [] best = best
choose_loop affinity i (load ∷ loads) best =
    choose_loop affinity (suc i) loads
      (if is_eligible affinity i && is_better load best then some (i, load) else best)

pub choose_io_thread : ℕ → List ℕ → Option (ℕ × ℕ)
choose_io_thread affinity loads = choose_loop affinity 0 loads none
