-- ===== src/Ctx/Slots.antt =====
-- The thread slots: each is a thread's, a socket's or free.
use cctas.Base.{
  ℕ, zero, suc, ◌+◌, ◌<◌, ◌-◌, ◌*◌, ◌%◌, ◌^◌, ◌≡◌, refl, sym, ap, ◌∙◌, subst, ◌==◌, ltb, leb, Bool,
  true, false, ◌&&◌, ◌||◌, Bool-cases, inl, inr, if◌then◌else◌, Option, none, some, List, [], ◌∷◌,
  arith,
}
use cctas.Options.Numbers.{ℤ, pos, negsuc, signed}
use cctas.Ctx.{
  Socket, Ctx, ctx, Name, zmq_max_sockets, zmq_io_threads, unknown, set, set_number, unused,
  slots_from, launch, eterm, take_slot, create_socket, is_same, erase_socket, destroy_socket,
  terminate,
}

-- How often a slot is in a list, and how many sockets have it.
unfoldable pub times : ℕ → List ℕ → ℕ
times i [] = 0
times i (j ∷ js) = (if i == j then 1 else 0) + times i js

unfoldable pub holders : ℕ → List Socket → ℕ
holders i [] = 0
holders i (s ∷ ss) = (if i == s.tid then 1 else 0) + holders i ss

abbrev pub one_if : Bool → ℕ
one_if b = if b then 1 else 0

-- Where the slots for sockets end: at slot_count, but where that is no int, none is for a socket.
abbrev pub free_end : Ctx → ℕ
free_end c = if leb c.slot_count (2 ^ 31) then c.slot_count else c.io_threads + 2

-- How often a slot is free or a socket's.
abbrev pub uses : ℕ → Ctx → ℕ
uses i c = times i c.empty_slots + holders i c.sockets

-- Every slot for sockets is free once or one socket's, and no other is.
pub record IsSlotted (c : Ctx) : Type 0 where
  pub before_start : c.starting ≡ true → (c.empty_slots ≡ []) × (c.sockets ≡ [])
  pub shared_out :
      c.starting ≡ false
      → (i : ℕ) → uses i c ≡ one_if (leb (c.io_threads + 2) i && ltb i (free_end c))

-- The same, where the slots of the threads are ints, and with the range of ZMQ_MAX_SOCKETS.
record Guarded (c : Ctx) : Type 0 where
  small : c.max_sockets < 2 ^ 31
  none_yet : c.starting ≡ true → c.io_threads ≡ 0
  guarded : c.io_threads + 2 < 2 ^ 31 → IsSlotted c

times-slots_from : (i j n : ℕ) → times i (slots_from j n) ≡ one_if (leb j i && ltb i (j + n))
unfolding times
times-slots_from i j zero = ground arith
times-slots_from i j (suc n) =
    let rest : times i (slots_from (suc j) n) ≡ one_if (leb (suc j) i && ltb i (suc j + n)) =
      times-slots_from i (suc j) n in
    ground (arith, rest)

unfoldable pub is_stored : Socket → List Socket → Bool
is_stored s [] = false
is_stored s (t ∷ ts) = if is_same s t then true else is_stored s ts

holders-erase_socket :
    (s : Socket) (ss : List Socket) (i : ℕ)
    → is_stored s ss ≡ true
    → holders i ss ≡ one_if (i == s.tid) + holders i (erase_socket s ss)
unfolding holders erase_socket is_stored
holders-erase_socket s [] i h = absurd (cc)
holders-erase_socket s (t ∷ ts) i h = elim (Bool-cases (is_same s t)) [
  | inl same ↦ let tids : s.tid ≡ t.tid = ground (arith, same) in ground (arith, same, tids)
  | inr other ↦
      let rest : holders i ts ≡ one_if (i == s.tid) + holders i (erase_socket s ts) =
        holders-erase_socket s ts i (simp other at h) in
      ground (arith, other, rest)
]

destroy_socket-IsSlotted :
    (s : Socket) (c : Ctx)
    → is_stored s c.sockets ≡ true
    → IsSlotted c
    → IsSlotted (destroy_socket s c)
unfolding destroy_socket times is_stored
destroy_socket-IsSlotted s c st v = record {
  before_start = λ e. absurd (
      let none_yet : is_stored s [] ≡ true =
        subst (λ ss. is_stored s ss ≡ true) (v.before_start e).1 st in
      cc);
  shared_out = λ e i.
      let moved : holders i c.sockets ≡ one_if (i == s.tid) + holders i (erase_socket s c.sockets) =
        holders-erase_socket s c.sockets i st in
      let before = v.shared_out e i in omega (arith, moved, before);
}

-- The free slots end where the slots for sockets do.
unused_lem :
    (m ios : ℕ)
    → m < 2 ^ 31
    → ios + 2 < 2 ^ 31
    → (let n = (m + ios + 2) % 2 ^ 32 in
        ios + 2 + unused n ios ≡ (if leb n (2 ^ 31) then n else ios + 2))
unused_lem m ios small few = ground arith

free_slots :
    (m ios i : ℕ)
    → m < 2 ^ 31
    → ios + 2 < 2 ^ 31
    → (let n = (m + ios + 2) % 2 ^ 32 in
        times i (slots_from (ios + 2) (unused n ios))
        ≡ one_if (leb (ios + 2) i && ltb i (if leb n (2 ^ 31) then n else ios + 2)))
free_slots m ios i small few =
    times-slots_from i (ios + 2) (unused ((m + ios + 2) % 2 ^ 32) ios)
    ∙ ap (λ j. one_if (leb (ios + 2) i && ltb i j)) (unused_lem m ios small few)

launch-Guarded : (c : Ctx) → Guarded c → Guarded (launch c)
unfolding holders
launch-Guarded c g = elim (Bool-cases c.starting) [
  | inr running ↦ simp running g
  | inl starting ↦ simp starting (record {
    small = g.small;
    none_yet = λ e. absurd (cc);
    guarded = λ few. record {
      before_start = λ e. absurd (cc);
      shared_out = λ e i.
          let v = g.guarded (omega (arith, g.none_yet starting)) in
          let free = free_slots c.max_sockets c.io_thread_count i g.small few in
          let no_socket : holders i c.sockets ≡ 0 = ap (holders i) (v.before_start starting).1 in
          omega (arith, free, no_socket);
    };
  })
]

take_slot-Guarded :
    (made : Option ℕ) (free : List ℕ) (c : Ctx)
    → c.empty_slots ≡ free
    → Guarded c
    → Guarded (take_slot made free c).1
unfolding times holders
take_slot-Guarded made [] c e g = g
take_slot-Guarded none (slot ∷ rest) c e g = record {
  small = g.small;
  none_yet = g.none_yet;
  guarded = λ few. record {
    before_start = (g.guarded few).before_start;
    shared_out = (g.guarded few).shared_out;
  };
}
take_slot-Guarded (some x) (slot ∷ rest) c e g = record {
  small = g.small;
  none_yet = g.none_yet;
  guarded = λ few. record {
    before_start = λ starts.
        absurd (
          let none_free : slot ∷ rest ≡ [] = sym e ∙ ((g.guarded few).before_start starts).0 in cc);
    shared_out = λ runs i.
        let before = (g.guarded few).shared_out runs i in
        let had : times i c.empty_slots ≡ one_if (i == slot) + times i rest = ap (times i) e in
        omega (arith, before, had);
  };
}

create_socket-Guarded : (made : Option ℕ) (c : Ctx) → Guarded c → Guarded (create_socket made c).1
unfolding create_socket
create_socket-Guarded made c g =
    let after : Bool → Ctx =
      λ b. (if b then (eterm, launch c) else take_slot made (launch c).empty_slots (launch c)).1 in
    elim (Bool-cases (launch c).terminating) [
      | inl ends ↦ subst Guarded (ap after (sym ends)) (launch-Guarded c g)
      | inr runs ↦
          subst Guarded (ap after (sym runs))
            (take_slot-Guarded made (launch c).empty_slots (launch c) refl (launch-Guarded c g))
    ]

-- The options change nothing of the slots.
options_kept :
    (c : Ctx) (m n : ℕ)
    → m < 2 ^ 31
    → Guarded c
    → Guarded (record c { max_sockets = m; io_thread_count = n })
options_kept c m n small g = record {
  small = small;
  none_yet = g.none_yet;
  guarded = λ few. record {
    before_start = (g.guarded few).before_start;
    shared_out = (g.guarded few).shared_out;
  };
}

set_number-Guarded :
    (k : Name) (x : ℤ) (c : Ctx)
    → ((n : ℕ) → x ≡ pos n → n < 2 ^ 31)
    → Guarded c
    → Guarded (set_number k x c).1
set_number-Guarded zmq_max_sockets (pos n) c fits g = elim (Bool-cases (leb 1 n)) [
  | inl enough ↦ simp enough (options_kept c n c.io_thread_count (fits n refl) g)
  | inr few ↦ simp few g
]
set_number-Guarded zmq_max_sockets (negsuc n) c fits g = g
set_number-Guarded zmq_io_threads (pos n) c fits g = options_kept c c.max_sockets n g.small g
set_number-Guarded zmq_io_threads (negsuc n) c fits g = g
set_number-Guarded unknown x c fits g = g

signed_fits : (w n : ℕ) → signed (2 ^ 31) w ≡ pos n → n < 2 ^ 31
signed_fits w n h = elim (Bool-cases (ltb w (2 ^ 31))) [
  | inl low ↦
      let number : pos w ≡ pos n = simp low at h in
      let same : w ≡ n = cc in ground (arith, low, same)
  | inr high ↦ let number : negsuc (2 * 2 ^ 31 - 1 - w) ≡ pos n = simp high at h in absurd (cc)
]

set-Guarded : (k : Name) (optval : ℕ) (c : Ctx) → Guarded c → Guarded (set k optval c).1
unfolding set
set-Guarded k optval c g =
    set_number-Guarded k (signed (2 ^ 31) (optval % 2 ^ 32)) c (signed_fits (optval % 2 ^ 32)) g

destroy_socket-Guarded :
    (s : Socket) (c : Ctx) → is_stored s c.sockets ≡ true → Guarded c → Guarded (destroy_socket s c)
unfolding destroy_socket
destroy_socket-Guarded s c st g = record {
  small = g.small;
  none_yet = g.none_yet;
  guarded = λ few. destroy_socket-IsSlotted s c st (g.guarded few);
}

terminate-Guarded : (c : Ctx) → Guarded c → Guarded (terminate c)
unfolding terminate
terminate-Guarded c g = elim (Bool-cases (c.starting || c.terminating)) [
  | inl over ↦ simp over g
  | inr now ↦ simp now (record {
    small = g.small;
    none_yet = g.none_yet;
    guarded = λ few. record {
      before_start = (g.guarded few).before_start;
      shared_out = (g.guarded few).shared_out;
    };
  })
]

-- One call; a socket that is destroyed was created and not destroyed before.
pub data Call (c : Ctx) : Ctx → Type 0 where
  sets : (k : Name) (optval : ℕ) → Call c (set k optval c).1
  creates : (made : Option ℕ) → Call c (create_socket made c).1
  destroys : (s : Socket) → is_stored s c.sockets ≡ true → Call c (destroy_socket s c)
  terminates : Call c (terminate c)

pub data Reachable : Ctx → Type 0 where
  fresh : (last_id : ℕ) → Reachable (ctx last_id)
  calls : {c c' : Ctx} → Reachable c → Call c c' → Reachable c'

Call-Guarded : {c c' : Ctx} → Call c c' → Guarded c → Guarded c'
Call-Guarded (sets k optval) g = set-Guarded k optval _ g
Call-Guarded (creates made) g = create_socket-Guarded made _ g
Call-Guarded (destroys s st) g = destroy_socket-Guarded s _ st g
Call-Guarded terminates g = terminate-Guarded _ g

Reachable-Guarded : (c : Ctx) → Reachable c → Guarded c
unfolding ctx
Reachable-Guarded c (fresh last_id) = record {
  small = omega arith;
  none_yet = λ e. refl;
  guarded = λ few. record { before_start = λ e. (refl, refl); shared_out = λ e. absurd (cc) };
}
Reachable-Guarded c (calls r step) = Call-Guarded step (Reachable-Guarded _ r)

-- After any sequence of calls on a context whose I/O threads have slots that are ints, before the
-- first socket nothing is given out; from then on every slot behind those of the threads and below
-- slot_count is exactly one of free and one socket's, so no two sockets share a slot and none is
-- lost; but where slot_count is above 2 ^ 31, no slot is free or a socket's.
pub ctx-IsSlotted : (c : Ctx) → Reachable c → c.io_threads + 2 < 2 ^ 31 → IsSlotted c
ctx-IsSlotted c r few = (Reachable-Guarded c r).guarded few
