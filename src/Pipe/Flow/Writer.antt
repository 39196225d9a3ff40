-- ===== src/Pipe/Flow/Writer.antt =====
-- The acts of the writing side: write, flush, rollback, and the reader's word.
use cctas.Base.{
  ℕ, ◌+◌, ◌^◌, ◌≤◌, ◌<◌, ◌==◌, ◌≡◌, refl, ap, subst, ltb, Bool, true, false, not, ◌&&◌, ◌||◌, List,
  [], ◌∷◌, ◌++◌, arith, Bool-cases, inl, inr,
}
use cctas.Ypipe.{Ypipe}
use cctas.Ypipe as Queue
use cctas.Pipe.{Pipe, Parts, active, is_active, Event, write_activated}
use cctas.Pipe.Writing.{in_flight, check_write, write, process_activate_write}
use cctas.Pipe.Marks.{InWindow, write-InWindow, process_activate_write-InWindow}
use cctas.Pipe.Flow.Counting.{whole-append}
use cctas.Pipe.Flow.Outcomes.{written}
use cctas.Pipe.Flow.Ends.{Writes, Written}

module _ {M : Type 0} where
  -- An end that refuses to write sleeps, and only at the high water mark.
  check_write_sleeps :
      (p : Pipe M)
      → Writes p
      → (check_write p).0 ≡ false
      → (0 < p.hwm) × (p.msgs_written ≡ p.peers_msgs_read + p.hwm)
  unfolding check_write
  check_write_sleeps p v h = elim (Bool-cases p.out_active) [
    | inl awake ↦
        let live : is_active p.state ≡ true = ap is_active v.goes_on in
        elim (Bool-cases (ltb 0 p.hwm && (in_flight p == p.hwm))) [
          | inl full ↦
              (ground (arith, full), ground (arith, full, v.window.small, v.window.peer_behind))
          | inr room ↦ absurd (cc (rw (awake, live, room) at h))
        ]
    | inr asleep ↦ v.blocked asleep
  ]

  awake_to_write : (p : Pipe M) → (check_write p).0 ≡ true → p.out_active ≡ true
  unfolding check_write
  awake_to_write p h = elim (Bool-cases p.out_active) [
    | inl awake ↦ awake
    | inr asleep ↦ absurd (cc (rw asleep at h))
  ]

  room_same : (p : Pipe M) → (check_write p).0 ≡ true → (check_write p).1 ≡ p
  unfolding check_write
  room_same p h = elim (Bool-cases (not p.out_active || not (is_active p.state))) [
    | inl stopped ↦ absurd (cc (rw stopped at h))
    | inr goes ↦ elim (Bool-cases (ltb 0 p.hwm && (in_flight p == p.hwm))) [
      | inl full ↦ absurd (cc (rw (goes, full) at h))
      | inr room ↦ rw (goes, room) refl
    ]
  ]

module _ {M : Type 0} (ms : Parts M) where
  -- The writing side goes to sleep.
  pub filled_Written :
      (p : Pipe M) → (check_write p).0 ≡ false → Written ms p (record p { out_active = false })
  filled_Written p h = record {
    writes = λ s v. record {
      window = record {
        small = v.window.small;
        peer_behind = v.window.peer_behind;
        bounded = v.window.bounded;
      };
      blocked = λ b. check_write_sleeps p v h;
      goes_on = s;
    };
    same_hwm = refl;
    same_peers = refl;
    counted = refl;
  }

  write_room : (m : M) (p : Pipe M) → (check_write p).0 ≡ true → (write ms m p).1 ≡ written ms m p
  unfolding write
  write_room m p room = rw (room, room_same p room) refl

  pub written_Written :
      (m : M) (p : Pipe M)
      → p.msgs_written + 1 < 2 ^ 64
      → (check_write p).0 ≡ true
      → Written ms p (written ms m p)
  unfolding Queue.write
  written_Written m p wide room = record {
    writes = λ s v. record {
      window = subst InWindow (write_room m p room) (write-InWindow ms m p v.window wide);
      blocked = λ asleep. absurd (cc (asleep, awake_to_write p room));
      goes_on = s;
    };
    same_hwm = refl;
    same_peers = refl;
    counted = ground (arith, whole-append ms p.outq.items (m ∷ []), wide);
  }

module _ {M : Type 0} where
  -- what the word changes of the end
  abbrev pub heard_of : ℕ → Bool → List Event → Pipe M → Pipe M
  heard_of n b t p = record p { peers_msgs_read = n; out_active = b; told = t }

  pub activate_write_fields :
      (n : ℕ) (p : Pipe M)
      → (b : Bool) × (t : List Event) × (process_activate_write n p ≡ heard_of n b t p)
  unfolding process_activate_write
  activate_write_fields n p = elim (Bool-cases (not p.out_active && is_active p.state)) [
    | inl wakes ↦ (true, p.told ++ (write_activated ∷ []), rw wakes refl)
    | inr keeps ↦ (p.out_active, p.told, rw keeps refl)
  ]

  -- The writer takes the reader's next word, one within what was written.
  pub activate_write-Written :
      (n : ℕ) (p : Pipe M)
      → p.peers_msgs_read ≤ n
      → n ≤ p.msgs_written
      → Writes p
      → Writes (process_activate_write n p)
  unfolding process_activate_write
  activate_write-Written n p up within v =
      let window : InWindow (process_activate_write n p) =
        process_activate_write-InWindow n p v.window up within in
      let live : is_active p.state ≡ true = ap is_active v.goes_on in
      let awake : (process_activate_write n p).out_active ≡ true = elim (Bool-cases p.out_active) [
        | inl up_ ↦ simp up_ refl
        | inr asleep ↦ simp (asleep, live) refl
      ] in
      let open_ : (process_activate_write n p).state ≡ active =
        elim (Bool-cases (not p.out_active && is_active p.state)) [
          | inl wakes ↦ rw wakes v.goes_on
          | inr keeps ↦ rw keeps v.goes_on
        ] in
      record { window = window; blocked = λ b. absurd (cc (b, awake)); goes_on = open_ }
