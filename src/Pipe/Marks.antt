-- ===== src/Pipe/Marks.antt =====
-- The water marks of pipe_t: the writer is never more messages ahead than hwm.
use cctas.Base.{
  ℕ, ◌+◌, ◌^◌, ◌==◌, ◌≤◌, ◌<◌, ◌≡◌, refl, ltb, true, not, ◌&&◌, ◌||◌, arith, Bool-cases, inl, inr,
}
use cctas.Pipe.{Pipe, Parts, compute_lwm, is_active}
use cctas.Pipe.Writing.{in_flight, check_write, write, process_activate_write}

-- The low water mark of a bounded queue is positive and not above the high one, below it where
-- the high one is above 1, and at most 1024 below it for the larger high ones.
pub compute_lwm_lem :
    (hwm : ℕ)
    → 0 < hwm
    → (0 < compute_lwm hwm)
      × (compute_lwm hwm ≤ hwm)
      × (1 < hwm → compute_lwm hwm < hwm)
      × (2048 < hwm → hwm ≡ compute_lwm hwm + 1024)
unfolding compute_lwm
compute_lwm_lem hwm h = (ground arith, ground arith, (λ k. ground arith), (λ k. ground arith))

-- The counters of a writer whose peer has read no more than was written.
pub record InWindow {M : Type 0} (p : Pipe M) : Type 0 where
  pub peer_behind : p.peers_msgs_read ≤ p.msgs_written
  pub small : p.msgs_written < 2 ^ 64
  pub bounded : 0 < p.hwm → p.msgs_written ≤ p.peers_msgs_read + p.hwm

module _ {M : Type 0} where
  pub check_write-InWindow : (p : Pipe M) → InWindow p → InWindow (check_write p).1
  unfolding check_write
  check_write-InWindow p v = elim (Bool-cases (not p.out_active || not (is_active p.state))) [
    | inl stopped ↦ rw stopped v
    | inr goes ↦ elim (Bool-cases (ltb 0 p.hwm && (in_flight p == p.hwm))) [
      | inl full ↦
          rw (goes, full)
            (record { peer_behind = v.peer_behind; small = v.small; bounded = v.bounded })
      | inr room ↦ rw (goes, room) v
    ]
  ]

  -- check_write answers true only with room below the high water mark.
  pub check_write_room :
      (p : Pipe M)
      → InWindow p
      → (check_write p).0 ≡ true
      → ((check_write p).1 ≡ p) × (0 < p.hwm → p.msgs_written < p.peers_msgs_read + p.hwm)
  unfolding check_write
  check_write_room p v h = elim (Bool-cases (not p.out_active || not (is_active p.state))) [
    | inl stopped ↦ absurd (cc (rw stopped at h))
    | inr goes ↦ elim (Bool-cases (ltb 0 p.hwm && (in_flight p == p.hwm))) [
      | inl full ↦ absurd (cc (rw (goes, full) at h))
      | inr room ↦
          rw (goes, room)
            (refl, (λ b. ground (arith, room, v.peer_behind, v.small, v.bounded b, b)))
    ]
  ]

  -- A message is written only within the high water mark, and the writer stays within it.
  pub write-InWindow :
      (ms : Parts M) (m : M) (p : Pipe M)
      → InWindow p
      → p.msgs_written + 1 < 2 ^ 64
      → InWindow (write ms m p).1
  unfolding write
  write-InWindow ms m p v wide = elim (Bool-cases (check_write p).0) [
    | inl room ↦
        let (same, below) = check_write_room p v room in
        rw (room, same)
          (record {
            peer_behind = ground (arith, wide, v.peer_behind);
            small = ground (arith, wide, v.small);
            bounded = λ b. ground (arith, wide, v.bounded b, below b);
          })
    | inr full ↦ rw full (check_write-InWindow p v)
  ]

  -- The reader's word, a number of messages that is not smaller than the last one and not above
  -- what was written, keeps the writer within the high water mark.
  pub process_activate_write-InWindow :
      (n : ℕ) (p : Pipe M)
      → InWindow p
      → p.peers_msgs_read ≤ n
      → n ≤ p.msgs_written
      → InWindow (process_activate_write n p)
  unfolding process_activate_write
  process_activate_write-InWindow n p v h h' =
      let v' : InWindow (record p { peers_msgs_read = n }) = record {
        peer_behind = h';
        small = v.small;
        bounded = λ b. omega (arith, v.bounded b, h);
      } in
      elim (Bool-cases (not p.out_active && is_active p.state)) [
        | inl wakes ↦
            rw wakes
              (record { peer_behind = v'.peer_behind; small = v'.small; bounded = v'.bounded })
        | inr keeps ↦ rw keeps v'
      ]
