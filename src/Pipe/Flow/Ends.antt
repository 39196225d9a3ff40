-- ===== src/Pipe/Flow/Ends.antt =====
-- What each act of an end does to its counts: on its writing side, and on its reading side.
use cctas.Base.{
  ℕ, ◌+◌, ◌%◌, ◌≤◌, ◌<◌, ◌≡◌, refl, sym, ap, ◌∙◌, subst, false, List, [], ◌∷◌, ◌++◌, arith,
}
use cctas.Pipe.{
  Pipe, Parts, active, Command, activate_read, activate_write, hiccup_to, pipe_term, pipe_term_ack,
}
use cctas.Pipe.Marks.{InWindow}
use cctas.Pipe.Flow.Counting.{whole}

module _ {M : Type 0} where
  -- The reader's words among some commands climb from one count to another; there is no hiccup and
  -- no word of the end among them.
  abbrev pub Climbs : ℕ → List (Command M) → ℕ → Type 0
  Climbs lo [] hi = lo ≤ hi
  Climbs lo (activate_read ∷ cs) hi = Climbs lo cs hi
  Climbs lo (activate_write n ∷ cs) hi = (lo ≤ n) × Climbs n cs hi
  Climbs lo (hiccup_to q ∷ cs) hi = ⊥
  Climbs lo (pipe_term ∷ cs) hi = ⊥
  Climbs lo (pipe_term_ack ∷ cs) hi = ⊥

  -- The last of these words; the count before if there is none.
  abbrev pub latest : ℕ → List (Command M) → ℕ
  latest lo [] = lo
  latest lo (activate_read ∷ cs) = latest lo cs
  latest lo (activate_write n ∷ cs) = latest n cs
  latest lo (hiccup_to q ∷ cs) = latest lo cs
  latest lo (pipe_term ∷ cs) = latest lo cs
  latest lo (pipe_term_ack ∷ cs) = latest lo cs

  pub latest-append :
      (lo : ℕ) (xs ys : List (Command M)) → latest lo (xs ++ ys) ≡ latest (latest lo xs) ys
  latest-append lo [] ys = refl
  latest-append lo (activate_read ∷ xs) ys = latest-append lo xs ys
  latest-append lo (activate_write n ∷ xs) ys = latest-append n xs ys
  latest-append lo (hiccup_to q ∷ xs) ys = latest-append lo xs ys
  latest-append lo (pipe_term ∷ xs) ys = latest-append lo xs ys
  latest-append lo (pipe_term_ack ∷ xs) ys = latest-append lo xs ys

  pub latest-le : (lo : ℕ) (xs : List (Command M)) (hi : ℕ) → Climbs lo xs hi → latest lo xs ≤ hi
  latest-le lo [] hi h = h
  latest-le lo (activate_read ∷ xs) hi h = latest-le lo xs hi h
  latest-le lo (activate_write n ∷ xs) hi (h, k) = latest-le n xs hi k
  latest-le lo (hiccup_to q ∷ xs) hi h = absurd h
  latest-le lo (pipe_term ∷ xs) hi h = absurd h
  latest-le lo (pipe_term_ack ∷ xs) hi h = absurd h

  pub le-latest : (lo : ℕ) (xs : List (Command M)) (hi : ℕ) → Climbs lo xs hi → lo ≤ hi
  le-latest lo [] hi h = h
  le-latest lo (activate_read ∷ xs) hi h = le-latest lo xs hi h
  le-latest lo (activate_write n ∷ xs) hi (h, k) = omega (arith, h, le-latest n xs hi k)
  le-latest lo (hiccup_to q ∷ xs) hi h = absurd h
  le-latest lo (pipe_term ∷ xs) hi h = absurd h
  le-latest lo (pipe_term_ack ∷ xs) hi h = absurd h

  pub Climbs-append :
      (lo : ℕ) (xs ys : List (Command M)) (hi hi' : ℕ)
      → Climbs lo xs hi
      → Climbs (latest lo xs) ys hi'
      → Climbs lo (xs ++ ys) hi'
  Climbs-append lo [] ys hi hi' h k = k
  Climbs-append lo (activate_read ∷ xs) ys hi hi' h k = Climbs-append lo xs ys hi hi' h k
  Climbs-append lo (activate_write n ∷ xs) ys hi hi' (h, h') k =
      (h, Climbs-append n xs ys hi hi' h' k)
  Climbs-append lo (hiccup_to q ∷ xs) ys hi hi' h k = absurd h
  Climbs-append lo (pipe_term ∷ xs) ys hi hi' h k = absurd h
  Climbs-append lo (pipe_term_ack ∷ xs) ys hi hi' h k = absurd h

  -- The writing side of an end: its counts are in the window, and it sleeps only with a full one.
  pub record Writes (p : Pipe M) : Type 0 where
    pub window : InWindow p
    pub blocked : p.out_active ≡ false → (0 < p.hwm) × (p.msgs_written ≡ p.peers_msgs_read + p.hwm)
    pub goes_on : p.state ≡ active

module _ {M : Type 0} (ms : Parts M) where
  -- What an act does on the writing side of its end.
  pub record Written (p p' : Pipe M) : Type 0 where
    pub writes : p'.state ≡ active → Writes p → Writes p'
    pub same_hwm : p'.hwm ≡ p.hwm
    pub same_peers : p'.peers_msgs_read ≡ p.peers_msgs_read
    pub counted : p'.msgs_written + whole ms p.outq.items ≡ p.msgs_written + whole ms p'.outq.items

  -- What it does on the reading side, with the commands that it sends there.
  pub record Taken (p p' : Pipe M) : Type 0 where
    pub same_lwm : p'.lwm ≡ p.lwm
    pub counted : p'.msgs_read + whole ms p'.inq.items ≡ p.msgs_read + whole ms p.inq.items
    pub climbs : (lo : ℕ) → lo ≤ p.msgs_read → Climbs lo p'.sent p'.msgs_read
    pub acked :
        (lo : ℕ)
        → 0 < p.lwm
        → lo + p.msgs_read % p.lwm ≡ p.msgs_read
        → latest lo p'.sent + p'.msgs_read % p.lwm ≡ p'.msgs_read

  -- An act is both.
  abbrev pub Works : Pipe M → Pipe M → Type 0
  Works p p' = Written p p' × Taken p p'

  -- An act that leaves the counts of its end alone, and may change what is not counted.
  pub still_Written :
      (p p' : Pipe M)
      → p'.msgs_written ≡ p.msgs_written
      → p'.hwm ≡ p.hwm
      → p'.peers_msgs_read ≡ p.peers_msgs_read
      → p'.out_active ≡ p.out_active
      → whole ms p'.outq.items ≡ whole ms p.outq.items
      → Written p p'
  still_Written p p' w h r a q = record {
    writes = λ s v. record {
      window = record {
        small = omega (arith, w, v.window.small);
        peer_behind = omega (arith, w, r, v.window.peer_behind);
        bounded = λ b. omega (arith, w, r, h, v.window.bounded (omega (arith, h, b)));
      };
      blocked = λ b.
          let (up, full) = v.blocked (sym a ∙ b) in
          (omega (arith, h, up), omega (arith, h, w, r, full));
      goes_on = s;
    };
    same_hwm = h;
    same_peers = r;
    counted = omega (arith, w, q);
  }

  pub still_Taken :
      (p p' : Pipe M)
      → p'.msgs_read ≡ p.msgs_read
      → p'.lwm ≡ p.lwm
      → p'.inq.items ≡ p.inq.items
      → ((lo : ℕ) → latest lo p'.sent ≡ lo)
      → ((lo hi : ℕ) → lo ≤ hi → Climbs lo p'.sent hi)
      → Taken p p'
  still_Taken p p' r l q last climbs = record {
    same_lwm = l;
    counted = rw (r, q) refl;
    climbs = λ lo le. climbs lo p'.msgs_read (omega (arith, r, le));
    acked = λ lo pos h. rw (last lo, r) h;
  }

  pub unsaid_Taken :
      (p p' : Pipe M)
      → p'.msgs_read ≡ p.msgs_read
      → p'.lwm ≡ p.lwm
      → p'.inq.items ≡ p.inq.items
      → p'.sent ≡ []
      → Taken p p'
  unsaid_Taken p p' r l q quiet =
      still_Taken p p' r l q (λ lo. ap (latest lo) quiet)
        (λ lo hi le. subst (λ cs. Climbs lo cs hi) (sym quiet) le)

  pub idle_Works : (p : Pipe M) → p.sent ≡ [] → Works p p
  idle_Works p quiet =
      (still_Written p p refl refl refl refl refl, unsaid_Taken p p refl refl refl quiet)
