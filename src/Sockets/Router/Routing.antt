-- ===== src/Sockets/Router/Routing.antt =====
-- Where the parts of a message go that a ROUTER socket sends.
use cctas.Base.{
  ℕ, ◌≡◌, refl, ◌∙◌, true, false, not, if◌then◌else◌, Bool-cases, inl, inr, Option, none, some,
  List, [], ◌∷◌, arith,
}
use cctas.Framing.{Msg}
use cctas.Sockets.{ehostunreach, done, error, more}
use cctas.Sockets.Router.{Outpipe, Router, PeerPipes, find, set_active}
use cctas.Sockets.Router.Sending.{xsend, address}

-- The parts of one message: all but the last have `more`.
abbrev pub Whole : List Msg → Type 0
Whole [] = true ≡ false
Whole (m ∷ []) = more m ≡ false
Whole (m ∷ n ∷ ms) = (more m ≡ true) × Whole (n ∷ ms)

no_part_after : (m : Msg) (ms : List Msg) → Whole (m ∷ ms) → more m ≡ false → ms ≡ []
no_part_after m [] whole last = refl
no_part_after m (n ∷ ms) (goes_on, whole) last = absurd (cc)

parts_after : (m : Msg) (ms : List Msg) → Whole (m ∷ ms) → more m ≡ true → Whole ms
parts_after m [] last goes_on = absurd (cc)
parts_after m (n ∷ ms) (_, whole) goes_on = whole

-- A router that has no message in the sending.
abbrev pub ready : Router → Router
ready r = record r { more_out = false; current_out = none }

module _ {P : Type 0} (ps : PeerPipes P) where
  -- The calls of xsend for some parts, none where one fails.
  pub send_all : Router × P → List Msg → Option (Router × P)
  send_all s [] = some s
  send_all s (m ∷ ms) = elim (xsend ps s m) [
    | none ↦ none
    | some (error e, s1) ↦ none
    | some (done, s1) ↦ send_all s1 ms
  ]

  -- The parts written to one pipe, up to the first that it refuses; the last one is flushed.
  pub write_all : P → ℕ → List Msg → P
  write_all p x [] = p
  write_all p x (m ∷ ms) =
      let (ok, p1) = ps.pipes.write p x m in
      let rest = write_all p1 x ms in
      if not ok then p1 else if more m then rest else ps.pipes.flush p1 x

  send_none : (s : Router × P) (ms : List Msg) → ms ≡ [] → send_all s ms ≡ some s
  unfolding send_all
  send_none s [] e = refl
  send_none s (m ∷ ms) e = absurd (cc)

  send_step :
      (r : Router) (p : P) (m : Msg) (ms : List Msg) (s : Router × P)
      → xsend ps (r, p) m ≡ some (done, s)
      → send_all (r, p) (m ∷ ms) ≡ send_all s ms
  unfolding send_all
  send_step r p m ms s h = rw (h, send_all) refl

  xsend_dropped :
      (r : Router) (p : P) (m : Msg)
      → r.more_out ≡ true
      → r.current_out ≡ none
      → xsend ps (r, p) m ≡ some (done, (record r { more_out = more m }, p))
  unfolding xsend
  xsend_dropped r p m on nowhere = simp (on, nowhere) refl

  -- The parts of a message that has no pipe are dropped.
  dropped_all :
      (r : Router) (p : P) (ms : List Msg)
      → r.more_out ≡ true
      → r.current_out ≡ none
      → Whole ms
      → send_all (r, p) ms ≡ some (ready r, p)
  unfolding send_all
  dropped_all r p [] on nowhere whole = absurd (cc)
  dropped_all r p (m ∷ []) on nowhere last =
      send_step r p m [] _ (xsend_dropped r p m on nowhere) ∙ ground arith
  dropped_all r p (m ∷ n ∷ ms) on nowhere (goes_on, whole) =
      send_step r p m (n ∷ ms) _ (xsend_dropped r p m on nowhere)
      ∙ dropped_all (record r { more_out = more m }) p (n ∷ ms) goes_on nowhere whole

  xsend_refused :
      (r : Router) (p : P) (m : Msg) (x : ℕ)
      → r.more_out ≡ true
      → r.current_out ≡ some x
      → (ps.pipes.write p x m).0 ≡ false
      → xsend ps (r, p) m
        ≡ some
            (done, (record r { more_out = more m; current_out = none }, (ps.pipes.write p x m).1))
  unfolding xsend
  xsend_refused r p m x on to full = simp (on, to, full) refl

  xsend_taken :
      (r : Router) (p : P) (m : Msg) (x : ℕ)
      → r.more_out ≡ true
      → r.current_out ≡ some x
      → (ps.pipes.write p x m).0 ≡ true
      → more m ≡ true
      → xsend ps (r, p) m ≡ some (done, (record r { more_out = true }, (ps.pipes.write p x m).1))
  unfolding xsend
  xsend_taken r p m x on to room goes_on = simp (on, to, room, goes_on) refl

  xsend_last :
      (r : Router) (p : P) (m : Msg) (x : ℕ)
      → r.more_out ≡ true
      → r.current_out ≡ some x
      → (ps.pipes.write p x m).0 ≡ true
      → more m ≡ false
      → xsend ps (r, p) m ≡ some (done, (ready r, ps.pipes.flush (ps.pipes.write p x m).1 x))
  unfolding xsend
  xsend_last r p m x on to room last = simp (on, to, room, last) refl

  -- The rest after a part that the pipe refused.
  refused_rest :
      (r : Router) (p : P) (m : Msg) (ms : List Msg)
      → Whole (m ∷ ms)
      → send_all (record r { more_out = more m; current_out = none }, p) ms ≡ some (ready r, p)
  unfolding send_all
  refused_rest r p m [] last = ground arith
  refused_rest r p m (n ∷ ms) (goes_on, whole) =
      dropped_all (record r { more_out = more m; current_out = none }) p (n ∷ ms) goes_on refl whole

  -- The parts of a message that has a pipe are written to it.
  forwarded_all :
      (r : Router) (p : P) (x : ℕ) (ms : List Msg)
      → r.more_out ≡ true
      → r.current_out ≡ some x
      → Whole ms
      → send_all (r, p) ms ≡ some (ready r, write_all p x ms)
  unfolding send_all write_all
  forwarded_all r p x [] on to whole = absurd (cc)
  forwarded_all r p x (m ∷ ms) on to whole = elim (Bool-cases (ps.pipes.write p x m).0) [
    | inr full ↦
        send_step r p m ms _ (xsend_refused r p m x on to full)
        ∙ refused_rest r (ps.pipes.write p x m).1 m ms whole
        ∙ rw (full, write_all) refl
    | inl room ↦ elim (Bool-cases (more m)) [
      | inr last ↦
          send_step r p m ms _ (xsend_last r p m x on to room last)
          ∙ send_none _ ms (no_part_after m ms whole last)
          ∙ rw (room, last, write_all) refl
      | inl goes_on ↦
          send_step r p m ms _ (xsend_taken r p m x on to room goes_on)
          ∙ forwarded_all (record r { more_out = true }) (ps.pipes.write p x m).1 x ms refl to
              (parts_after m ms whole goes_on)
          ∙ rw (room, goes_on, write_all) refl
    ]
  ]

  -- What becomes of a message for an identity, by the entry that the identity has.
  abbrev pub Routed : Router → P → Msg → List Msg → Option Outpipe → Type 0
  Routed r p to ms none =
      (r.mandatory ≡ false → send_all (r, p) (to ∷ ms) ≡ some (ready r, p))
      × (r.mandatory ≡ true → xsend ps (r, p) to ≡ some (error ehostunreach, (ready r, p)))
  Routed r p to ms (some o) =
      ((ps.pipes.check_write p o.pipe).0 ≡ true
        → send_all (r, p) (to ∷ ms)
          ≡ some (ready r, write_all (ps.pipes.check_write p o.pipe).1 o.pipe ms))
      × ((ps.pipes.check_write p o.pipe).0 ≡ false
          → send_all (r, p) (to ∷ ms)
            ≡ some (
              ready (record r { outpipes = set_active to.body false r.outpipes }),
              (ps.pipes.check_write p o.pipe).1,
            ))

  xsend_first :
      (r : Router) (p : P) (m : Msg) (o : Option Outpipe)
      → r.more_out ≡ false
      → r.current_out ≡ none
      → more m ≡ true
      → find m.body r.outpipes ≡ o
      → xsend ps (r, p) m ≡ some (address ps r p m o)
  unfolding xsend
  xsend_first r p m o off nowhere on found = simp (off, nowhere, on, found) refl

  routed :
      (r : Router) (p : P) (to : Msg) (ms : List Msg) (o : Option Outpipe)
      → r.more_out ≡ false
      → r.current_out ≡ none
      → more to ≡ true
      → Whole ms
      → find to.body r.outpipes ≡ o
      → Routed r p to ms o
  routed r p to ms none off nowhere on whole found =
      let first = xsend_first r p to none off nowhere on found in
      (
        (λ lenient.
            send_step r p to ms (record r { more_out = true }, p) (first ∙ simp lenient refl)
            ∙ dropped_all (record r { more_out = true }) p ms refl nowhere whole),
        (λ strict. first ∙ simp (strict, nowhere) refl),
      )
  routed r p to ms (some o) off nowhere on whole found =
      let first = xsend_first r p to (some o) off nowhere on found in
      let p1 = (ps.pipes.check_write p o.pipe).1 in
      (
        (λ room.
            send_step r p to ms (record r { more_out = true; current_out = some (o.pipe) }, p1)
              (first ∙ simp room refl)
            ∙ forwarded_all (record r { more_out = true; current_out = some (o.pipe) }) p1 o.pipe ms
                refl refl whole),
        (λ full.
            let r1 : Router = record r {
              more_out = true;
              current_out = none;
              outpipes = set_active to.body false r.outpipes;
            } in
            send_step r p to ms (r1, p1) (first ∙ simp full refl)
            ∙ dropped_all r1 p1 ms refl refl whole),
      )

  -- Between two messages a ROUTER socket sends a message whose first part names an identity like
  -- this. With no pipe of that identity it drops the message, or, where sending is mandatory, fails
  -- at the first part with EHOSTUNREACH. With such a pipe it writes the parts behind the first to
  -- this pipe alone, up to one that the pipe refuses, and flushes it after the last; a pipe without
  -- room gets nothing and is marked inactive. In each case it is then between two messages again.
  pub xsend-Routed :
      (r : Router) (p : P) (to : Msg) (ms : List Msg)
      → r.more_out ≡ false
      → r.current_out ≡ none
      → more to ≡ true
      → Whole ms
      → Routed r p to ms (find to.body r.outpipes)
  xsend-Routed r p to ms off nowhere on whole =
      routed r p to ms (find to.body r.outpipes) off nowhere on whole refl
