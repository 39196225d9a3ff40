-- ===== src/Message/Copying.antt =====
-- msg.cpp: move and copy keep the counts of the contents.
use cctas.Base.{
  ℕ, ◌==◌, ◌<◌, ◌≡◌, refl, sym, subst, inl, inr, true, false, some, Bool-cases, get_elem?, set,
  get_elem?-set_ne, get_elem?-set_self, get_elem?_lt, if◌then◌else◌, arith, ℕ_discrete,
}
use cctas.Message
use cctas.Message.{
  Message, Rc, done, efault, Kind, lmsg, invalid, Content, Heap, is_lmsg, check_type,
}
use cctas.Message.Store.{Store, assign, share_at, pass_on, move, close_at, copy, ◌>>◌}
use cctas.Message.Totals.{total-set, le-total, total-excess}
use cctas.Message.Counted.{holds, holds_shared, holds_null, IsCounted, Keeps, Keeps-congr}
use cctas.Message.Closing.{holds_shared-le, close_lem, after_close}
use cctas.Message.Sharing.{lowered, moved, moved-IsCounted}
use cctas.Message.References.{HasRoom, share_lem, same-IsCounted}

-- the message at i, which is written, and the one at j, which is read
module _ {ahead : ℕ → ℕ} {s : Store} (v : IsCounted ahead s) (i j : ℕ) (a b : Message)
    (ea : get_elem? s.messages i ≡ some a) (eb : get_elem? s.messages j ≡ some b) where
  -- A message is copied as it lies for a reference that was made ahead.
  assigned-IsCounted :
      is_lmsg a.kind ≡ false
      → ((p : ℕ) → holds p b ≡ 1 → 0 < ahead p)
      → IsCounted (lowered b 1 ahead) (record { messages = set s.messages i b; heap = s.heap })
  assigned-IsCounted l made = record {
    counted = λ q. ground (
      arith,
      v.counted q,
      made q,
      l,
      total-set (holds q) s.messages i a b ea,
      total-set (holds_shared q) s.messages i a b ea,
      le-total (holds q) s.messages j b eb,
      total-excess (holds_shared q) (holds q) (holds_shared-le q) s.messages j b eb,
    );
    pointed = ground (
      arith,
      v.pointed,
      l,
      total-set holds_null s.messages i a b ea,
      le-total holds_null s.messages j b eb,
    );
    fresh = v.fresh;
    freed_once = v.freed_once;
  }

  pub assign-Keeps :
      is_lmsg a.kind ≡ false
      → ((p : ℕ) → holds p b ≡ 1 → 0 < ahead p)
      → Keeps (lowered b 1 ahead) (assign i j s)
  unfolding assign
  assign-Keeps l made =
      let eq : assign i j s ≡ some (done, record { messages = set s.messages i b; heap = s.heap }) =
        ground arith in
      subst (Keeps (lowered b 1 ahead)) (sym eq) (assigned-IsCounted l made)

  -- passing a message on, to a message that owns nothing
  get_elem?-set_source : get_elem? (set s.messages i b) j ≡ some b
  get_elem?-set_source = elim (ℕ_discrete i j) [
    | yes same ↦
        subst (λ k. get_elem? (set s.messages i b) k ≡ some b) same
          (get_elem?-set_self s.messages i b (get_elem?_lt s.messages i a ea))
    | no ne ↦ rw (get_elem?-set_ne s.messages {i = i} {j = j} b ne) eb
  ]

  pub pass_on-Keeps : is_lmsg a.kind ≡ false → Keeps ahead (pass_on i j s)
  unfolding pass_on
  pass_on-Keeps l =
      let ej : get_elem? (set s.messages i b) j ≡ some b = get_elem?-set_source in
      let eq : pass_on i j s ≡ some (done, moved v i j a b ea eb ej l) = ground (arith, ej) in
      subst (Keeps ahead) (sym eq) (moved-IsCounted v i j a b ea eb ej l)

  -- what stands at j after another message was written at i
  written : Message → Message
  written y = if i == j then y else b

  get_elem?-written : (y : Message) → get_elem? (set s.messages i y) j ≡ some (written y)
  unfolding written
  get_elem?-written y = elim (ℕ_discrete i j) [
    | yes same ↦
        let e : (i == j) ≡ true = ground arith in
        simp e (
          subst (λ k. get_elem? (set s.messages i y) k ≡ some y) same
            (get_elem?-set_self s.messages i y (get_elem?_lt s.messages i a ea)))
    | no ne ↦
        let e : (i == j) ≡ false = ground arith in
        simp e (rw (get_elem?-set_ne s.messages {i = i} {j = j} y ne) eb)
  ]

  get_elem?-closed :
      get_elem? (set s.messages i (record a { kind = invalid })) i
      ≡ some (record a { kind = invalid })
  get_elem?-closed =
      get_elem?-set_self s.messages i (record a { kind = invalid }) (get_elem?_lt s.messages i a ea)

module _ {ahead : ℕ → ℕ} {s : Store} (v : IsCounted ahead s) (i j : ℕ) (a b : Message)
    (ea : get_elem? s.messages i ≡ some a) (eb : get_elem? s.messages j ≡ some b) where
  pub move-Keeps : Keeps ahead (move i j s)
  unfolding move close_at Message.close
  move-Keeps = elim (Bool-cases (check_type b)) [
    | inl ok ↦ elim (Bool-cases (check_type a)) [
      | inl live ↦
          (let (h, eq, w) = close_lem v i a ea live in
            let e : move i j s
                ≡ pass_on i j (record {
                  messages = set s.messages i (record a { kind = invalid });
                  heap = h;
                }) =
              ground (arith, eq) in
            subst (Keeps ahead) (sym e) (
              pass_on-Keeps w i j (record a { kind = invalid })
                (written v i j a b ea eb (record a { kind = invalid }))
                (get_elem?-closed v i j a b ea eb)
                (get_elem?-written v i j a b ea eb (record a { kind = invalid })) refl))
      | inr dead ↦
          (let e : move i j s
                ≡ some (efault, record { messages = set s.messages i a; heap = s.heap }) =
              ground (arith, dead) in
            subst (Keeps ahead) (sym e) (same-IsCounted v i a ea))
    ]
    | inr bad ↦
        (let e : move i j s ≡ some (efault, s) = ground arith in
          subst (Keeps {A = Rc} ahead) (sym e) v)
  ]

  -- the message at i after close, and the one at j then
  abbrev gone : Message
  gone = record a { kind = invalid }

  abbrev src : Message
  src = written v i j a b ea eb gone

  module _ (room : HasRoom ahead s b 1) (live : check_type a ≡ true) where
    open_room : (h : Heap) → HasRoom ahead (after_close v i a ea h) src 1
    unfolding written
    open_room h p l at = ground (arith, room p, total-set (holds p) s.messages i a gone ea)

    shared_and_assigned :
        (h : Heap)
        → IsCounted ahead (after_close v i a ea h)
        → Keeps ahead ((share_at j >> assign i j) (after_close v i a ea h))
    unfolding written
    shared_and_assigned h w =
        let ei : get_elem? (set s.messages i gone) i ≡ some gone =
          get_elem?-closed v i j a b ea eb in
        let ej : get_elem? (set s.messages i gone) j ≡ some src =
          get_elem?-written v i j a b ea eb gone in
        let (m1, h1, eq, k, c, w1) = share_lem w j src ej (open_room h) in
        let e : (share_at j >> assign i j) (after_close v i a ea h)
            ≡ assign i j (record { messages = set (set s.messages i gone) j m1; heap = h1 }) =
          ground (arith, eq) in
        subst (Keeps ahead) (sym e) (
          Keeps-congr
            (assign i j (record { messages = set (set s.messages i gone) j m1; heap = h1 }))
            (λ p. ground (arith, k, c))
            (assign-Keeps w1 i j (written w j i src gone ej ei m1) m1
              (get_elem?-written w j i src gone ej ei m1)
              (get_elem?-set_self (set s.messages i gone) j m1
                (get_elem?_lt (set s.messages i gone) j src ej))
              (ground (arith, k)) (λ p one. ground (arith, k, c))))

  pub copy-Keeps : HasRoom ahead s b 1 → Keeps ahead (copy i j s)
  unfolding copy close_at Message.close
  copy-Keeps room = elim (Bool-cases (check_type b)) [
    | inl ok ↦ elim (Bool-cases (check_type a)) [
      | inl live ↦
          (let (h, eq, w) = close_lem v i a ea live in
            let e : copy i j s
                ≡ (share_at j >> assign i j) (record {
                  messages = set s.messages i (record a { kind = invalid });
                  heap = h;
                }) =
              ground (arith, eq) in
            subst (Keeps ahead) (sym e) (shared_and_assigned room live h w))
      | inr dead ↦
          (let e : copy i j s
                ≡ some (efault, record { messages = set s.messages i a; heap = s.heap }) =
              ground (arith, dead) in
            subst (Keeps ahead) (sym e) (same-IsCounted v i a ea))
    ]
    | inr bad ↦
        (let e : copy i j s ≡ some (efault, s) = ground arith in
          subst (Keeps {A = Rc} ahead) (sym e) v)
  ]
