-- ===== src/Message/Removing.antt =====
-- msg.cpp: rm_refs keeps the counts of the contents, also where it takes the last reference.
use cctas.Base.{
  ℕ, ◌+◌, ◌==◌, ◌≤◌, ◌≡◌, refl, sym, subst, inl, inr, Bool, true, false, some, Bool-cases,
  get_elem?, set, get_elem?-set_self, get_elem?_lt, arith,
}
use cctas.Message
use cctas.Message.{
  Message, Rc, done, efault, Kind, lmsg, invalid, Content, Heap, is_lmsg, check_type, drop_refs,
  destroy, set_refcnt, counter_sub,
}
use cctas.Message.Store.{Store, rm_refs_at, give_up}
use cctas.Message.Totals.{total, total-set, le-total, total-excess}
use cctas.Message.Counted.{holds, holds_shared, holds_null, IsCounted, IsCounted-congr, Keeps}
use cctas.Message.Closing.{
  holds_shared-le, set_plain-IsCounted, destroy-IsCounted, content_lem, lmsg_of,
}
use cctas.Message.Sharing.{lowered}
use cctas.Message.References.{same-IsCounted}

-- init makes a message that is not long.
init_plain : (m : Message) → is_lmsg (Message.init m).kind ≡ false
unfolding Message.init
init_plain m = refl

module _ {ahead : ℕ → ℕ} {s : Store} (v : IsCounted ahead s) (i : ℕ) (m : Message)
    (e : get_elem? s.messages i ≡ some m) where
  -- references that were made ahead and not used
  unused-IsCounted :
      (n p : ℕ) (c : Content)
      → m.kind ≡ lmsg
      → m.content ≡ some p
      → s.heap.contents p ≡ some c
      → n ≤ ahead p
      → m.flags.shared ≡ true
      → IsCounted
          (lowered m n ahead)
          (record { messages = set s.messages i m; heap = (drop_refs n p c s.heap).1 })
  unfolding drop_refs
  unused-IsCounted n p c l at live le sh = record {
    counted = λ q. ground (
      arith,
      v.counted q,
      v.counted p,
      total-set (holds q) s.messages i m m e,
      total-set (holds_shared q) s.messages i m m e,
      le-total (holds_shared p) s.messages i m e,
    );
    pointed = ground (arith, v.pointed, total-set holds_null s.messages i m m e);
    fresh = λ q h. ground (arith, v.fresh q, v.fresh p);
    freed_once = λ q. ground (
      arith,
      v.freed_once q,
      v.fresh p,
      v.counted p,
      le-total (holds p) s.messages i m e,
      le-total (holds_shared p) s.messages i m e,
    );
  }

  -- A message that has no reference left over is shared only if none was made ahead.
  unshared : (p : ℕ) → m.kind ≡ lmsg → m.content ≡ some p → m.flags.shared ≡ false → ahead p ≡ 0
  unshared p l at sh = ground (
    arith,
    v.counted p,
    total-excess (holds_shared p) (holds p) (holds_shared-le p) s.messages i m e,
    le-total (holds p) s.messages i m e,
    content_lem v i m e l,
  )

  -- what rm_refs does to a message that is not long
  plain_lem :
      (n : ℕ)
      → is_lmsg m.kind ≡ false
      → (r : Bool) × (m1 : Message) × (is_lmsg m1.kind ≡ false)
        × (rm_refs_at n i s ≡ some (r, record { messages = set s.messages i m1; heap = s.heap }))
  unfolding rm_refs_at Message.rm_refs Message.close
  plain_lem n l = elim (Bool-cases (n == 0)) [
    | inl zero ↦ (true, m, l, ground arith)
    | inr more ↦ elim (Bool-cases (check_type m)) [
      | inl ok ↦ (false, record m { kind = invalid }, refl, ground arith)
      | inr bad ↦ (false, m, l, ground arith)
    ]
  ]

  pub rm_refs_at-Keeps :
      (n : ℕ)
      → ((p : ℕ) → holds p m ≡ 1 → n ≤ ahead p)
      → Keeps (lowered m n ahead) (rm_refs_at n i s)
  unfolding rm_refs_at Message.rm_refs
  rm_refs_at-Keeps n le = elim (Bool-cases (is_lmsg m.kind)) [
    | inl long ↦
        (let l : m.kind ≡ lmsg = lmsg_of m.kind long in
          let (p, c, at, live) = content_lem v i m e l in
          elim (Bool-cases (n == 0)) [
            | inl zero ↦
                (let eq : rm_refs_at n i s
                      ≡ some (true, record { messages = set s.messages i m; heap = s.heap }) =
                    ground arith in
                  subst (Keeps (lowered m n ahead)) (sym eq)
                    (IsCounted-congr (λ q. ground arith) (same-IsCounted v i m e)))
            | inr more ↦
                (let sh : m.flags.shared ≡ true = ground (arith, unshared p l at, le p) in
                  let eq : rm_refs_at n i s
                      ≡ some (
                        (drop_refs n p c s.heap).0,
                        record { messages = set s.messages i m; heap = (drop_refs n p c s.heap).1 },
                      ) =
                    ground arith in
                  subst (Keeps (lowered m n ahead)) (sym eq)
                    (unused-IsCounted n p c l at live (ground (arith, le p)) sh))
          ])
    | inr plain ↦
        (let (r, m1, l1, eq) = plain_lem n plain in
          subst (Keeps (lowered m n ahead)) (sym eq)
            (IsCounted-congr (λ q. ground arith) (set_plain-IsCounted v i m e m1 plain l1)))
  ]

  -- The last reference of a message that is given up, and the message is emptied.
  abbrev emptied : Message → Heap → Store
  emptied m1 h = record { messages = set (set s.messages i m1) i (Message.init m1); heap = h }

  ei : (m1 : Message) → get_elem? (set s.messages i m1) i ≡ some m1
  ei m1 = get_elem?-set_self s.messages i m1 (get_elem?_lt s.messages i m e)

  given_up-IsCounted :
      (n p : ℕ) (c : Content)
      → m.kind ≡ lmsg
      → m.content ≡ some p
      → s.heap.contents p ≡ some c
      → n ≡ ahead p + 1
      → m.flags.shared ≡ true
      → IsCounted (lowered m n ahead) (emptied m (drop_refs n p c s.heap).1)
  unfolding drop_refs Message.init total
  given_up-IsCounted n p c l at live le sh = record {
    counted = λ q. ground (
      arith,
      v.counted q,
      v.counted p,
      total-set (holds q) s.messages i m m e,
      total-set (holds_shared q) s.messages i m m e,
      total-set (holds q) (set s.messages i m) i m (Message.init m) (ei m),
      total-set (holds_shared q) (set s.messages i m) i m (Message.init m) (ei m),
      le-total (holds_shared p) s.messages i m e,
    );
    pointed = ground (
      arith,
      v.pointed,
      total-set holds_null s.messages i m m e,
      total-set holds_null (set s.messages i m) i m (Message.init m) (ei m),
    );
    fresh = λ q h. ground (arith, v.fresh q, v.fresh p);
    freed_once = λ q. ground (
      arith,
      v.freed_once q,
      v.fresh p,
      v.counted p,
      le-total (holds p) s.messages i m e,
      le-total (holds_shared p) s.messages i m e,
    );
  }

  -- where it was the only one, the content ends as in close
  given_up_alone-IsCounted :
      (n p : ℕ) (c : Content)
      → m.kind ≡ lmsg
      → m.content ≡ some p
      → s.heap.contents p ≡ some c
      → m.flags.shared ≡ false
      → IsCounted (lowered m n ahead) (emptied (record m { kind = invalid }) (destroy p c s.heap))
  unfolding Message.init
  given_up_alone-IsCounted n p c l at live sh =
      IsCounted-congr (λ q. ground (arith, unshared p l at))
        (set_plain-IsCounted (destroy-IsCounted v i m e p c live l at sh) i
          (record m { kind = invalid }) (ei (record m { kind = invalid }))
          (Message.init (record m { kind = invalid })) refl refl)

  pub give_up-Keeps :
      (n : ℕ)
      → ((p : ℕ) → holds p m ≡ 1 → n ≡ ahead p + 1)
      → Keeps (lowered m n ahead) (give_up n i s)
  unfolding give_up rm_refs_at Message.rm_refs Message.close
  give_up-Keeps n le = elim (Bool-cases (is_lmsg m.kind)) [
    | inl long ↦
        (let l : m.kind ≡ lmsg = lmsg_of m.kind long in
          let (p, c, at, live) = content_lem v i m e l in
          elim (Bool-cases (m.flags.shared)) [
            | inl sh ↦
                (let eq : give_up n i s ≡ some (done, emptied m (drop_refs n p c s.heap).1) =
                    ground (arith, le p, ei m) in
                  subst (Keeps (lowered m n ahead)) (sym eq)
                    (given_up-IsCounted n p c l at live (ground (arith, le p)) sh))
            | inr sh ↦
                (let eq : give_up n i s
                      ≡ some (done, emptied (record m { kind = invalid }) (destroy p c s.heap)) =
                    ground (arith, le p, ei (record m { kind = invalid })) in
                  subst (Keeps (lowered m n ahead)) (sym eq)
                    (given_up_alone-IsCounted n p c l at live sh))
          ])
    | inr plain ↦
        (let (r, m1, l1, first) = plain_lem n plain in
          let eq : give_up n i s ≡ some (done, emptied m1 s.heap) = ground (arith, first, ei m1) in
          subst (Keeps (lowered m n ahead)) (sym eq) (
            IsCounted-congr (λ q. ground arith)
              (set_plain-IsCounted (set_plain-IsCounted v i m e m1 plain l1) i m1 (ei m1)
                (Message.init m1) l1 (init_plain m1))))
  ]
