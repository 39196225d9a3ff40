-- ===== src/Message/Closing.antt =====
-- msg.cpp: closing a message keeps the counts of the contents.
use cctas.Base.{
  ℕ, ◌≤◌, ◌≡◌, refl, sym, subst, inl, inr, true, false, Option-cases, Bool-cases, some, get_elem?,
  set, arith,
}
use cctas.Message
use cctas.Message.{
  Message, done, efault, check_type, Kind, vsm, lmsg, delimiter, invalid, Content, Freed, freed,
  Heap, destroy, drop_refs, is_lmsg,
}
use cctas.Message.Store.{Store, close_at}
use cctas.Message.Totals.{total, total-set, le-total, total-excess}
use cctas.Message.Counted.{holds, holds_shared, holds_null, IsCounted, Keeps}

pub holds_shared-le : (p : ℕ) (m : Message) → holds_shared p m ≤ holds p m
holds_shared-le p m = ground arith

pub lmsg_of : (k : Kind) → is_lmsg k ≡ true → k ≡ lmsg
lmsg_of k h = ground arith

-- a message that points to a content which others use too, and one that does not
module _ {ahead : ℕ → ℕ} {s : Store} (v : IsCounted ahead s) (i : ℕ) (m : Message)
    (e : get_elem? s.messages i ≡ some m) where
  pub destroy-IsCounted :
      (p : ℕ) (c : Content)
      → s.heap.contents p ≡ some c
      → m.kind ≡ lmsg
      → m.content ≡ some p
      → m.flags.shared ≡ false
      → IsCounted ahead (record {
        messages = set s.messages i (record m { kind = invalid });
        heap = destroy p c s.heap;
      })
  unfolding total
  destroy-IsCounted p c live l at sh = record {
    counted = λ q. ground (
      arith,
      v.counted q,
      v.counted p,
      live,
      l,
      at,
      sh,
      total-set (holds q) s.messages i m (record m { kind = invalid }) e,
      total-set (holds_shared q) s.messages i m (record m { kind = invalid }) e,
      total-excess (holds_shared q) (holds q) (holds_shared-le q) s.messages i m e,
    );
    pointed = ground (
      arith,
      v.pointed,
      l,
      at,
      total-set holds_null s.messages i m (record m { kind = invalid }) e,
    );
    fresh = λ q h. ground (arith, v.fresh q h, v.fresh p, live);
    freed_once = λ q. ground (arith, v.freed_once q, v.fresh p, live);
  }

  drop_refs-IsCounted :
      (p : ℕ) (c : Content)
      → s.heap.contents p ≡ some c
      → m.kind ≡ lmsg
      → m.content ≡ some p
      → m.flags.shared ≡ true
      → IsCounted ahead (record {
        messages = set s.messages i (record m { kind = invalid });
        heap = (drop_refs 1 p c s.heap).1;
      })
  unfolding total drop_refs
  drop_refs-IsCounted p c live l at sh = record {
    counted = λ q. ground (
      arith,
      v.counted q,
      v.counted p,
      live,
      l,
      at,
      sh,
      total-set (holds q) s.messages i m (record m { kind = invalid }) e,
      total-set (holds_shared q) s.messages i m (record m { kind = invalid }) e,
      le-total (holds_shared p) s.messages i m e,
    );
    pointed = ground (
      arith,
      v.pointed,
      l,
      at,
      total-set holds_null s.messages i m (record m { kind = invalid }) e,
    );
    fresh = λ q h. ground (arith, v.fresh q, v.fresh p, live);
    freed_once = λ q. ground (arith, v.freed_once q, v.fresh p, live);
  }

  -- a message that is not long
  pub set_plain-IsCounted :
      (m' : Message)
      → is_lmsg m.kind ≡ false
      → is_lmsg m'.kind ≡ false
      → IsCounted ahead (record { messages = set s.messages i m'; heap = s.heap })
  set_plain-IsCounted m' l l' = record {
    counted = λ q. ground (
      arith,
      v.counted q,
      l,
      l',
      total-set (holds q) s.messages i m m' e,
      total-set (holds_shared q) s.messages i m m' e,
    );
    pointed = ground (arith, v.pointed, l, l', total-set holds_null s.messages i m m' e);
    fresh = v.fresh;
    freed_once = v.freed_once;
  }

  -- the content of a long message
  pub content_lem :
      m.kind ≡ lmsg → (p : ℕ) × (c : Content) × (m.content ≡ some p) × (s.heap.contents p ≡ some c)
  content_lem l = elim (Option-cases (m.content)) [
    | inl lost ↦ absurd (ground (arith, v.pointed, lost, l, le-total holds_null s.messages i m e))
    | inr (p, at) ↦ elim (Option-cases (s.heap.contents p)) [
      | inl lost ↦
          absurd (ground (arith, v.counted p, lost, at, l, le-total (holds p) s.messages i m e))
      | inr (c, live) ↦ (p, c, at, live)
    ]
  ]

  -- the messages and the heap after a close that has succeeded
  abbrev pub after_close : Heap → Store
  after_close h = record { messages = set s.messages i (record m { kind = invalid }); heap = h }

  close_lmsg_lem :
      m.kind ≡ lmsg
      → (h : Heap) × (close_at i s ≡ some (done, after_close h)) × IsCounted ahead (after_close h)
  unfolding close_at Message.close
  close_lmsg_lem l =
      let (p, c, at, live) = content_lem l in
      elim (Bool-cases (m.flags.shared)) [
        | inl sh ↦ ((drop_refs 1 p c s.heap).1, ground arith, drop_refs-IsCounted p c live l at sh)
        | inr sh ↦ (destroy p c s.heap, ground arith, destroy-IsCounted p c live l at sh)
      ]

  -- Closing never frees a content twice, nor one that another message points to.
  pub close_lem :
      check_type m ≡ true
      → (h : Heap) × (close_at i s ≡ some (done, after_close h)) × IsCounted ahead (after_close h)
  unfolding close_at Message.close
  close_lem ok = elim (Bool-cases (is_lmsg m.kind)) [
    | inl long ↦ close_lmsg_lem (lmsg_of m.kind long)
    | inr plain ↦
        (s.heap, ground arith, set_plain-IsCounted (record m { kind = invalid }) plain refl)
  ]

  pub close_at-Keeps : Keeps ahead (close_at i s)
  unfolding close_at Message.close
  close_at-Keeps = elim (Bool-cases (check_type m)) [
    | inl ok ↦ (let (h, eq, v') = close_lem ok in subst (Keeps ahead) (sym eq) v')
    | inr bad ↦
        (let eq : close_at i s
              ≡ some (efault, record { messages = set s.messages i m; heap = s.heap }) =
            ground arith in
          subst (Keeps ahead) (sym eq)
            (set_plain-IsCounted m (ground (arith, bad)) (ground (arith, bad))))
  ]
