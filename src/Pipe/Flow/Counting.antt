-- ===== src/Pipe/Flow/Counting.antt =====
-- The whole messages in a queue, and what the operations of ypipe_t do to their number.
use cctas.Base.{
  ℕ, zero, suc, ◌+◌, ◌-◌, ◌≡◌, refl, sym, ap, ◌∙◌, subst, Bool, true, not, ◌&&◌, Option, none, some,
  List, [], ◌∷◌, ◌++◌, if◌then◌else◌, length, take, get_elem?, arith, Bool-cases, inl, inr, ◌==◌,
}
use cctas.Ypipe.{Ypipe, is_at, is_null, back}
use cctas.Ypipe as Queue
use cctas.Pipe.{Parts}
use cctas.Pipe.Writing.{unwrite_all}

module _ {M : Type 0} where
  -- What a read leaves of the items.
  abbrev pub Leaves : List M → Option M → List M → Type 0
  Leaves xs none ys = ys ≡ xs
  Leaves xs (some m) ys = xs ≡ m ∷ ys

  pub check_read_items : (q : Ypipe M) → (Queue.check_read q).1.items ≡ q.items
  unfolding Queue.check_read
  check_read_items q = elim (Bool-cases (not (is_at q.r q.front) && not (is_null q.r))) [
    | inl ready ↦ rw ready refl
    | inr more ↦ rw more refl
  ]

  pop-Leaves :
      (q : Ypipe M) (xs : List M)
      → q.items ≡ xs
      → Leaves xs (Queue.pop q xs).0 (Queue.pop q xs).1.items
  pop-Leaves q [] h = h
  pop-Leaves q (x ∷ xs) h = refl

  pub read-Leaves : (q : Ypipe M) → Leaves q.items (Queue.read q).0 (Queue.read q).1.items
  unfolding Queue.read
  read-Leaves q =
      let same = check_read_items q in
      let p : Option M × Ypipe M = Queue.pop (Queue.check_read q).1 (Queue.check_read q).1.items in
      elim (Bool-cases (Queue.check_read q).0) [
        | inl ready ↦ rw ready (
            subst (λ xs. Leaves xs p.0 p.1.items) same
              (pop-Leaves (Queue.check_read q).1 (Queue.check_read q).1.items refl))
        | inr none_ ↦ rw none_ same
      ]

  pub probe_items : (fn : M → Bool) (q : Ypipe M) → (Queue.probe fn q).1.items ≡ q.items
  unfolding Queue.probe
  probe_items fn q = check_read_items q

  pub flush_items : (q : Ypipe M) → (Queue.flush q).1.items ≡ q.items
  unfolding Queue.flush
  flush_items q = elim (Bool-cases (q.w == q.f)) [ inl e ↦ rw e refl | inr n ↦ rw n refl ]

module _ {M : Type 0} (ms : Parts M) where
  -- the messages of which the last part is there
  abbrev pub whole : List M → ℕ
  whole [] = 0
  whole (m ∷ rest) = (if ms.has_more m then 0 else 1) + whole rest

  pub whole-append : (xs ys : List M) → whole (xs ++ ys) ≡ whole xs + whole ys
  whole-append [] ys = omega arith
  whole-append (x ∷ xs) ys = omega (arith, whole-append xs ys)

  -- without its last part, of a message that is not whole
  whole_before :
      (xs : List M) (n : ℕ) (m : M)
      → length xs ≡ suc n
      → get_elem? xs n ≡ some m
      → ms.has_more m ≡ true
      → whole (take n xs) ≡ whole xs
  whole_before [] n m h at more = absurd (omega (arith, h))
  whole_before (x ∷ []) zero m h at more = ground (arith, at, more)
  whole_before (x ∷ y ∷ xs) zero m h at more = absurd (omega (arith, h))
  whole_before (x ∷ xs) (suc n) m h at more =
      omega (arith, whole_before xs n m (omega (arith, h)) at more)

  get_elem?-length :
      (xs : List M) (n : ℕ) (m : M) → get_elem? xs n ≡ some m → suc (length xs - 1) ≡ length xs
  get_elem?-length [] n m h = absurd (cc (h))
  get_elem?-length (x ∷ xs) n m h = omega arith

  done :
      (q q' : Ypipe M)
      → ◌≡◌ {A = Option (Ypipe M)} (some q) (some q')
      → whole q'.items ≡ whole q.items
  done q q' h = let e : q' ≡ q = cc (h) in ap (λ p. whole p.items) e

  unwritten :
      (n : ℕ) (q q' : Ypipe M)
      → ((p : Ypipe M) → unwrite_all ms n p ≡ some q' → whole q'.items ≡ whole p.items)
      → unwrite_all ms (suc n) q ≡ some q'
      → (o : Option M) → get_elem? q.items (length q.items - 1) ≡ o
      → whole q'.items ≡ whole q.items
  unfolding unwrite_all Queue.unwrite
  unwritten n q q' ih h none at = elim (Bool-cases (q.f == back q)) [
    | inl whole_ ↦ done q q' (rw (whole_, unwrite_all) at h)
    | inr open_ ↦ done q q' (rw (open_, at, unwrite_all) at h)
  ]
  unwritten n q q' ih h (some m) at = elim (Bool-cases (q.f == back q)) [
    | inl whole_ ↦ done q q' (rw (whole_, unwrite_all) at h)
    | inr open_ ↦ elim (Bool-cases (ms.has_more m)) [
      | inl more ↦
          let q1 : Ypipe M = record q { items = take (length q.items - 1) q.items } in
          let u : Queue.unwrite q ≡ (some m, q1) = rw (open_, at) refl in
          let e : unwrite_all ms (suc n) q ≡ unwrite_all ms n q1 =
            rw (u, more, unwrite_all) (ap (λ (o : Option M × Ypipe M). unwrite_all ms n o.1) u) in
          ih q1 (sym e ∙ h)
          ∙ whole_before q.items (length q.items - 1) m
              (sym (get_elem?-length q.items (length q.items - 1) m at)) at more
      | inr last ↦ absurd (cc (rw (open_, at, last, unwrite_all) at h))
    ]
  ]

  pub unwrite_all-whole :
      (n : ℕ) (q q' : Ypipe M) → unwrite_all ms n q ≡ some q' → whole q'.items ≡ whole q.items
  unfolding unwrite_all
  unwrite_all-whole zero q q' h = done q q' h
  unwrite_all-whole (suc n) q q' h =
      unwritten n q q' (λ p k. unwrite_all-whole n p q' k) h
        (get_elem? q.items (length q.items - 1)) refl
