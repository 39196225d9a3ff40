-- ===== src/Ypipe/Wf.antt =====
-- The invariant of ypipe_t, and what the reader gets of what the writer flushed.
use cctas.Base.{
  ℕ, suc, ◌+◌, ◌-◌, ◌≤◌, ◌<◌, ◌≡◌, ◌↔◌, ◌⊎◌, refl, ap, ◌∙◌, subst, ◌==◌, Bool, true, false, not,
  ◌&&◌, ◌||◌, Option, none, some, List, [], ◌∷◌, length, take, arith, Bool-cases, Option-cases, inl,
  inr, length-append, dec_lt, length-take,
}
use cctas.Ypipe.{Ypipe, is_at, is_null, ypipe, back, write, unwrite, flush, check_read, pop, read}

-- The pointers stand in their order: c at w, or nowhere while the reader sleeps, and then nothing
-- is flushed.
pub record IsWf {M : Type 0} (q : Ypipe M) : Type 0 where
  pub front_w : q.front ≤ q.w
  pub w_f : q.w ≤ q.f
  pub f_back : q.f ≤ back q
  pub awake : (p : ℕ) → q.c ≡ some p → p ≡ q.w
  pub asleep : q.c ≡ none → q.w ≡ q.front
  pub fetched : (p : ℕ) → q.r ≡ some p → (q.front ≤ p) × (p ≤ q.w)

module _ {M : Type 0} where
  -- The items that were flushed and not yet read.
  abbrev pub flushed : Ypipe M → List M
  flushed q = take (q.w - q.front) q.items

  pub ypipe-IsWf : IsWf (ypipe {M = M})
  unfolding ypipe
  ypipe-IsWf = record {
    front_w = omega arith;
    w_f = omega arith;
    f_back = omega arith;
    awake = λ p e. ground arith;
    asleep = λ e. refl;
    fetched = λ p e. ground arith;
  }

  pub write-IsWf : (q : Ypipe M) (x : M) (incomplete : Bool) → IsWf q → IsWf (write q x incomplete)
  unfolding write
  write-IsWf q x incomplete v =
      let grown = length-append q.items (x ∷ []) in
      record {
        front_w = v.front_w;
        w_f = ground (arith, v.w_f, v.f_back);
        f_back = ground (arith, v.f_back, grown);
        awake = v.awake;
        asleep = v.asleep;
        fetched = v.fetched;
      }

  pub flush-IsWf : (q : Ypipe M) → IsWf q → IsWf (flush q).1
  unfolding flush
  flush-IsWf q v = elim (Bool-cases (q.w == q.f)) [
    | inl same ↦ rw same v
    | inr more ↦ rw more (record {
      front_w = omega (arith, v.front_w, v.w_f);
      w_f = omega arith;
      f_back = v.f_back;
      awake = λ p e. ground arith;
      asleep = λ e. absurd (cc);
      fetched = λ p e. let h = v.fetched p e in (h.0, omega (arith, h.1, v.w_f));
    })
  ]

  pub unwrite-IsWf : (q : Ypipe M) → IsWf q → IsWf (unwrite q).1
  unfolding unwrite
  unwrite-IsWf q v = elim (Bool-cases (q.f == back q)) [
    | inl none_ ↦ rw none_ v
    | inr more ↦
        let shorter = length-take (length q.items - 1) q.items in
        rw more (record {
          front_w = v.front_w;
          w_f = v.w_f;
          f_back = ground (arith, more, v.f_back, shorter);
          awake = v.awake;
          asleep = v.asleep;
          fetched = v.fetched;
        })
  ]

  -- flush hands everything up to the last complete item to the reader, and answers
  -- false exactly if it had something to hand over while the reader sleeps.
  pub flush_lem :
      (q : Ypipe M)
      → IsWf q
      → let (ok, q') = flush q in
        (flushed q' ≡ take (q.f - q.front) q.items) × ((ok ≡ false) ↔ ((q.c ≡ none) × (q.w < q.f)))
  unfolding flush
  flush_lem q v = elim (Bool-cases (q.w == q.f)) [
    | inl same ↦
        let at_f : q.w ≡ q.f = ground (arith, same) in
        rw same (
          ap (λ n. take (n - q.front) q.items) at_f,
          ((λ e. absurd (cc)), (λ h. absurd (omega (arith, at_f, h.1)))),
        )
    | inr more ↦ elim (Option-cases q.c) [
      | inl sleeps ↦
          let below : q.w < q.f = ground (arith, more, v.w_f) in
          rw (more, sleeps) (refl, ((λ e. (refl, below)), (λ h. refl)))
      | inr (p, at_p) ↦
          let at_w : is_at (some p) q.w ≡ true = ground (arith, v.awake p at_p) in
          rw (more, at_p, at_w) (refl, ((λ e. absurd (cc)), (λ h. absurd (cc (h.0)))))
    ]
  ]

  pub check_read-IsWf : (q : Ypipe M) → IsWf q → IsWf (check_read q).1
  unfolding check_read
  check_read-IsWf q v = elim (Bool-cases (not (is_at q.r q.front) && not (is_null q.r))) [
    | inl ready ↦ rw ready v
    | inr fetch ↦ rw fetch (record {
      front_w = v.front_w;
      w_f = v.w_f;
      f_back = v.f_back;
      awake = λ p e. ground (arith, e, v.awake p);
      asleep = λ e. elim (Option-cases q.c) [
        | inl none_ ↦ v.asleep none_
        | inr (p, some_) ↦ ground (arith, some_, e, v.awake p some_)
      ];
      fetched = λ p e. ground (arith, v.awake p e, v.front_w);
    })
  ]

  -- check_read finds an item exactly if something is flushed and not yet read.
  pub check_read_lem : (q : Ypipe M) → IsWf q → ((check_read q).0 ≡ true) ↔ (q.front < q.w)
  unfolding check_read
  check_read_lem q v = elim (Option-cases q.r) [
    | inl dead ↦ elim (Option-cases q.c) [
      | inl sleeps ↦ ground (arith, dead, sleeps, v.asleep sleeps)
      | inr (k, at_k) ↦ ground (arith, dead, at_k, v.awake k at_k, v.front_w)
    ]
    | inr (p, at_p) ↦ elim (Option-cases q.c) [
      | inl sleeps ↦ ground (arith, at_p, sleeps, v.asleep sleeps, v.fetched p at_p)
      | inr (k, at_k) ↦ ground (arith, at_p, at_k, v.awake k at_k, v.front_w, v.fetched p at_p)
    ]
  ]

  -- What was prefetched lies past the front once check_read has found an item.
  check_read_fetched :
      (q : Ypipe M)
      → IsWf q
      → (check_read q).0 ≡ true
      → (p : ℕ) → (check_read q).1.r ≡ some p
      → q.front < p
  unfolding check_read
  check_read_fetched q v h p e = elim (Bool-cases (not (is_at q.r q.front) && not (is_null q.r))) [
    | inl ready ↦
        let at_p : q.r ≡ some p = rw ready at e in ground (arith, at_p, ready, v.fetched p at_p)
    | inr fetch ↦
        let at_p : q.c ≡ some p = rw fetch at e in
        let found : not (is_at q.c q.front || is_null q.c) ≡ true = rw fetch at h in
        ground (arith, at_p, found, v.awake p at_p, v.front_w)
  ]

  check_read_keeps :
      (q : Ypipe M)
      → ((check_read q).1.front ≡ q.front)
        × ((check_read q).1.w ≡ q.w)
        × (flushed (check_read q).1 ≡ flushed q)
  unfolding check_read
  check_read_keeps q = elim (Bool-cases (not (is_at q.r q.front) && not (is_null q.r))) [
    | inl ready ↦ rw ready (refl, refl, refl)
    | inr fetch ↦ rw fetch (refl, refl, refl)
  ]

  none_flushed : (q : Ypipe M) → IsWf q → (check_read q).0 ≡ false → flushed q ≡ []
  none_flushed q v empty = elim (dec_lt q.front q.w) [
    | yes some_ ↦ let found = (check_read_lem q v).1 some_ in absurd (cc)
    | no none_ ↦ let nothing : q.w - q.front ≡ 0 = omega arith in ap (λ n. take n q.items) nothing
  ]

  -- What read is to do where `l` was flushed: it takes the first item, or there is none.
  abbrev pub Reads : List M → Option M × Ypipe M → Type 0
  Reads l (o, q') =
      IsWf q'
      × (((o ≡ none) × (l ≡ []) × (flushed q' ≡ []))
          ⊎ ((x : M) × (o ≡ some x) × (l ≡ x ∷ flushed q')))

  pop_lem :
      (q : Ypipe M) (l : List M)
      → q.items ≡ l
      → IsWf q
      → q.front < q.w
      → ((p : ℕ) → q.r ≡ some p → q.front < p)
      → Reads (flushed q) (pop q l)
  pop_lem q [] e v lt past = absurd (omega (arith, v.f_back, v.w_f, ap length e, lt))
  pop_lem q (x ∷ rest) e v lt past =
      let one_more : q.w - q.front ≡ suc (q.w - (q.front + 1)) = omega (arith, lt) in
      (
        record {
          front_w = omega (arith, lt);
          w_f = v.w_f;
          f_back = omega (arith, v.f_back, ap length e);
          awake = v.awake;
          asleep = λ n. absurd (omega (arith, v.asleep n, lt));
          fetched = λ p h. (omega (arith, past p h), (v.fetched p h).1);
        },
        inr (x, refl, ap (take (q.w - q.front)) e ∙ ap (λ n. take n (x ∷ rest)) one_more),
      )

  -- read takes the first item that was flushed and not yet read, or fails if there is none, and
  -- leaves the others as they are.
  pub read_lem : (q : Ypipe M) → IsWf q → Reads (flushed q) (read q)
  unfolding read
  read_lem q v = elim (Bool-cases (check_read q).0) [
    | inl ready ↦
        let (same_front, same_w, same) = check_read_keeps q in
        let q1 = (check_read q).1 in
        rw ready (
          subst (λ l. Reads l (pop q1 q1.items)) same
            (pop_lem q1 q1.items refl (check_read-IsWf q v)
              (omega (arith, same_front, same_w, (check_read_lem q v).0 ready))
              (λ p e. omega (arith, same_front, check_read_fetched q v ready p e))))
    | inr empty ↦
        let (same_front, same_w, same) = check_read_keeps q in
        let nothing : flushed q ≡ [] = none_flushed q v empty in
        rw empty (check_read-IsWf q v, inl (refl, nothing, same ∙ nothing))
  ]
