-- ===== src/Message/References.antt =====
-- msg.cpp: add_refs, rm_refs and copy keep the counts of the contents.
use cctas.Base.{
  ℕ, ◌+◌, ◌%◌, ◌&&◌, ◌^◌, ◌==◌, ◌<◌, ◌≡◌, refl, sym, subst, inl, inr, not, false, some, Bool-cases,
  get_elem?, set, arith,
}
use cctas.Message
use cctas.Message.{Message, done, Kind, lmsg, Content, Heap, is_lmsg, counter_add, put, set_refcnt}
use cctas.Message.Store.{Store, share_at, add_refs_at}
use cctas.Message.Totals.{total, total-set}
use cctas.Message.Counted.{holds, holds_shared, holds_null, IsCounted, IsCounted-congr, Keeps}
use cctas.Message.Closing.{content_lem, lmsg_of}
use cctas.Message.Sharing.{raised, shared_now, raised-IsCounted, shared-IsCounted}

-- Room in the count of a message's content for n references more.
abbrev pub HasRoom : (ℕ → ℕ) → Store → Message → ℕ → Type 0
HasRoom ahead s m n =
    (p : ℕ)
    → m.kind ≡ lmsg
    → m.content ≡ some p
    → (total (holds p) s.messages + ahead p + n < 2 ^ 32) × (1 + n < 2 ^ 32)

module _ {ahead : ℕ → ℕ} {s : Store} (v : IsCounted ahead s) (i : ℕ) (m : Message)
    (e : get_elem? s.messages i ≡ some m) where
  -- a message that is not long
  pub raised_plain :
      is_lmsg m.kind ≡ false
      → (n : ℕ) (s1 : Store) → IsCounted ahead s1
      → IsCounted (raised m n ahead) s1
  raised_plain l n s1 w = IsCounted-congr (λ p. ground arith) w

  -- a message that is stored as it was
  pub same-IsCounted : IsCounted ahead (record { messages = set s.messages i m; heap = s.heap })
  same-IsCounted = record {
    counted = λ q. ground (
      arith,
      v.counted q,
      total-set (holds q) s.messages i m m e,
      total-set (holds_shared q) s.messages i m m e,
    );
    pointed = ground (arith, v.pointed, total-set holds_null s.messages i m m e);
    fresh = v.fresh;
    freed_once = v.freed_once;
  }

  pub share_lem :
      HasRoom ahead s m 1
      → (m1 : Message) × (h : Heap) × (share_at i s
          ≡ some (done, record { messages = set s.messages i m1; heap = h }))
        × (m1.kind ≡ m.kind)
        × (m1.content ≡ m.content)
        × IsCounted (raised m 1 ahead) (record { messages = set s.messages i m1; heap = h })
  unfolding share_at Message.share
  share_lem room = elim (Bool-cases (is_lmsg m.kind)) [
    | inl long ↦
        (let l : m.kind ≡ lmsg = lmsg_of m.kind long in
          let (p, c, at, live) = content_lem v i m e l in
          elim (Bool-cases (m.flags.shared)) [
            | inl sh ↦ (
              m,
              set_refcnt p c (counter_add 1 c.refcnt) s.heap,
              ground arith,
              refl,
              refl,
              raised-IsCounted v i m e 1 p c l at live (room p l at).0 sh,
            )
            | inr sh ↦ (
              shared_now v i m e,
              set_refcnt p c 2 s.heap,
              ground arith,
              refl,
              refl,
              shared-IsCounted v i m e 1 p c l at live (room p l at).1 sh,
            )
          ])
    | inr plain ↦ (
      m,
      s.heap,
      ground arith,
      refl,
      refl,
      raised_plain plain 1 (record { messages = set s.messages i m; heap = s.heap }) same-IsCounted,
    )
  ]

  -- add_refs: n references are made ahead.
  pub add_refs_at-Keeps :
      (n : ℕ) → HasRoom ahead s m n → Keeps (raised m n ahead) (add_refs_at n i s)
  unfolding add_refs_at Message.add_refs
  add_refs_at-Keeps n room = elim (Bool-cases (is_lmsg m.kind && not (n == 0))) [
    | inl long ↦
        (let l : m.kind ≡ lmsg = lmsg_of m.kind (ground (arith, long)) in
          let (p, c, at, live) = content_lem v i m e l in
          elim (Bool-cases (m.flags.shared)) [
            | inl sh ↦
                (let eq : add_refs_at n i s
                      ≡ some (
                        done,
                        record {
                          messages = set s.messages i m;
                          heap = set_refcnt p c (counter_add n c.refcnt) s.heap;
                        },
                      ) =
                    ground (arith, long) in
                  subst (Keeps (raised m n ahead)) (sym eq)
                    (raised-IsCounted v i m e n p c l at live (room p l at).0 sh))
            | inr sh ↦
                (let eq : add_refs_at n i s
                      ≡ some (
                        done,
                        record {
                          messages = set s.messages i (shared_now v i m e);
                          heap = set_refcnt p c ((n + 1) % 2 ^ 32) s.heap;
                        },
                      ) =
                    ground (arith, long) in
                  subst (Keeps (raised m n ahead)) (sym eq)
                    (shared-IsCounted v i m e n p c l at live (room p l at).1 sh))
          ])
    | inr plain ↦
        (let eq : add_refs_at n i s
              ≡ some (done, record { messages = set s.messages i m; heap = s.heap }) =
            ground (arith, plain) in
          subst (Keeps (raised m n ahead)) (sym eq)
            (IsCounted-congr (λ p. ground (arith, plain)) same-IsCounted))
  ]
