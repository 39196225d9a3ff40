-- ===== src/Sockets/Rep/Labels.antt =====
-- The loop of rep_t::xrecv that copies the labels of a request to the reply.
use cctas.Base.{
  ℕ, zero, suc, ◌<◌, ◌≤◌, ◌≡◌, refl, subst, true, false, Option, none, some, Option-cases,
  Bool-cases, inl, inr, arith,
}
use cctas.Framing.{Msg}
use cctas.Sockets.{Errno, Rc, done, error, Got, got, failed, more, is_empty, BaseClass}
use cctas.Sockets.Draining.{Draining}
use cctas.Sockets.Rep.{label_loop, pushed}

module _ {D : Type 0} (b : BaseClass D) where
  -- What `while (true)` in xrecv ends with, written as a relation.
  pub data Copies : D → Option (Rc × D) → Type 0 where
    asserts : {d : D} → b.xrecv d ≡ none → Copies d none
    ends : {d d1 : D} {e : Errno} → b.xrecv d ≡ some (failed e, d1) → Copies d (some (error e, d1))
    discards :
        {d d1 : D} {m : Msg} {o : Option (Rc × D)}
        → b.xrecv d ≡ some (got m, d1)
        → more m ≡ false
        → Copies (b.rollback d1) o
        → Copies d o
    refuses :
        {d d1 : D} {m : Msg}
        → b.xrecv d ≡ some (got m, d1)
        → more m ≡ true
        → pushed b (b.xsend d1 m) ≡ none
        → Copies d none
    copies :
        {d d1 d2 : D} {m : Msg} {o : Option (Rc × D)}
        → b.xrecv d ≡ some (got m, d1)
        → more m ≡ true
        → pushed b (b.xsend d1 m) ≡ some d2
        → is_empty m ≡ false
        → Copies d2 o
        → Copies d o
    delimits :
        {d d1 d2 : D} {m : Msg}
        → b.xrecv d ≡ some (got m, d1)
        → more m ≡ true
        → pushed b (b.xsend d1 m) ≡ some d2
        → is_empty m ≡ true
        → Copies d (some (done, d2))

  module _ (dr : Draining b) where
    pushed-left :
        (d d' : D) (m : Msg) (o : Option (Rc × D))
        → b.xsend d m ≡ o
        → pushed b o ≡ some d'
        → b.left d' ≤ b.left d
    pushed-left d d' m none h g = absurd (cc)
    pushed-left d d' m (some (error e, d2)) h g = absurd (cc)
    pushed-left d d' m (some (done, d2)) h g =
        let same : d2 ≡ d' = cc in
        subst (λ x. b.left x ≤ b.left d) same (dr.xsend_left d d2 m done h)

    label_round-Copies :
        (n : ℕ) (d : D) (o : Option (Got × D))
        → ((d' : D) → b.left d' < n → Copies d' (label_loop b n d'))
        → b.left d < suc n
        → b.xrecv d ≡ o
        → Copies d (label_loop b (suc n) d)
    unfolding label_loop
    label_round-Copies n d none rest low h = rw (h, label_loop) (asserts h)
    label_round-Copies n d (some (failed e, d1)) rest low h = rw (h, label_loop) (ends h)
    label_round-Copies n d (some (got m, d1)) rest low h =
        let less : b.left d1 < b.left d = dr.xrecv_left d d1 m h in
        elim (Bool-cases (more m)) [
          | inr last ↦
              let kept : b.left (b.rollback d1) ≤ b.left d1 = dr.rollback_left d1 in
              rw (h, label_loop, last) (discards h last (rest (b.rollback d1) (omega arith)))
          | inl on ↦ elim (Option-cases (pushed b (b.xsend d1 m))) [
            | inl refused ↦ rw (h, label_loop, on, refused) (refuses h on refused)
            | inr (d2, taken) ↦
                let kept : b.left d2 ≤ b.left d1 = pushed-left d1 d2 m (b.xsend d1 m) refl taken in
                elim (Bool-cases (is_empty m)) [
                  | inl delimiter ↦
                      rw (h, label_loop, on, taken, delimiter) (delimits h on taken delimiter)
                  | inr label ↦
                      rw (h, label_loop, on, taken, label)
                        (copies h on taken label (rest d2 (omega arith)))
                ]
          ]
        ]

    -- Where the base class gives a bounded number of parts, the loop over the labels ends with what
    -- `while (true)` ends with, in at most one round more than there are parts.
    pub label_loop-Copies : (n : ℕ) (d : D) → b.left d < n → Copies d (label_loop b n d)
    label_loop-Copies zero d low = absurd (omega arith)
    label_loop-Copies (suc n) d low =
        label_round-Copies n d (b.xrecv d) (λ d' less. label_loop-Copies n d' less) low refl
