-- ===== src/Pipe/Flow/Reader.antt =====
-- The acts of the reading side: read, check_read, and the writer's word.
use cctas.Base.{
  ℕ, ◌+◌, ◌%◌, ◌^◌, ◌≤◌, ◌<◌, ◌==◌, ◌≡◌, ◌≢◌, refl, sym, ap, ◌∙◌, subst, ltb, Bool, true, not, ◌&&◌,
  List, [], ◌∷◌, ◌++◌, if◌then◌else◌, arith, ap₂, ℕ_discrete, dec_lt, Bool-cases, inl, inr,
}
use native.Mathlib.Nat.{mod-lt, mod-add-mod, mod-eq_of_lt, mod_self}
use cctas.Ypipe.{Ypipe}
use cctas.Pipe.{Pipe, Parts, is_open, Command, tell, read_activated, activate_write}
use cctas.Pipe.Reading.{process_activate_read, count_read}
use cctas.Pipe.Flow.Counting.{whole}
use cctas.Pipe.Flow.Ends.{Works, still_Written, unsaid_Taken, idle_Works, latest, Climbs}

-- one step further in a round of l
mod_next : (n l : ℕ) → 0 < l → (n + 1) % l ≢ 0 → (n + 1) % l ≡ n % l + 1
mod_next n l pos ne =
    let below = mod-lt n pos in
    elim (dec_lt (n % l + 1) l) [
      | yes lt ↦ sym (mod-add-mod n l 1) ∙ mod-eq_of_lt lt
      | no more ↦
          let round : n % l + 1 ≡ l = omega (arith, below) in
          absurd (ne (sym (mod-add-mod n l 1) ∙ ap (λ k. k % l) round ∙ mod_self l))
    ]

module _ {M : Type 0} (ms : Parts M) (p : Pipe M) (quiet : p.sent ≡ []) where
  -- the end behind a part that was read, which left q, with n messages read
  abbrev after_read : Ypipe M → ℕ → List (Command M) → Pipe M
  after_read q n cs = record p { inq = q; msgs_read = n; sent = cs }

  after_read-Works :
      (q : Ypipe M) (n : ℕ) (cs : List (Command M))
      → n + whole ms q.items ≡ p.msgs_read + whole ms p.inq.items
      → ((lo : ℕ) → lo ≤ p.msgs_read → Climbs lo cs n)
      → ((lo : ℕ)
          → 0 < p.lwm
          → lo + p.msgs_read % p.lwm ≡ p.msgs_read
          → latest lo cs + n % p.lwm ≡ n)
      → Works ms p (after_read q n cs)
  after_read-Works q n cs counted climbs acked = (
    still_Written ms p (after_read q n cs) refl refl refl refl refl,
    record { same_lwm = refl; counted = counted; climbs = climbs; acked = acked },
  )

  module _ (q : Ypipe M) (m : M) (taken : p.inq.items ≡ m ∷ q.items)
      (wide : p.msgs_read + whole ms p.inq.items < 2 ^ 64) where
    abbrev n : ℕ
    n = if ms.has_more m then p.msgs_read else (p.msgs_read + 1) % 2 ^ 64

    left : whole ms p.inq.items ≡ whole ms (m ∷ q.items)
    left = ap (whole ms) taken

    counts : n + whole ms q.items ≡ p.msgs_read + whole ms p.inq.items
    counts = ground (arith, left, wide)

    n-up : p.msgs_read ≤ n
    n-up = ground (arith, left, wide)

    n-next : n ≢ p.msgs_read → n ≡ p.msgs_read + 1
    n-next ne = ground (arith, left, wide)

    unsaid-Climbs : (lo : ℕ) → lo ≤ p.msgs_read → Climbs lo p.sent n
    unsaid-Climbs lo le = subst (λ cs. Climbs lo cs n) (sym quiet) (omega (arith, n-up, le))

    unsaid_acked :
        n % p.lwm ≢ 0
        → (lo : ℕ) → 0 < p.lwm
        → lo + p.msgs_read % p.lwm ≡ p.msgs_read
        → latest lo p.sent + n % p.lwm ≡ n
    unsaid_acked ne lo pos h =
        let last : latest lo p.sent ≡ lo = ap (latest lo) quiet in
        elim (ℕ_discrete n p.msgs_read) [
          | yes same ↦ ap₂ (λ a b. a + b % p.lwm) last same ∙ h ∙ sym same
          | no other ↦
              let next : n ≡ p.msgs_read + 1 = n-next other in
              let e : n % p.lwm ≡ (p.msgs_read + 1) % p.lwm = ap (λ k. k % p.lwm) next in
              omega (arith, last, h, e, next, mod_next p.msgs_read p.lwm pos (λ k. ne (e ∙ k)))
        ]

    pub count_read-Works : Works ms p (count_read (ms.has_more m) (record p { inq = q }))
    count_read-Works = elim (Bool-cases (ltb 0 p.lwm)) [
      | inl bounded ↦ elim (Bool-cases (n % p.lwm == 0)) [
        | inl round ↦
            let e : count_read (ms.has_more m) (record p { inq = q })
                ≡ after_read q n (p.sent ++ (activate_write n ∷ [])) =
              simp (bounded, round) refl in
            let said : p.sent ++ (activate_write n ∷ []) ≡ activate_write n ∷ [] =
              ap (λ cs. cs ++ (activate_write n ∷ [])) quiet in
            subst (Works ms p) (sym e) (
              after_read-Works q n (p.sent ++ (activate_write n ∷ [])) counts
                (λ lo le.
                  subst (λ cs. Climbs lo cs n) (sym said) (omega (arith, n-up, le), omega arith))
                (λ lo pos h.
                  subst (λ cs. latest lo cs + n % p.lwm ≡ n) (sym said) (ground (arith, round))))
        | inr within ↦
            let e : count_read (ms.has_more m) (record p { inq = q }) ≡ after_read q n p.sent =
              simp (bounded, within) refl in
            subst (Works ms p) (sym e) (
              after_read-Works q n p.sent counts unsaid-Climbs
                (unsaid_acked (ground (arith, within))))
      ]
      | inr unbounded ↦
          let e : count_read (ms.has_more m) (record p { inq = q }) ≡ after_read q n p.sent =
            simp unbounded refl in
          subst (Works ms p) (sym e) (
            after_read-Works q n p.sent counts unsaid-Climbs
              (λ lo pos h. absurd (ground (arith, pos, unbounded))))
    ]

  -- the end whose queue had nothing to read
  pub slept_Works :
      (q : Ypipe M) (b : Bool)
      → q.items ≡ p.inq.items
      → Works ms p (record p { inq = q; in_active = b })
  slept_Works q b same = (
    still_Written ms p (record p { inq = q; in_active = b }) refl refl refl refl refl,
    unsaid_Taken ms p (record p { inq = q; in_active = b }) refl refl same quiet,
  )

  pub activate_read-Works : Works ms p (process_activate_read p)
  unfolding process_activate_read
  activate_read-Works = elim (Bool-cases (not p.in_active && is_open p.state)) [
    | inl wakes ↦
        let p1 : Pipe M = tell read_activated (record p { in_active = true }) in
        rw wakes (
          still_Written ms p p1 refl refl refl refl refl,
          unsaid_Taken ms p p1 refl refl refl quiet,
        )
    | inr keeps ↦ rw keeps (idle_Works ms p quiet)
  ]
