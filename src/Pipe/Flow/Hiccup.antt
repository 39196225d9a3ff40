-- ===== src/Pipe/Flow/Hiccup.antt =====
-- What a hiccup leaves of the window: the count of what was in the old queue.
use cctas.Base.{
  ◌+◌, ◌<◌, ◌≡◌, refl, sym, ap, ◌∙◌, subst, none, true, false, ◌&&◌, ◌==◌, ltb, some, [], arith,
  Bool-cases, inl, inr,
}
use cctas.Ypipe.{ypipe}
use cctas.Pipe.{Pipe, is_active, tell, hiccuped}
use cctas.Pipe.Writing.{check_write, in_flight}
use cctas.Pipe.Closing.{process_hiccup}
use cctas.Pipe.Flow.Ends.{Writes}

module _ {M : Type 0} where
  -- An active writer, with its counts in their window, that stands at its high water mark and gets a
  -- new, empty queue has out_active set and still refuses to write, although nothing waits in the
  -- queue.
  pub hiccup_stalls :
      (p p' : Pipe M)
      → Writes p
      → 0 < p.hwm
      → p.msgs_written ≡ p.peers_msgs_read + p.hwm
      → process_hiccup ypipe p ≡ some p'
      → (p'.outq.items ≡ []) × (p'.out_active ≡ true) × ((check_write p').0 ≡ false)
  unfolding process_hiccup check_write ypipe
  hiccup_stalls p p' v bounded full h =
      let live : is_active p.state ≡ true = ap is_active v.goes_on in
      let p2 : Pipe M = tell hiccuped (record p { outq = ypipe; out_active = true }) in
      let shut : (ltb 0 p.hwm && (in_flight p == p.hwm)) ≡ true =
        ground (arith, full, bounded, v.window.small, v.window.peer_behind) in
      let refuses : (check_write p2).0 ≡ false = simp (live, shut) refl in
      elim (Bool-cases p.has_out) [
        | inl has ↦
            let e : process_hiccup ypipe p ≡ some p2 = simp (has, live) refl in
            let same : p2 ≡ p' = cc (sym e ∙ h) in
            subst
              (λ (q : Pipe M).
                (q.outq.items ≡ []) × (q.out_active ≡ true) × ((check_write q).0 ≡ false))
              same (refl, refl, refuses)
        | inr lost ↦
            let e : process_hiccup ypipe p ≡ none = simp lost refl in absurd (cc (sym e ∙ h))
      ]
