-- ===== src/Sockets/Rep/Envelope.antt =====
-- What a REP socket does with the envelope of a request.
use cctas.Base.{
  ℕ, zero, suc, ◌<◌, ◌≤◌, ◌≡◌, refl, ap, ◌∙◌, true, false, not, some, List, [], ◌∷◌, arith,
}
use cctas.Framing.{Msg}
use cctas.Sockets.{done, got, more, is_empty, BaseClass}
use cctas.Sockets.Draining.{Draining}
use cctas.Sockets.Logged.{logged, log_sent-log, keep_log-log, logged-Draining}
use cctas.Sockets.Rep.{Rep, label_loop, xrecv}

-- The parts of xs on top of a log.
abbrev pub onto : List Msg → List Msg → List Msg
onto [] log = log
onto (x ∷ xs) log = onto xs (x ∷ log)

module _ {D : Type 0} (b : BaseClass D) where
  -- The base class gives the labels and the empty part below them, one after the other, and takes
  -- each as it comes.
  pub data Echoes : List Msg → D → D → Type 0 where
    delimiter :
        {d d1 d2 : D} (m : Msg)
        → b.xrecv d ≡ some (got m, d1)
        → more m ≡ true
        → is_empty m ≡ true
        → b.xsend d1 m ≡ some (done, d2)
        → Echoes (m ∷ []) d d2
    label :
        {d d1 d2 d3 : D} {ms : List Msg} (m : Msg)
        → b.xrecv d ≡ some (got m, d1)
        → more m ≡ true
        → is_empty m ≡ false
        → b.xsend d1 m ≡ some (done, d2)
        → Echoes ms d2 d3
        → Echoes (m ∷ ms) d d3

  module _ (dr : Draining b) where
    label_loop-Echoes :
        (n : ℕ) (ms : List Msg) (d d' : D)
        → Echoes ms d d'
        → b.left d < n
        → label_loop b n d ≡ some (done, d')
    unfolding label_loop
    label_loop-Echoes zero ms d d' es low = absurd (omega arith)
    label_loop-Echoes (suc n) ms d d' (delimiter m gave on empty took) low =
        rw (gave, label_loop, on, took, empty) refl
    label_loop-Echoes (suc n) ms d d' (label {d1 = d1} {d2 = d2} {ms = ms'} m gave on full took es)
          low =
        let less : b.left d1 < b.left d = dr.xrecv_left d d1 m gave in
        let kept : b.left d2 ≤ b.left d1 = dr.xsend_left d1 d2 m done took in
        rw (gave, label_loop, on, took, full) (label_loop-Echoes n ms' d2 d' es (omega arith))

    -- At the start of a request, past the labels xrecv gives the user the first part below them.
    xrecv-Echoes :
        (r : Rep D) (ms : List Msg) (d d' : D) (m : Msg)
        → r.sending_reply ≡ false
        → r.request_begins ≡ true
        → Echoes ms r.base d
        → b.xrecv d ≡ some (got m, d')
        → xrecv b r
          ≡ some (
            got m,
            record { base = d'; sending_reply = not (more m); request_begins = not (more m) },
          )
    unfolding xrecv
    xrecv-Echoes r ms d d' m waiting first es gave =
        let copied = label_loop-Echoes (suc (b.left r.base)) ms r.base d es (omega arith) in
        simp (waiting, first, copied, gave) (ground arith)

module _ {D : Type 0} (b : BaseClass D) where
  Echoes-log : (ms : List Msg) (s t : D × List Msg) → Echoes (logged b) ms s t → t.1 ≡ onto ms s.1
  Echoes-log ms s t (delimiter {d1 = s1} m gave on empty took) =
      log_sent-log s1.1 m (b.xsend s1.0 m) t took
      ∙ ap (◌∷◌ m) (keep_log-log s.1 (b.xrecv s.0) (got m) s1 gave)
  Echoes-log ms s t (label {d1 = s1} {d2 = s2} {ms = ms'} m gave on full took es) =
      Echoes-log ms' s2 t es
      ∙ ap (onto ms') (
          log_sent-log s1.1 m (b.xsend s1.0 m) s2 took
          ∙ ap (◌∷◌ m) (keep_log-log s.1 (b.xrecv s.0) (got m) s1 gave))

  -- At the start of a request whose labels and empty part router_t gives and takes, xrecv gives the
  -- user the first part below them; and the parts that router_t took are these labels and the
  -- empty part, in their order, with nothing else.
  pub rep-xrecv_labels :
      (r : Rep (D × List Msg)) (ms : List Msg) (s t : D × List Msg) (m : Msg)
      → Draining b
      → r.sending_reply ≡ false
      → r.request_begins ≡ true
      → Echoes (logged b) ms r.base s
      → (logged b).xrecv s ≡ some (got m, t)
      → (xrecv (logged b) r
          ≡ some (
            got m,
            record { base = t; sending_reply = not (more m); request_begins = not (more m) },
          ))
        × (t.1 ≡ onto ms r.base.1)
  rep-xrecv_labels r ms s t m dr waiting first es gave = (
    xrecv-Echoes (logged b) (logged-Draining b dr) r ms s t m waiting first es gave,
    keep_log-log s.1 (b.xrecv s.0) (got m) t gave ∙ Echoes-log ms r.base s es,
  )
