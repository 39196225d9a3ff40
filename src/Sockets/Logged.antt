-- ===== src/Sockets/Logged.antt =====
-- A base class that also keeps the parts that its xsend took, the last one first.
use cctas.Base.{◌≡◌, sym, ap, Option, none, some, List, [], ◌∷◌}
use cctas.Framing.{Msg}
use cctas.Sockets.{Rc, done, error, got, BaseClass}
use cctas.Sockets.Draining.{Draining}

module _ {D : Type 0} where
  abbrev pub log_sent : List Msg → Msg → Option (Rc × D) → Option (Rc × (D × List Msg))
  log_sent log m none = none
  log_sent log m (some (error e, d)) = some (error e, (d, log))
  log_sent log m (some (done, d)) = some (done, (d, m ∷ log))

  abbrev pub keep_log {ℓ} : {A : Type ℓ} → List Msg → Option (A × D) → Option (A × (D × List Msg))
  keep_log log none = none
  keep_log log (some (a, d)) = some (a, (d, log))

  abbrev pub logged : BaseClass D → BaseClass (D × List Msg)
  logged b = record {
    xsend = λ s m. log_sent s.1 m (b.xsend s.0 m);
    xrecv = λ s. keep_log s.1 (b.xrecv s.0);
    xhas_in = λ s. keep_log s.1 (b.xhas_in s.0);
    xhas_out = λ s. ((b.xhas_out s.0).0, ((b.xhas_out s.0).1, s.1));
    rollback = λ s. (b.rollback s.0, s.1);
    left = λ s. b.left s.0;
  }

  abbrev pub NoLog : D × List Msg → Type 0
  NoLog s = s.1 ≡ []

  -- The pipes leave the log alone.
  abbrev pub SameLog : D × List Msg → D × List Msg → Type 0
  SameLog s t = t.1 ≡ s.1

  -- A part that was taken is on top of the log; all else leaves it.
  pub log_sent-log :
      (log : List Msg) (m : Msg) (o : Option (Rc × D)) (s : D × List Msg)
      → log_sent log m o ≡ some (done, s)
      → s.1 ≡ m ∷ log
  log_sent-log log m none s h = absurd (cc)
  log_sent-log log m (some (error e, d)) s h = absurd (cc)
  log_sent-log log m (some (done, d)) s h =
      let same : (d, m ∷ log) ≡ s = cc in sym (ap (λ t. t.1) same)

  pub keep_log-log {ℓ} :
      {A : Type ℓ} (log : List Msg) (o : Option (A × D)) (a : A) (s : D × List Msg)
      → keep_log log o ≡ some (a, s)
      → s.1 ≡ log
  keep_log-log log none a s h = absurd (cc)
  keep_log-log log (some (a', d)) a s h = let same : (d, log) ≡ s = cc in sym (ap (λ t. t.1) same)

  log_sent-base :
      (log : List Msg) (m : Msg) (o : Option (Rc × D)) (rc : Rc) (s : D × List Msg)
      → log_sent log m o ≡ some (rc, s)
      → o ≡ some (rc, s.0)
  log_sent-base log m none rc s h = absurd (cc)
  log_sent-base log m (some (error e, d)) rc s h = cc
  log_sent-base log m (some (done, d)) rc s h = cc

  keep_log-base :
      {A : Type 0} (log : List Msg) (o : Option (A × D)) (a : A) (s : D × List Msg)
      → keep_log log o ≡ some (a, s)
      → o ≡ some (a, s.0)
  keep_log-base log none a s h = absurd (cc)
  keep_log-base log (some (a', d)) a s h = cc

  pub logged-Draining : (b : BaseClass D) → Draining b → Draining (logged b)
  logged-Draining b dr = record {
    xrecv_left = λ s t m h. dr.xrecv_left s.0 t.0 m (keep_log-base s.1 (b.xrecv s.0) (got m) t h);
    xsend_left =
        λ s t m rc h. dr.xsend_left s.0 t.0 m rc (log_sent-base s.1 m (b.xsend s.0 m) rc t h);
    rollback_left = λ s. dr.rollback_left s.0;
  }
