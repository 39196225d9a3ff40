-- ===== src/Options/Range.antt =====
-- The values that setsockopt lets through: every option stays in its range.
use cctas.Base.{
  ℕ, ◌≡◌, refl, sym, subst, Bool, true, false, ◌⊎◌, inl, inr, Option, none, some, List, [], ◌∷◌,
  arith, Option-cases,
}
use cctas.Options.Numbers.{
  ℤ, not_negative, is_positive, at_least_minus_one, is_bit, is_bit_or_minus_one,
  is_positive_or_minus_one, any_int, int_of,
}
use cctas.Options.{
  Name, Options, options, bytes_at, is_bad_name, set_int, setsockopt, zmq_sndhwm, zmq_rcvhwm,
  zmq_affinity, zmq_identity, zmq_rate, zmq_recovery_ivl, zmq_sndbuf, zmq_rcvbuf, zmq_linger,
  zmq_reconnect_ivl, zmq_reconnect_ivl_max, zmq_backlog, zmq_maxmsgsize, zmq_multicast_hops,
  zmq_rcvtimeo, zmq_sndtimeo, zmq_ipv4only, zmq_tcp_keepalive, zmq_delay_attach_on_connect,
  zmq_tcp_keepalive_cnt, zmq_tcp_keepalive_idle, zmq_tcp_keepalive_intvl, zmq_tcp_accept_filter,
  zmq_type, zmq_last_endpoint, unknown,
}
use cctas.Options.RoundTrip.{
  set_int_lem, set_int64_lem, set_uint64_lem, set_identity_lem, set_filter_lem,
}

-- The ranges of zmq_setsockopt(3) that the code tests; affinity, linger, backlog, maxmsgsize and the
-- timeouts have no test. An identity is empty, as at first, or one that may be set.
pub record InRange {Mask : Type 0} (o : Options Mask) : Type 0 where
  pub sndhwm_in : not_negative o.sndhwm ≡ true
  pub rcvhwm_in : not_negative o.rcvhwm ≡ true
  pub rate_in : is_positive o.rate ≡ true
  pub recovery_ivl_in : not_negative o.recovery_ivl ≡ true
  pub sndbuf_in : not_negative o.sndbuf ≡ true
  pub rcvbuf_in : not_negative o.rcvbuf ≡ true
  pub reconnect_ivl_in : at_least_minus_one o.reconnect_ivl ≡ true
  pub reconnect_ivl_max_in : not_negative o.reconnect_ivl_max ≡ true
  pub multicast_hops_in : is_positive o.multicast_hops ≡ true
  pub ipv4only_in : is_bit o.ipv4only ≡ true
  pub tcp_keepalive_in : is_bit_or_minus_one o.tcp_keepalive ≡ true
  pub delay_attach_on_connect_in : is_bit o.delay_attach_on_connect ≡ true
  pub tcp_keepalive_cnt_in : is_positive_or_minus_one o.tcp_keepalive_cnt ≡ true
  pub tcp_keepalive_idle_in : is_positive_or_minus_one o.tcp_keepalive_idle ≡ true
  pub tcp_keepalive_intvl_in : is_positive_or_minus_one o.tcp_keepalive_intvl ≡ true
  pub identity_in : (o.identity ≡ []) ⊎ (is_bad_name o.identity ≡ false)

module _ {Mask : Type 0} where
  options-InRange : InRange (options {Mask = Mask})
  unfolding options
  options-InRange = record {
    sndhwm_in = refl;
    rcvhwm_in = refl;
    rate_in = refl;
    recovery_ivl_in = refl;
    sndbuf_in = refl;
    rcvbuf_in = refl;
    reconnect_ivl_in = refl;
    reconnect_ivl_max_in = refl;
    multicast_hops_in = refl;
    ipv4only_in = refl;
    tcp_keepalive_in = refl;
    delay_attach_on_connect_in = refl;
    tcp_keepalive_cnt_in = refl;
    tcp_keepalive_idle_in = refl;
    tcp_keepalive_intvl_in = refl;
    identity_in = inl refl;
  }

  int_InRange :
      (v : Option (List ℕ)) (ok : ℤ → Bool) (store : ℤ → Options Mask) (o' : Options Mask)
      → ((x : ℤ) → ok x ≡ true → InRange (store x))
      → set_int v ok store ≡ some o'
      → InRange o'
  int_InRange v ok store o' keep h =
      let (_, good, stored) = set_int_lem v ok store o' h in
      subst InRange (sym stored) (keep (int_of (bytes_at v)) good)

  module _ (resolve : List ℕ → Bool → Option Mask) where
    setsockopt-InRange :
        (k : Name) (v : Option (List ℕ)) (o o' : Options Mask)
        → InRange o
        → setsockopt resolve k v o ≡ some o'
        → InRange o'
    unfolding setsockopt
    setsockopt-InRange zmq_sndhwm v o o' r h =
        int_InRange v not_negative (λ x. record o { sndhwm = x }) o' (λ x g. ground (arith, r)) h
    setsockopt-InRange zmq_rcvhwm v o o' r h =
        int_InRange v not_negative (λ x. record o { rcvhwm = x }) o' (λ x g. ground (arith, r)) h
    setsockopt-InRange zmq_affinity v o o' r h =
        let (_, stored) = set_uint64_lem v (λ x. record o { affinity = x }) o' h in
        subst InRange (sym stored) (ground (arith, r))
    setsockopt-InRange zmq_identity v o o' r h =
        let (good, stored) = set_identity_lem v o o' h in
        subst InRange (sym stored) (ground (arith, r, good))
    setsockopt-InRange zmq_rate v o o' r h =
        int_InRange v is_positive (λ x. record o { rate = x }) o' (λ x g. ground (arith, r)) h
    setsockopt-InRange zmq_recovery_ivl v o o' r h =
        int_InRange v not_negative (λ x. record o { recovery_ivl = x }) o'
          (λ x g. ground (arith, r)) h
    setsockopt-InRange zmq_sndbuf v o o' r h =
        int_InRange v not_negative (λ x. record o { sndbuf = x }) o' (λ x g. ground (arith, r)) h
    setsockopt-InRange zmq_rcvbuf v o o' r h =
        int_InRange v not_negative (λ x. record o { rcvbuf = x }) o' (λ x g. ground (arith, r)) h
    setsockopt-InRange zmq_linger v o o' r h =
        int_InRange v any_int (λ x. record o { linger = x }) o' (λ x g. ground (arith, r)) h
    setsockopt-InRange zmq_reconnect_ivl v o o' r h =
        int_InRange v at_least_minus_one (λ x. record o { reconnect_ivl = x }) o'
          (λ x g. ground (arith, r)) h
    setsockopt-InRange zmq_reconnect_ivl_max v o o' r h =
        int_InRange v not_negative (λ x. record o { reconnect_ivl_max = x }) o'
          (λ x g. ground (arith, r)) h
    setsockopt-InRange zmq_backlog v o o' r h =
        int_InRange v any_int (λ x. record o { backlog = x }) o' (λ x g. ground (arith, r)) h
    setsockopt-InRange zmq_maxmsgsize v o o' r h =
        let (_, stored) = set_int64_lem v (λ x. record o { maxmsgsize = x }) o' h in
        subst InRange (sym stored) (ground (arith, r))
    setsockopt-InRange zmq_multicast_hops v o o' r h =
        int_InRange v is_positive (λ x. record o { multicast_hops = x }) o'
          (λ x g. ground (arith, r)) h
    setsockopt-InRange zmq_rcvtimeo v o o' r h =
        int_InRange v any_int (λ x. record o { rcvtimeo = x }) o' (λ x g. ground (arith, r)) h
    setsockopt-InRange zmq_sndtimeo v o o' r h =
        int_InRange v any_int (λ x. record o { sndtimeo = x }) o' (λ x g. ground (arith, r)) h
    setsockopt-InRange zmq_ipv4only v o o' r h =
        int_InRange v is_bit (λ x. record o { ipv4only = x }) o' (λ x g. ground (arith, r)) h
    setsockopt-InRange zmq_tcp_keepalive v o o' r h =
        int_InRange v is_bit_or_minus_one (λ x. record o { tcp_keepalive = x }) o'
          (λ x g. ground (arith, r)) h
    setsockopt-InRange zmq_delay_attach_on_connect v o o' r h =
        int_InRange v is_bit (λ x. record o { delay_attach_on_connect = x }) o'
          (λ x g. ground (arith, r)) h
    setsockopt-InRange zmq_tcp_keepalive_cnt v o o' r h =
        int_InRange v is_positive_or_minus_one (λ x. record o { tcp_keepalive_cnt = x }) o'
          (λ x g. ground (arith, r)) h
    setsockopt-InRange zmq_tcp_keepalive_idle v o o' r h =
        int_InRange v is_positive_or_minus_one (λ x. record o { tcp_keepalive_idle = x }) o'
          (λ x g. ground (arith, r)) h
    setsockopt-InRange zmq_tcp_keepalive_intvl v o o' r h =
        int_InRange v is_positive_or_minus_one (λ x. record o { tcp_keepalive_intvl = x }) o'
          (λ x g. ground (arith, r)) h
    setsockopt-InRange zmq_tcp_accept_filter v o o' r h =
        let (fs, stored) = set_filter_lem resolve v o o' h in
        subst InRange (sym stored) (ground (arith, r))
    setsockopt-InRange zmq_type v o o' r h = absurd (cc)
    setsockopt-InRange zmq_last_endpoint v o o' r h = absurd (cc)
    setsockopt-InRange unknown v o o' r h = absurd (cc)

    -- A sequence of calls; one that fails leaves the options as they are.
    abbrev pub set_or_keep : Name → Option (List ℕ) → Options Mask → Options Mask
    set_or_keep k v o = elim (setsockopt resolve k v o) [ none ↦ o | some o' ↦ o' ]

    abbrev pub set_all : List (Name × Option (List ℕ)) → Options Mask → Options Mask
    set_all [] o = o
    set_all (c ∷ cs) o = set_all cs (set_or_keep c.0 c.1 o)

    set_or_keep-InRange :
        (k : Name) (v : Option (List ℕ)) (o : Options Mask)
        → InRange o
        → InRange (set_or_keep k v o)
    set_or_keep-InRange k v o r = elim (Option-cases (setsockopt resolve k v o)) [
      | inl failed ↦ rw (failed, set_or_keep) r
      | inr (o', done) ↦ rw (done, set_or_keep) (setsockopt-InRange k v o o' r done)
    ]

    set_all-InRange :
        (cs : List (Name × Option (List ℕ))) (o : Options Mask) → InRange o → InRange (set_all cs o)
    set_all-InRange [] o r = r
    set_all-InRange (c ∷ cs) o r =
        set_all-InRange cs (set_or_keep c.0 c.1 o) (set_or_keep-InRange c.0 c.1 o r)

    -- Whatever calls of setsockopt are made on fresh options, the options whose values it tests are in
    -- their ranges: the high water marks, rate, recovery_ivl, sndbuf, rcvbuf, reconnect_ivl,
    -- reconnect_ivl_max, multicast_hops, ipv4only, the keepalives, delay_attach_on_connect and the
    -- identity.
    pub set_all-options-InRange :
        (cs : List (Name × Option (List ℕ))) → InRange (set_all cs options)
    set_all-options-InRange cs = set_all-InRange cs options options-InRange
