-- ===== src/Options/RoundTrip.antt =====
-- What setsockopt stores, getsockopt reads, and it stores nothing else.
use cctas.Base.{
  ℕ, ◌≤◌, ◌≡◌, ◌≢◌, refl, ap, ◌∙◌, ◌==◌, ltb, Bool, true, false, not, Option, none, some, List, [],
  ◌∷◌, ◌++◌, if◌then◌else◌, arith, length, Bool-cases, inl, inr,
}
use cctas.Options.Numbers.{
  ℤ, int_of, bytes_of_int, int64_of, bytes_of_int64, uint64_of, bytes_of_uint64, Bytes,
  bytes_of_int-int_of, bytes_of_int64-int64_of, bytes_of_uint64-uint64_of, is_zero, any_int,
  not_negative, is_positive, at_least_minus_one, is_bit, is_bit_or_minus_one,
  is_positive_or_minus_one,
}
use cctas.Options.{
  Name, Options, bytes_at, set_int, set_int64, set_uint64, is_bad_name, set_filter, push_filter,
  setsockopt, getsockopt, get_bytes, zmq_sndhwm, zmq_rcvhwm, zmq_affinity, zmq_identity, zmq_rate,
  zmq_recovery_ivl, zmq_sndbuf, zmq_rcvbuf, zmq_linger, zmq_reconnect_ivl, zmq_reconnect_ivl_max,
  zmq_backlog, zmq_maxmsgsize, zmq_multicast_hops, zmq_rcvtimeo, zmq_sndtimeo, zmq_ipv4only,
  zmq_tcp_keepalive, zmq_delay_attach_on_connect, zmq_tcp_keepalive_cnt, zmq_tcp_keepalive_idle,
  zmq_tcp_keepalive_intvl, zmq_tcp_accept_filter, zmq_type, zmq_last_endpoint, unknown,
}

read_back :
    (room : ℕ) (bytes v : List ℕ) → bytes ≡ v → length v ≤ room → get_bytes room bytes ≡ some v
read_back room bytes v e h =
    let fits : ltb room (length v) ≡ false = ground arith in ap (get_bytes room) e ∙ rw fits

module _ {Mask : Type 0} where
  -- What an int option that was set stores.
  pub set_int_lem :
      (v : Option (List ℕ)) (ok : ℤ → Bool) (store : ℤ → Options Mask) (o' : Options Mask)
      → set_int v ok store ≡ some o'
      → (length (bytes_at v) ≡ 4)
        × (ok (int_of (bytes_at v)) ≡ true)
        × (o' ≡ store (int_of (bytes_at v)))
  set_int_lem v ok store o' h = elim (Bool-cases (length (bytes_at v) == 4)) [
    | inr wrong ↦ absurd (cc (rw wrong at h))
    | inl four ↦ elim (Bool-cases (ok (int_of (bytes_at v)))) [
      | inr bad ↦ absurd (cc (rw (four, bad) at h))
      | inl good ↦
          let stored : some (store (int_of (bytes_at v))) ≡ some o' = rw (four, good) at h in
          (ground (arith, four), good, cc)
    ]
  ]

  -- What an int64_t option that was set stores.
  pub set_int64_lem :
      (v : Option (List ℕ)) (store : ℤ → Options Mask) (o' : Options Mask)
      → set_int64 v store ≡ some o'
      → (length (bytes_at v) ≡ 8) × (o' ≡ store (int64_of (bytes_at v)))
  set_int64_lem v store o' h = elim (Bool-cases (length (bytes_at v) == 8)) [
    | inr wrong ↦ absurd (cc (rw wrong at h))
    | inl eight ↦
        let stored : some (store (int64_of (bytes_at v))) ≡ some o' = rw eight at h in
        (ground (arith, eight), cc)
  ]

  -- What a uint64_t option that was set stores.
  pub set_uint64_lem :
      (v : Option (List ℕ)) (store : ℕ → Options Mask) (o' : Options Mask)
      → set_uint64 v store ≡ some o'
      → (length (bytes_at v) ≡ 8) × (o' ≡ store (uint64_of (bytes_at v)))
  set_uint64_lem v store o' h = elim (Bool-cases (length (bytes_at v) == 8)) [
    | inr wrong ↦ absurd (cc (rw wrong at h))
    | inl eight ↦
        let stored : some (store (uint64_of (bytes_at v))) ≡ some o' = rw eight at h in
        (ground (arith, eight), cc)
  ]

  -- What an identity that was set stores.
  pub set_identity_lem :
      (v : Option (List ℕ)) (o o' : Options Mask)
      → (if is_bad_name (bytes_at v) then none else some (record o { identity = bytes_at v }))
        ≡ some o'
      → (is_bad_name (bytes_at v) ≡ false) × (o' ≡ record o { identity = bytes_at v })
  set_identity_lem v o o' h = elim (Bool-cases (is_bad_name (bytes_at v))) [
    | inl bad ↦ absurd (cc (rw bad at h))
    | inr good ↦
        let stored : some (record o { identity = bytes_at v }) ≡ some o' = rw good at h in
        (good, cc)
  ]

  push_filter_lem :
      (o o' : Options Mask) (m : Option Mask)
      → push_filter o m ≡ some o'
      → (fs : List Mask) × (o' ≡ record o { tcp_accept_filters = fs })
  push_filter_lem o o' none h = absurd (cc)
  push_filter_lem o o' (some m) h = (o.tcp_accept_filters ++ (m ∷ []), cc)

  -- Setting a filter changes nothing but the filters.
  pub set_filter_lem :
      (resolve : List ℕ → Bool → Option Mask) (v : Option (List ℕ)) (o o' : Options Mask)
      → set_filter resolve v o ≡ some o'
      → (fs : List Mask) × (o' ≡ record o { tcp_accept_filters = fs })
  set_filter_lem resolve none o o' h = ([], cc)
  set_filter_lem resolve (some bytes) o o' h = elim (Bool-cases (is_bad_name bytes)) [
    | inl bad ↦ absurd (cc (rw bad at h))
    | inr good ↦ push_filter_lem o o' (resolve bytes (not (is_zero o.ipv4only))) (rw good at h)
  ]

  int_back :
      (v : List ℕ) (ok : ℤ → Bool) (store : ℤ → Options Mask) (field : Options Mask → ℤ)
      (o' : Options Mask) (room : ℕ)
      → ((x : ℤ) → field (store x) ≡ x)
      → Bytes v
      → length v ≤ room
      → set_int (some v) ok store ≡ some o'
      → get_bytes room (bytes_of_int (field o')) ≡ some v
  int_back v ok store field o' room same b fits h =
      let (four, _, stored) = set_int_lem (some v) ok store o' h in
      read_back room (bytes_of_int (field o')) v
        (ap (λ p. bytes_of_int (field p)) stored
          ∙ ap bytes_of_int (same (int_of v))
          ∙ bytes_of_int-int_of v four b)
        fits

  int_other :
      (v : Option (List ℕ)) (ok : ℤ → Bool) (store : ℤ → Options Mask) (o o' : Options Mask)
      (k : Name) (room : ℕ)
      → ((x : ℤ) → getsockopt k room (store x) ≡ getsockopt k room o)
      → set_int v ok store ≡ some o'
      → getsockopt k room o' ≡ getsockopt k room o
  int_other v ok store o o' k room same h =
      let (_, _, stored) = set_int_lem v ok store o' h in
      ap (getsockopt k room) stored ∙ same (int_of (bytes_at v))

  module _ (resolve : List ℕ → Bool → Option Mask) where
    -- After a successful setsockopt of any option but the accept filters, getsockopt with enough
    -- room gives the bytes that were set.
    pub getsockopt-setsockopt :
        (k : Name) (v : List ℕ) (o o' : Options Mask) (room : ℕ)
        → k ≢ zmq_tcp_accept_filter
        → Bytes v
        → length v ≤ room
        → setsockopt resolve k (some v) o ≡ some o'
        → getsockopt k room o' ≡ some v
    unfolding setsockopt getsockopt
    getsockopt-setsockopt zmq_sndhwm v o o' room ne b fits h =
        int_back v not_negative (λ x. record o { sndhwm = x }) (λ q. q.sndhwm) o' room (λ x. refl) b
          fits h
    getsockopt-setsockopt zmq_rcvhwm v o o' room ne b fits h =
        int_back v not_negative (λ x. record o { rcvhwm = x }) (λ q. q.rcvhwm) o' room (λ x. refl) b
          fits h
    getsockopt-setsockopt zmq_affinity v o o' room ne b fits h =
        let (eight, stored) = set_uint64_lem (some v) (λ x. record o { affinity = x }) o' h in
        read_back room _ v
          (ap (λ q. bytes_of_uint64 (q.affinity)) stored ∙ bytes_of_uint64-uint64_of v eight b) fits
    getsockopt-setsockopt zmq_identity v o o' room ne b fits h =
        read_back room _ v (ap (λ q. q.identity) (set_identity_lem (some v) o o' h).1) fits
    getsockopt-setsockopt zmq_rate v o o' room ne b fits h =
        int_back v is_positive (λ x. record o { rate = x }) (λ q. q.rate) o' room (λ x. refl) b fits
          h
    getsockopt-setsockopt zmq_recovery_ivl v o o' room ne b fits h =
        int_back v not_negative (λ x. record o { recovery_ivl = x }) (λ q. q.recovery_ivl) o' room
          (λ x. refl) b fits h
    getsockopt-setsockopt zmq_sndbuf v o o' room ne b fits h =
        int_back v not_negative (λ x. record o { sndbuf = x }) (λ q. q.sndbuf) o' room (λ x. refl) b
          fits h
    getsockopt-setsockopt zmq_rcvbuf v o o' room ne b fits h =
        int_back v not_negative (λ x. record o { rcvbuf = x }) (λ q. q.rcvbuf) o' room (λ x. refl) b
          fits h
    getsockopt-setsockopt zmq_linger v o o' room ne b fits h =
        int_back v any_int (λ x. record o { linger = x }) (λ q. q.linger) o' room (λ x. refl) b fits
          h
    getsockopt-setsockopt zmq_reconnect_ivl v o o' room ne b fits h =
        int_back v at_least_minus_one (λ x. record o { reconnect_ivl = x }) (λ q. q.reconnect_ivl)
          o' room (λ x. refl) b fits h
    getsockopt-setsockopt zmq_reconnect_ivl_max v o o' room ne b fits h =
        int_back v not_negative (λ x. record o { reconnect_ivl_max = x }) (λ q. q.reconnect_ivl_max)
          o' room (λ x. refl) b fits h
    getsockopt-setsockopt zmq_backlog v o o' room ne b fits h =
        int_back v any_int (λ x. record o { backlog = x }) (λ q. q.backlog) o' room (λ x. refl) b
          fits h
    getsockopt-setsockopt zmq_maxmsgsize v o o' room ne b fits h =
        let (eight, stored) = set_int64_lem (some v) (λ x. record o { maxmsgsize = x }) o' h in
        read_back room _ v
          (ap (λ q. bytes_of_int64 (q.maxmsgsize)) stored ∙ bytes_of_int64-int64_of v eight b) fits
    getsockopt-setsockopt zmq_multicast_hops v o o' room ne b fits h =
        int_back v is_positive (λ x. record o { multicast_hops = x }) (λ q. q.multicast_hops) o'
          room (λ x. refl) b fits h
    getsockopt-setsockopt zmq_rcvtimeo v o o' room ne b fits h =
        int_back v any_int (λ x. record o { rcvtimeo = x }) (λ q. q.rcvtimeo) o' room (λ x. refl) b
          fits h
    getsockopt-setsockopt zmq_sndtimeo v o o' room ne b fits h =
        int_back v any_int (λ x. record o { sndtimeo = x }) (λ q. q.sndtimeo) o' room (λ x. refl) b
          fits h
    getsockopt-setsockopt zmq_ipv4only v o o' room ne b fits h =
        int_back v is_bit (λ x. record o { ipv4only = x }) (λ q. q.ipv4only) o' room (λ x. refl) b
          fits h
    getsockopt-setsockopt zmq_tcp_keepalive v o o' room ne b fits h =
        int_back v is_bit_or_minus_one (λ x. record o { tcp_keepalive = x }) (λ q. q.tcp_keepalive)
          o' room (λ x. refl) b fits h
    getsockopt-setsockopt zmq_delay_attach_on_connect v o o' room ne b fits h =
        int_back v is_bit (λ x. record o { delay_attach_on_connect = x })
          (λ q. q.delay_attach_on_connect) o' room (λ x. refl) b fits h
    getsockopt-setsockopt zmq_tcp_keepalive_cnt v o o' room ne b fits h =
        int_back v is_positive_or_minus_one (λ x. record o { tcp_keepalive_cnt = x })
          (λ q. q.tcp_keepalive_cnt) o' room (λ x. refl) b fits h
    getsockopt-setsockopt zmq_tcp_keepalive_idle v o o' room ne b fits h =
        int_back v is_positive_or_minus_one (λ x. record o { tcp_keepalive_idle = x })
          (λ q. q.tcp_keepalive_idle) o' room (λ x. refl) b fits h
    getsockopt-setsockopt zmq_tcp_keepalive_intvl v o o' room ne b fits h =
        int_back v is_positive_or_minus_one (λ x. record o { tcp_keepalive_intvl = x })
          (λ q. q.tcp_keepalive_intvl) o' room (λ x. refl) b fits h
    getsockopt-setsockopt zmq_tcp_accept_filter v o o' room ne b fits h = absurd (ne refl)
    getsockopt-setsockopt zmq_type v o o' room ne b fits h = absurd (cc)
    getsockopt-setsockopt zmq_last_endpoint v o o' room ne b fits h = absurd (cc)
    getsockopt-setsockopt unknown v o o' room ne b fits h = absurd (cc)

    -- A successful setsockopt changes what getsockopt answers for no other option.
    pub getsockopt-setsockopt_other :
        (k k' : Name) (v : Option (List ℕ)) (o o' : Options Mask) (room : ℕ)
        → k' ≢ k
        → setsockopt resolve k v o ≡ some o'
        → getsockopt k' room o' ≡ getsockopt k' room o
    unfolding setsockopt getsockopt
    getsockopt-setsockopt_other zmq_sndhwm k' v o o' room ne h =
        int_other v not_negative (λ x. record o { sndhwm = x }) o o' k' room (λ x. ground arith) h
    getsockopt-setsockopt_other zmq_rcvhwm k' v o o' room ne h =
        int_other v not_negative (λ x. record o { rcvhwm = x }) o o' k' room (λ x. ground arith) h
    getsockopt-setsockopt_other zmq_affinity k' v o o' room ne h =
        let (_, stored) = set_uint64_lem v (λ x. record o { affinity = x }) o' h in
        ap (getsockopt k' room) stored ∙ ground arith
    getsockopt-setsockopt_other zmq_identity k' v o o' room ne h =
        ap (getsockopt k' room) (set_identity_lem v o o' h).1 ∙ ground arith
    getsockopt-setsockopt_other zmq_rate k' v o o' room ne h =
        int_other v is_positive (λ x. record o { rate = x }) o o' k' room (λ x. ground arith) h
    getsockopt-setsockopt_other zmq_recovery_ivl k' v o o' room ne h =
        int_other v not_negative (λ x. record o { recovery_ivl = x }) o o' k' room
          (λ x. ground arith) h
    getsockopt-setsockopt_other zmq_sndbuf k' v o o' room ne h =
        int_other v not_negative (λ x. record o { sndbuf = x }) o o' k' room (λ x. ground arith) h
    getsockopt-setsockopt_other zmq_rcvbuf k' v o o' room ne h =
        int_other v not_negative (λ x. record o { rcvbuf = x }) o o' k' room (λ x. ground arith) h
    getsockopt-setsockopt_other zmq_linger k' v o o' room ne h =
        int_other v any_int (λ x. record o { linger = x }) o o' k' room (λ x. ground arith) h
    getsockopt-setsockopt_other zmq_reconnect_ivl k' v o o' room ne h =
        int_other v at_least_minus_one (λ x. record o { reconnect_ivl = x }) o o' k' room
          (λ x. ground arith) h
    getsockopt-setsockopt_other zmq_reconnect_ivl_max k' v o o' room ne h =
        int_other v not_negative (λ x. record o { reconnect_ivl_max = x }) o o' k' room
          (λ x. ground arith) h
    getsockopt-setsockopt_other zmq_backlog k' v o o' room ne h =
        int_other v any_int (λ x. record o { backlog = x }) o o' k' room (λ x. ground arith) h
    getsockopt-setsockopt_other zmq_maxmsgsize k' v o o' room ne h =
        let (_, stored) = set_int64_lem v (λ x. record o { maxmsgsize = x }) o' h in
        ap (getsockopt k' room) stored ∙ ground arith
    getsockopt-setsockopt_other zmq_multicast_hops k' v o o' room ne h =
        int_other v is_positive (λ x. record o { multicast_hops = x }) o o' k' room
          (λ x. ground arith) h
    getsockopt-setsockopt_other zmq_rcvtimeo k' v o o' room ne h =
        int_other v any_int (λ x. record o { rcvtimeo = x }) o o' k' room (λ x. ground arith) h
    getsockopt-setsockopt_other zmq_sndtimeo k' v o o' room ne h =
        int_other v any_int (λ x. record o { sndtimeo = x }) o o' k' room (λ x. ground arith) h
    getsockopt-setsockopt_other zmq_ipv4only k' v o o' room ne h =
        int_other v is_bit (λ x. record o { ipv4only = x }) o o' k' room (λ x. ground arith) h
    getsockopt-setsockopt_other zmq_tcp_keepalive k' v o o' room ne h =
        int_other v is_bit_or_minus_one (λ x. record o { tcp_keepalive = x }) o o' k' room
          (λ x. ground arith) h
    getsockopt-setsockopt_other zmq_delay_attach_on_connect k' v o o' room ne h =
        int_other v is_bit (λ x. record o { delay_attach_on_connect = x }) o o' k' room
          (λ x. ground arith) h
    getsockopt-setsockopt_other zmq_tcp_keepalive_cnt k' v o o' room ne h =
        int_other v is_positive_or_minus_one (λ x. record o { tcp_keepalive_cnt = x }) o o' k' room
          (λ x. ground arith) h
    getsockopt-setsockopt_other zmq_tcp_keepalive_idle k' v o o' room ne h =
        int_other v is_positive_or_minus_one (λ x. record o { tcp_keepalive_idle = x }) o o' k' room
          (λ x. ground arith) h
    getsockopt-setsockopt_other zmq_tcp_keepalive_intvl k' v o o' room ne h =
        int_other v is_positive_or_minus_one (λ x. record o { tcp_keepalive_intvl = x }) o o' k'
          room (λ x. ground arith) h
    getsockopt-setsockopt_other zmq_tcp_accept_filter k' v o o' room ne h =
        let (fs, stored) = set_filter_lem resolve v o o' h in
        ap (getsockopt k' room) stored ∙ ground arith
    getsockopt-setsockopt_other zmq_type k' v o o' room ne h = absurd (cc)
    getsockopt-setsockopt_other zmq_last_endpoint k' v o o' room ne h = absurd (cc)
    getsockopt-setsockopt_other unknown k' v o o' room ne h = absurd (cc)
