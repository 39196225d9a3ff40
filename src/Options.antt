-- ===== src/Options.antt =====
-- options.cpp: options_t, with the options that a socket sets and reads by setsockopt and
-- getsockopt. An option's value is the bytes at optval, none where optval is NULL and optvallen is
-- 0. What tcp_address_mask_t::resolve makes of a filter is a parameter.
pub mod Numbers
pub mod Range
pub mod RoundTrip
mod Tests
use cctas.Base.{
  ℕ, zero, suc, ◌+◌, ◌==◌, leb, ltb, Bool, true, false, not, ◌&&◌, ◌||◌, Option, none, some, List,
  [], ◌∷◌, ◌++◌, if◌then◌else◌, length, get_or,
}
use cctas.Options.Numbers.{
  ℤ, pos, negsuc, any_int, not_negative, is_positive, at_least_minus_one, is_bit,
  is_bit_or_minus_one, is_positive_or_minus_one, is_zero, int_of, bytes_of_int, int64_of,
  bytes_of_int64, uint64_of, bytes_of_uint64,
}

-- ZMQ_SNDHWM and so on; `unknown` is any other number.
pub data Name : Type 0 where
  zmq_sndhwm zmq_rcvhwm zmq_affinity zmq_identity zmq_rate zmq_recovery_ivl zmq_sndbuf zmq_rcvbuf
        zmq_linger zmq_reconnect_ivl zmq_reconnect_ivl_max zmq_backlog zmq_maxmsgsize
        zmq_multicast_hops zmq_rcvtimeo zmq_sndtimeo zmq_ipv4only zmq_tcp_keepalive
        zmq_delay_attach_on_connect zmq_tcp_keepalive_cnt zmq_tcp_keepalive_idle
        zmq_tcp_keepalive_intvl zmq_tcp_accept_filter zmq_type zmq_last_endpoint unknown :
      Name

pub record Options (Mask : Type 0) : Type 0 where
  pub sndhwm : ℤ
  pub rcvhwm : ℤ
  pub affinity : ℕ
  pub identity : List ℕ
  pub last_endpoint : List ℕ
  pub rate : ℤ
  pub recovery_ivl : ℤ
  pub multicast_hops : ℤ
  pub sndbuf : ℤ
  pub rcvbuf : ℤ
  pub type : ℤ
  pub linger : ℤ
  pub reconnect_ivl : ℤ
  pub reconnect_ivl_max : ℤ
  pub backlog : ℤ
  pub maxmsgsize : ℤ
  pub rcvtimeo : ℤ
  pub sndtimeo : ℤ
  pub ipv4only : ℤ
  pub delay_attach_on_connect : ℤ
  pub delay_on_close : Bool
  pub delay_on_disconnect : Bool
  pub filter : Bool
  pub recv_identity : Bool
  pub tcp_keepalive : ℤ
  pub tcp_keepalive_cnt : ℤ
  pub tcp_keepalive_idle : ℤ
  pub tcp_keepalive_intvl : ℤ
  pub tcp_accept_filters : List Mask
  pub socket_id : ℤ

-- the constructor
unfoldable pub options : {Mask : Type 0} → Options Mask
options = record {
  sndhwm = pos 1000;
  rcvhwm = pos 1000;
  affinity = 0;
  identity = [];
  last_endpoint = [];
  rate = pos 100;
  recovery_ivl = pos 10000;
  multicast_hops = pos 1;
  sndbuf = pos 0;
  rcvbuf = pos 0;
  type = negsuc 0;
  linger = negsuc 0;
  reconnect_ivl = pos 100;
  reconnect_ivl_max = pos 0;
  backlog = pos 100;
  maxmsgsize = negsuc 0;
  rcvtimeo = negsuc 0;
  sndtimeo = negsuc 0;
  ipv4only = pos 1;
  delay_attach_on_connect = pos 0;
  delay_on_close = true;
  delay_on_disconnect = true;
  filter = false;
  recv_identity = false;
  tcp_keepalive = negsuc 0;
  tcp_keepalive_cnt = negsuc 0;
  tcp_keepalive_idle = negsuc 0;
  tcp_keepalive_intvl = negsuc 0;
  tcp_accept_filters = [];
  socket_id = pos 0;
}

-- the bytes at optval
abbrev pub bytes_at : Option (List ℕ) → List ℕ
bytes_at none = []
bytes_at (some bytes) = bytes

-- An int option: optvallen has to be 4, and the value has to pass the case's test.
abbrev pub set_int : {A : Type 0} → Option (List ℕ) → (ℤ → Bool) → (ℤ → A) → Option A
set_int v ok store =
    if length (bytes_at v) == 4
    then (if ok (int_of (bytes_at v)) then some (store (int_of (bytes_at v))) else none)
    else none

abbrev pub set_uint64 : {A : Type 0} → Option (List ℕ) → (ℕ → A) → Option A
set_uint64 v store =
    if length (bytes_at v) == 8 then some (store (uint64_of (bytes_at v))) else none

abbrev pub set_int64 : {A : Type 0} → Option (List ℕ) → (ℤ → A) → Option A
set_int64 v store = if length (bytes_at v) == 8 then some (store (int64_of (bytes_at v))) else none

-- optvallen_ < 1 || optvallen_ > 255 || the first byte is 0
abbrev pub is_bad_name : List ℕ → Bool
is_bad_name bytes = ltb (length bytes) 1 || (ltb 255 (length bytes) || (get_or bytes 0 0 == 0))

-- ZMQ_TCP_ACCEPT_FILTER, where optval is not NULL
abbrev pub push_filter : {Mask : Type 0} → Options Mask → Option Mask → Option (Options Mask)
push_filter o none = none
push_filter o (some mask) =
    some (record o { tcp_accept_filters = o.tcp_accept_filters ++ (mask ∷ []) })

module _ {Mask : Type 0} (resolve : List ℕ → Bool → Option Mask) where
  abbrev pub set_filter : Option (List ℕ) → Options Mask → Option (Options Mask)
  set_filter none o = some (record o { tcp_accept_filters = [] })
  set_filter (some bytes) o =
      if is_bad_name bytes then none else push_filter o (resolve bytes (not (is_zero o.ipv4only)))

  -- setsockopt: the options, none for -1 with EINVAL.
  unfoldable pub setsockopt : Name → Option (List ℕ) → Options Mask → Option (Options Mask)
  setsockopt zmq_sndhwm v o = set_int v not_negative (λ x. record o { sndhwm = x })
  setsockopt zmq_rcvhwm v o = set_int v not_negative (λ x. record o { rcvhwm = x })
  setsockopt zmq_affinity v o = set_uint64 v (λ x. record o { affinity = x })
  setsockopt zmq_identity v o =
      if is_bad_name (bytes_at v) then none else some (record o { identity = bytes_at v })
  setsockopt zmq_rate v o = set_int v is_positive (λ x. record o { rate = x })
  setsockopt zmq_recovery_ivl v o = set_int v not_negative (λ x. record o { recovery_ivl = x })
  setsockopt zmq_sndbuf v o = set_int v not_negative (λ x. record o { sndbuf = x })
  setsockopt zmq_rcvbuf v o = set_int v not_negative (λ x. record o { rcvbuf = x })
  setsockopt zmq_linger v o = set_int v any_int (λ x. record o { linger = x })
  setsockopt zmq_reconnect_ivl v o =
      set_int v at_least_minus_one (λ x. record o { reconnect_ivl = x })
  setsockopt zmq_reconnect_ivl_max v o =
      set_int v not_negative (λ x. record o { reconnect_ivl_max = x })
  setsockopt zmq_backlog v o = set_int v any_int (λ x. record o { backlog = x })
  setsockopt zmq_maxmsgsize v o = set_int64 v (λ x. record o { maxmsgsize = x })
  setsockopt zmq_multicast_hops v o = set_int v is_positive (λ x. record o { multicast_hops = x })
  setsockopt zmq_rcvtimeo v o = set_int v any_int (λ x. record o { rcvtimeo = x })
  setsockopt zmq_sndtimeo v o = set_int v any_int (λ x. record o { sndtimeo = x })
  setsockopt zmq_ipv4only v o = set_int v is_bit (λ x. record o { ipv4only = x })
  setsockopt zmq_tcp_keepalive v o =
      set_int v is_bit_or_minus_one (λ x. record o { tcp_keepalive = x })
  setsockopt zmq_delay_attach_on_connect v o =
      set_int v is_bit (λ x. record o { delay_attach_on_connect = x })
  setsockopt zmq_tcp_keepalive_cnt v o =
      set_int v is_positive_or_minus_one (λ x. record o { tcp_keepalive_cnt = x })
  setsockopt zmq_tcp_keepalive_idle v o =
      set_int v is_positive_or_minus_one (λ x. record o { tcp_keepalive_idle = x })
  setsockopt zmq_tcp_keepalive_intvl v o =
      set_int v is_positive_or_minus_one (λ x. record o { tcp_keepalive_intvl = x })
  setsockopt zmq_tcp_accept_filter v o = set_filter v o
  setsockopt zmq_type v o = none
  setsockopt zmq_last_endpoint v o = none
  setsockopt unknown v o = none

-- The bytes that getsockopt stores at optval where optvallen, `room`, is large enough.
abbrev pub get_bytes : ℕ → List ℕ → Option (List ℕ)
get_bytes room bytes = if ltb room (length bytes) then none else some bytes

module _ {Mask : Type 0} where
  -- getsockopt: the bytes, whose number it leaves in optvallen; none for -1 with EINVAL. The string
  -- of ZMQ_LAST_ENDPOINT ends in a zero byte.
  unfoldable pub getsockopt : Name → ℕ → Options Mask → Option (List ℕ)
  getsockopt zmq_sndhwm room o = get_bytes room (bytes_of_int o.sndhwm)
  getsockopt zmq_rcvhwm room o = get_bytes room (bytes_of_int o.rcvhwm)
  getsockopt zmq_affinity room o = get_bytes room (bytes_of_uint64 o.affinity)
  getsockopt zmq_identity room o = get_bytes room o.identity
  getsockopt zmq_rate room o = get_bytes room (bytes_of_int o.rate)
  getsockopt zmq_recovery_ivl room o = get_bytes room (bytes_of_int o.recovery_ivl)
  getsockopt zmq_sndbuf room o = get_bytes room (bytes_of_int o.sndbuf)
  getsockopt zmq_rcvbuf room o = get_bytes room (bytes_of_int o.rcvbuf)
  getsockopt zmq_linger room o = get_bytes room (bytes_of_int o.linger)
  getsockopt zmq_reconnect_ivl room o = get_bytes room (bytes_of_int o.reconnect_ivl)
  getsockopt zmq_reconnect_ivl_max room o = get_bytes room (bytes_of_int o.reconnect_ivl_max)
  getsockopt zmq_backlog room o = get_bytes room (bytes_of_int o.backlog)
  getsockopt zmq_maxmsgsize room o = get_bytes room (bytes_of_int64 o.maxmsgsize)
  getsockopt zmq_multicast_hops room o = get_bytes room (bytes_of_int o.multicast_hops)
  getsockopt zmq_rcvtimeo room o = get_bytes room (bytes_of_int o.rcvtimeo)
  getsockopt zmq_sndtimeo room o = get_bytes room (bytes_of_int o.sndtimeo)
  getsockopt zmq_ipv4only room o = get_bytes room (bytes_of_int o.ipv4only)
  getsockopt zmq_tcp_keepalive room o = get_bytes room (bytes_of_int o.tcp_keepalive)
  getsockopt zmq_delay_attach_on_connect room o =
      get_bytes room (bytes_of_int o.delay_attach_on_connect)
  getsockopt zmq_tcp_keepalive_cnt room o = get_bytes room (bytes_of_int o.tcp_keepalive_cnt)
  getsockopt zmq_tcp_keepalive_idle room o = get_bytes room (bytes_of_int o.tcp_keepalive_idle)
  getsockopt zmq_tcp_keepalive_intvl room o = get_bytes room (bytes_of_int o.tcp_keepalive_intvl)
  getsockopt zmq_tcp_accept_filter room o = none
  getsockopt zmq_type room o = get_bytes room (bytes_of_int o.type)
  getsockopt zmq_last_endpoint room o = get_bytes room (o.last_endpoint ++ (0 ∷ []))
  getsockopt unknown room o = none
