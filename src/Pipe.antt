-- ===== src/Pipe.antt =====
-- pipe.cpp: pipe_t, one end of a pair of queues between two sockets.
-- The queues that inpipe and outpipe point to stand in the state; `has_out` is false once outpipe
-- is NULL, and `alive` once the object is deleted. `sent` lists the commands for the peer and `told`
-- the calls of the sink, the latest last. An operation is none where a zmq_assert fails.
pub mod Reading
pub mod Writing
pub mod Closing
pub mod Marks
pub mod Handshake
pub mod Flow
use cctas.Base.{
  ℕ, zero, suc, ◌+◌, ◌-◌, ◌*◌, ◌/◌, ◌%◌, ◌^◌, ◌==◌, ltb, Bool, true, false, not, ◌&&◌, ◌||◌, Option,
  none, some, List, [], ◌∷◌, ◌++◌, if◌then◌else◌,
}
use cctas.Ypipe.{Ypipe, ypipe}

pub data Status : Type 0 where
  active delimited pending terminating terminated double_terminated : Status

-- send_activate_read, ..., to the peer; a hiccup hands over the new queue
pub data Command (M : Type 0) : Type 0 where
  activate_read pipe_term pipe_term_ack : Command M
  activate_write : ℕ → Command M
  hiccup_to : Ypipe M → Command M

-- the calls of i_pipe_events
pub data Event : Type 0 where
  read_activated write_activated hiccuped sink_terminated : Event

-- What pipe_t uses of msg_t.
pub record Parts (M : Type 0) : Type 0 where
  pub has_more : M → Bool
  pub is_delimiter : M → Bool
  pub delimiter : M

pub record Pipe (M : Type 0) : Type 0 where
  pub inq : Ypipe M
  pub outq : Ypipe M
  pub has_out : Bool
  pub in_active : Bool
  pub out_active : Bool
  pub hwm : ℕ
  pub lwm : ℕ
  pub msgs_read : ℕ
  pub msgs_written : ℕ
  pub peers_msgs_read : ℕ
  pub state : Status
  pub delay : Bool
  pub alive : Bool
  pub sent : List (Command M)
  pub told : List Event

-- max_wm_delta is 1024
unfoldable pub compute_lwm : ℕ → ℕ
compute_lwm hwm = if ltb (1024 * 2) hwm then hwm - 1024 else (hwm + 1) / 2

abbrev pub is_active : Status → Bool
is_active active = true
is_active delimited = false
is_active pending = false
is_active terminating = false
is_active terminated = false
is_active double_terminated = false

-- state == active || state == pending
abbrev pub is_open : Status → Bool
is_open active = true
is_open delimited = false
is_open pending = true
is_open terminating = false
is_open terminated = false
is_open double_terminated = false

module _ {M : Type 0} where
  -- the constructor, for given water marks
  unfoldable pub pipe : ℕ → ℕ → Bool → Pipe M
  pipe inhwm outhwm delay = record {
    inq = ypipe;
    outq = ypipe;
    has_out = true;
    in_active = true;
    out_active = true;
    hwm = outhwm;
    lwm = compute_lwm inhwm;
    msgs_read = 0;
    msgs_written = 0;
    peers_msgs_read = 0;
    state = active;
    delay = delay;
    alive = true;
    sent = [];
    told = [];
  }

  -- pipepair: the ends share their two queues, each the other's way round
  pub pipepair : ℕ × ℕ → Bool × Bool → Pipe M × Pipe M
  unfolding pipe
  pipepair (hwm0, hwm1) (delay0, delay1) = (pipe hwm1 hwm0 delay0, pipe hwm0 hwm1 delay1)

  abbrev pub send : Command M → Pipe M → Pipe M
  send c p = record p { sent = p.sent ++ (c ∷ []) }

  abbrev pub tell : Event → Pipe M → Pipe M
  tell e p = record p { told = p.told ++ (e ∷ []) }

  -- outpipe = NULL; send_pipe_term_ack (peer)
  abbrev pub give_up_out : Pipe M → Pipe M
  give_up_out p = send pipe_term_ack (record p { has_out = false })
