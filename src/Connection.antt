-- ===== src/Connection.antt =====
-- connection.go: the state of the connection, its options, and what its operations ask of the
-- WebSocket, the timers, the waiting callers and the channels.
pub mod Lifecycle
pub mod Backoff
pub mod Requests
pub mod Publishes
pub mod Subscriptions
pub mod Inbound
pub mod KeepAlive
pub mod Closing
pub mod Handshake
pub mod Endpoint
pub mod Events
pub mod Ledger
pub mod Frame
pub mod Messages
pub mod Recovery
pub mod Rejection
mod Tests
use realtime_go.Common.{
  ℕ, ◌+◌, ◌%◌, ◌^◌, Bool, true, false, ◌||◌, not, Option, none, some, List, [], ◌∷◌, Bytes,
  if◌then◌else◌, ◌==◌,
}
use realtime_go.Common.Int.{ℤ}
use realtime_go.Common.Strings.{eq_bytes}
use realtime_go.Errors.{ConnectionState, conn_initialized, Reason}
use realtime_go.Wire.{
  ClientFrame, PublishFrame, AckFrame, MsgFrame, PresenceEventFrame, HistoryResponseFrame,
  FetchResponseFrame,
}

-- Durations are nanoseconds. The callback is run by the caller, who reports its result.
pub record Options : Type 0 where
  pub endpoint : Bytes
  pub key : Bytes
  pub client_id : Bytes
  pub token : Bytes
  pub has_auth_callback : Bool
  pub disable_auto_reconnect : Bool
  pub initial_reconnect_delay : ℤ
  pub max_reconnect_delay : ℤ
  pub disable_queueing : Bool

-- `request_id` is 0 while the publish is buffered.
pub record OutstandingPublish : Type 0 where
  pub frame : PublishFrame
  pub request_id : ℕ

-- A socket is known by a number. A pending map's key stands for the caller that waits on it, and a
-- hook for the channel of its name.
pub record Connection : Type 0 where
  pub opts : Options
  pub state : ConnectionState
  pub socket : Option ℕ
  pub connection_id : Bytes
  pub client_id : Bytes
  pub next_id : ℕ
  pub pending : List ℕ
  pub pending_hist : List ℕ
  pub pending_fetch : List ℕ
  pub hooks : List Bytes
  pub connecting : Bool
  pub reconnect_timer : Bool
  pub reconnect_attempt : ℕ
  pub has_connected_before : Bool
  pub fatal_err : Option Reason
  -- The socket whose keep-alive goroutine runs.
  pub keep_alive : Option ℕ
  pub pong_deadline : Bool
  pub pong_deadline_dur : ℕ
  pub desired_subs : List Bytes
  pub sub_epochs : List (Bytes × ℕ)
  pub desired_presence : List Bytes
  pub outstanding : List (Bytes × OutstandingPublish)
  pub publish_request_ids : List (ℕ × Bytes)

-- `ackOutcome`, `historyOutcome` and `fetchOutcome`: what a waiting caller receives.
pub data Outcome : Type 0 where
  acked : AckFrame → Outcome
  history_answer : HistoryResponseFrame → Outcome
  fetch_answer : FetchResponseFrame → Outcome
  failed_with : Reason → Outcome

-- Which of the three pending maps.
pub data RequestKind : Type 0 where
  ack_request history_request fetch_request : RequestKind

pub data Effect : Type 0 where
  answer : RequestKind → ℕ → Outcome → Effect
  -- `outstanding.done <- err`, or an error that publish returns at once; by message id
  answer_publish : Bytes → Option Reason → Effect
  -- A publish call that returns as its context is done; its message stays outstanding.
  publish_returns : Bytes → Reason → Effect
  write_frame : ℕ → ClientFrame → Effect
  emit_state : ConnectionState → Option Reason → Effect
  deliver_message : MsgFrame → Effect
  deliver_presence : PresenceEventFrame → Effect
  -- `go c.runConnect(attempt)`
  start_connect : Effect
  -- A connect in the background, by a buffered publish or the reconnect timer.
  kick_connect : Effect
  start_reconnect_timer : ℕ → Effect
  stop_reconnect_timer : Effect
  start_keep_alive : ℕ → ℕ → Effect
  stop_keep_alive : Effect
  start_pong_deadline : ℕ → Effect
  stop_pong_deadline : Effect
  -- With the close code.
  close_socket : ℕ → ℕ → Effect
  start_read_loop : ℕ → Effect
  -- Of the restore: a request to subscribe from the channel's cursor whose ack is reported to it if
  -- it is there, a request to watch presence, and a re-entry.
  restore_subscription : Bytes → Bool → Effect
  restore_presence : Bytes → Effect
  reenter_presence : Bytes → Effect

abbrev is_set : Bytes → ℕ
is_set [] = 0
is_set (c ∷ s) = 1

abbrev pub auth_methods : Options → ℕ
auth_methods opts = is_set opts.token + (if opts.has_auth_callback then 1 else 0) + is_set opts.key

abbrev max_pong_deadline : ℕ
max_pong_deadline = 10000000000

abbrev pub fresh_connection : Options → Connection
fresh_connection opts = record {
  opts = opts;
  state = conn_initialized;
  socket = none;
  connection_id = [];
  client_id = [];
  next_id = 0;
  pending = [];
  pending_hist = [];
  pending_fetch = [];
  hooks = [];
  connecting = false;
  reconnect_timer = false;
  reconnect_attempt = 0;
  has_connected_before = false;
  fatal_err = none;
  keep_alive = none;
  pong_deadline = false;
  pong_deadline_dur = max_pong_deadline;
  desired_subs = [];
  sub_epochs = [];
  desired_presence = [];
  outstanding = [];
  publish_request_ids = [];
}

-- `none` is the error that not exactly one way to authenticate is given.
unfoldable pub new_connection : Options → Option Connection
new_connection opts = if auth_methods opts == 1 then some (fresh_connection opts) else none

-- `c.nextID++` on a uint64.
abbrev pub bump : ℕ → ℕ
bump id = (id + 1) % 2 ^ 64
