-- ===== src/Channel.antt =====
-- channel.go: the state of a channel, its options, and what its operations ask of the connection.
pub mod Convert
pub mod Dedup
pub mod Cursor
pub mod Lifecycle
pub mod Batch
pub mod Deliver
pub mod Steps
mod Tests
use realtime_go.Common.{
  ℕ, ◌≤◌, ◌*◌, Bool, false, true, ◌&&◌, Option, none, some, List, [], Bytes, ltb, leb,
  if◌then◌else◌,
}
use realtime_go.Common.Int.{ℤ, pos, negsuc}
use realtime_go.Wire.{
  WireMember, PublishFrame, SubscribeFrame, UnsubscribeFrame, FetchFrame, ServerError,
}
pub use realtime_go.Errors.{Reason, server_error, connection_disconnected, other_error}

-- Nanoseconds, as a time.Duration.
abbrev pub default_batch_interval : ℕ
default_batch_interval = 10 * 1000000

abbrev pub default_batch_max_messages : ℕ
default_batch_max_messages = 200

abbrev pub dedup_cache_max : ℕ
dedup_cache_max = 8192

pub record Message : Type 0 where
  pub channel : Bytes
  pub name : Bytes
  pub payload : Bytes
  pub timestamp : ℤ
  pub id : Bytes
  pub client_id : Bytes
  pub encoding : Bytes
  pub serial : ℕ
  pub ephemeral : Bool

-- A duration and a count may be negative or zero, which stand for the default.
pub record BatchOptions : Type 0 where
  pub interval : ℤ
  pub max_messages : ℤ

pub data ChannelState : Type 0 where
  initialized attaching attached detaching detached suspended failed : ChannelState

pub data ChannelEvent : Type 0 where
  state_event : ChannelState → ChannelEvent
  update_event : ChannelEvent

pub record ChannelStateChange : Type 0 where
  pub current : ChannelState
  pub previous : ChannelState
  pub reason : Option Reason
  pub resumed : Bool

pub record TransitionInfo : Type 0 where
  pub reason : Option Reason
  pub resumed : Bool

-- `done` names the call of Publish that waits for the result.
pub record BufferedPublish : Type 0 where
  pub member : WireMember
  pub done : ℕ

-- crypto.go: a channel's cipher, as far as a channel uses it.
pub record Cipher : Type 0 where
  pub decrypt : Bytes → Bytes → Option Bytes

pub record Channel : Type 0 where
  pub name : Bytes
  pub cipher : Option Cipher
  pub batch_interval : ℕ
  pub batch_max_messages : ℕ
  pub state : ChannelState
  -- An attach attempt is in flight.
  pub attaching : Bool
  pub batch_buf : List BufferedPublish
  -- A flush is scheduled.
  pub batch_timer : Bool
  pub last_flush : Option ℕ
  pub contiguous_serial : ℕ
  pub backfilling : Bool
  pub seen : List Bytes
  pub seen_order : List Bytes

-- What an operation asks of the connection and its dispatcher, in order.
pub data Effect : Type 0 where
  -- `dispatch.enqueue` of `states.emit`
  emit_state : ChannelEvent → ChannelStateChange → Effect
  -- `dispatch.enqueue` of `messages.emit`
  emit_message : Message → Effect
  remember_subscription : Effect
  -- `none` is the epoch -1, any epoch.
  forget_subscription : Option ℕ → Effect
  -- `go ch.runAttach(attempt)`
  run_attach : Effect
  request_subscribe : SubscribeFrame → Effect
  request_unsubscribe : UnsubscribeFrame → Effect
  -- `go ch.backfill(fromSerial)`
  start_backfill : FetchFrame → Effect
  presence_on_detached : Effect
  stop_timer : Effect
  -- `time.AfterFunc(wait, ch.Flush)`, with the wait
  start_timer : ℕ → Effect
  -- `go ch.sendBatch(pending)`
  send_batch : List BufferedPublish → Effect
  -- `conn.publish`, by a caller that waits for the ack
  publish_frame : PublishFrame → Effect

-- An option that is set overrides its default.
unfoldable pub positive_or : ℕ → ℤ → ℕ
positive_or default (pos n) = if ltb 0 n then n else default
positive_or default (negsuc n) = default

unfoldable pub resolve_interval : Option BatchOptions → ℕ
resolve_interval none = default_batch_interval
resolve_interval (some batch) = positive_or default_batch_interval batch.interval

unfoldable pub resolve_max_messages : Option BatchOptions → ℕ
resolve_max_messages none = default_batch_max_messages
resolve_max_messages (some batch) = positive_or default_batch_max_messages batch.max_messages

unfoldable pub new_channel : Bytes → Option Cipher → Option BatchOptions → Channel
new_channel name cipher batch = record {
  name = name;
  cipher = cipher;
  batch_interval = resolve_interval batch;
  batch_max_messages = resolve_max_messages batch;
  state = initialized;
  attaching = false;
  batch_buf = [];
  batch_timer = false;
  last_flush = none;
  contiguous_serial = 0;
  backfilling = false;
  seen = [];
  seen_order = [];
}
