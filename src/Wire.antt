-- ===== src/Wire.antt =====
-- wire.go: the in-memory frames of the protocol, its constants and its error codes.
use realtime_go.Common.{ℕ, Bool, Option, List, Bytes}
use realtime_go.Common.Int.{ℤ}

-- A Go string type with three named values; `other` is any other string.
pub data PresenceAction : Type 0 where
  enter leave update : PresenceAction
  other : Bytes → PresenceAction

pub record ServerError : Type 0 where
  pub code : ℤ
  pub message : Bytes

pub record AuthFrame : Type 0 where
  pub token : Bytes
  pub key : Bytes
  pub client_id : Bytes
  pub resume_connection_id : Bytes

pub record SubscribeFrame : Type 0 where
  pub channel : Bytes
  pub id : ℕ
  pub last_serial : ℕ

pub record UnsubscribeFrame : Type 0 where
  pub channel : Bytes
  pub id : ℕ

pub record WireMember : Type 0 where
  pub name : Bytes
  pub payload : Bytes
  pub encoding : Bytes

pub record PublishFrame : Type 0 where
  pub channel : Bytes
  pub name : Bytes
  pub payload : Bytes
  pub members : List WireMember
  pub ephemeral : Bool
  pub message_id : Bytes
  pub encoding : Bytes
  pub id : ℕ

pub record PresenceFrame : Type 0 where
  pub channel : Bytes
  pub action : PresenceAction
  pub payload : Bytes
  pub encoding : Bytes
  pub id : ℕ

pub record PresenceSubscribeFrame : Type 0 where
  pub channel : Bytes
  pub id : ℕ

pub record PresenceUnsubscribeFrame : Type 0 where
  pub channel : Bytes
  pub id : ℕ

pub record HistoryFrame : Type 0 where
  pub channel : Bytes
  pub limit : ℕ
  pub before : ℕ
  pub id : ℕ

pub record FetchFrame : Type 0 where
  pub channel : Bytes
  pub from_serial : ℕ
  pub id : ℕ

pub record ConnectedFrame : Type 0 where
  pub connection_id : Bytes
  pub keep_alive_ms : ℕ
  pub client_id : Bytes

pub record AckFrame : Type 0 where
  pub id : ℕ
  pub resumed : Option Bool
  pub seq : ℕ

pub record BundledMessage : Type 0 where
  pub name : Bytes
  pub payload : Bytes
  pub timestamp : ℕ
  pub message_id : Bytes
  pub client_id : Bytes
  pub encoding : Bytes
  pub seq : ℕ
  pub ephemeral : Bool
  pub members : List WireMember

pub record MsgFrame : Type 0 where
  pub channel : Bytes
  pub name : Bytes
  pub payload : Bytes
  pub timestamp : ℕ
  pub message_id : Bytes
  pub client_id : Bytes
  pub encoding : Bytes
  pub seq : ℕ
  pub ephemeral : Bool
  pub members : List WireMember
  pub bundle : List BundledMessage

pub record PresenceEventFrame : Type 0 where
  pub channel : Bytes
  pub action : PresenceAction
  pub client_id : Bytes
  pub connection_id : Bytes
  pub payload : Bytes
  pub encoding : Bytes
  pub timestamp : ℕ

pub record ErrorFrame : Type 0 where
  pub id : ℕ
  pub code : ℤ
  pub message : Bytes

pub record HistoryResponseFrame : Type 0 where
  pub id : ℕ
  pub channel : Bytes
  pub messages : List MsgFrame
  pub more : Bool

pub record FetchResponseFrame : Type 0 where
  pub id : ℕ
  pub channel : Bytes
  pub messages : List MsgFrame
  pub resumed : Bool

-- The frames that the client sends; `any` in the source, told apart by a type switch.
pub data ClientFrame : Type 0 where
  auth : AuthFrame → ClientFrame
  subscribe : SubscribeFrame → ClientFrame
  unsubscribe : UnsubscribeFrame → ClientFrame
  publish : PublishFrame → ClientFrame
  presence : PresenceFrame → ClientFrame
  presence_subscribe : PresenceSubscribeFrame → ClientFrame
  presence_unsubscribe : PresenceUnsubscribeFrame → ClientFrame
  history : HistoryFrame → ClientFrame
  fetch : FetchFrame → ClientFrame
  ping : ClientFrame

-- The frames that the server sends.
pub data ServerFrame : Type 0 where
  connected : ConnectedFrame → ServerFrame
  ack : AckFrame → ServerFrame
  msg : MsgFrame → ServerFrame
  presence_event : PresenceEventFrame → ServerFrame
  error : ErrorFrame → ServerFrame
  pong : ServerFrame
  history_response : HistoryResponseFrame → ServerFrame
  fetch_response : FetchResponseFrame → ServerFrame
