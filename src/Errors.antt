-- ===== src/Errors.antt =====
-- connection.go, wire.go: the state of the connection, and the errors that travel between the layers.
use realtime_go.Common.{Bytes, Bool, false, ◌&&◌, leb, ltb}
use realtime_go.Common.Int.{pos, negsuc}
use realtime_go.Wire.{ServerError}

pub data ConnectionState : Type 0 where
  conn_initialized conn_connecting conn_connected conn_disconnected : ConnectionState
  conn_closing conn_closed conn_failed : ConnectionState

-- An `error` of the source, by what it was made from. The constructors that hold a reason wrap it
-- with %w; `other_error` is an error of a library, or a context that ended.
pub data Reason : Type 0 where
  server_error : ServerError → Reason
  connection_disconnected connection_closed socket_not_open : Reason
  keep_alive_timeout bad_auth_response unexpected_first_frame : Reason
  auth_failed : ServerError → Reason
  websocket_closed handshake_closed auth_callback_failed : Reason → Reason
  -- The state of the connection, and whether queueing is disabled.
  cannot_publish : ConnectionState → Bool → Reason
  other_error : Bytes → Reason

-- The forbidden family of server errors, 403xx, also where it is wrapped (errors.As).
unfoldable pub is_capability_error : Reason → Bool
is_capability_error (server_error e) = elim e.code [
  | pos n ↦ leb 40300 n && ltb n 40400
  | negsuc n ↦ false
]
is_capability_error (websocket_closed e) = is_capability_error e
is_capability_error (handshake_closed e) = is_capability_error e
is_capability_error (auth_callback_failed e) = is_capability_error e
is_capability_error connection_disconnected = false
is_capability_error connection_closed = false
is_capability_error socket_not_open = false
is_capability_error keep_alive_timeout = false
is_capability_error bad_auth_response = false
is_capability_error unexpected_first_frame = false
is_capability_error (auth_failed e) = false
is_capability_error (cannot_publish state queueing) = false
is_capability_error (other_error message) = false
