-- ===== src/Connection/Closing.antt =====
-- connection.go: the end of a socket, and Close.
use realtime_go.Common.{
  ℕ, false, ◌&&◌, not, Option, none, some, List, [], ◌∷◌, ◌++◌, Bytes, if◌then◌else◌,
}
use realtime_go.Errors.{
  conn_disconnected, conn_closing, conn_closed, conn_failed, Reason, connection_closed,
  websocket_closed, keep_alive_timeout,
}
use realtime_go.Connection.{
  Connection, OutstandingPublish, Effect, stop_reconnect_timer, close_socket,
}
use realtime_go.Connection.Lifecycle.{is_closing, set_state, stop_keep_alive_locked}
use realtime_go.Connection.Backoff.{schedule_reconnect}
use realtime_go.Connection.Requests.{fail_pending}
use realtime_go.Connection.Publishes.{fail_outstanding}
use realtime_go.Connection.KeepAlive.{is_socket, is_alive}

-- One operation after another.
infixl 4 ◌then_also◌
unfoldable pub ◌then_also◌ :
    Connection × List Effect → (Connection → Connection × List Effect) → Connection × List Effect
(c, out) then_also f = let (c1, out1) = f c in (c1, out ++ out1)

-- `for _, outstanding := range c.outstanding { outstanding.requestID = 0 }`
unfoldable pub unsent_all : List (Bytes × OutstandingPublish) → List (Bytes × OutstandingPublish)
unsent_all [] = []
unsent_all (e ∷ es) = (e.0, record e.1 { request_id = 0 }) ∷ unsent_all es

-- Nothing is left to answer: the end of a closed or a failed connection.
unfoldable pub fail_all : Reason → Connection → Connection × List Effect
fail_all e c = fail_pending e c then_also fail_outstanding e

-- Publishes are kept to be sent again, or fail when nothing will send them.
unfoldable pub keep_or_fail : Connection → Connection × List Effect
keep_or_fail c =
    if not c.opts.disable_auto_reconnect && not c.opts.disable_queueing
    then (record c { outstanding = unsent_all c.outstanding }, [])
    else fail_outstanding connection_closed c

unfoldable pub retry_later : Connection → Connection × List Effect
retry_later c = if c.opts.disable_auto_reconnect then (c, []) else schedule_reconnect c

abbrev pub dropped : Reason → Connection → Connection × List Effect
dropped e c =
    fail_pending e c
    then_also set_state conn_disconnected (some e)
    then_also keep_or_fail
    then_also retry_later

abbrev pub ended_by : Option Reason → Reason → Connection → Connection × List Effect
ended_by (some fatal) cause c =
    set_state conn_failed (some fatal) (record c { fatal_err = none }) then_also fail_all fatal
ended_by none cause c = dropped (websocket_closed cause) c

-- `handleSocketClose` once the socket is known to be the current one.
unfoldable pub socket_ended : Reason → Connection → Connection × List Effect
socket_ended cause c = stop_keep_alive_locked (record c { socket = none }) then_also λ d.
    let e : Connection = record d { publish_request_ids = [] } in
    if is_closing e.state
    then set_state conn_closed none e then_also fail_all connection_closed
    else ended_by e.fatal_err cause e

unfoldable pub handle_socket_close : ℕ → Reason → Connection → Connection × List Effect
handle_socket_close ws cause c = if is_socket ws c.socket then socket_ended cause c else (c, [])

-- `teardownSocket`, with the close code of a failed handshake.
unfoldable pub teardown_socket : ℕ → Reason → Connection → Connection × List Effect
teardown_socket ws e c =
    let (c1, out) = handle_socket_close ws e c in (c1, close_socket ws 4001 ∷ out)

abbrev pub timed_out : ℕ → Connection → Connection × List Effect
timed_out ws c =
    let (c1, out) = handle_socket_close ws keep_alive_timeout c in (c1, close_socket ws 4002 ∷ out)

-- The deadline after a ping on a socket passed.
unfoldable pub pong_deadline_passed : ℕ → Connection → Connection × List Effect
pong_deadline_passed ws c =
    let d : Connection = record c { pong_deadline = false } in
    if is_alive ws d then timed_out ws d else (d, [])

abbrev pub stop_timer : Connection → Connection × List Effect
stop_timer c =
    if c.reconnect_timer
    then (record c { reconnect_timer = false }, stop_reconnect_timer ∷ [])
    else (c, [])

-- With the close code of a normal closure.
abbrev pub close_current : Option ℕ → List Effect
close_current none = []
close_current (some ws) = close_socket ws 1000 ∷ []

-- The first half of `Close`, before it lets go of the lock.
unfoldable pub begin_close : Connection → Connection × List Effect
begin_close c =
    stop_timer c
    then_also stop_keep_alive_locked
    then_also set_state conn_closing none
    then_also λ d. (d, close_current d.socket)

-- The second half.
unfoldable pub finish_close : Connection → Connection × List Effect
finish_close c = set_state conn_closed none c then_also fail_all connection_closed
