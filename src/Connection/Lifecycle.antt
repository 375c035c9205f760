-- ===== src/Connection/Lifecycle.antt =====
-- connection.go: the state and its listeners, Connect, and the keep-alive bookkeeping they share.
use realtime_go.Common.{
  ℕ, Bool, true, false, ◌||◌, Option, none, some, List, [], ◌∷◌, ◌++◌, ◌==◌, if◌then◌else◌,
}
use realtime_go.Errors.{
  ConnectionState, conn_initialized, conn_connecting, conn_connected, conn_disconnected,
  conn_closing, conn_closed, conn_failed, Reason,
}
use realtime_go.Connection.{
  Connection, Effect, emit_state, start_connect, stop_keep_alive, stop_pong_deadline,
}

abbrev pub code : ConnectionState → ℕ
code conn_initialized = 0
code conn_connecting = 1
code conn_connected = 2
code conn_disconnected = 3
code conn_closing = 4
code conn_closed = 5
code conn_failed = 6

-- `==` on states.
abbrev pub eq_conn : ConnectionState → ConnectionState → Bool
eq_conn s t = code s == code t

abbrev pub is_closing : ConnectionState → Bool
is_closing s = eq_conn s conn_closing || eq_conn s conn_closed

unfoldable pub set_state : ConnectionState → Option Reason → Connection → Connection × List Effect
set_state state reason c =
    if eq_conn c.state state
    then (c, [])
    else (record c { state = state }, emit_state state reason ∷ [])

-- `Connect` up to the wait for the attempt, which is shared when one is in flight.
unfoldable pub connect : Connection → Connection × List Effect
connect c =
    if eq_conn c.state conn_connected
    then (c, [])
    else if c.connecting
    then (c, [])
    else (record c { connecting = true }, start_connect ∷ [])

-- `runConnect` after `doConnect`.
unfoldable pub connect_ended : Connection → Connection
connect_ended c = record c { connecting = false }

abbrev pub stop_pinging : Option ℕ → List Effect
stop_pinging none = []
stop_pinging (some ws) = stop_keep_alive ∷ []

unfoldable pub stop_keep_alive_locked : Connection → Connection × List Effect
stop_keep_alive_locked c = (
  record c { keep_alive = none; pong_deadline = false },
  stop_pinging c.keep_alive ++ (if c.pong_deadline then stop_pong_deadline ∷ [] else []),
)
