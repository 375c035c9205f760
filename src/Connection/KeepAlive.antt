-- ===== src/Connection/KeepAlive.antt =====
-- connection.go: the keep-alive pings, and the deadline for a sign of life after one.
use realtime_go.Common.{
  ℕ, ◌*◌, ◌%◌, ◌^◌, Bool, true, false, ◌&&◌, Option, none, some, List, [], ◌∷◌, ◌++◌, ltb, leb,
  ◌==◌, if◌then◌else◌,
}
use realtime_go.Common.Int.{ℤ, pos, negsuc, int_of_u64}
use realtime_go.Errors.{conn_connected}
use realtime_go.Wire.{ping}
use realtime_go.Connection.{
  Connection, Effect, write_frame, start_keep_alive, start_pong_deadline, stop_pong_deadline,
  max_pong_deadline,
}
use realtime_go.Connection.Lifecycle.{eq_conn, stop_keep_alive_locked}

abbrev pub min_pong_deadline : ℕ
min_pong_deadline = 250000000

-- `time.Duration(keepAliveMs) * time.Millisecond` on an int64.
unfoldable pub keep_alive_interval : ℕ → ℤ
keep_alive_interval ms = int_of_u64 (ms * 1000000 % 2 ^ 64)

unfoldable pub clamp_deadline : ℕ → ℕ
clamp_deadline interval =
    let at_least : ℕ = if ltb interval min_pong_deadline then min_pong_deadline else interval in
    if ltb max_pong_deadline at_least then max_pong_deadline else at_least

abbrev pub pinging : ℕ → ℕ → Connection × List Effect → Connection × List Effect
pinging ws interval (c, out) = (
  record c { keep_alive = some ws; pong_deadline_dur = clamp_deadline interval },
  out ++ start_keep_alive ws interval ∷ [],
)

abbrev pub started : ℕ → ℤ → Connection × List Effect → Connection × List Effect
started ws (negsuc n) r = r
started ws (pos interval) r = if leb interval 0 then r else pinging ws interval r

unfoldable pub start_keep_alive_locked : ℕ → ℤ → Connection → Connection × List Effect
start_keep_alive_locked ws interval c = started ws interval (stop_keep_alive_locked c)

abbrev pub is_socket : ℕ → Option ℕ → Bool
is_socket ws none = false
is_socket ws (some s) = ws == s

-- The socket is the current one of a connected connection.
unfoldable pub is_alive : ℕ → Connection → Bool
is_alive ws c = eq_conn c.state conn_connected && is_socket ws c.socket

-- A tick of the goroutine of a socket; it ends when the socket is not the current one any more.
unfoldable pub ping_tick : ℕ → Connection → List Effect
ping_tick ws c = if is_alive ws c then write_frame ws ping ∷ [] else []

-- `armPongDeadline`, after a ping was written.
unfoldable pub arm_pong_deadline : Connection → Connection × List Effect
arm_pong_deadline c =
    if c.pong_deadline
    then (c, [])
    else (record c { pong_deadline = true }, start_pong_deadline c.pong_deadline_dur ∷ [])

unfoldable pub clear_pong_deadline : Connection → Connection × List Effect
clear_pong_deadline c =
    if c.pong_deadline
    then (record c { pong_deadline = false }, stop_pong_deadline ∷ [])
    else (c, [])
