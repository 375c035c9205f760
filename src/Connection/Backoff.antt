-- ===== src/Connection/Backoff.antt =====
-- connection.go: the delay of the next reconnect attempt.
pub mod Bounds
use realtime_go.Common.{
  ℕ, ◌+◌, ◌*◌, ◌%◌, ◌^◌, Bool, true, false, ◌||◌, List, [], ◌∷◌, ltb, leb, if◌then◌else◌,
}
use realtime_go.Common.Int.{ℤ, pos, negsuc, int_of_u64, u64_of_int}
use realtime_go.Connection.{Connection, Effect, start_reconnect_timer}

abbrev default_initial_reconnect_delay : ℕ
default_initial_reconnect_delay = 1000000000

abbrev default_max_reconnect_delay : ℕ
default_max_reconnect_delay = 30000000000

-- An option that is not positive stands for its default.
unfoldable pub positive_or : ℤ → ℕ → ℕ
positive_or (pos n) default = if ltb 0 n then n else default
positive_or (negsuc n) default = default

-- `initial << attempt` on an int64: the bits past the 64th are lost.
unfoldable pub shift_left : ℕ → ℕ → ℤ
shift_left initial attempt = int_of_u64 (initial * 2 ^ attempt % 2 ^ 64)

-- `if delay > max || delay <= 0 { delay = max }`
unfoldable pub clamp_delay : ℕ → ℤ → ℕ
clamp_delay max (pos delay) = if ltb max delay || leb delay 0 then max else delay
clamp_delay max (negsuc delay) = max

unfoldable pub reconnect_delay : ℤ → ℤ → ℕ → ℕ
reconnect_delay initial max attempt =
    clamp_delay (positive_or max default_max_reconnect_delay)
      (shift_left (positive_or initial default_initial_reconnect_delay) attempt)

unfoldable pub schedule_reconnect : Connection → Connection × List Effect
schedule_reconnect c = if c.reconnect_timer then (c, []) else (
  record c { reconnect_timer = true; reconnect_attempt = c.reconnect_attempt + 1 },
  start_reconnect_timer (
        reconnect_delay c.opts.initial_reconnect_delay c.opts.max_reconnect_delay
          c.reconnect_attempt)
      ∷ [],
)
