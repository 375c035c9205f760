-- ===== src/Channel/Lifecycle.antt =====
-- channel.go: the state machine of a channel.
pub mod Listeners
pub mod Terminal
use realtime_go.Common.{
  ℕ, Bool, true, false, ◌&&◌, Option, none, some, List, [], ◌∷◌, ◌++◌, leb, ltb, if◌then◌else◌,
}
use realtime_go.Common.Int.{pos, negsuc}
use realtime_go.Wire.{ServerError}
pub use realtime_go.Errors.{
  ConnectionState, conn_initialized, conn_connecting, conn_connected, conn_disconnected,
  conn_closing, conn_closed, conn_failed,
}
use realtime_go.Errors.{is_capability_error}
use realtime_go.Channel.{
  Channel, ChannelState, initialized, attaching, attached, detaching, detached, suspended, failed,
  state_event, update_event, Reason, server_error, connection_disconnected, other_error,
  TransitionInfo, Effect, emit_state, remember_subscription, forget_subscription, run_attach,
  request_subscribe, request_unsubscribe, presence_on_detached,
}
use realtime_go.Channel.Cursor.{cursor}
use realtime_go.Channel.Batch.{flush}

abbrev code : ChannelState → ℕ
code initialized = 0
code attaching = 1
code attached = 2
code detaching = 3
code detached = 4
code suspended = 5
code failed = 6

-- `==` on states.
unfoldable pub eq_state : ChannelState → ChannelState → Bool
eq_state s t = leb (code s) (code t) && leb (code t) (code s)

unfoldable pub is_live : ChannelState → Bool
is_live initialized = false
is_live detached = false
is_live failed = false
is_live s = true

-- A transition to the state the channel is in: an update, when there is something to tell.
unfoldable pub same_state : Option TransitionInfo → Channel → Channel × List Effect
same_state none ch = (ch, [])
same_state (some info) ch = (
  ch,
  emit_state update_event (record {
    current = ch.state;
    previous = ch.state;
    reason = info.reason;
    resumed = info.resumed;
  })
      ∷ [],
)

abbrev info_reason : Option TransitionInfo → Option Reason
info_reason none = none
info_reason (some info) = info.reason

abbrev info_resumed : Option TransitionInfo → Bool
info_resumed none = false
info_resumed (some info) = info.resumed

unfoldable pub next_state : ChannelState → Option TransitionInfo → Channel → Channel × List Effect
next_state next info ch = (
  record ch { state = next },
  emit_state (state_event next) (record {
    current = next;
    previous = ch.state;
    reason = info_reason info;
    resumed = info_resumed info;
  })
      ∷ [],
)

unfoldable pub transition : ChannelState → Option TransitionInfo → Channel → Channel × List Effect
transition next info ch =
    if eq_state ch.state next then same_state info ch else next_state next info ch

unfoldable pub begin_attach : Channel → Channel × List Effect
begin_attach ch =
    let (ch1, out) = transition attaching none (record ch { attaching = true }) in
    (ch1, out ++ remember_subscription ∷ run_attach ∷ [])

-- `Attach` up to the wait for the attempt, which is shared when one is in flight.
unfoldable pub attach : Channel → Channel × List Effect
attach ch =
    if eq_state ch.state attached
    then (ch, [])
    else if ch.attaching
    then (ch, [])
    else begin_attach ch

-- `runAttach` up to its request.
unfoldable pub attach_request : Channel → List Effect
attach_request ch =
    request_subscribe (record { channel = ch.name; id = 0; last_serial = cursor ch }) ∷ []

-- What the request comes back with: an ack, or an error.
pub data AttachAnswer : Type 0 where
  acked : Option Bool → AttachAnswer
  refused : Reason → AttachAnswer

abbrev ack_resumed : Option Bool → Bool
ack_resumed none = false
ack_resumed (some resumed) = resumed

-- `runAttach` from the answer on.
unfoldable pub attach_answered : AttachAnswer → Channel → Channel × List Effect
attach_answered (acked resumed) ch =
    if eq_state ch.state attached
    then (record ch { attaching = false }, [])
    else transition attached (some (record { reason = none; resumed = ack_resumed resumed }))
        (record ch { attaching = false })
attach_answered (refused e) ch =
    if is_capability_error e
    then (let (ch1, out) =
          transition failed (some (record { reason = some e; resumed = false }))
            (record ch { attaching = false }) in
        (ch1, forget_subscription none ∷ out))
    else transition suspended (some (record { reason = some e; resumed = false }))
        (record ch { attaching = false })

-- The states in which `Detach` has nothing to do.
unfoldable pub is_detached : ChannelState → Bool
is_detached initialized = true
is_detached detached = true
is_detached detaching = true
is_detached s = false

unfoldable pub begin_detach : Channel → Channel × List Effect
begin_detach ch =
    let (ch1, out) = transition detaching none ch in
    (
      ch1,
      out ++ presence_on_detached ∷ request_unsubscribe (record { channel = ch.name; id = 0 }) ∷ [],
    )

-- `Detach` up to its request.
unfoldable pub detach : ℕ → Channel → Channel × List Effect
detach now ch =
    let (ch1, out1) = flush now ch in
    if is_detached ch1.state
    then (ch1, out1)
    else (let (ch2, out2) = begin_detach ch1 in (ch2, out1 ++ out2))

unfoldable pub mark_detached : Channel → Channel × List Effect
mark_detached ch = if eq_state ch.state detaching then transition detached none ch else (ch, [])

-- `Detach` from the answer on, whatever it is; `epoch` is the epoch when the request was sent.
unfoldable pub detach_answered : ℕ → Channel → Channel × List Effect
detach_answered epoch ch =
    let (ch1, out) = mark_detached ch in (ch1, forget_subscription (some epoch) ∷ out)

unfoldable pub can_resume : ChannelState → Bool
can_resume attaching = true
can_resume suspended = true
can_resume attached = true
can_resume s = false

-- A discontinuity drops the baseline.
unfoldable pub rebase : Bool → Channel → Channel
rebase resumed ch = if resumed then ch else record ch { contiguous_serial = 0 }

unfoldable pub on_resumed : Bool → Channel → Channel × List Effect
on_resumed resumed ch =
    if can_resume ch.state
    then transition attached (some (record { reason = none; resumed = resumed }))
        (rebase resumed ch)
    else (rebase resumed ch, [])

abbrev or_disconnected : Option Reason → Reason
or_disconnected none = connection_disconnected
or_disconnected (some e) = e

abbrev failure_info : Option Reason → Option TransitionInfo
failure_info none = none
failure_info (some e) = some (record { reason = some e; resumed = false })

unfoldable pub on_connection_state :
    ConnectionState → Option Reason → Channel → Channel × List Effect
on_connection_state conn_disconnected reason ch =
    if eq_state ch.state attached
    then transition suspended
        (some (record { reason = some (or_disconnected reason); resumed = false })) ch
    else (ch, [])
on_connection_state conn_connected reason ch =
    if eq_state ch.state suspended then transition attaching none ch else (ch, [])
on_connection_state conn_failed reason ch =
    if is_live ch.state then transition failed (failure_info reason) ch else (ch, [])
on_connection_state conn_closed reason ch =
    if is_live ch.state then transition detached none ch else (ch, [])
on_connection_state conn reason ch = (ch, [])
