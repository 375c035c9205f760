-- ===== src/Connection/Events.antt =====
-- connection.go: everything that can happen to a connection, in any order: the calls of the client
-- and its channels, what the WebSocket reports, and the timers.
use realtime_go.Common.{ℕ, Option, List, [], ◌∷◌, ◌++◌, Bytes}
use realtime_go.Errors.{Reason}
use realtime_go.Wire.{ClientFrame, PublishFrame, AuthFrame, ServerFrame}
use realtime_go.Connection.{Connection, RequestKind, Effect}
use realtime_go.Connection.Lifecycle.{connect, connect_ended}
use realtime_go.Connection.Requests.{request, request_abandoned}
use realtime_go.Connection.Publishes.{publish_call, publish_abandoned, publish_unsent}
use realtime_go.Connection.Subscriptions.{
  register_channel, unregister_channel, remember_subscription, forget_subscription,
  remember_presence, forget_presence,
}
use realtime_go.Connection.Inbound.{handle_frames}
use realtime_go.Connection.KeepAlive.{ping_tick, arm_pong_deadline, clear_pong_deadline}
use realtime_go.Connection.Closing.{
  ◌then_also◌, handle_socket_close, pong_deadline_passed, begin_close, finish_close,
}
use realtime_go.Connection.Handshake.{
  connect_started, connect_failed, socket_opened, handshake_answered, auth_send_failed,
  handshake_read_failed, timer_fired, reconnect_failed,
}

pub data Event : Type 0 where
  -- Calls.
  connect_event : Event
  begin_close_event finish_close_event : Event
  request_event : RequestKind → (ℕ → ClientFrame) → Event
  request_abandoned_event : RequestKind → ℕ → Reason → Event
  publish_event : PublishFrame → Event
  publish_abandoned_event : Bytes → Reason → Event
  register_event unregister_event : Bytes → Event
  remember_event : Bytes → Event
  forget_event : Bytes → Option ℕ → Event
  remember_presence_event forget_presence_event : Bytes → Event
  -- The attempt that connects.
  connect_started_event connect_ended_event : Event
  connect_failed_event : Reason → Event
  socket_opened_event : ℕ → AuthFrame → Event
  handshake_answered_event : ℕ → List ServerFrame → Event
  auth_send_failed_event handshake_read_failed_event : ℕ → Reason → Event
  -- The socket.
  frames_event : List ServerFrame → Event
  -- A message that is no binary one is only a sign of life.
  other_message_event : Event
  read_failed_event : ℕ → Reason → Event
  publish_unsent_event : ℕ → Bytes → Event
  -- Timers.
  ping_event : ℕ → Event
  ping_sent_event : Event
  pong_deadline_event : ℕ → Event
  timer_event reconnect_failed_event : Event

-- The event as the code handles it, by the functions that the constructors are named for.
unfoldable pub react : Event → Connection → Connection × List Effect
react connect_event c = connect c
react begin_close_event c = begin_close c
react finish_close_event c = finish_close c
react (request_event kind build) c = request kind build c
react (request_abandoned_event kind id e) c = request_abandoned kind id e c
react (publish_event frame) c = publish_call frame c
react (publish_abandoned_event key e) c = publish_abandoned key e c
react (register_event name) c = (register_channel name c, [])
react (unregister_event name) c = (unregister_channel name c, [])
react (remember_event name) c = (remember_subscription name c, [])
react (forget_event name epoch) c = (forget_subscription name epoch c, [])
react (remember_presence_event name) c = (remember_presence name c, [])
react (forget_presence_event name) c = (forget_presence name c, [])
react connect_started_event c = connect_started c
react connect_ended_event c = (connect_ended c, [])
react (connect_failed_event e) c = connect_failed e c
react (socket_opened_event ws frame) c = socket_opened ws frame c
react (handshake_answered_event ws frames) c = handshake_answered ws frames c
react (auth_send_failed_event ws e) c = auth_send_failed ws e c
react (handshake_read_failed_event ws e) c = handshake_read_failed ws e c
react (frames_event frames) c = clear_pong_deadline c then_also handle_frames frames
react other_message_event c = clear_pong_deadline c
react (read_failed_event ws e) c = handle_socket_close ws e c
react (publish_unsent_event id key) c = (publish_unsent id key c, [])
react (ping_event ws) c = (c, ping_tick ws c)
react ping_sent_event c = arm_pong_deadline c
react (pong_deadline_event ws) c = pong_deadline_passed ws c
react timer_event c = timer_fired c
react reconnect_failed_event c = reconnect_failed c

unfoldable pub react_all : List Event → Connection → Connection × List Effect
react_all [] c = (c, [])
react_all (e ∷ es) c =
    let (c1, out1) = react e c in let (c2, out2) = react_all es c1 in (c2, out1 ++ out2)
