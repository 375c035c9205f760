-- ===== src/Connection/Frame/Remembered.antt =====
-- connection.go: what is remembered for a reconnect survives detaches that are out of date.
use realtime_go.Common.{ℕ, refl, Option, Bytes}
use realtime_go.Connection.{Connection}
use realtime_go.Connection.Lifecycle.{connect_ended}
use realtime_go.Connection.Publishes.{publish_abandoned, publish_unsent}
use realtime_go.Connection.Subscriptions.{
  register_channel, unregister_channel, remember_subscription, forget_subscription,
  remember_presence, forget_presence,
}
use realtime_go.Connection.Handshake.{auth_send_failed, handshake_read_failed}
use realtime_go.Connection.Events.{
  Event, react, connect_event, begin_close_event, finish_close_event, request_event,
  request_abandoned_event, publish_event, publish_abandoned_event, register_event, unregister_event,
  remember_event, forget_event, remember_presence_event, forget_presence_event,
  connect_started_event, connect_ended_event, connect_failed_event, socket_opened_event,
  handshake_answered_event, auth_send_failed_event, handshake_read_failed_event, frames_event,
  other_message_event, read_failed_event, publish_unsent_event, ping_event, ping_sent_event,
  pong_deadline_event, timer_event, reconnect_failed_event,
}
use realtime_go.Connection.Frame.{
  Same-then_also, connect-Same, request_abandoned-Same, request-Same, publish_call-Same,
}
use realtime_go.Connection.Frame.Inbound.{
  handle_frames-Same, arm_pong_deadline-Same, clear_pong_deadline-Same, timer_fired-Same,
  reconnect_failed-Same,
}
use realtime_go.Connection.Frame.Kept.{
  Kept, kept, Kept_refl, Same-Kept, connect_started-Kept, connect_failed-Kept, socket_opened-Kept,
  handshake_answered-Kept, teardown_socket-Kept, handle_socket_close-Kept,
  pong_deadline_passed-Kept, begin_close-Kept, finish_close-Kept,
}

-- What an event does to the subscriptions to restore.
pub data Update (c : Connection) : Event → Connection → Type 0 where
  untouched : {e : Event} {d : Connection} → Kept c d → Update c e d
  remembering : {name : Bytes} → Update c (remember_event name) (remember_subscription name c)
  forgetting :
      {name : Bytes} {epoch : Option ℕ}
      → Update c (forget_event name epoch) (forget_subscription name epoch c)

pub react-Update : (e : Event) (c : Connection) → Update c e (react e c).0
unfolding react register_channel unregister_channel remember_presence forget_presence connect_ended
    publish_unsent publish_abandoned auth_send_failed handshake_read_failed
react-Update (remember_event name) c = remembering
react-Update (forget_event name epoch) c = forgetting
react-Update connect_event c = untouched (Same-Kept c _ (connect-Same c))
react-Update begin_close_event c = untouched (begin_close-Kept c)
react-Update finish_close_event c = untouched (finish_close-Kept c)
react-Update (request_event kind build) c = untouched (Same-Kept c _ (request-Same kind build c))
react-Update (request_abandoned_event kind id e) c =
    untouched (Same-Kept c _ (request_abandoned-Same kind id e c))
react-Update (publish_event f) c = untouched (Same-Kept c _ (publish_call-Same f c))
react-Update (publish_abandoned_event key e) c = untouched (Kept_refl c)
react-Update (register_event name) c = untouched (kept refl refl)
react-Update (unregister_event name) c = untouched (kept refl refl)
react-Update (remember_presence_event name) c = untouched (kept refl refl)
react-Update (forget_presence_event name) c = untouched (kept refl refl)
react-Update connect_started_event c = untouched (connect_started-Kept c)
react-Update connect_ended_event c = untouched (kept refl refl)
react-Update (connect_failed_event e) c = untouched (connect_failed-Kept e c)
react-Update (socket_opened_event ws f) c = untouched (socket_opened-Kept ws f c)
react-Update (handshake_answered_event ws fs) c = untouched (handshake_answered-Kept ws fs c)
react-Update (auth_send_failed_event ws e) c = untouched (teardown_socket-Kept ws e c)
react-Update (handshake_read_failed_event ws e) c = untouched (teardown_socket-Kept ws _ c)
react-Update (frames_event fs) c =
    untouched
      (Same-Kept c _ (Same-then_also c _ _ (clear_pong_deadline-Same c) (handle_frames-Same fs)))
react-Update other_message_event c = untouched (Same-Kept c _ (clear_pong_deadline-Same c))
react-Update (read_failed_event ws e) c = untouched (handle_socket_close-Kept ws e c)
react-Update (publish_unsent_event id key) c = untouched (kept refl refl)
react-Update (ping_event ws) c = untouched (Kept_refl c)
react-Update ping_sent_event c = untouched (Same-Kept c _ (arm_pong_deadline-Same c))
react-Update (pong_deadline_event ws) c = untouched (pong_deadline_passed-Kept ws c)
react-Update timer_event c = untouched (Same-Kept c _ (timer_fired-Same c))
react-Update reconnect_failed_event c = untouched (Same-Kept c _ (reconnect_failed-Same c))
