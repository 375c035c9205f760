-- ===== src/Connection/Frame/Runs.antt =====
-- connection.go: runs of a connection that is closing or closed.
use realtime_go.Common.{
  ℕ, ◌≡◌, inl, inr, Bool, true, false, Option, none, some, List, [], ◌∷◌, Bytes, arith, ◌==◌,
  if◌then◌else◌, Bool-cases,
}
use realtime_go.Common.Maps.{find}
use realtime_go.Common.Strings.{eq_bytes}
use realtime_go.Connection.{Connection}
use realtime_go.Connection.Lifecycle.{is_closing, connect_ended}
use realtime_go.Connection.Publishes.{publish_abandoned, publish_unsent}
use realtime_go.Connection.Subscriptions.{
  or_zero, register_channel, unregister_channel, remember_subscription, forget_subscription,
  remember_presence, forget_presence,
}
use realtime_go.Connection.Handshake.{auth_send_failed, handshake_read_failed}
use realtime_go.Connection.Events.{
  Event, react, react_all, connect_event, begin_close_event, finish_close_event, request_event,
  request_abandoned_event, publish_event, publish_abandoned_event, register_event, unregister_event,
  remember_event, forget_event, remember_presence_event, forget_presence_event,
  connect_started_event, connect_ended_event, connect_failed_event, socket_opened_event,
  handshake_answered_event, auth_send_failed_event, handshake_read_failed_event, frames_event,
  other_message_event, read_failed_event, publish_unsent_event, ping_event, ping_sent_event,
  pong_deadline_event, timer_event, reconnect_failed_event,
}
use realtime_go.Connection.Frame.{
  Same-then_also, connect-Same, request_abandoned-Same, request-Same, publish_call-Same,
}
use realtime_go.Connection.Frame.Inbound.{
  handle_frames-Same, arm_pong_deadline-Same, clear_pong_deadline-Same, timer_fired-Same,
  reconnect_failed-Same,
}
use realtime_go.Connection.Frame.Closed.{
  Down, Down-refl, Same-Down, begin_close-Down, connect_failed-Down, finish_close-Down,
  handle_socket_close-Down, handshake_answered-Down, pong_deadline_passed-Down, socket_opened-Down,
  teardown_socket-Down,
}

forget-Down :
    (name : Bytes) (epoch : Option ℕ) (c : Connection)
    → is_closing c.state ≡ true
    → Down c (forget_subscription name epoch c)
unfolding forget_subscription
forget-Down name none c h = record { still_closing = h; no_socket = λ n. n }
forget-Down name (some epoch) c h =
    elim (Bool-cases (epoch == or_zero (find eq_bytes name c.sub_epochs))) [
      | inl e ↦ rw e (record { still_closing = h; no_socket = λ n. n })
      | inr e ↦ rw e (Down-refl c h)
    ]

abbrev pub is_attempt : Event → Bool
is_attempt connect_started_event = true
is_attempt e = false

react-Down :
    (e : Event) (c : Connection)
    → is_closing c.state ≡ true
    → is_attempt e ≡ false
    → Down c (react e c).0
unfolding react register_channel unregister_channel remember_subscription remember_presence
    forget_presence connect_ended publish_unsent publish_abandoned auth_send_failed
    handshake_read_failed
react-Down connect_event c h k = Same-Down c _ h (connect-Same c)
react-Down begin_close_event c h k = begin_close-Down c h
react-Down finish_close_event c h k = finish_close-Down c h
react-Down (request_event kind build) c h k = Same-Down c _ h (request-Same kind build c)
react-Down (request_abandoned_event kind id e) c h k =
    Same-Down c _ h (request_abandoned-Same kind id e c)
react-Down (publish_event f) c h k = Same-Down c _ h (publish_call-Same f c)
react-Down (publish_abandoned_event key e) c h k = Down-refl c h
react-Down (register_event name) c h k = record { still_closing = h; no_socket = λ n. n }
react-Down (unregister_event name) c h k = record { still_closing = h; no_socket = λ n. n }
react-Down (remember_event name) c h k = record { still_closing = h; no_socket = λ n. n }
react-Down (forget_event name epoch) c h k = forget-Down name epoch c h
react-Down (remember_presence_event name) c h k = record { still_closing = h; no_socket = λ n. n }
react-Down (forget_presence_event name) c h k = record { still_closing = h; no_socket = λ n. n }
react-Down connect_started_event c h k = absurd (grind (arith, k))
react-Down connect_ended_event c h k = record { still_closing = h; no_socket = λ n. n }
react-Down (connect_failed_event e) c h k = connect_failed-Down e c h
react-Down (socket_opened_event ws f) c h k = socket_opened-Down ws f c h
react-Down (handshake_answered_event ws fs) c h k = handshake_answered-Down ws fs c h
react-Down (auth_send_failed_event ws e) c h k = teardown_socket-Down ws e c h
react-Down (handshake_read_failed_event ws e) c h k = teardown_socket-Down ws _ c h
react-Down (frames_event fs) c h k =
    Same-Down c _ h (Same-then_also c _ _ (clear_pong_deadline-Same c) (handle_frames-Same fs))
react-Down other_message_event c h k = Same-Down c _ h (clear_pong_deadline-Same c)
react-Down (read_failed_event ws e) c h k = handle_socket_close-Down ws e c h
react-Down (publish_unsent_event id key) c h k = record { still_closing = h; no_socket = λ n. n }
react-Down (ping_event ws) c h k = Down-refl c h
react-Down ping_sent_event c h k = Same-Down c _ h (arm_pong_deadline-Same c)
react-Down (pong_deadline_event ws) c h k = pong_deadline_passed-Down ws c h
react-Down timer_event c h k = Same-Down c _ h (timer_fired-Same c)
react-Down reconnect_failed_event c h k = Same-Down c _ h (reconnect_failed-Same c)

abbrev pub no_attempt : List Event → Bool
no_attempt [] = true
no_attempt (e ∷ es) = if is_attempt e then false else no_attempt es

-- A connection that is closing or closed stays so, whatever happens, as long as no connect attempt
-- starts: neither a late handshake, nor a frame, a dial or a timer revives it. And when it has no
-- socket it gets none.
pub react_all-closing :
    (es : List Event) (c : Connection)
    → is_closing c.state ≡ true
    → no_attempt es ≡ true
    → (is_closing (react_all es c).0.state ≡ true)
      × (c.socket ≡ none → (react_all es c).0.socket ≡ none)
unfolding react_all
react_all-closing [] c h k = (h, λ n. n)
react_all-closing (e ∷ es) c h k = elim (Bool-cases (is_attempt e)) [
  | inl a ↦ absurd (cc (rw a at k))
  | inr a ↦
      let first = react-Down e c h a in
      let later = react_all-closing es (react e c).0 first.still_closing (rw a at k) in
      (later.0, λ n. later.1 (first.no_socket n))
]
