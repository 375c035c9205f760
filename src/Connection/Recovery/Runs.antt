-- ===== src/Connection/Recovery/Runs.antt =====
-- connection.go: the publishes that wait through a run of events in an outage.
use realtime_go.Common.{
  and_parts, ℕ, ◌≡◌, refl, sym, ap, ◌∙◌, inl, inr, Bool, true, false, ◌&&◌, not, Option, none, some,
  List, [], ◌∷◌, Bytes, ◌==◌, Bool-cases,
}
use realtime_go.Common.Maps.{member, find}
use realtime_go.Common.Strings.{eq_bytes}
use realtime_go.Errors.{bad_auth_response, unexpected_first_frame}
use realtime_go.Wire.{
  ClientFrame, PublishFrame, ErrorFrame, AuthFrame, ServerFrame, connected, ack, msg,
  presence_event, error, pong, history_response, fetch_response,
}
use realtime_go.Connection.{
  Connection, RequestKind, ack_request, history_request, fetch_request, bump,
}
use realtime_go.Connection.Lifecycle.{is_closing, connect_ended}
use realtime_go.Connection.Requests.{set_waiting, send_request, request, request_abandoned}
use realtime_go.Connection.Publishes.{is_queueable, publish_abandoned}
use realtime_go.Connection.Subscriptions.{
  or_zero, register_channel, unregister_channel, remember_subscription, forget_subscription,
  remember_presence, forget_presence,
}
use realtime_go.Connection.Handshake.{
  socket_opened, is_auth_code, handshake_answered, auth_send_failed, handshake_read_failed,
  timer_fired,
}
use realtime_go.Connection.Events.{
  Event, react, react_all, connect_event, begin_close_event, finish_close_event, request_event,
  request_abandoned_event, publish_event, publish_abandoned_event, register_event, unregister_event,
  remember_event, forget_event, remember_presence_event, forget_presence_event,
  connect_started_event, connect_ended_event, connect_failed_event, socket_opened_event,
  handshake_answered_event, auth_send_failed_event, handshake_read_failed_event, frames_event,
  other_message_event, read_failed_event, publish_unsent_event, ping_event, ping_sent_event,
  pong_deadline_event, timer_event, reconnect_failed_event,
}
use realtime_go.Connection.Frame.{Same-then_also, connect-Same, settle-Same}
use realtime_go.Connection.Frame.Inbound.{
  handle_frames-Same, arm_pong_deadline-Same, clear_pong_deadline-Same, reconnect_failed-Same,
}
use realtime_go.Connection.Recovery.{sent_frame}
use realtime_go.Connection.Recovery.Idle.{
  idle, Idle-then_also, connect-Idle, reconnect_failed-Idle, settle-Idle, handle_frames-Idle,
  arm_pong_deadline-Idle, clear_pong_deadline-Idle,
}
use realtime_go.Connection.Recovery.Outage.{
  Waiting, Idle-Waiting, Same-Waiting, Waiting-if, connect_started-Waiting, connect_failed-Waiting,
  publish_unsent-Waiting, publish_call-Waiting, close_again-Waiting, teardown_socket-Waiting,
  pong_deadline_passed-Waiting,
}

abbrev is_reply : ServerFrame → Bool
is_reply (connected f) = false
is_reply (error f) = not (is_auth_code f.code)
is_reply f = true

abbrev is_no_welcome : List ServerFrame → Bool
is_no_welcome [] = true
is_no_welcome (f ∷ fs) = is_reply f

-- What can happen while a connection is down and stays down: anything but Close, and a handshake that
-- the server accepts or refuses with an auth error.
abbrev pub is_outage : Event → Bool
is_outage begin_close_event = false
is_outage finish_close_event = false
is_outage (handshake_answered_event ws fs) = is_no_welcome fs
is_outage e = true

abbrev pub all_outage : List Event → Bool
all_outage [] = true
all_outage (e ∷ es) = let rest = all_outage es in is_outage e && rest

-- The publishes of a run in front of those that waited before, the newest first.
abbrev pub with_published : Event → List PublishFrame → List PublishFrame
with_published (publish_event f) fs = sent_frame f ∷ fs
with_published e fs = fs

abbrev pub published_in : List Event → List PublishFrame → List PublishFrame
published_in [] fs = fs
published_in (e ∷ es) fs = published_in es (with_published e fs)

abbrev with_id : Event → List Bytes → List Bytes
with_id (publish_event f) ks = f.message_id ∷ ks
with_id e ks = ks

abbrev is_new_id : Event → List Bytes → Bool
is_new_id (publish_event f) ks = not (member eq_bytes f.message_id ks)
is_new_id e ks = true

-- The message ids of a run's publishes are new.
abbrev pub all_new_ids : List Event → List Bytes → Bool
all_new_ids [] ks = true
all_new_ids (e ∷ es) ks = let rest = all_new_ids es (with_id e ks) in is_new_id e ks && rest

is_not : (b : Bool) → not b ≡ true → b ≡ false
is_not true h = sym h
is_not false h = refl

module _ {fs : List PublishFrame} {ks : List Bytes} where
  -- A change of other fields only.
  aside :
      (c d : Connection)
      → Waiting fs ks c
      → d.state ≡ c.state
      → d.publish_request_ids ≡ c.publish_request_ids
      → d.outstanding ≡ c.outstanding
      → d.opts ≡ c.opts
      → d.fatal_err ≡ c.fatal_err
      → Waiting fs ks d
  aside c d h s i o p f =
      Idle-Waiting c (d, []) h (idle i o p f (λ ws. refl)) (ap is_queueable s ∙ h.queueable)

  forget-Waiting :
      (name : Bytes) (epoch : Option ℕ) (c : Connection)
      → Waiting fs ks c
      → Waiting fs ks (forget_subscription name epoch c)
  unfolding forget_subscription
  forget-Waiting name none c h = aside c _ h refl refl refl refl refl
  forget-Waiting name (some epoch) c h =
      elim (Bool-cases (epoch == or_zero (find eq_bytes name c.sub_epochs))) [
        | inl e ↦ rw e (aside c _ h refl refl refl refl refl)
        | inr e ↦ rw e h
      ]

  socket_opened-Waiting :
      (ws : ℕ) (f : AuthFrame) (c : Connection)
      → Waiting fs ks c
      → Waiting fs ks (socket_opened ws f c).0
  unfolding socket_opened
  socket_opened-Waiting ws f c h =
      Waiting-if (is_closing c.state) _ _ h (aside c _ h refl refl refl refl refl)

  rejected-Waiting :
      (ws : ℕ) (f : ErrorFrame) (rest : List ServerFrame) (c : Connection)
      → is_auth_code f.code ≡ false
      → Waiting fs ks c
      → Waiting fs ks (handshake_answered ws (error f ∷ rest) c).0
  unfolding handshake_answered
  rejected-Waiting ws f rest c n h = rw n (teardown_socket-Waiting ws _ c h)

  refused-Waiting :
      (ws : ℕ) (first : List ServerFrame) (c : Connection)
      → is_no_welcome first ≡ true
      → Waiting fs ks c
      → Waiting fs ks (handshake_answered ws first c).0
  unfolding handshake_answered
  refused-Waiting ws [] c n h = teardown_socket-Waiting ws bad_auth_response c h
  refused-Waiting ws (connected f ∷ rest) c n h = absurd (cc n)
  refused-Waiting ws (error f ∷ rest) c n h = rejected-Waiting ws f rest c (is_not _ n) h
  refused-Waiting ws (ack f ∷ rest) c n h = teardown_socket-Waiting ws unexpected_first_frame c h
  refused-Waiting ws (msg f ∷ rest) c n h = teardown_socket-Waiting ws unexpected_first_frame c h
  refused-Waiting ws (presence_event f ∷ rest) c n h =
      teardown_socket-Waiting ws unexpected_first_frame c h
  refused-Waiting ws (history_response f ∷ rest) c n h =
      teardown_socket-Waiting ws unexpected_first_frame c h
  refused-Waiting ws (fetch_response f ∷ rest) c n h =
      teardown_socket-Waiting ws unexpected_first_frame c h
  refused-Waiting ws (pong ∷ rest) c n h = teardown_socket-Waiting ws unexpected_first_frame c h

  send_request-Waiting :
      (o : Option ℕ) (kind : RequestKind) (id : ℕ) (frame : ClientFrame) (c : Connection)
      → Waiting fs ks c
      → Waiting fs ks (send_request o kind id frame c).0
  send_request-Waiting none kind id frame c h =
      Same-Waiting c _ h (settle-Idle kind id _ c) (settle-Same kind id _ c)
  send_request-Waiting (some ws) kind id frame c h = h

  set_waiting-Waiting :
      (kind : RequestKind) (ids : List ℕ) (c : Connection)
      → Waiting fs ks c
      → Waiting fs ks (set_waiting kind ids c)
  set_waiting-Waiting ack_request ids c h = aside c _ h refl refl refl refl refl
  set_waiting-Waiting history_request ids c h = aside c _ h refl refl refl refl refl
  set_waiting-Waiting fetch_request ids c h = aside c _ h refl refl refl refl refl

  request-Waiting :
      (kind : RequestKind) (build : ℕ → ClientFrame) (c : Connection)
      → Waiting fs ks c
      → Waiting fs ks (request kind build c).0
  unfolding request
  request-Waiting kind build c h = send_request-Waiting c.socket kind _ _ _ (
      set_waiting-Waiting kind _ _
        (aside c (record c { next_id = bump c.next_id }) h refl refl refl refl refl))

  frames-Waiting :
      (frames : List ServerFrame) (c : Connection)
      → Waiting fs ks c
      → Waiting fs ks (react (frames_event frames) c).0
  unfolding react
  frames-Waiting frames c h =
      Same-Waiting c _ h
        (Idle-then_also c _ _ h.no_ids (clear_pong_deadline-Idle c)
          (λ d k. handle_frames-Idle frames d k))
        (Same-then_also c _ _ (clear_pong_deadline-Same c) (handle_frames-Same frames))

  react-Waiting :
      (e : Event) (c : Connection)
      → is_outage e ≡ true
      → is_new_id e ks ≡ true
      → Waiting fs ks c
      → Waiting (with_published e fs) (with_id e ks) (react e c).0
  unfolding react register_channel unregister_channel remember_subscription remember_presence
      forget_presence connect_ended publish_abandoned auth_send_failed handshake_read_failed
      request_abandoned timer_fired
  react-Waiting connect_event c a n h = Same-Waiting c _ h (connect-Idle c) (connect-Same c)
  react-Waiting begin_close_event c a n h = absurd (cc a)
  react-Waiting finish_close_event c a n h = absurd (cc a)
  react-Waiting (request_event kind build) c a n h = request-Waiting kind build c h
  react-Waiting (request_abandoned_event kind id e) c a n h =
      Same-Waiting c _ h (settle-Idle kind id _ c) (settle-Same kind id _ c)
  react-Waiting (publish_event f) c a n h = publish_call-Waiting f c h (is_not _ n)
  react-Waiting (publish_abandoned_event key e) c a n h = h
  react-Waiting (register_event name) c a n h = aside c _ h refl refl refl refl refl
  react-Waiting (unregister_event name) c a n h = aside c _ h refl refl refl refl refl
  react-Waiting (remember_event name) c a n h = aside c _ h refl refl refl refl refl
  react-Waiting (forget_event name epoch) c a n h = forget-Waiting name epoch c h
  react-Waiting (remember_presence_event name) c a n h = aside c _ h refl refl refl refl refl
  react-Waiting (forget_presence_event name) c a n h = aside c _ h refl refl refl refl refl
  react-Waiting connect_started_event c a n h = connect_started-Waiting c h
  react-Waiting connect_ended_event c a n h = aside c _ h refl refl refl refl refl
  react-Waiting (connect_failed_event e) c a n h = connect_failed-Waiting e c h
  react-Waiting (socket_opened_event ws f) c a n h = socket_opened-Waiting ws f c h
  react-Waiting (handshake_answered_event ws first) c a n h = refused-Waiting ws first c a h
  react-Waiting (auth_send_failed_event ws e) c a n h = teardown_socket-Waiting ws e c h
  react-Waiting (handshake_read_failed_event ws e) c a n h = teardown_socket-Waiting ws _ c h
  react-Waiting (frames_event frames) c a n h = frames-Waiting frames c h
  react-Waiting other_message_event c a n h =
      Same-Waiting c _ h (clear_pong_deadline-Idle c) (clear_pong_deadline-Same c)
  react-Waiting (read_failed_event ws e) c a n h = close_again-Waiting ws e c h
  react-Waiting (publish_unsent_event id key) c a n h = publish_unsent-Waiting id key c h
  react-Waiting (ping_event ws) c a n h = h
  react-Waiting ping_sent_event c a n h =
      Same-Waiting c _ h (arm_pong_deadline-Idle c) (arm_pong_deadline-Same c)
  react-Waiting (pong_deadline_event ws) c a n h = pong_deadline_passed-Waiting ws c h
  react-Waiting timer_event c a n h = aside c _ h refl refl refl refl refl
  react-Waiting reconnect_failed_event c a n h =
      Same-Waiting c _ h (reconnect_failed-Idle c) (reconnect_failed-Same c)

-- The ids that a run leaves.
abbrev pub ids_after : List Event → List Bytes → List Bytes
ids_after [] ks = ks
ids_after (e ∷ es) ks = ids_after es (with_id e ks)

pub run-Waiting :
    {fs : List PublishFrame} {ks : List Bytes}
    → (es : List Event) (c : Connection) → all_outage es ≡ true
    → all_new_ids es ks ≡ true
    → Waiting fs ks c
    → Waiting (published_in es fs) (ids_after es ks) (react_all es c).0
unfolding react_all
run-Waiting [] c a n h = h
run-Waiting (e ∷ es) c a n h =
    let both = and_parts (is_outage e) _ a in
    let fresh = and_parts (is_new_id e _) _ n in
    run-Waiting es (react e c).0 both.1 fresh.1 (react-Waiting e c both.0 fresh.0 h)
