-- ===== src/Connection/Tests.antt =====
-- The connection at concrete inputs: each theorem of the connection at an input, and two runs.
use realtime_go.Common.{
  ◌+◌, ◌≤◌, ◌<◌, ◌≡◌, ◌↔◌, refl, true, false, none, some, List, [], ◌∷◌, ◌++◌, map, Bytes, arith,
}
use realtime_go.Common.Int.{pos, negsuc, int_of_u64, u64_of_int}
use realtime_go.Common.Maps.{count, find, member, discard, delete, keys}
use realtime_go.Common.Strings.{eq_bytes}
use realtime_go.Errors.{
  conn_connecting, conn_connected, conn_failed, conn_closed, conn_disconnected, keep_alive_timeout,
}
use realtime_go.Wire.{PublishFrame, ErrorFrame, ConnectedFrame, AuthFrame, ack, error, connected}
use realtime_go.Codec.Server.{encode_server_frame}
use realtime_go.Codec.Messages.{push_messages}
use realtime_go.Codec.Writer.{append_uvarint, append_string}
use realtime_go.Codec.Uvarint.{put_uvarint}
use realtime_go.Codec.Records.Split.{frame_all}
use realtime_go.Connection.{
  Options, Connection, new_connection, fresh_connection, ack_request, history_request,
  fetch_request,
}
use realtime_go.Connection.Backoff.{
  reconnect_delay, positive_or, shift_left, clamp_delay, schedule_reconnect,
}
use realtime_go.Connection.Backoff.Bounds.{
  reconnect_delay-bounds, exact_delay, reconnect_delay-exact_delay,
}
use realtime_go.Connection.Lifecycle.{is_closing, connect, set_state, stop_keep_alive_locked}
use realtime_go.Connection.Requests.{fail_pending}
use realtime_go.Connection.KeepAlive.{
  start_keep_alive_locked, keep_alive_interval, clear_pong_deadline,
}
use realtime_go.Connection.Publishes.{
  flush_outstanding, fail_outstanding, buffered, send_all, publish_call, send_publish,
  set_request_id, settle_publish, settle_message,
}
use realtime_go.Connection.Subscriptions.{
  restore_subscriptions, subscription_epoch, remember_subscription, forget_subscription,
}
use realtime_go.Connection.Inbound.{handle_frame, handle_frames, handle_message}
use realtime_go.Connection.Closing.{
  ◌then_also◌, begin_close, fail_all, socket_ended, teardown_socket, handle_socket_close,
  finish_close, unsent_all, keep_or_fail, retry_later,
}
use realtime_go.Connection.Handshake.{
  connect_started, socket_opened, complete_connect, handshake_answered, connect_failed,
}
use realtime_go.Connection.Endpoint.{endpoint_to_ws_url}
use realtime_go.Connection.Endpoint.Schemes.{Dialled, endpoint_to_ws_url-Dialled}
use realtime_go.Connection.Events.{
  Event, react, react_all, publish_event, connect_event, connect_started_event, begin_close_event,
  finish_close_event, forget_event, socket_opened_event, handshake_answered_event,
  read_failed_event, frames_event, timer_event, connect_failed_event,
}
use realtime_go.Connection.Ledger.{
  IsOnce, publish_answers, Item, a_publish, a_request, answered, open_items,
}
use realtime_go.Connection.Ledger.Account.{
  IsNewAll, started_in, answered-react_all, closed_run-answered,
}
use realtime_go.Connection.Frame.Epochs.{
  forget_subscription-remember_subscription, react_all-remembered,
}
use realtime_go.Connection.Frame.Runs.{react_all-closing}
use realtime_go.Connection.Messages.{
  Reply, history_reply, ack_reply, frame_of, answer_of, handle_message-answers,
}
use realtime_go.Connection.Recovery.{written_to}
use realtime_go.Connection.Recovery.Resent.{handshake_answered-resends}
use realtime_go.Connection.Rejection.{Ends, handle_socket_close-Ends, handshake_answered_fatal}

-- "room"
abbrev room : Bytes
room = 114 ∷ 111 ∷ 111 ∷ 109 ∷ []

abbrev options : Options
options = record {
  endpoint = [];
  key = 107 ∷ [];
  client_id = [];
  token = [];
  has_auth_callback = false;
  disable_auto_reconnect = false;
  initial_reconnect_delay = pos 0;
  max_reconnect_delay = pos 0;
  disable_queueing = false;
}

abbrev fresh : Connection
fresh = fresh_connection options

abbrev hello : PublishFrame
hello = record {
  channel = room;
  name = [];
  payload = 49 ∷ [];
  members = [];
  ephemeral = false;
  message_id = 109 ∷ [];
  encoding = [];
  id = 0;
}

abbrev welcome : ConnectedFrame
welcome = record { connection_id = 99 ∷ []; keep_alive_ms = 0; client_id = [] }

abbrev credential : AuthFrame
credential = record { token = []; key = 107 ∷ []; client_id = []; resume_connection_id = [] }

abbrev denied : ErrorFrame
denied = record { id = 0; code = pos 40101; message = 110 ∷ 111 ∷ [] }

abbrev closed : Connection
closed = record fresh { state = conn_closed }

abbrev live : Connection
live = record fresh { state = conn_connected; socket = some 1 }

-- A publish waits.
abbrev waits : Connection
waits = record live {
  outstanding = (109 ∷ [], record { frame = hello; request_id = 1 }) ∷ [];
  publish_request_ids = (1, 109 ∷ []) ∷ [];
  next_id = 1;
}

abbrev one_publish : List Event
one_publish =
    publish_event hello ∷ frames_event (ack (record { id = 1; resumed = none; seq = 0 }) ∷ []) ∷ []

delays :
    (reconnect_delay (pos 0) (pos 0) 4 ≡ 16000000000)
    × (reconnect_delay (pos 0) (pos 0) 5 ≡ 30000000000)
unfolding reconnect_delay clamp_delay shift_left int_of_u64 positive_or
delays = (refl, refl)

reconnect_delay-bounds_example :
    (0 < reconnect_delay (pos 5) (negsuc 0) 63)
    × (reconnect_delay (pos 5) (negsuc 0) 63 ≤ 30000000000)
unfolding positive_or
reconnect_delay-bounds_example = reconnect_delay-bounds (pos 5) (negsuc 0) 63

reconnect_delay-exact_delay_example :
    reconnect_delay (pos 1000000000) (pos 30000000000) 40 ≡ exact_delay 1000000000 30000000000 40
reconnect_delay-exact_delay_example =
    reconnect_delay-exact_delay 34 1000000000 30000000000 40 (omega arith) (omega arith)
      (omega arith) (omega arith) (omega arith)

endpoint_to_ws_url-Dialled_example :
    let url : Bytes = b'w' ∷ b's' ∷ b's' ∷ b':' ∷ b'/' ∷ b'/' ∷ room in
    (endpoint_to_ws_url room ≡ url) ↔ Dialled room url
endpoint_to_ws_url-Dialled_example =
    endpoint_to_ws_url-Dialled room (b'w' ∷ b's' ∷ b's' ∷ b':' ∷ b'/' ∷ b'/' ∷ room)

forget_subscription-remember_subscription_example :
    let again = remember_subscription room fresh in
    forget_subscription room (some (subscription_epoch room fresh)) again ≡ again
unfolding react_all
forget_subscription-remember_subscription_example =
    forget_subscription-remember_subscription room [] [] fresh

react_all-remembered_example :
    member eq_bytes room
      (react_all
        (forget_event room (some 0) ∷ connect_event ∷ [])
        (record fresh { desired_subs = room ∷ []; sub_epochs = (room, 1) ∷ [] })).0.desired_subs
    ≡ true
unfolding subscription_epoch find member eq_bytes
react_all-remembered_example =
    react_all-remembered room 1 (forget_event room (some 0) ∷ connect_event ∷ [])
      (record fresh { desired_subs = room ∷ []; sub_epochs = (room, 1) ∷ [] }) refl (omega arith)
      refl

react_all-closing_example :
    let es = handshake_answered_event 1 (connected welcome ∷ []) ∷ timer_event ∷ [] in
    (is_closing (react_all es closed).0.state ≡ true)
    × (closed.socket ≡ none → (react_all es closed).0.socket ≡ none)
react_all-closing_example =
    react_all-closing (handshake_answered_event 1 (connected welcome ∷ []) ∷ timer_event ∷ [])
      closed refl refl

-- Two replies.
abbrev two_replies : List Reply
two_replies =
    history_reply (record { id = 2; channel = room; messages = []; more = false })
    ∷ ack_reply (record { id = 1; resumed = none; seq = 0 })
    ∷ []

abbrev two_wait : Connection
two_wait = record live { pending = 1 ∷ 3 ∷ []; pending_hist = 2 ∷ [] }

handle_message-answers_example :
    handle_message (frame_all (map encode_server_frame (map frame_of two_replies))) two_wait
    ≡ (record live { pending = 3 ∷ [] }, map answer_of two_replies)
unfolding encode_server_frame append_uvarint append_string put_uvarint u64_of_int push_messages
    member discard
handle_message-answers_example =
    handle_message-answers two_replies two_wait (omega arith) refl refl refl

abbrev later : PublishFrame
later = record hello { message_id = 110 ∷ [] }

-- A publish, a failed attempt and one that comes to a socket.
abbrev outage : List Event
outage =
    publish_event later
    ∷ connect_started_event
    ∷ connect_failed_event keep_alive_timeout
    ∷ connect_started_event
    ∷ socket_opened_event 2 credential
    ∷ []

handshake_answered-resends_example :
    written_to 2
      (handshake_answered 2
        (connected welcome ∷ [])
        (react_all outage (handle_socket_close 1 keep_alive_timeout waits).0).0).1
    ≡ later ∷ hello ∷ []
unfolding react_all react publish_call connect_started connect_failed socket_opened
    handle_socket_close socket_ended stop_keep_alive_locked set_state fail_pending keep_or_fail
    retry_later schedule_reconnect ◌then_also◌ eq_bytes member unsent_all delete
handshake_answered-resends_example =
    handshake_answered-resends 1 2 keep_alive_timeout waits outage welcome [] refl
      (record { not_closing = refl; reconnects = refl; queues = refl; not_fatal = refl }) refl refl
      refl

handle_socket_close-Ends_example :
    Ends conn_disconnected true (handle_socket_close 1 keep_alive_timeout waits).0
handle_socket_close-Ends_example = handle_socket_close-Ends 1 keep_alive_timeout waits refl

handshake_answered_fatal_example :
    Ends conn_failed false
      (handshake_answered 1 (error denied ∷ []) (record live { state = conn_connecting })).0
handshake_answered_fatal_example =
    handshake_answered_fatal 1 denied [] (record live { state = conn_connecting }) refl refl refl
      refl

one_waiter : (k j : Bytes) → count eq_bytes k (j ∷ []) ≤ 1
unfolding count
one_waiter k j = ground arith

no_request-IsOnce :
    (c : Connection)
    → c.pending ≡ []
    → c.pending_hist ≡ []
    → c.pending_fetch ≡ []
    → ((k : Bytes) → count eq_bytes k (keys c.outstanding) ≤ 1)
    → IsOnce c
unfolding open_items count
no_request-IsOnce c e f g h (a_publish k) = h k
no_request-IsOnce c e f g h (a_request ack_request id) = rw e (omega arith)
no_request-IsOnce c e f g h (a_request history_request id) = rw f (omega arith)
no_request-IsOnce c e f g h (a_request fetch_request id) = rw g (omega arith)

first_publish-IsNew :
    (c : Connection)
    → c.pending ≡ []
    → c.pending_hist ≡ []
    → c.pending_fetch ≡ []
    → keys c.outstanding ≡ []
    → (item : Item) → publish_answers item (109 ∷ []) + open_items item c ≤ 1
unfolding open_items count
first_publish-IsNew c e f g h (a_publish k) = rw h (ground arith)
first_publish-IsNew c e f g h (a_request ack_request id) = rw e (omega arith)
first_publish-IsNew c e f g h (a_request history_request id) = rw f (omega arith)
first_publish-IsNew c e f g h (a_request fetch_request id) = rw g (omega arith)

one_publish-IsNewAll : IsNewAll one_publish live
unfolding open_items count react react_all publish_call send_publish handle_frames handle_frame
    settle_publish settle_message member find delete set_request_id eq_bytes ◌then_also◌
    clear_pong_deadline
one_publish-IsNewAll =
    let waiting =
      no_request-IsOnce (react (publish_event hello) live).0 refl refl refl
        (λ k. one_waiter k (109 ∷ [])) in
    (
      first_publish-IsNew live refl refl refl refl,
      (
        λ item. omega (arith, waiting item),
        no_request-IsOnce (react_all one_publish live).0 refl refl refl (λ k. omega arith),
      ),
    )

answered-react_all_example :
    answered (a_publish (109 ∷ [])) (react_all one_publish live).1
      + open_items (a_publish (109 ∷ [])) (react_all one_publish live).0
    ≡ started_in one_publish live (a_publish (109 ∷ [])) + open_items (a_publish (109 ∷ [])) live
answered-react_all_example =
    answered-react_all one_publish live one_publish-IsNewAll (a_publish (109 ∷ []))

made : new_connection options ≡ some fresh
unfolding new_connection
made = refl

made-IsNewAll : IsNewAll (publish_event hello ∷ []) fresh
unfolding react publish_call delete
made-IsNewAll = (
  first_publish-IsNew fresh refl refl refl refl,
  no_request-IsOnce (react (publish_event hello) fresh).0 refl refl refl
      (λ k. one_waiter k (109 ∷ [])),
)

closed_run-answered_example :
    (answered (a_publish (109 ∷ [])) (
        (react_all (publish_event hello ∷ []) fresh).1
        ++ (finish_close (react_all (publish_event hello ∷ []) fresh).0).1)
      ≡ started_in (publish_event hello ∷ []) fresh (a_publish (109 ∷ [])))
    × (open_items
          (a_publish (109 ∷ []))
          (finish_close (react_all (publish_event hello ∷ []) fresh).0).0
        ≡ 0)
closed_run-answered_example =
    closed_run-answered options fresh (publish_event hello ∷ []) made made-IsNewAll
      (a_publish (109 ∷ []))

-- A Close between the start of an attempt and its first step does not stop it.
revived :
    (react_all
      (connect_event
        ∷ begin_close_event
        ∷ finish_close_event
        ∷ connect_started_event
        ∷ socket_opened_event 1 credential
        ∷ handshake_answered_event 1 (connected welcome ∷ [])
        ∷ [])
      fresh).0.state
    ≡ conn_connected
unfolding react react_all connect begin_close finish_close ◌then_also◌ stop_keep_alive_locked
    set_state fail_all fail_pending fail_outstanding connect_started socket_opened
    handshake_answered complete_connect start_keep_alive_locked keep_alive_interval int_of_u64
    handle_frames restore_subscriptions flush_outstanding buffered send_all
revived = refl

-- An auth error noted while closing fails a later connection.
failed_later :
    (react_all
      (connect_started_event
        ∷ socket_opened_event 1 credential
        ∷ begin_close_event
        ∷ handshake_answered_event 1 (error denied ∷ [])
        ∷ finish_close_event
        ∷ connect_started_event
        ∷ socket_opened_event 2 credential
        ∷ handshake_answered_event 2 (connected welcome ∷ [])
        ∷ read_failed_event 2 keep_alive_timeout
        ∷ [])
      fresh).0.state
    ≡ conn_failed
unfolding react react_all connect begin_close finish_close ◌then_also◌ stop_keep_alive_locked
    set_state fail_all fail_pending fail_outstanding connect_started socket_opened
    handshake_answered complete_connect start_keep_alive_locked keep_alive_interval int_of_u64
    handle_frames restore_subscriptions flush_outstanding buffered send_all teardown_socket
    handle_socket_close socket_ended
failed_later = refl
