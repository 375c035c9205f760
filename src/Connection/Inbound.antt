-- ===== src/Connection/Inbound.antt =====
-- connection.go: a decoded server frame goes to the caller or the channel that waits for it.
use realtime_go.Common.{ℕ, Bool, none, some, List, [], ◌∷◌, ◌++◌, Bytes, ◌==◌, if◌then◌else◌}
use realtime_go.Common.Maps.{member}
use realtime_go.Common.Strings.{eq_bytes}
use realtime_go.Errors.{Reason, server_error}
use realtime_go.Wire.{
  ErrorFrame, ServerFrame, connected, ack, msg, presence_event, error, pong, history_response,
  fetch_response,
}
use realtime_go.Codec.Records.{decode_server_frames}
use realtime_go.Connection.{
  Connection, RequestKind, ack_request, history_request, fetch_request, acked, history_answer,
  fetch_answer, failed_with, Effect, emit_state, deliver_message, deliver_presence,
}
use realtime_go.Connection.Requests.{waiting, settle}
use realtime_go.Connection.Publishes.{settle_publish}

-- The error of a request that is waiting, tried in the source's order; none was, at the end.
unfoldable pub unscoped_error : Reason → Connection → Connection × List Effect
unscoped_error e c = (c, emit_state c.state (some e) ∷ [])

abbrev pub settle_or :
    RequestKind → ℕ → Reason → Connection × List Effect → Connection → Connection × List Effect
settle_or kind id e otherwise c =
    if member ◌==◌ id (waiting kind c) then settle kind id (failed_with e) c else otherwise

abbrev pub publish_or :
    Bool × (Connection × List Effect) → Connection × List Effect → Connection × List Effect
publish_or (found, r) otherwise = if found then r else otherwise

abbrev pub scoped_error : ℕ → Reason → Connection → Connection × List Effect
scoped_error id e c =
    settle_or ack_request id e
      (publish_or (settle_publish id (some e) c)
        (settle_or history_request id e (settle_or fetch_request id e (unscoped_error e c) c) c))
      c

unfoldable pub handle_error_frame : ErrorFrame → Connection → Connection × List Effect
handle_error_frame f c =
    let e = server_error (record { code = f.code; message = f.message }) in
    if f.id == 0 then unscoped_error e c else scoped_error f.id e c

unfoldable pub handle_frame : ServerFrame → Connection → Connection × List Effect
handle_frame (ack f) c =
    if member ◌==◌ f.id c.pending
    then settle ack_request f.id (acked f) c
    else (settle_publish f.id none c).1
handle_frame (error f) c = handle_error_frame f c
handle_frame (msg f) c =
    (c, if member eq_bytes f.channel c.hooks then deliver_message f ∷ [] else [])
handle_frame (presence_event f) c =
    (c, if member eq_bytes f.channel c.hooks then deliver_presence f ∷ [] else [])
handle_frame (history_response f) c = settle history_request f.id (history_answer f) c
handle_frame (fetch_response f) c = settle fetch_request f.id (fetch_answer f) c
handle_frame (connected f) c = (c, [])
handle_frame pong c = (c, [])

unfoldable pub handle_frames : List ServerFrame → Connection → Connection × List Effect
handle_frames [] c = (c, [])
handle_frames (f ∷ fs) c =
    let (c1, out1) = handle_frame f c in let (c2, out2) = handle_frames fs c1 in (c2, out1 ++ out2)

-- The end of a round of `readLoop`, for a binary message.
unfoldable pub handle_message : Bytes → Connection → Connection × List Effect
handle_message body c = handle_frames (decode_server_frames body) c
