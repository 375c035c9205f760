-- ===== src/Connection/Handshake.antt =====
-- connection.go: one connect attempt, from the credential to the authenticated socket.
use realtime_go.Common.{
  ℕ, Bool, true, false, ◌&&◌, ◌||◌, not, none, some, List, [], ◌∷◌, Bytes, ◌==◌, if◌then◌else◌,
}
use realtime_go.Common.Int.{ℤ, pos, negsuc}
use realtime_go.Errors.{
  conn_connecting, conn_connected, conn_disconnected, conn_closing, conn_closed, conn_failed,
  Reason, bad_auth_response, unexpected_first_frame, auth_failed, handshake_closed,
  auth_callback_failed,
}
use realtime_go.Wire.{AuthFrame, auth, ConnectedFrame, ErrorFrame, ServerFrame, connected, error}
use realtime_go.Connection.{
  Connection, Effect, write_frame, close_socket, start_read_loop, kick_connect,
}
use realtime_go.Connection.Lifecycle.{eq_conn, is_closing, set_state}
use realtime_go.Connection.Backoff.{schedule_reconnect}
use realtime_go.Connection.Publishes.{flush_outstanding}
use realtime_go.Connection.Subscriptions.{restore_subscriptions}
use realtime_go.Connection.Inbound.{handle_frames}
use realtime_go.Connection.KeepAlive.{keep_alive_interval, start_keep_alive_locked}
use realtime_go.Connection.Closing.{◌then_also◌, retry_later, teardown_socket}

-- `createAuthFrame`; the last argument is what the callback returns when it is asked, a token or an
-- error.
abbrev with_credential : Bytes → Bytes → Bytes → Bytes → AuthFrame
with_credential token key client_id resume = record {
  token = token;
  key = key;
  client_id = client_id;
  resume_connection_id = resume;
}

pub data TokenAnswer : Type 0 where
  token_minted : Bytes → TokenAnswer
  token_refused : Reason → TokenAnswer

-- The frame, or the error of the callback.
pub data AuthResult : Type 0 where
  auth_ready : AuthFrame → AuthResult
  auth_error : Reason → AuthResult

abbrev minted : Bytes → TokenAnswer → AuthResult
minted resume (token_minted token) = auth_ready (with_credential token [] [] resume)
minted resume (token_refused e) = auth_error (auth_callback_failed e)

abbrev by_token : Bytes → Bytes → TokenAnswer → AuthResult
by_token [] resume minting = minted resume minting
by_token (t ∷ token) resume minting = auth_ready (with_credential (t ∷ token) [] [] resume)

abbrev by_key : Bytes → Bytes → Bytes → Bytes → TokenAnswer → AuthResult
by_key [] client_id token resume minting = by_token token resume minting
by_key (k ∷ key) client_id token resume minting =
    auth_ready (with_credential [] (k ∷ key) client_id resume)

unfoldable pub create_auth_frame : TokenAnswer → Connection → AuthResult
create_auth_frame minting c =
    by_key c.opts.key c.opts.client_id c.opts.token c.connection_id minting

-- The start of `doConnect`.
unfoldable pub connect_started : Connection → Connection × List Effect
connect_started c = set_state conn_connecting none c

-- `doConnect` when the credential or the dial failed.
unfoldable pub connect_failed : Reason → Connection → Connection × List Effect
connect_failed e c =
    if eq_conn c.state conn_connecting
    then set_state conn_disconnected (some e) c then_also retry_later
    else (c, [])

-- `doConnect` when the dial gave a socket: the auth frame goes out, unless Close ran meanwhile.
unfoldable pub socket_opened : ℕ → AuthFrame → Connection → Connection × List Effect
socket_opened ws frame c =
    if is_closing c.state
    then (c, close_socket ws 1000 ∷ [])
    else (record c { socket = some ws }, write_frame ws (auth frame) ∷ [])

-- What `completeConnect` stores.
abbrev pub installed : ConnectedFrame → Connection → Connection
installed f c = record c {
  connection_id = f.connection_id;
  client_id = f.client_id;
  reconnect_attempt = 0;
  has_connected_before = true;
}

unfoldable pub complete_connect :
    ℕ → ConnectedFrame → List ServerFrame → Connection → Connection × List Effect
complete_connect ws f rest c =
    if is_closing c.state
    then (c, close_socket ws 1000 ∷ [])
    else set_state conn_connected none (installed f c)
      then_also start_keep_alive_locked ws (keep_alive_interval f.keep_alive_ms)
      then_also handle_frames rest
      then_also (λ d. (d, start_read_loop ws ∷ restore_subscriptions c.has_connected_before d))
      then_also flush_outstanding

-- CodeBadAuth and CodeAuthExpired.
abbrev pub is_auth_code : ℤ → Bool
is_auth_code (pos n) = n == 40101 || n == 40102
is_auth_code (negsuc n) = false

-- An auth error is fatal when no callback can give another credential.
abbrev pub note_fatal : ErrorFrame → Reason → Connection → Connection
note_fatal f e c =
    if is_auth_code f.code && not c.opts.has_auth_callback
    then record c { fatal_err = some e }
    else c

abbrev pub rejected : ℕ → ErrorFrame → Connection → Connection × List Effect
rejected ws f c =
    let e = auth_failed (record { code = f.code; message = f.message }) in
    teardown_socket ws e (note_fatal f e c)

-- `finishHandshake` by the first frames that the server sent.
unfoldable pub handshake_answered : ℕ → List ServerFrame → Connection → Connection × List Effect
handshake_answered ws [] c = teardown_socket ws bad_auth_response c
handshake_answered ws (connected f ∷ rest) c = complete_connect ws f rest c
handshake_answered ws (error f ∷ rest) c = rejected ws f c
handshake_answered ws (f ∷ rest) c = teardown_socket ws unexpected_first_frame c

-- The auth frame could not be sent, or its answer could not be read.
unfoldable pub auth_send_failed : ℕ → Reason → Connection → Connection × List Effect
auth_send_failed ws e c = teardown_socket ws e c

unfoldable pub handshake_read_failed : ℕ → Reason → Connection → Connection × List Effect
handshake_read_failed ws e c = teardown_socket ws (handshake_closed e) c

-- The reconnect timer fires: it connects in the background.
unfoldable pub timer_fired : Connection → Connection × List Effect
timer_fired c = (record c { reconnect_timer = false }, kick_connect ∷ [])

-- That connect returned an error.
unfoldable pub reconnect_failed : Connection → Connection × List Effect
reconnect_failed c =
    if eq_conn c.state conn_closed || eq_conn c.state conn_closing || eq_conn c.state conn_failed
    then (c, [])
    else schedule_reconnect c
