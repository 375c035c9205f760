-- ===== src/Connection/Frame/Closed.antt =====
-- connection.go: a connection that is closing or closed stays so until an attempt starts.
use realtime_go.Common.{
  ℕ, ◌≡◌, refl, sym, ap, ◌∙◌, Bool, true, false, ◌&&◌, not, Option, none, some, List, [], ◌∷◌,
  if◌then◌else◌,
}
use realtime_go.Errors.{
  ConnectionState, conn_initialized, conn_connecting, conn_connected, conn_disconnected,
  conn_closing, conn_closed, conn_failed, Reason, connection_closed, keep_alive_timeout,
  bad_auth_response, unexpected_first_frame,
}
use realtime_go.Wire.{
  AuthFrame, ConnectedFrame, ServerFrame, connected, ack, msg, presence_event, error, pong,
  history_response, fetch_response,
}
use realtime_go.Connection.{Connection, Effect}
use realtime_go.Connection.Lifecycle.{eq_conn, is_closing, set_state}
use realtime_go.Connection.KeepAlive.{is_alive, is_socket}
use realtime_go.Connection.Closing.{
  ◌then_also◌, fail_all, ended_by, socket_ended, handle_socket_close, teardown_socket,
  pong_deadline_passed, begin_close, finish_close,
}
use realtime_go.Connection.Handshake.{
  connect_failed, socket_opened, complete_connect, is_auth_code, handshake_answered,
}
use realtime_go.Connection.Frame.{Same, Same_refl, stop_keep_alive-Same, fail_all-Same}
use realtime_go.Connection.Frame.Inbound.{stop_timer-Same}

-- `c` is closing or closed; `d` is it as well, and has no socket that `c` had not.
pub record Down (c d : Connection) : Type 0 where
  pub still_closing : is_closing d.state ≡ true
  pub no_socket : c.socket ≡ none → d.socket ≡ none

pub Same-Down : (c d : Connection) → is_closing c.state ≡ true → Same c d → Down c d
Same-Down c d h s = record {
  still_closing = ap is_closing s.same_state ∙ h;
  no_socket = λ n. s.same_socket ∙ n;
}

Down-trans : (c d e : Connection) → Down c d → Down d e → Down c e
Down-trans c d e h k = record {
  still_closing = k.still_closing;
  no_socket = λ n. k.no_socket (h.no_socket n);
}

pub Down-refl : (c : Connection) → is_closing c.state ≡ true → Down c c
Down-refl c h = Same-Down c c h (Same_refl c)

Down-if :
    (b : Bool) (c : Connection) (r q : Connection × List Effect)
    → Down c r.0
    → Down c q.0
    → Down c (if b then r else q).0
Down-if true c r q h k = h
Down-if false c r q h k = k

Down-then_also :
    (c : Connection) (r : Connection × List Effect) (f : Connection → Connection × List Effect)
    → Down c r.0
    → ((d : Connection) → is_closing d.state ≡ true → Down d (f d).0)
    → Down c (r then_also f).0
unfolding ◌then_also◌
Down-then_also c (d, out) f h k = Down-trans c d (f d).0 h (k d h.still_closing)

set_state-Down :
    (s : ConnectionState) (e : Option Reason) (c : Connection)
    → is_closing s ≡ true
    → is_closing c.state ≡ true
    → Down c (set_state s e c).0
unfolding set_state
set_state-Down s e c h k =
    Down-if (eq_conn c.state s) c _ _ (Down-refl c k)
      (record { still_closing = h; no_socket = λ n. n })

closing_not_connecting :
    (s : ConnectionState) → is_closing s ≡ true → eq_conn s conn_connecting ≡ false
closing_not_connecting conn_initialized h = refl
closing_not_connecting conn_connecting h = sym h
closing_not_connecting conn_connected h = refl
closing_not_connecting conn_disconnected h = refl
closing_not_connecting conn_closing h = refl
closing_not_connecting conn_closed h = refl
closing_not_connecting conn_failed h = refl

pub connect_failed-Down :
    (e : Reason) (c : Connection) → is_closing c.state ≡ true → Down c (connect_failed e c).0
unfolding connect_failed
connect_failed-Down e c h = rw (closing_not_connecting c.state h) (Down-refl c h)

pub socket_opened-Down :
    (ws : ℕ) (f : AuthFrame) (c : Connection)
    → is_closing c.state ≡ true
    → Down c (socket_opened ws f c).0
unfolding socket_opened
socket_opened-Down ws f c h = rw h (Down-refl c h)

complete_connect-Down :
    (ws : ℕ) (f : ConnectedFrame) (rest : List ServerFrame) (c : Connection)
    → is_closing c.state ≡ true
    → Down c (complete_connect ws f rest c).0
unfolding complete_connect
complete_connect-Down ws f rest c h = rw h (Down-refl c h)

forgotten_ids-Down :
    (cause : Reason) (c : Connection)
    → is_closing c.state ≡ true
    → Down c
        (if is_closing c.state
          then set_state conn_closed none c then_also fail_all connection_closed
          else ended_by c.fatal_err cause c).0
forgotten_ids-Down cause c h = rw h (
    Down-then_also c _ _ (set_state-Down conn_closed none c refl h)
      (λ e k. Same-Down e _ k (fail_all-Same connection_closed e)))

socket_ended-Down :
    (cause : Reason) (c : Connection) → is_closing c.state ≡ true → Down c (socket_ended cause c).0
unfolding socket_ended
socket_ended-Down cause c h =
    Down-then_also c _ _
      (Down-trans c (record c { socket = none }) _
        (record { still_closing = h; no_socket = λ n. refl })
        (Same-Down _ _ h (stop_keep_alive-Same (record c { socket = none }))))
      (λ d k.
        Down-trans d (record d { publish_request_ids = [] }) _
          (record { still_closing = k; no_socket = λ n. n }) (forgotten_ids-Down cause _ k))

pub handle_socket_close-Down :
    (ws : ℕ) (cause : Reason) (c : Connection)
    → is_closing c.state ≡ true
    → Down c (handle_socket_close ws cause c).0
unfolding handle_socket_close
handle_socket_close-Down ws cause c h =
    Down-if (is_socket ws c.socket) c _ _ (socket_ended-Down cause c h) (Down-refl c h)

pub teardown_socket-Down :
    (ws : ℕ) (e : Reason) (c : Connection)
    → is_closing c.state ≡ true
    → Down c (teardown_socket ws e c).0
unfolding teardown_socket
teardown_socket-Down ws e c h = handle_socket_close-Down ws e c h

after_note-Down :
    (b : Bool) (e : Reason) (ws : ℕ) (c : Connection)
    → is_closing c.state ≡ true
    → Down c (teardown_socket ws e (if b then record c { fatal_err = some e } else c)).0
after_note-Down true e ws c h =
    Down-trans c (record c { fatal_err = some e }) _
      (record { still_closing = h; no_socket = λ n. n }) (teardown_socket-Down ws e _ h)
after_note-Down false e ws c h = teardown_socket-Down ws e c h

pub handshake_answered-Down :
    (ws : ℕ) (fs : List ServerFrame) (c : Connection)
    → is_closing c.state ≡ true
    → Down c (handshake_answered ws fs c).0
unfolding handshake_answered
handshake_answered-Down ws [] c = teardown_socket-Down ws bad_auth_response c
handshake_answered-Down ws (connected f ∷ rest) c = complete_connect-Down ws f rest c
handshake_answered-Down ws (error f ∷ rest) c =
    after_note-Down (is_auth_code f.code && not c.opts.has_auth_callback) _ ws c
handshake_answered-Down ws ((ack f) ∷ rest) c = teardown_socket-Down ws unexpected_first_frame c
handshake_answered-Down ws ((msg f) ∷ rest) c = teardown_socket-Down ws unexpected_first_frame c
handshake_answered-Down ws ((presence_event f) ∷ rest) c =
    teardown_socket-Down ws unexpected_first_frame c
handshake_answered-Down ws ((history_response f) ∷ rest) c =
    teardown_socket-Down ws unexpected_first_frame c
handshake_answered-Down ws ((fetch_response f) ∷ rest) c =
    teardown_socket-Down ws unexpected_first_frame c
handshake_answered-Down ws (pong ∷ rest) c = teardown_socket-Down ws unexpected_first_frame c

pub pong_deadline_passed-Down :
    (ws : ℕ) (c : Connection) → is_closing c.state ≡ true → Down c (pong_deadline_passed ws c).0
unfolding pong_deadline_passed
pong_deadline_passed-Down ws c h =
    Down-trans c (record c { pong_deadline = false }) _
      (record { still_closing = h; no_socket = λ n. n })
      (Down-if (is_alive ws (record c { pong_deadline = false })) _ _ _
        (handle_socket_close-Down ws keep_alive_timeout _ h) (Down-refl _ h))

pub begin_close-Down : (c : Connection) → is_closing c.state ≡ true → Down c (begin_close c).0
unfolding begin_close
begin_close-Down c h =
    Down-then_also c _ _
      (Down-then_also c _ _
        (Down-then_also c _ _ (Same-Down c _ h (stop_timer-Same c))
          (λ d k. Same-Down d _ k (stop_keep_alive-Same d)))
        (λ d k. set_state-Down conn_closing none d refl k))
      Down-refl

pub finish_close-Down : (c : Connection) → is_closing c.state ≡ true → Down c (finish_close c).0
unfolding finish_close
finish_close-Down c h =
    Down-then_also c _ _ (set_state-Down conn_closed none c refl h)
      (λ d k. Same-Down d _ k (fail_all-Same connection_closed d))
