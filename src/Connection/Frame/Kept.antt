-- ===== src/Connection/Frame/Kept.antt =====
-- connection.go: only the calls of a channel change the subscriptions to restore.
use realtime_go.Common.{
  ℕ, ◌≡◌, refl, ◌∙◌, Bool, true, false, ◌&&◌, not, Option, none, some, List, [], ◌∷◌, if◌then◌else◌,
}
use realtime_go.Errors.{
  ConnectionState, conn_connecting, conn_disconnected, Reason, conn_connected, conn_closed,
  conn_closing, conn_failed, connection_closed, keep_alive_timeout, bad_auth_response,
  unexpected_first_frame,
}
use realtime_go.Wire.{
  ServerFrame, ConnectedFrame, AuthFrame, connected, ack, msg, presence_event, error, pong,
  history_response, fetch_response,
}
use realtime_go.Connection.{Connection, Effect}
use realtime_go.Connection.Lifecycle.{eq_conn, is_closing, set_state}
use realtime_go.Connection.KeepAlive.{is_alive, is_socket, keep_alive_interval}
use realtime_go.Connection.Closing.{
  ◌then_also◌, ended_by, socket_ended, handle_socket_close, teardown_socket, pong_deadline_passed,
  begin_close, finish_close,
}
use realtime_go.Connection.Handshake.{
  connect_started, connect_failed, socket_opened, complete_connect, is_auth_code,
  handshake_answered,
}
use realtime_go.Connection.Frame.{
  Same, fail_all-Same, fail_pending-Same, keep_or_fail-Same, retry_later-Same, stop_keep_alive-Same,
  flush_outstanding-Same,
}
use realtime_go.Connection.Frame.Inbound.{
  handle_frames-Same, start_keep_alive-Same, stop_timer-Same,
}

-- The subscriptions of `c` are those of `d`.
pub record Kept (c d : Connection) : Type 0 where
  pub kept_subs : d.desired_subs ≡ c.desired_subs
  pub kept_epochs : d.sub_epochs ≡ c.sub_epochs

abbrev pub kept :
    {c d : Connection} → d.desired_subs ≡ c.desired_subs → d.sub_epochs ≡ c.sub_epochs → Kept c d
kept g h = record { kept_subs = g; kept_epochs = h }

pub Same-Kept : (c d : Connection) → Same c d → Kept c d
Same-Kept c d h = kept h.same_subs h.same_epochs

pub Kept_trans : (c d e : Connection) → Kept c d → Kept d e → Kept c e
Kept_trans c d e h k = kept (k.kept_subs ∙ h.kept_subs) (k.kept_epochs ∙ h.kept_epochs)

pub Kept_refl : (c : Connection) → Kept c c
Kept_refl c = kept refl refl

Kept-if :
    (b : Bool) (c : Connection) (r q : Connection × List Effect)
    → Kept c r.0
    → Kept c q.0
    → Kept c (if b then r else q).0
Kept-if true c r q h k = h
Kept-if false c r q h k = k

Kept-then_also :
    (c : Connection) (r : Connection × List Effect) (f : Connection → Connection × List Effect)
    → Kept c r.0
    → ((d : Connection) → Kept d (f d).0)
    → Kept c (r then_also f).0
unfolding ◌then_also◌
Kept-then_also c (d, out) f h k = Kept_trans c d (f d).0 h (k d)

set_state-Kept :
    (s : ConnectionState) (e : Option Reason) (c : Connection) → Kept c (set_state s e c).0
unfolding set_state
set_state-Kept s e c = Kept-if (eq_conn c.state s) c _ _ (Kept_refl c) (kept refl refl)

pub connect_started-Kept : (c : Connection) → Kept c (connect_started c).0
unfolding connect_started
connect_started-Kept c = set_state-Kept conn_connecting none c

pub connect_failed-Kept : (e : Reason) (c : Connection) → Kept c (connect_failed e c).0
unfolding connect_failed
connect_failed-Kept e c =
    Kept-if (eq_conn c.state conn_connecting) c _ _
      (Kept-then_also c _ _ (set_state-Kept conn_disconnected (some e) c)
        (λ d. Same-Kept d _ (retry_later-Same d)))
      (Kept_refl c)

pub socket_opened-Kept : (ws : ℕ) (f : AuthFrame) (c : Connection) → Kept c (socket_opened ws f c).0
unfolding socket_opened
socket_opened-Kept ws f c = Kept-if (is_closing c.state) c _ _ (Kept_refl c) (kept refl refl)

complete_connect-Kept :
    (ws : ℕ) (f : ConnectedFrame) (rest : List ServerFrame) (c : Connection)
    → Kept c (complete_connect ws f rest c).0
unfolding complete_connect
complete_connect-Kept ws f rest c = Kept-if (is_closing c.state) c _ _ (Kept_refl c) (
    Kept-then_also c _ _
      (Kept-then_also c _ _
        (Kept-then_also c _ _
          (Kept-then_also c _ _
            (Kept_trans c _ _ (kept refl refl) (set_state-Kept conn_connected none _))
            (λ d. Same-Kept d _ (start_keep_alive-Same ws (keep_alive_interval f.keep_alive_ms) d)))
          (λ d. Same-Kept d _ (handle_frames-Same rest d)))
        Kept_refl)
      (λ d. Same-Kept d _ (flush_outstanding-Same d)))

ended_by-Kept :
    (fatal : Option Reason) (cause : Reason) (c : Connection) → Kept c (ended_by fatal cause c).0
ended_by-Kept (some fatal) cause c =
    Kept-then_also c _ _
      (Kept_trans c _ _ (kept refl refl) (set_state-Kept conn_failed (some fatal) _))
      (λ d. Same-Kept d _ (fail_all-Same fatal d))
ended_by-Kept none cause c =
    Kept-then_also c _ _
      (Kept-then_also c _ _
        (Kept-then_also c _ _ (Same-Kept c _ (fail_pending-Same _ c)) (set_state-Kept _ _))
        (λ d. Same-Kept d _ (keep_or_fail-Same d)))
      (λ d. Same-Kept d _ (retry_later-Same d))

socket_ended-Kept : (cause : Reason) (c : Connection) → Kept c (socket_ended cause c).0
unfolding socket_ended
socket_ended-Kept cause c =
    Kept-then_also c _ _
      (Kept_trans c _ _ (kept refl refl)
        (Same-Kept _ _ (stop_keep_alive-Same (record c { socket = none }))))
      (λ d. Kept_trans d _ _ (kept refl refl) (
        Kept-if (is_closing d.state) _ _ _
          (Kept-then_also _ _ _ (set_state-Kept conn_closed none _)
            (λ e. Same-Kept e _ (fail_all-Same connection_closed e)))
          (ended_by-Kept d.fatal_err cause _)))

pub handle_socket_close-Kept :
    (ws : ℕ) (cause : Reason) (c : Connection) → Kept c (handle_socket_close ws cause c).0
unfolding handle_socket_close
handle_socket_close-Kept ws cause c =
    Kept-if (is_socket ws c.socket) c _ _ (socket_ended-Kept cause c) (Kept_refl c)

pub teardown_socket-Kept :
    (ws : ℕ) (e : Reason) (c : Connection) → Kept c (teardown_socket ws e c).0
unfolding teardown_socket
teardown_socket-Kept ws e c = handle_socket_close-Kept ws e c

after_note-Kept :
    (b : Bool) (e : Reason) (ws : ℕ) (c : Connection)
    → Kept c (teardown_socket ws e (if b then record c { fatal_err = some e } else c)).0
after_note-Kept true e ws c = Kept_trans c _ _ (kept refl refl) (teardown_socket-Kept ws e _)
after_note-Kept false e ws c = teardown_socket-Kept ws e c

pub handshake_answered-Kept :
    (ws : ℕ) (fs : List ServerFrame) (c : Connection) → Kept c (handshake_answered ws fs c).0
unfolding handshake_answered
handshake_answered-Kept ws [] c = teardown_socket-Kept ws bad_auth_response c
handshake_answered-Kept ws (connected f ∷ rest) c = complete_connect-Kept ws f rest c
handshake_answered-Kept ws (error f ∷ rest) c =
    after_note-Kept (is_auth_code f.code && not c.opts.has_auth_callback) _ ws c
handshake_answered-Kept ws (ack f ∷ rest) c = teardown_socket-Kept ws unexpected_first_frame c
handshake_answered-Kept ws (msg f ∷ rest) c = teardown_socket-Kept ws unexpected_first_frame c
handshake_answered-Kept ws (presence_event f ∷ rest) c =
    teardown_socket-Kept ws unexpected_first_frame c
handshake_answered-Kept ws (history_response f ∷ rest) c =
    teardown_socket-Kept ws unexpected_first_frame c
handshake_answered-Kept ws (fetch_response f ∷ rest) c =
    teardown_socket-Kept ws unexpected_first_frame c
handshake_answered-Kept ws (pong ∷ rest) c = teardown_socket-Kept ws unexpected_first_frame c

pub pong_deadline_passed-Kept : (ws : ℕ) (c : Connection) → Kept c (pong_deadline_passed ws c).0
unfolding pong_deadline_passed
pong_deadline_passed-Kept ws c =
    Kept_trans c (record c { pong_deadline = false }) _ (kept refl refl)
      (Kept-if (is_alive ws (record c { pong_deadline = false })) _ _ _
        (handle_socket_close-Kept ws keep_alive_timeout _) (Kept_refl _))

pub begin_close-Kept : (c : Connection) → Kept c (begin_close c).0
unfolding begin_close
begin_close-Kept c =
    Kept-then_also c _ _
      (Kept-then_also c _ _
        (Kept-then_also c _ _ (Same-Kept c _ (stop_timer-Same c))
          (λ d. Same-Kept d _ (stop_keep_alive-Same d)))
        (set_state-Kept conn_closing none))
      Kept_refl

pub finish_close-Kept : (c : Connection) → Kept c (finish_close c).0
unfolding finish_close
finish_close-Kept c =
    Kept-then_also c _ _ (set_state-Kept conn_closed none c)
      (λ d. Same-Kept d _ (fail_all-Same connection_closed d))
