-- ===== src/Connection/Frame/Inbound.antt =====
-- connection.go: received frames, keep-alive and timers leave alone the state and the subscriptions.
use realtime_go.Common.{ℕ, refl, Bool, ◌||◌, none, some, List, [], ◌∷◌, ◌==◌, leb}
use realtime_go.Common.Int.{ℤ, pos, negsuc}
use realtime_go.Common.Maps.{member}
use realtime_go.Errors.{Reason, conn_closed, conn_closing, conn_failed, server_error}
use realtime_go.Wire.{
  ErrorFrame, ServerFrame, connected, ack, msg, presence_event, error, pong, history_response,
  fetch_response,
}
use realtime_go.Connection.{
  Connection, RequestKind, ack_request, history_request, fetch_request, Effect,
}
use realtime_go.Connection.Lifecycle.{eq_conn, stop_keep_alive_locked}
use realtime_go.Connection.Requests.{waiting}
use realtime_go.Connection.Publishes.{settle_publish}
use realtime_go.Connection.Inbound.{
  unscoped_error, settle_or, publish_or, scoped_error, handle_error_frame, handle_frame,
  handle_frames,
}
use realtime_go.Connection.KeepAlive.{
  pinging, started, start_keep_alive_locked, arm_pong_deadline, clear_pong_deadline,
}
use realtime_go.Connection.Closing.{stop_timer}
use realtime_go.Connection.Handshake.{timer_fired, reconnect_failed}
use realtime_go.Connection.Frame.{
  Same, same, Same_refl, Same_trans, Same-if, settle-Same, settle_publish-Same,
  stop_keep_alive-Same, schedule_reconnect-Same,
}

settle_or-Same :
    (kind : RequestKind) (id : ℕ) (e : Reason) (r : Connection × List Effect) (c : Connection)
    → Same c r.0
    → Same c (settle_or kind id e r c).0
settle_or-Same kind id e r c h =
    Same-if (member ◌==◌ id (waiting kind c)) c _ r (settle-Same kind id _ c) h

publish_or-Same :
    (q : Bool × (Connection × List Effect)) (r : Connection × List Effect) (c : Connection)
    → Same c q.1.0
    → Same c r.0
    → Same c (publish_or q r).0
publish_or-Same (found, q) r c h k = Same-if found c q r h k

handle_error_frame-Same : (f : ErrorFrame) (c : Connection) → Same c (handle_error_frame f c).0
unfolding handle_error_frame unscoped_error
handle_error_frame-Same f c =
    let e = server_error (record { code = f.code; message = f.message }) in
    Same-if (f.id == 0) c (unscoped_error e c) (scoped_error f.id e c) (Same_refl c) (
      settle_or-Same ack_request f.id e _ c (
        publish_or-Same (settle_publish f.id (some e) c) _ c (settle_publish-Same f.id (some e) c) (
          settle_or-Same history_request f.id e _ c
            (settle_or-Same fetch_request f.id e (unscoped_error e c) c (Same_refl c)))))

handle_frame-Same : (f : ServerFrame) (c : Connection) → Same c (handle_frame f c).0
unfolding handle_frame
handle_frame-Same (ack f) c =
    Same-if (member ◌==◌ f.id c.pending) c _ _ (settle-Same ack_request f.id _ c)
      (settle_publish-Same f.id none c)
handle_frame-Same (error f) c = handle_error_frame-Same f c
handle_frame-Same (msg f) c = Same_refl c
handle_frame-Same (presence_event f) c = Same_refl c
handle_frame-Same (history_response f) c = settle-Same history_request f.id _ c
handle_frame-Same (fetch_response f) c = settle-Same fetch_request f.id _ c
handle_frame-Same (connected f) c = Same_refl c
handle_frame-Same pong c = Same_refl c

pub handle_frames-Same : (fs : List ServerFrame) (c : Connection) → Same c (handle_frames fs c).0
unfolding handle_frames
handle_frames-Same [] c = Same_refl c
handle_frames-Same (f ∷ fs) c =
    Same_trans c _ _ (handle_frame-Same f c) (handle_frames-Same fs (handle_frame f c).0)

started-Same :
    (ws : ℕ) (interval : ℤ) (c : Connection) (r : Connection × List Effect)
    → Same c r.0
    → Same c (started ws interval r).0
started-Same ws (negsuc n) c r h = h
started-Same ws (pos interval) c (d, out) h =
    Same-if (leb interval 0) c (d, out) (pinging ws interval (d, out)) h
      (Same_trans c d _ h (same refl refl refl refl))

pub start_keep_alive-Same :
    (ws : ℕ) (interval : ℤ) (c : Connection) → Same c (start_keep_alive_locked ws interval c).0
unfolding start_keep_alive_locked
start_keep_alive-Same ws interval c =
    started-Same ws interval c (stop_keep_alive_locked c) (stop_keep_alive-Same c)

pub arm_pong_deadline-Same : (c : Connection) → Same c (arm_pong_deadline c).0
unfolding arm_pong_deadline
arm_pong_deadline-Same c = Same-if c.pong_deadline c _ _ (Same_refl c) (same refl refl refl refl)

pub clear_pong_deadline-Same : (c : Connection) → Same c (clear_pong_deadline c).0
unfolding clear_pong_deadline
clear_pong_deadline-Same c = Same-if c.pong_deadline c _ _ (same refl refl refl refl) (Same_refl c)

pub stop_timer-Same : (c : Connection) → Same c (stop_timer c).0
stop_timer-Same c = Same-if c.reconnect_timer c _ _ (same refl refl refl refl) (Same_refl c)

pub timer_fired-Same : (c : Connection) → Same c (timer_fired c).0
unfolding timer_fired
timer_fired-Same c = same refl refl refl refl

pub reconnect_failed-Same : (c : Connection) → Same c (reconnect_failed c).0
unfolding reconnect_failed
reconnect_failed-Same c =
    Same-if
      (eq_conn c.state conn_closed || eq_conn c.state conn_closing || eq_conn c.state conn_failed) c
      _ _ (Same_refl c) (schedule_reconnect-Same c)
