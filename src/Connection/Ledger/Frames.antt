-- ===== src/Connection/Ledger/Frames.antt =====
-- connection.go: the account over received frames, keep-alive and the end of a socket.
use realtime_go.Common.{
  ℕ, refl, Bool, true, false, Option, none, some, List, [], ◌∷◌, arith, ◌==◌, leb, if◌then◌else◌,
}
use realtime_go.Common.Int.{ℤ, pos, negsuc}
use realtime_go.Common.Maps.{member}
use realtime_go.Errors.{conn_closing, conn_closed, Reason, keep_alive_timeout, connection_closed}
use realtime_go.Wire.{
  ErrorFrame, ServerFrame, connected, ack, msg, presence_event, error, pong, history_response,
  fetch_response,
}
use realtime_go.Connection.{
  Connection, RequestKind, ack_request, history_request, fetch_request, acked, history_answer,
  fetch_answer, failed_with, Effect, emit_state, deliver_message, deliver_presence,
  start_keep_alive, start_pong_deadline, stop_pong_deadline, close_socket, stop_reconnect_timer,
}
use realtime_go.Connection.Lifecycle.{stop_keep_alive_locked}
use realtime_go.Connection.Requests.{waiting}
use realtime_go.Connection.Publishes.{settle_publish}
use realtime_go.Connection.Inbound.{
  unscoped_error, settle_or, publish_or, scoped_error, handle_error_frame, handle_frame,
  handle_frames,
}
use realtime_go.Connection.KeepAlive.{
  clamp_deadline, pinging, started, start_keep_alive_locked, arm_pong_deadline, clear_pong_deadline,
  is_alive,
}
use realtime_go.Connection.Closing.{
  handle_socket_close, teardown_socket, pong_deadline_passed, stop_timer, close_current,
  begin_close, finish_close,
}
use realtime_go.Connection.Ledger.Settled.{
  quiet-IsSettled, settle-IsSettled, same_items, settle_publish-IsSettled,
}
use realtime_go.Connection.Ledger.Operations.{
  Settles, quiet-Settles, Settles-then, Settles-then_also, Settles-if, Settles-tells, Settles-after,
  set_state-Settles, stop_keep_alive-Settles, fail_all-Settles, handle_socket_close-Settles,
}

unscoped_error-Settles : (e : Reason) (c : Connection) → Settles c (unscoped_error e c)
unfolding unscoped_error
unscoped_error-Settles e c =
    Settles-tells c c (emit_state c.state (some e)) (λ item. refl) (λ item. refl)

settle_or-Settles :
    (kind : RequestKind) (id : ℕ) (e : Reason) (r : Connection × List Effect) (c : Connection)
    → Settles c r
    → Settles c (settle_or kind id e r c)
settle_or-Settles kind id e r c h =
    Settles-if (member ◌==◌ id (waiting kind c)) c _ r (settle-IsSettled kind id (failed_with e) c)
      h

publish_or-Settles :
    (q : Bool × (Connection × List Effect)) (r : Connection × List Effect) (c : Connection)
    → Settles c q.1
    → Settles c r
    → Settles c (publish_or q r)
publish_or-Settles (found, q) r c h k = Settles-if found c q r h k

scoped_error-Settles : (id : ℕ) (e : Reason) (c : Connection) → Settles c (scoped_error id e c)
scoped_error-Settles id e c = settle_or-Settles ack_request id e _ c (
    publish_or-Settles (settle_publish id (some e) c) _ c (settle_publish-IsSettled id (some e) c) (
      settle_or-Settles history_request id e _ c
        (settle_or-Settles fetch_request id e _ c (unscoped_error-Settles e c))))

handle_error_frame-Settles : (f : ErrorFrame) (c : Connection) → Settles c (handle_error_frame f c)
unfolding handle_error_frame
handle_error_frame-Settles f c =
    Settles-if (f.id == 0) c _ _ (unscoped_error-Settles _ c) (scoped_error-Settles f.id _ c)

told-Settles :
    (b : Bool) (c : Connection) (e : Effect)
    → Settles c (c, e ∷ [])
    → Settles c (c, if b then e ∷ [] else [])
told-Settles true c e h = h
told-Settles false c e h = quiet-Settles c

handle_frame-Settles : (f : ServerFrame) (c : Connection) → Settles c (handle_frame f c)
unfolding handle_frame
handle_frame-Settles (ack f) c =
    Settles-if (member ◌==◌ f.id c.pending) c _ _ (settle-IsSettled ack_request f.id (acked f) c)
      (settle_publish-IsSettled f.id none c)
handle_frame-Settles (error f) c = handle_error_frame-Settles f c
handle_frame-Settles (msg f) c =
    told-Settles _ c (deliver_message f)
      (Settles-tells c c (deliver_message f) (λ item. refl) (λ item. refl))
handle_frame-Settles (presence_event f) c =
    told-Settles _ c (deliver_presence f)
      (Settles-tells c c (deliver_presence f) (λ item. refl) (λ item. refl))
handle_frame-Settles (history_response f) c =
    settle-IsSettled history_request f.id (history_answer f) c
handle_frame-Settles (fetch_response f) c = settle-IsSettled fetch_request f.id (fetch_answer f) c
handle_frame-Settles (connected f) c = quiet-Settles c
handle_frame-Settles pong c = quiet-Settles c

pub handle_frames-Settles :
    (fs : List ServerFrame) (c : Connection) → Settles c (handle_frames fs c)
unfolding handle_frames
handle_frames-Settles [] c o = quiet-IsSettled c
handle_frames-Settles (f ∷ fs) c o =
    Settles-then c (handle_frame f c).0 _ _ _ (handle_frame-Settles f c)
      (handle_frames-Settles fs (handle_frame f c).0) o

pinging-Settles :
    (ws interval : ℕ) (c : Connection) (r : Connection × List Effect)
    → Settles c r
    → Settles c (pinging ws interval r)
pinging-Settles ws interval c (d, out) h =
    Settles-then c d _ out (start_keep_alive ws interval ∷ []) h (
      Settles-tells d
        (record d { keep_alive = some ws; pong_deadline_dur = clamp_deadline interval })
        (start_keep_alive ws interval) (λ item. refl)
        (λ item. same_items d _ item refl refl refl refl))

started-Settles :
    (ws : ℕ) (interval : ℤ) (c : Connection) (r : Connection × List Effect)
    → Settles c r
    → Settles c (started ws interval r)
started-Settles ws (negsuc n) c r h = h
started-Settles ws (pos interval) c r h =
    Settles-if (leb interval 0) c r _ h (pinging-Settles ws interval c r h)

pub start_keep_alive-Settles :
    (ws : ℕ) (interval : ℤ) (c : Connection) → Settles c (start_keep_alive_locked ws interval c)
unfolding start_keep_alive_locked
start_keep_alive-Settles ws interval c =
    started-Settles ws interval c (stop_keep_alive_locked c) (stop_keep_alive-Settles c)

pub arm_pong_deadline-Settles : (c : Connection) → Settles c (arm_pong_deadline c)
unfolding arm_pong_deadline
arm_pong_deadline-Settles c = Settles-if c.pong_deadline c _ _ (quiet-Settles c) (
    Settles-tells c _ (start_pong_deadline c.pong_deadline_dur) (λ item. refl)
      (λ item. same_items c _ item refl refl refl refl))

pub clear_pong_deadline-Settles : (c : Connection) → Settles c (clear_pong_deadline c)
unfolding clear_pong_deadline
clear_pong_deadline-Settles c =
    Settles-if c.pong_deadline c _ _
      (Settles-tells c _ stop_pong_deadline (λ item. refl)
        (λ item. same_items c _ item refl refl refl refl))
      (quiet-Settles c)

-- A socket is closed besides.
closing-Settles :
    (ws close_code : ℕ) (c : Connection) (r : Connection × List Effect)
    → Settles c r
    → Settles c (r.0, close_socket ws close_code ∷ r.1)
closing-Settles ws close_code c r h o item = omega (arith, h o item)

pub teardown_socket-Settles :
    (ws : ℕ) (e : Reason) (c : Connection) → Settles c (teardown_socket ws e c)
unfolding teardown_socket
teardown_socket-Settles ws e c =
    closing-Settles ws 4001 c (handle_socket_close ws e c) (handle_socket_close-Settles ws e c)

pub pong_deadline_passed-Settles : (ws : ℕ) (c : Connection) → Settles c (pong_deadline_passed ws c)
unfolding pong_deadline_passed
pong_deadline_passed-Settles ws c =
    Settles-after c (record c { pong_deadline = false }) _ refl refl refl refl
      (Settles-if (is_alive ws (record c { pong_deadline = false })) _ _ _
        (closing-Settles ws 4002 _ (handle_socket_close ws keep_alive_timeout _)
          (handle_socket_close-Settles ws keep_alive_timeout _))
        (quiet-Settles _))

stop_timer-Settles : (c : Connection) → Settles c (stop_timer c)
stop_timer-Settles c =
    Settles-if c.reconnect_timer c _ _
      (Settles-tells c _ stop_reconnect_timer (λ item. refl)
        (λ item. same_items c _ item refl refl refl refl))
      (quiet-Settles c)

close_current-Settles : (ws : Option ℕ) (c : Connection) → Settles c (c, close_current ws)
close_current-Settles none c = quiet-Settles c
close_current-Settles (some ws) c =
    Settles-tells c c (close_socket ws 1000) (λ item. refl) (λ item. refl)

pub begin_close-Settles : (c : Connection) → Settles c (begin_close c)
unfolding begin_close
begin_close-Settles c =
    Settles-then_also c _ _
      (Settles-then_also c _ _
        (Settles-then_also c _ _ (stop_timer-Settles c) stop_keep_alive-Settles)
        (set_state-Settles conn_closing none))
      (λ d. close_current-Settles d.socket d)

pub finish_close-Settles : (c : Connection) → Settles c (finish_close c)
unfolding finish_close
finish_close-Settles c =
    Settles-then_also c _ _ (set_state-Settles conn_closed none c)
      (fail_all-Settles connection_closed)
