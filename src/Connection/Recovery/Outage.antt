-- ===== src/Connection/Recovery/Outage.antt =====
-- connection.go: the publishes that wait during an outage, by event.
use realtime_go.Common.{
  ℕ, ◌≡◌, refl, sym, ap, subst, ◌∙◌, Bool, true, false, Option, none, some, All, List, [], ◌∷◌,
  Bytes, ◌==◌, if◌then◌else◌,
}
use realtime_go.Common.Maps.{keys, member, delete}
use realtime_go.Common.Strings.{eq_bytes}
use realtime_go.Errors.{
  ConnectionState, conn_initialized, conn_connecting, conn_connected, conn_disconnected,
  conn_closing, conn_closed, conn_failed, Reason, websocket_closed, keep_alive_timeout,
}
use realtime_go.Wire.{PublishFrame}
use realtime_go.Connection.{Connection, Effect}
use realtime_go.Connection.Lifecycle.{eq_conn, is_closing, set_state, stop_keep_alive_locked}
use realtime_go.Connection.Requests.{fail_pending}
use realtime_go.Connection.Publishes.{is_queueable, publish_unsent, publish_call}
use realtime_go.Connection.KeepAlive.{is_socket, is_alive}
use realtime_go.Connection.Closing.{
  ◌then_also◌, dropped, socket_ended, handle_socket_close, teardown_socket, retry_later,
  keep_or_fail, pong_deadline_passed,
}
use realtime_go.Connection.Handshake.{connect_started, connect_failed}
use realtime_go.Connection.Rejection.{set_state-record}
use realtime_go.Connection.Frame.{Same, retry_later-Same}
use realtime_go.Connection.Recovery.{frames_of, sent_frame}
use realtime_go.Connection.Recovery.Idle.{Idle, retry_later-Idle}
-- Between two connections: the frames `fs` under the message ids `ks` wait to be sent, none of them in
-- flight, and the client reconnects and keeps publishes.
use realtime_go.Connection.Recovery.Unsent.{
  unsent_all-unsent, unsent_all-frames_of, unsent_all-keys, clear_request_id-unsent,
  clear_request_id-frames_of, clear_request_id-keys, delete_absent,
}

pub record Waiting (fs : List PublishFrame) (ks : List Bytes) (c : Connection) : Type 0 where
  pub queueable : is_queueable c.state ≡ true
  pub no_ids : c.publish_request_ids ≡ []
  pub unsent : All (λ e. e.1.request_id ≡ 0) c.outstanding
  pub frames : frames_of c.outstanding ≡ fs
  pub ids : keys c.outstanding ≡ ks
  pub reconnects : c.opts.disable_auto_reconnect ≡ false
  pub queues : c.opts.disable_queueing ≡ false
  pub not_fatal : c.fatal_err ≡ none

pub queueable_not_closing : (s : ConnectionState) → is_queueable s ≡ true → is_closing s ≡ false
queueable_not_closing conn_initialized h = refl
queueable_not_closing conn_connecting h = refl
queueable_not_closing conn_connected h = refl
queueable_not_closing conn_disconnected h = refl
queueable_not_closing conn_closing h = sym h
queueable_not_closing conn_closed h = sym h
queueable_not_closing conn_failed h = refl

queueable_not_connected :
    (s : ConnectionState) → is_queueable s ≡ true → eq_conn s conn_connected ≡ false
queueable_not_connected conn_initialized h = refl
queueable_not_connected conn_connecting h = refl
queueable_not_connected conn_connected h = sym h
queueable_not_connected conn_disconnected h = refl
queueable_not_connected conn_closing h = refl
queueable_not_connected conn_closed h = refl
queueable_not_connected conn_failed h = refl

module _ {fs : List PublishFrame} {ks : List Bytes} where
  pub Idle-Waiting :
      (c : Connection) (r : Connection × List Effect)
      → Waiting fs ks c
      → Idle c r
      → is_queueable r.0.state ≡ true
      → Waiting fs ks r.0
  Idle-Waiting c r h i q = record {
    queueable = q;
    no_ids = i.same_ids ∙ h.no_ids;
    unsent = subst (λ m. All (λ e. e.1.request_id ≡ 0) m) (sym i.same_outstanding) h.unsent;
    frames = ap frames_of i.same_outstanding ∙ h.frames;
    ids = ap keys i.same_outstanding ∙ h.ids;
    reconnects = ap (λ o. o.disable_auto_reconnect) i.same_opts ∙ h.reconnects;
    queues = ap (λ o. o.disable_queueing) i.same_opts ∙ h.queues;
    not_fatal = i.same_fatal ∙ h.not_fatal;
  }

  pub Same-Waiting :
      (c : Connection) (r : Connection × List Effect)
      → Waiting fs ks c
      → Idle c r
      → Same c r.0
      → Waiting fs ks r.0
  Same-Waiting c r h i s = Idle-Waiting c r h i (ap is_queueable s.same_state ∙ h.queueable)

  pub Waiting-if :
      (b : Bool) (r q : Connection × List Effect)
      → Waiting fs ks r.0
      → Waiting fs ks q.0
      → Waiting fs ks (if b then r else q).0
  Waiting-if true r q h k = h
  Waiting-if false r q h k = k

  in_state :
      (s : ConnectionState) (e : Option Reason) (c : Connection)
      → is_queueable s ≡ true
      → Waiting fs ks c
      → Waiting fs ks (set_state s e c).0
  in_state s e c q h = rw (set_state-record s e c) (record {
    queueable = q;
    no_ids = h.no_ids;
    unsent = h.unsent;
    frames = h.frames;
    ids = h.ids;
    reconnects = h.reconnects;
    queues = h.queues;
    not_fatal = h.not_fatal;
  })

  pub connect_started-Waiting :
      (c : Connection) → Waiting fs ks c → Waiting fs ks (connect_started c).0
  unfolding connect_started
  connect_started-Waiting c h = in_state conn_connecting none c refl h

  retry_later-Waiting : (c : Connection) → Waiting fs ks c → Waiting fs ks (retry_later c).0
  retry_later-Waiting c h =
      Same-Waiting c (retry_later c) h (retry_later-Idle c) (retry_later-Same c)

  pub connect_failed-Waiting :
      (e : Reason) (c : Connection) → Waiting fs ks c → Waiting fs ks (connect_failed e c).0
  unfolding connect_failed ◌then_also◌
  connect_failed-Waiting e c h =
      Waiting-if (eq_conn c.state conn_connecting) _ _
        (retry_later-Waiting _ (in_state conn_disconnected (some e) c refl h)) h

  pub publish_unsent-Waiting :
      (id : ℕ) (key : Bytes) (c : Connection)
      → Waiting fs ks c
      → Waiting fs ks (publish_unsent id key c)
  unfolding publish_unsent delete
  publish_unsent-Waiting id key c h = record {
    queueable = h.queueable;
    no_ids = ap (delete ◌==◌ id) h.no_ids;
    unsent = clear_request_id-unsent key c.outstanding h.unsent;
    frames = clear_request_id-frames_of key c.outstanding ∙ h.frames;
    ids = clear_request_id-keys key c.outstanding ∙ h.ids;
    reconnects = h.reconnects;
    queues = h.queues;
    not_fatal = h.not_fatal;
  }

  pub publish_call-Waiting :
      (f : PublishFrame) (c : Connection)
      → Waiting fs ks c
      → member eq_bytes f.message_id ks ≡ false
      → Waiting (sent_frame f ∷ fs) (f.message_id ∷ ks) (publish_call f c).0
  unfolding publish_call
  publish_call-Waiting f c h n =
      let absent =
        delete_absent f.message_id c.outstanding (ap (member eq_bytes f.message_id) h.ids ∙ n) in
      rw (queueable_not_connected c.state h.queueable, h.queues, h.queueable)
        (record {
          queueable = h.queueable;
          no_ids = h.no_ids;
          unsent = (refl, subst (λ m. All (λ e. e.1.request_id ≡ 0) m) (sym absent) h.unsent);
          frames = ap (λ m. sent_frame f ∷ frames_of m) absent ∙ ap (◌∷◌ (sent_frame f)) h.frames;
          ids = ap (λ m. f.message_id ∷ keys m) absent ∙ ap (◌∷◌ f.message_id) h.ids;
          reconnects = h.reconnects;
          queues = refl;
          not_fatal = h.not_fatal;
        })

-- A connection that loses its socket and will reconnect, whatever was in flight.
pub record IsDropping (c : Connection) : Type 0 where
  pub not_closing : is_closing c.state ≡ false
  pub reconnects : c.opts.disable_auto_reconnect ≡ false
  pub queues : c.opts.disable_queueing ≡ false
  pub not_fatal : c.fatal_err ≡ none

kept :
    (c : Connection)
    → is_queueable c.state ≡ true
    → IsDropping c
    → c.publish_request_ids ≡ []
    → Waiting (frames_of c.outstanding) (keys c.outstanding) (keep_or_fail c).0
unfolding keep_or_fail
kept c q h n =
    rw (h.reconnects, h.queues)
      (record {
        queueable = q;
        no_ids = n;
        unsent = unsent_all-unsent c.outstanding;
        frames = unsent_all-frames_of c.outstanding;
        ids = unsent_all-keys c.outstanding;
        reconnects = refl;
        queues = refl;
        not_fatal = h.not_fatal;
      })

dropped-Waiting :
    (e : Reason) (c : Connection)
    → IsDropping c
    → c.publish_request_ids ≡ []
    → Waiting (frames_of c.outstanding) (keys c.outstanding) (dropped e c).0
unfolding ◌then_also◌ fail_pending
dropped-Waiting e c h n = retry_later-Waiting _ (
    rw (set_state-record conn_disconnected (some e) (fail_pending e c).0) (
      kept _ refl
        (record {
          not_closing = refl;
          reconnects = h.reconnects;
          queues = h.queues;
          not_fatal = h.not_fatal;
        })
        n))

socket_ended-Waiting :
    (cause : Reason) (c : Connection)
    → IsDropping c
    → Waiting (frames_of c.outstanding) (keys c.outstanding) (socket_ended cause c).0
unfolding socket_ended ◌then_also◌ stop_keep_alive_locked
socket_ended-Waiting cause c h =
    rw (h.not_closing, h.not_fatal)
      (dropped-Waiting (websocket_closed cause) _
        (record {
          not_closing = h.not_closing;
          reconnects = h.reconnects;
          queues = h.queues;
          not_fatal = refl;
        })
        refl)

-- The end of the current socket.
pub handle_socket_close-Waiting :
    (ws : ℕ) (cause : Reason) (c : Connection)
    → is_socket ws c.socket ≡ true
    → IsDropping c
    → Waiting (frames_of c.outstanding) (keys c.outstanding) (handle_socket_close ws cause c).0
unfolding handle_socket_close
handle_socket_close-Waiting ws cause c s h = rw s (socket_ended-Waiting cause c h)

module _ {fs : List PublishFrame} {ks : List Bytes} where
  -- And of any socket, during the outage.
  pub close_again-Waiting :
      (ws : ℕ) (cause : Reason) (c : Connection)
      → Waiting fs ks c
      → Waiting fs ks (handle_socket_close ws cause c).0
  unfolding handle_socket_close
  close_again-Waiting ws cause c h =
      let again = socket_ended-Waiting cause c (record {
        not_closing = queueable_not_closing c.state h.queueable;
        reconnects = h.reconnects;
        queues = h.queues;
        not_fatal = h.not_fatal;
      }) in
      Waiting-if (is_socket ws c.socket) _ _
        (subst (λ gs. Waiting gs ks (socket_ended cause c).0) h.frames
          (subst (λ js. Waiting (frames_of c.outstanding) js (socket_ended cause c).0) h.ids again))
        h

  pub teardown_socket-Waiting :
      (ws : ℕ) (e : Reason) (c : Connection)
      → Waiting fs ks c
      → Waiting fs ks (teardown_socket ws e c).0
  unfolding teardown_socket
  teardown_socket-Waiting ws e c h = close_again-Waiting ws e c h

  pub pong_deadline_passed-Waiting :
      (ws : ℕ) (c : Connection) → Waiting fs ks c → Waiting fs ks (pong_deadline_passed ws c).0
  unfolding pong_deadline_passed
  pong_deadline_passed-Waiting ws c h =
      let unarmed : Waiting fs ks (record c { pong_deadline = false }) = record {
        queueable = h.queueable;
        no_ids = h.no_ids;
        unsent = h.unsent;
        frames = h.frames;
        ids = h.ids;
        reconnects = h.reconnects;
        queues = h.queues;
        not_fatal = h.not_fatal;
      } in
      Waiting-if (is_alive ws (record c { pong_deadline = false })) _ _
        (close_again-Waiting ws keep_alive_timeout _ unarmed) unarmed
