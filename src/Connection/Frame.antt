-- ===== src/Connection/Frame.antt =====
-- connection.go: what leaves alone the state, the socket and the subscriptions to restore.
pub mod Inbound
pub mod Kept
pub mod Remembered
pub mod Epochs
pub mod Closed
pub mod Runs
use realtime_go.Common.{
  ℕ, ◌≡◌, refl, ◌∙◌, inl, inr, Bool, true, false, ◌&&◌, ◌||◌, not, Option, none, some, List, [],
  ◌∷◌, ◌++◌, Bytes, ◌==◌, leb, if◌then◌else◌,
}
use realtime_go.Common.Int.{ℤ, pos, negsuc}
use realtime_go.Common.Maps.{find, keys, member}
use realtime_go.Common.Strings.{eq_bytes}
use realtime_go.Errors.{
  Reason, conn_connected, conn_closed, conn_closing, conn_failed, connection_closed, server_error,
}
use realtime_go.Wire.{
  ClientFrame, PublishFrame, ErrorFrame, ServerFrame, connected, ack, msg, presence_event, error,
  pong, history_response, fetch_response,
}
use realtime_go.Connection.{
  Connection, OutstandingPublish, RequestKind, ack_request, history_request, fetch_request, Outcome,
  Effect, bump,
}
use realtime_go.Connection.Lifecycle.{eq_conn, connect, connect_ended, stop_keep_alive_locked}
use realtime_go.Connection.Backoff.{schedule_reconnect}
use realtime_go.Connection.Requests.{
  waiting, settle, send_request, request, request_abandoned, fail_pending,
}
use realtime_go.Connection.Publishes.{
  publish_unsent, write_publish, send_publish, publish_call, is_queueable, buffered, send_all,
  flush_outstanding, settle_message, settle_found, settle_publish, fail_outstanding,
}
use realtime_go.Connection.Inbound.{
  unscoped_error, settle_or, publish_or, scoped_error, handle_error_frame, handle_frame,
  handle_frames,
}
use realtime_go.Connection.KeepAlive.{
  started, start_keep_alive_locked, arm_pong_deadline, clear_pong_deadline,
}
use realtime_go.Connection.Closing.{◌then_also◌, fail_all, keep_or_fail, retry_later, stop_timer}
use realtime_go.Connection.Handshake.{timer_fired, reconnect_failed}

pub record Same (c d : Connection) : Type 0 where
  pub same_state : d.state ≡ c.state
  pub same_socket : d.socket ≡ c.socket
  pub same_subs : d.desired_subs ≡ c.desired_subs
  pub same_epochs : d.sub_epochs ≡ c.sub_epochs

abbrev pub same :
    {c d : Connection}
    → d.state ≡ c.state
    → d.socket ≡ c.socket
    → d.desired_subs ≡ c.desired_subs
    → d.sub_epochs ≡ c.sub_epochs
    → Same c d
same e f g h = record { same_state = e; same_socket = f; same_subs = g; same_epochs = h }

pub Same_refl : (c : Connection) → Same c c
Same_refl c = same refl refl refl refl

pub Same_trans : (c d e : Connection) → Same c d → Same d e → Same c e
Same_trans c d e h k =
    same (k.same_state ∙ h.same_state) (k.same_socket ∙ h.same_socket) (k.same_subs ∙ h.same_subs)
      (k.same_epochs ∙ h.same_epochs)

pub Same-if :
    (b : Bool) (c : Connection) (r q : Connection × List Effect)
    → Same c r.0
    → Same c q.0
    → Same c (if b then r else q).0
Same-if true c r q h k = h
Same-if false c r q h k = k

pub Same-then_also :
    (c : Connection) (r : Connection × List Effect) (f : Connection → Connection × List Effect)
    → Same c r.0
    → ((d : Connection) → Same d (f d).0)
    → Same c (r then_also f).0
unfolding ◌then_also◌
Same-then_also c (d, out) f h k = Same_trans c d (f d).0 h (k d)

pub connect-Same : (c : Connection) → Same c (connect c).0
unfolding connect
connect-Same c =
    Same-if (eq_conn c.state conn_connected) c _ _ (Same_refl c)
      (Same-if c.connecting c _ _ (Same_refl c) (same refl refl refl refl))

pub stop_keep_alive-Same : (c : Connection) → Same c (stop_keep_alive_locked c).0
unfolding stop_keep_alive_locked
stop_keep_alive-Same c = same refl refl refl refl

pub schedule_reconnect-Same : (c : Connection) → Same c (schedule_reconnect c).0
unfolding schedule_reconnect
schedule_reconnect-Same c = Same-if c.reconnect_timer c _ _ (Same_refl c) (same refl refl refl refl)

pub retry_later-Same : (c : Connection) → Same c (retry_later c).0
unfolding retry_later
retry_later-Same c =
    Same-if c.opts.disable_auto_reconnect c _ _ (Same_refl c) (schedule_reconnect-Same c)

pub settle-Same :
    (kind : RequestKind) (id : ℕ) (outcome : Outcome) (c : Connection)
    → Same c (settle kind id outcome c).0
unfolding settle
settle-Same ack_request id outcome c =
    Same-if (member ◌==◌ id c.pending) c _ _ (same refl refl refl refl) (Same_refl c)
settle-Same history_request id outcome c =
    Same-if (member ◌==◌ id c.pending_hist) c _ _ (same refl refl refl refl) (Same_refl c)
settle-Same fetch_request id outcome c =
    Same-if (member ◌==◌ id c.pending_fetch) c _ _ (same refl refl refl refl) (Same_refl c)

pub request_abandoned-Same :
    (kind : RequestKind) (id : ℕ) (e : Reason) (c : Connection)
    → Same c (request_abandoned kind id e c).0
unfolding request_abandoned
request_abandoned-Same kind id e c = settle-Same kind id _ c

send_request-Same :
    (ws : Option ℕ) (kind : RequestKind) (id : ℕ) (f : ClientFrame) (c : Connection)
    → Same c (send_request ws kind id f c).0
send_request-Same none kind id f c = settle-Same kind id _ c
send_request-Same (some ws) kind id f c = Same_refl c

pub request-Same :
    (kind : RequestKind) (build : ℕ → ClientFrame) (c : Connection)
    → Same c (request kind build c).0
unfolding request
request-Same ack_request build c =
    Same_trans c _ _ (same refl refl refl refl) (send_request-Same c.socket ack_request _ _ _)
request-Same history_request build c =
    Same_trans c _ _ (same refl refl refl refl) (send_request-Same c.socket history_request _ _ _)
request-Same fetch_request build c =
    Same_trans c _ _ (same refl refl refl refl) (send_request-Same c.socket fetch_request _ _ _)

write_publish-Same :
    (ws : Option ℕ) (id : ℕ) (key : Bytes) (f : PublishFrame) (c : Connection)
    → Same c (write_publish ws id key f c).0
unfolding publish_unsent
write_publish-Same none id key f c = same refl refl refl refl
write_publish-Same (some ws) id key f c = Same_refl c

pub send_publish-Same :
    (key : Bytes) (f : PublishFrame) (c : Connection) → Same c (send_publish key f c).0
unfolding send_publish
send_publish-Same key f c =
    Same_trans c _ _ (same refl refl refl refl)
      (write_publish-Same c.socket (bump c.next_id) key f _)

send_all-Same : (es : List (Bytes × OutstandingPublish)) (c : Connection) → Same c (send_all es c).0
unfolding send_all
send_all-Same [] c = Same_refl c
send_all-Same (e ∷ es) c =
    Same_trans c _ _ (send_publish-Same e.0 e.1.frame c)
      (send_all-Same es (send_publish e.0 e.1.frame c).0)

pub flush_outstanding-Same : (c : Connection) → Same c (flush_outstanding c).0
unfolding flush_outstanding
flush_outstanding-Same c = send_all-Same (buffered c.outstanding) c

pub publish_call-Same : (f : PublishFrame) (c : Connection) → Same c (publish_call f c).0
unfolding publish_call
publish_call-Same f c =
    Same-if (eq_conn c.state conn_connected) c _ _
      (Same_trans c _ _ (same refl refl refl refl) (send_publish-Same f.message_id f _))
      (Same-if (c.opts.disable_queueing || not (is_queueable c.state)) c _ _ (Same_refl c)
        (same refl refl refl refl))

settle_found-Same :
    (found : Option Bytes) (id : ℕ) (e : Option Reason) (c : Connection)
    → Same c (settle_found found id e c).1.0
unfolding settle_message
settle_found-Same none id e c = Same_refl c
settle_found-Same (some key) id e c =
    Same-if (member eq_bytes key (keys c.outstanding)) c _ _ (same refl refl refl refl)
      (same refl refl refl refl)

pub settle_publish-Same :
    (id : ℕ) (e : Option Reason) (c : Connection) → Same c (settle_publish id e c).1.0
unfolding settle_publish
settle_publish-Same id e c = settle_found-Same (find ◌==◌ id c.publish_request_ids) id e c

pub fail_all-Same : (e : Reason) (c : Connection) → Same c (fail_all e c).0
unfolding fail_all fail_pending fail_outstanding
fail_all-Same e c = Same-then_also c _ _ (same refl refl refl refl) (λ d. same refl refl refl refl)

pub fail_pending-Same : (e : Reason) (c : Connection) → Same c (fail_pending e c).0
unfolding fail_pending
fail_pending-Same e c = same refl refl refl refl

pub keep_or_fail-Same : (c : Connection) → Same c (keep_or_fail c).0
unfolding keep_or_fail fail_outstanding
keep_or_fail-Same c =
    Same-if (not c.opts.disable_auto_reconnect && not c.opts.disable_queueing) c _ _
      (same refl refl refl refl) (same refl refl refl refl)
