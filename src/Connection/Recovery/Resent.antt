-- ===== src/Connection/Recovery/Resent.antt =====
-- connection.go: what goes out on the next socket after one was lost.
use realtime_go.Common.{ℕ, ◌≡◌, refl, ap, ◌∙◌, true, Option, none, some, List, [], ◌∷◌, ◌++◌, Bytes}
use realtime_go.Common.Maps.{keys}
use realtime_go.Errors.{ConnectionState, Reason, conn_connected}
use realtime_go.Wire.{PublishFrame, ConnectedFrame, ServerFrame, connected}
use realtime_go.Connection.{Connection, Effect, start_read_loop}
use realtime_go.Connection.Lifecycle.{set_state}
use realtime_go.Connection.Publishes.{buffered, flush_outstanding}
use realtime_go.Connection.Subscriptions.{restore_subscriptions}
use realtime_go.Connection.Inbound.{handle_frames}
use realtime_go.Connection.KeepAlive.{is_socket, keep_alive_interval, start_keep_alive_locked}
use realtime_go.Connection.Closing.{◌then_also◌, handle_socket_close}
use realtime_go.Connection.Rejection.{set_state-record}
use realtime_go.Connection.Handshake.{installed, complete_connect, handshake_answered}
use realtime_go.Connection.Events.{Event, react_all}
use realtime_go.Connection.Frame.Inbound.{handle_frames-Same, start_keep_alive-Same}
use realtime_go.Connection.Recovery.{written_to, written_to-append, frames_of, send_all-written}
use realtime_go.Connection.Recovery.Idle.{
  Idle, idle, Idle-then_also, set_state-Idle, handle_frames-Idle, start_keep_alive-Idle,
  restore_silent,
}
use realtime_go.Connection.Recovery.Outage.{
  Waiting, queueable_not_closing, IsDropping, handle_socket_close-Waiting,
}
use realtime_go.Connection.Recovery.Unsent.{buffered_unsent}
use realtime_go.Connection.Recovery.Runs.{all_outage, published_in, all_new_ids, run-Waiting}

-- The steps of `completeConnect` before the flush.
abbrev up_to_flush : ℕ → ConnectedFrame → List ServerFrame → Connection → Connection × List Effect
up_to_flush ws f rest c =
    set_state conn_connected none (installed f c)
    then_also start_keep_alive_locked ws (keep_alive_interval f.keep_alive_ms)
    then_also handle_frames rest
    then_also (λ d. (d, start_read_loop ws ∷ restore_subscriptions c.has_connected_before d))

up_to_flush-Idle :
    (ws : ℕ) (f : ConnectedFrame) (rest : List ServerFrame) (c : Connection)
    → c.publish_request_ids ≡ []
    → Idle (installed f c) (up_to_flush ws f rest c)
up_to_flush-Idle ws f rest c n =
    Idle-then_also (installed f c) _ _ n
      (Idle-then_also (installed f c) _ _ n
        (Idle-then_also (installed f c) _ _ n (set_state-Idle conn_connected none (installed f c))
          (λ d k. start_keep_alive-Idle ws (keep_alive_interval f.keep_alive_ms) d))
        (λ d k. handle_frames-Idle rest d k))
      (λ d k. idle refl refl refl refl (λ s. restore_silent s c.has_connected_before d))

set_state-socket :
    (s : ConnectionState) (e : Option Reason) (c : Connection)
    → (set_state s e c).0.socket ≡ c.socket
set_state-socket s e c = ap (λ d. d.socket) (set_state-record s e c)

up_to_flush-socket :
    (ws : ℕ) (f : ConnectedFrame) (rest : List ServerFrame) (c : Connection)
    → (up_to_flush ws f rest c).0.socket ≡ c.socket
unfolding ◌then_also◌
up_to_flush-socket ws f rest c =
    (handle_frames-Same rest _).same_socket
    ∙ (start_keep_alive-Same ws (keep_alive_interval f.keep_alive_ms) _).same_socket
    ∙ set_state-socket conn_connected none (installed f c)

flush-written :
    (ws : ℕ) (r : Connection × List Effect)
    → r.0.socket ≡ some ws
    → written_to ws r.1 ≡ []
    → written_to ws (r then_also flush_outstanding).1 ≡ frames_of (buffered r.0.outstanding)
unfolding ◌then_also◌ flush_outstanding
flush-written ws (c, out) s h =
    written_to-append ws out (flush_outstanding c).1
    ∙ ap (λ xs. xs ++ written_to ws (flush_outstanding c).1) h
    ∙ send_all-written ws (buffered c.outstanding) c s

accepted-written :
    {fs : List PublishFrame} {ks : List Bytes}
    → (ws : ℕ) (f : ConnectedFrame) (rest : List ServerFrame) (c : Connection) → Waiting fs ks c
    → c.socket ≡ some ws
    → written_to ws (handshake_answered ws (connected f ∷ rest) c).1 ≡ fs
unfolding handshake_answered complete_connect
accepted-written ws f rest c h s =
    let before = up_to_flush-Idle ws f rest c h.no_ids in
    rw (queueable_not_closing c.state h.queueable) (
      flush-written ws (up_to_flush ws f rest c) (up_to_flush-socket ws f rest c ∙ s)
        (before.silent ws)
      ∙ ap (λ m. frames_of (buffered m)) before.same_outstanding
      ∙ ap frames_of (buffered_unsent c.outstanding h.unsent)
      ∙ h.frames)

-- A connection that reconnects and queues, and that neither is closing nor met a fatal error, loses its
-- socket; then come any events in which it is not closed and no handshake is accepted or refused for
-- its credential (failed attempts, other sockets lost, requests, publishes with new message ids). When
-- the server then accepts the handshake of the current socket, this writes to that socket exactly the
-- publishes that were outstanding at the loss, in flight or buffered, and those made since: each once,
-- with its message id, and no other publish, whatever frames come with the acceptance.
pub handshake_answered-resends :
    (lost ws : ℕ) (cause : Reason) (c : Connection) (es : List Event)
    → (f : ConnectedFrame) (rest : List ServerFrame) → is_socket lost c.socket ≡ true
    → IsDropping c
    → all_outage es ≡ true
    → all_new_ids es (keys c.outstanding) ≡ true
    → (react_all es (handle_socket_close lost cause c).0).0.socket ≡ some ws
    → written_to ws
        (handshake_answered ws
          (connected f ∷ rest)
          (react_all es (handle_socket_close lost cause c).0).0).1
      ≡ published_in es (frames_of c.outstanding)
handshake_answered-resends lost ws cause c es f rest s h a n k =
    accepted-written ws f rest _
      (run-Waiting es _ a n (handle_socket_close-Waiting lost cause c s h)) k
