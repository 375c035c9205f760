-- ===== src/Connection/Ledger/Attempts.antt =====
-- connection.go: the account over connect attempts.
use realtime_go.Common.{
  ℕ, ◌≡◌, refl, inl, inr, Bool, true, false, ◌&&◌, ◌||◌, not, none, some, List, [], ◌∷◌, ◌++◌, map,
  Bytes, arith, if◌then◌else◌, Bool-cases,
}
use realtime_go.Common.Maps.{member}
use realtime_go.Common.Strings.{eq_bytes}
use realtime_go.Errors.{
  conn_connecting, conn_connected, conn_disconnected, conn_closing, conn_closed, conn_failed,
  Reason, bad_auth_response, unexpected_first_frame, auth_failed, handshake_closed,
}
use realtime_go.Wire.{
  AuthFrame, auth, ping, ConnectedFrame, ErrorFrame, ServerFrame, connected, ack, msg,
  presence_event, error, pong, history_response, fetch_response,
}
use realtime_go.Connection.{
  Connection, Effect, write_frame, close_socket, start_connect, kick_connect, start_read_loop,
  restore_subscription, restore_presence, reenter_presence,
}
use realtime_go.Connection.Lifecycle.{eq_conn, is_closing, connect}
use realtime_go.Connection.Subscriptions.{restore_all, restore_subscriptions}
use realtime_go.Connection.KeepAlive.{is_alive, keep_alive_interval, ping_tick}
use realtime_go.Connection.Closing.{teardown_socket}
use realtime_go.Connection.Handshake.{
  connect_started, connect_failed, socket_opened, complete_connect, is_auth_code, rejected,
  handshake_answered, auth_send_failed, handshake_read_failed, timer_fired, reconnect_failed,
}
use realtime_go.Connection.Ledger.{Item, answered, answered-append}
use realtime_go.Connection.Ledger.Settled.{same_items}
use realtime_go.Connection.Ledger.Operations.{
  Settles, quiet-Settles, Settles-then_also, Settles-if, Settles-quiet, Settles-tells,
  Settles-after, set_state-Settles, schedule_reconnect-Settles, retry_later-Settles,
  flush_outstanding-Settles,
}
use realtime_go.Connection.Ledger.Frames.{
  handle_frames-Settles, start_keep_alive-Settles, teardown_socket-Settles,
}

pub connect-Settles : (c : Connection) → Settles c (connect c)
unfolding connect
connect-Settles c = Settles-if (eq_conn c.state conn_connected) c _ _ (quiet-Settles c) (
    Settles-if c.connecting c _ _ (quiet-Settles c) (
      Settles-tells c _ start_connect (λ item. refl)
        (λ item. same_items c _ item refl refl refl refl)))

pub connect_started-Settles : (c : Connection) → Settles c (connect_started c)
unfolding connect_started
connect_started-Settles c = set_state-Settles conn_connecting none c

pub connect_failed-Settles : (e : Reason) (c : Connection) → Settles c (connect_failed e c)
unfolding connect_failed
connect_failed-Settles e c =
    Settles-if (eq_conn c.state conn_connecting) c _ _
      (Settles-then_also c _ _ (set_state-Settles conn_disconnected (some e) c) retry_later-Settles)
      (quiet-Settles c)

closed_again-Settles : (ws : ℕ) (c : Connection) → Settles c (c, close_socket ws 1000 ∷ [])
closed_again-Settles ws c = Settles-tells c c (close_socket ws 1000) (λ item. refl) (λ item. refl)

pub socket_opened-Settles :
    (ws : ℕ) (f : AuthFrame) (c : Connection) → Settles c (socket_opened ws f c)
unfolding socket_opened
socket_opened-Settles ws f c = Settles-if (is_closing c.state) c _ _ (closed_again-Settles ws c) (
    Settles-tells c _ (write_frame ws (auth f)) (λ item. refl)
      (λ item. same_items c _ item refl refl refl refl))

watching_quiet :
    (item : Item) (f : Bytes → Effect) (names : List Bytes)
    → ((name : Bytes) → answered item (f name ∷ []) ≡ 0)
    → answered item (map f names) ≡ 0
watching_quiet item f [] h = refl
watching_quiet item f (n ∷ names) h = omega (arith, h n, watching_quiet item f names h)

restore_all_quiet : (item : Item) (c : Connection) → answered item (restore_all c) ≡ 0
unfolding restore_all
restore_all_quiet item c = omega (
  arith,
  answered-append item
      (map (λ name. restore_subscription name (member eq_bytes name c.hooks)) c.desired_subs)
      (map restore_presence c.desired_presence ++ map reenter_presence c.hooks),
  answered-append item (map restore_presence c.desired_presence) (map reenter_presence c.hooks),
  watching_quiet item (λ name. restore_subscription name (member eq_bytes name c.hooks))
      c.desired_subs (λ name. refl),
  watching_quiet item restore_presence c.desired_presence (λ name. refl),
  watching_quiet item reenter_presence c.hooks (λ name. refl),
)

restore_subscriptions_quiet :
    (item : Item) (b : Bool) (c : Connection) → answered item (restore_subscriptions b c) ≡ 0
unfolding restore_subscriptions
restore_subscriptions_quiet item true c = restore_all_quiet item c
restore_subscriptions_quiet item false c = refl

restored-Settles :
    (ws : ℕ) (b : Bool) (c : Connection)
    → Settles c (c, start_read_loop ws ∷ restore_subscriptions b c)
restored-Settles ws b c =
    Settles-quiet c c (start_read_loop ws ∷ restore_subscriptions b c)
      (λ item. omega (arith, restore_subscriptions_quiet item b c)) (λ item. refl)

complete_connect-Settles :
    (ws : ℕ) (f : ConnectedFrame) (rest : List ServerFrame) (c : Connection)
    → Settles c (complete_connect ws f rest c)
unfolding complete_connect
complete_connect-Settles ws f rest c =
    Settles-if (is_closing c.state) c _ _ (closed_again-Settles ws c) (
      Settles-then_also c _ _
        (Settles-then_also c _ _
          (Settles-then_also c _ _
            (Settles-then_also c _ _
              (Settles-after c _ _ refl refl refl refl (set_state-Settles conn_connected none _))
              (start_keep_alive-Settles ws (keep_alive_interval f.keep_alive_ms)))
            (handle_frames-Settles rest))
          (restored-Settles ws c.has_connected_before))
        flush_outstanding-Settles)

after_note-Settles :
    (b : Bool) (e : Reason) (ws : ℕ) (c : Connection)
    → Settles c (teardown_socket ws e (if b then record c { fatal_err = some e } else c))
after_note-Settles true e ws c =
    Settles-after c (record c { fatal_err = some e }) _ refl refl refl refl
      (teardown_socket-Settles ws e _)
after_note-Settles false e ws c = teardown_socket-Settles ws e c

rejected-Settles : (ws : ℕ) (f : ErrorFrame) (c : Connection) → Settles c (rejected ws f c)
rejected-Settles ws f c =
    after_note-Settles (is_auth_code f.code && not c.opts.has_auth_callback)
      (auth_failed (record { code = f.code; message = f.message })) ws c

pub handshake_answered-Settles :
    (ws : ℕ) (fs : List ServerFrame) (c : Connection) → Settles c (handshake_answered ws fs c)
unfolding handshake_answered
handshake_answered-Settles ws [] c = teardown_socket-Settles ws bad_auth_response c
handshake_answered-Settles ws (connected f ∷ rest) c = complete_connect-Settles ws f rest c
handshake_answered-Settles ws (error f ∷ rest) c = rejected-Settles ws f c
handshake_answered-Settles ws (ack f ∷ rest) c = teardown_socket-Settles ws unexpected_first_frame c
handshake_answered-Settles ws (msg f ∷ rest) c = teardown_socket-Settles ws unexpected_first_frame c
handshake_answered-Settles ws (presence_event f ∷ rest) c =
    teardown_socket-Settles ws unexpected_first_frame c
handshake_answered-Settles ws (history_response f ∷ rest) c =
    teardown_socket-Settles ws unexpected_first_frame c
handshake_answered-Settles ws (fetch_response f ∷ rest) c =
    teardown_socket-Settles ws unexpected_first_frame c
handshake_answered-Settles ws (pong ∷ rest) c = teardown_socket-Settles ws unexpected_first_frame c

pub auth_send_failed-Settles :
    (ws : ℕ) (e : Reason) (c : Connection) → Settles c (auth_send_failed ws e c)
unfolding auth_send_failed
auth_send_failed-Settles ws e c = teardown_socket-Settles ws e c

pub handshake_read_failed-Settles :
    (ws : ℕ) (e : Reason) (c : Connection) → Settles c (handshake_read_failed ws e c)
unfolding handshake_read_failed
handshake_read_failed-Settles ws e c = teardown_socket-Settles ws (handshake_closed e) c

pub timer_fired-Settles : (c : Connection) → Settles c (timer_fired c)
unfolding timer_fired
timer_fired-Settles c =
    Settles-tells c _ kick_connect (λ item. refl) (λ item. same_items c _ item refl refl refl refl)

pub reconnect_failed-Settles : (c : Connection) → Settles c (reconnect_failed c)
unfolding reconnect_failed
reconnect_failed-Settles c =
    Settles-if
      (eq_conn c.state conn_closed || eq_conn c.state conn_closing || eq_conn c.state conn_failed) c
      _ _ (quiet-Settles c) (schedule_reconnect-Settles c)

pub ping_tick-Settles : (ws : ℕ) (c : Connection) → Settles c (c, ping_tick ws c)
unfolding ping_tick
ping_tick-Settles ws c = elim (Bool-cases (is_alive ws c)) [
  | inl e ↦ rw e (Settles-tells c c (write_frame ws ping) (λ item. refl) (λ item. refl))
  | inr e ↦ rw e (quiet-Settles c)
]
