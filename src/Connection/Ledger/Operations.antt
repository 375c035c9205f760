-- ===== src/Connection/Ledger/Operations.antt =====
-- connection.go: the account over what answers requests, sends publishes and ends sockets.
use realtime_go.Common.{
  ℕ, ◌≡◌, refl, ap, inl, inr, Bool, true, false, ◌&&◌, not, Option, none, some, List, [], ◌∷◌, ◌++◌,
  Bytes, arith, if◌then◌else◌, Bool-cases,
}
use realtime_go.Common.Maps.{keys}
use realtime_go.Common.Strings.{eq_bytes}
use realtime_go.Errors.{
  ConnectionState, Reason, conn_disconnected, conn_closed, conn_failed, connection_closed,
  websocket_closed,
}
use realtime_go.Wire.{PublishFrame, publish}
use realtime_go.Connection.{
  Connection, OutstandingPublish, Effect, write_frame, emit_state, start_reconnect_timer,
  stop_pong_deadline, bump,
}
use realtime_go.Connection.Lifecycle.{
  set_state, stop_keep_alive_locked, is_closing, stop_pinging, eq_conn,
}
use realtime_go.Connection.Backoff.{reconnect_delay, schedule_reconnect}
use realtime_go.Connection.Publishes.{
  set_request_id, clear_request_id, publish_unsent, write_publish, send_publish, buffered, send_all,
  flush_outstanding,
}
use realtime_go.Connection.KeepAlive.{is_socket}
use realtime_go.Connection.Closing.{
  ◌then_also◌, unsent_all, fail_all, keep_or_fail, retry_later, dropped, ended_by, socket_ended,
  handle_socket_close,
}
use realtime_go.Connection.Ledger.{
  Item, answers_of, answered, open_items, IsOnce, IsSettled, IsSettled-IsOnce, IsSettled-append,
}
use realtime_go.Connection.Ledger.Settled.{
  quiet-IsSettled, same_items, fail_pending-IsSettled, fail_outstanding-IsSettled, after_change,
}

-- `IsSettled`, of an operation that is given a connection where nobody waits twice.
abbrev pub Settles : Connection → Connection × List Effect → Type 0
Settles c r = IsOnce c → IsSettled c r

pub quiet-Settles : (c : Connection) → Settles c (c, [])
quiet-Settles c o = quiet-IsSettled c

pub Settles-then :
    (c d e : Connection) (xs ys : List Effect)
    → Settles c (d, xs)
    → Settles d (e, ys)
    → Settles c (e, xs ++ ys)
Settles-then c d e xs ys h k o =
    let first = h o in IsSettled-append c d e xs ys first (k (IsSettled-IsOnce c (d, xs) first o))

pub Settles-then_also :
    (c : Connection) (r : Connection × List Effect) (f : Connection → Connection × List Effect)
    → Settles c r
    → ((d : Connection) → Settles d (f d))
    → Settles c (r then_also f)
unfolding ◌then_also◌
Settles-then_also c (d, xs) f h k = Settles-then c d (f d).0 xs (f d).1 h (k d)

pub Settles-if :
    (b : Bool) (c : Connection) (r q : Connection × List Effect)
    → Settles c r
    → Settles c q
    → Settles c (if b then r else q)
Settles-if true c r q h k = h
Settles-if false c r q h k = k

-- An operation that neither answers nor changes who waits.
pub Settles-quiet :
    (c d : Connection) (out : List Effect)
    → ((item : Item) → answered item out ≡ 0)
    → ((item : Item) → open_items item d ≡ open_items item c)
    → Settles c (d, out)
Settles-quiet c d out h k o item = omega (arith, h item, k item)

-- It only tells someone something.
pub Settles-tells :
    (c d : Connection) (e : Effect)
    → ((item : Item) → answers_of item e ≡ 0)
    → ((item : Item) → open_items item d ≡ open_items item c)
    → Settles c (d, e ∷ [])
Settles-tells c d e h k o item = omega (arith, h item, k item)

pub set_state-Settles :
    (s : ConnectionState) (e : Option Reason) (c : Connection) → Settles c (set_state s e c)
unfolding set_state
set_state-Settles s e c = Settles-if (eq_conn c.state s) c _ _ (quiet-Settles c) (
    Settles-tells c (record c { state = s }) (emit_state s e) (λ item. refl)
      (λ item. same_items c _ item refl refl refl refl))

stop_keep_alive_quiet :
    (item : Item) (ws : Option ℕ) (b : Bool)
    → answered item (stop_pinging ws ++ (if b then stop_pong_deadline ∷ [] else [])) ≡ 0
stop_keep_alive_quiet item none true = omega arith
stop_keep_alive_quiet item none false = omega arith
stop_keep_alive_quiet item (some ws) true = omega arith
stop_keep_alive_quiet item (some ws) false = omega arith

pub stop_keep_alive-Settles : (c : Connection) → Settles c (stop_keep_alive_locked c)
unfolding stop_keep_alive_locked
stop_keep_alive-Settles c =
    Settles-quiet c _ _ (λ item. stop_keep_alive_quiet item c.keep_alive c.pong_deadline)
      (λ item. same_items c _ item refl refl refl refl)

pub schedule_reconnect-Settles : (c : Connection) → Settles c (schedule_reconnect c)
unfolding schedule_reconnect
schedule_reconnect-Settles c = Settles-if c.reconnect_timer c _ _ (quiet-Settles c) (
    Settles-tells c _
      (start_reconnect_timer (
        reconnect_delay c.opts.initial_reconnect_delay c.opts.max_reconnect_delay
          c.reconnect_attempt))
      (λ item. refl) (λ item. same_items c _ item refl refl refl refl))

pub retry_later-Settles : (c : Connection) → Settles c (retry_later c)
unfolding retry_later
retry_later-Settles c =
    Settles-if c.opts.disable_auto_reconnect c _ _ (quiet-Settles c) (schedule_reconnect-Settles c)

keys-unsent_all : (m : List (Bytes × OutstandingPublish)) → keys (unsent_all m) ≡ keys m
unfolding unsent_all
keys-unsent_all [] = refl
keys-unsent_all (e ∷ es) = ap (◌∷◌ e.0) (keys-unsent_all es)

keys-set_request_id :
    (k : Bytes) (id : ℕ) (m : List (Bytes × OutstandingPublish))
    → keys (set_request_id k id m) ≡ keys m
unfolding set_request_id
keys-set_request_id k id [] = refl
keys-set_request_id k id (e ∷ es) = elim (Bool-cases (eq_bytes k e.0)) [
  | inl h ↦ rw h (ap (◌∷◌ e.0) (keys-set_request_id k id es))
  | inr h ↦ rw h (ap (◌∷◌ e.0) (keys-set_request_id k id es))
]

keys-clear_request_id :
    (k : Bytes) (m : List (Bytes × OutstandingPublish)) → keys (clear_request_id k m) ≡ keys m
unfolding clear_request_id
keys-clear_request_id k [] = refl
keys-clear_request_id k (e ∷ es) = elim (Bool-cases (eq_bytes k e.0)) [
  | inl h ↦ rw h (ap (◌∷◌ e.0) (keys-clear_request_id k es))
  | inr h ↦ rw h (ap (◌∷◌ e.0) (keys-clear_request_id k es))
]

pub publish_unsent-Settles :
    (id : ℕ) (key : Bytes) (c : Connection) → Settles c (publish_unsent id key c, [])
unfolding publish_unsent
publish_unsent-Settles id key c =
    Settles-quiet c _ [] (λ item. refl)
      (λ item. same_items c _ item refl refl refl (keys-clear_request_id key c.outstanding))

write_publish-Settles :
    (ws : Option ℕ) (id : ℕ) (key : Bytes) (f : PublishFrame) (c : Connection)
    → Settles c (write_publish ws id key f c)
write_publish-Settles none id key f c = publish_unsent-Settles id key c
write_publish-Settles (some ws) id key f c =
    Settles-tells c c (write_frame ws (publish (record f { id = id }))) (λ item. refl)
      (λ item. refl)

pub send_publish-Settles :
    (key : Bytes) (f : PublishFrame) (c : Connection) → Settles c (send_publish key f c)
unfolding send_publish
send_publish-Settles key f c =
    after_change c _ _
      (λ item.
        same_items c _ item refl refl refl (keys-set_request_id key (bump c.next_id) c.outstanding))
      (write_publish-Settles c.socket (bump c.next_id) key f _)

send_all-Settles :
    (es : List (Bytes × OutstandingPublish)) (c : Connection) → Settles c (send_all es c)
unfolding send_all
send_all-Settles [] c o = quiet-IsSettled c
send_all-Settles (e ∷ es) c o =
    Settles-then c (send_publish e.0 e.1.frame c).0 _ _ _ (send_publish-Settles e.0 e.1.frame c)
      (send_all-Settles es (send_publish e.0 e.1.frame c).0) o

pub flush_outstanding-Settles : (c : Connection) → Settles c (flush_outstanding c)
unfolding flush_outstanding
flush_outstanding-Settles c = send_all-Settles (buffered c.outstanding) c

pub fail_all-Settles : (e : Reason) (c : Connection) → Settles c (fail_all e c)
unfolding fail_all
fail_all-Settles e c =
    Settles-then_also c _ _ (λ o. fail_pending-IsSettled e c)
      (λ d o. fail_outstanding-IsSettled e d)

keep_or_fail-Settles : (c : Connection) → Settles c (keep_or_fail c)
unfolding keep_or_fail
keep_or_fail-Settles c =
    Settles-if (not c.opts.disable_auto_reconnect && not c.opts.disable_queueing) c _ _
      (Settles-quiet c _ [] (λ item. refl)
        (λ item. same_items c _ item refl refl refl (keys-unsent_all c.outstanding)))
      (λ o. fail_outstanding-IsSettled connection_closed c)

dropped-Settles : (e : Reason) (c : Connection) → Settles c (dropped e c)
dropped-Settles e c =
    Settles-then_also c _ retry_later
      (Settles-then_also c _ keep_or_fail
        (Settles-then_also c _ (set_state conn_disconnected (some e))
          (λ o. fail_pending-IsSettled e c) (set_state-Settles conn_disconnected (some e)))
        keep_or_fail-Settles)
      retry_later-Settles

-- A change of other fields comes first.
pub Settles-after :
    (c d : Connection) (r : Connection × List Effect)
    → d.pending ≡ c.pending
    → d.pending_hist ≡ c.pending_hist
    → d.pending_fetch ≡ c.pending_fetch
    → keys d.outstanding ≡ keys c.outstanding
    → Settles d r
    → Settles c r
Settles-after c d r e f g h k = after_change c d r (λ item. same_items c d item e f g h) k

ended_by-Settles :
    (fatal : Option Reason) (cause : Reason) (c : Connection) → Settles c (ended_by fatal cause c)
ended_by-Settles none cause c = dropped-Settles (websocket_closed cause) c
ended_by-Settles (some fatal) cause c =
    Settles-after c (record c { fatal_err = none }) _ refl refl refl refl
      (Settles-then_also _ _ (fail_all fatal) (set_state-Settles conn_failed (some fatal) _)
        (fail_all-Settles fatal))

socket_ended-Settles : (cause : Reason) (c : Connection) → Settles c (socket_ended cause c)
unfolding socket_ended
socket_ended-Settles cause c =
    Settles-after c (record c { socket = none }) _ refl refl refl refl
      (Settles-then_also _ _ _ (stop_keep_alive-Settles _) (λ d.
        Settles-after d (record d { publish_request_ids = [] }) _ refl refl refl refl
          (Settles-if (is_closing d.state) _ _ _
            (Settles-then_also _ _ (fail_all connection_closed)
              (set_state-Settles conn_closed none _) (fail_all-Settles connection_closed))
            (ended_by-Settles d.fatal_err cause _))))

pub handle_socket_close-Settles :
    (ws : ℕ) (cause : Reason) (c : Connection) → Settles c (handle_socket_close ws cause c)
unfolding handle_socket_close
handle_socket_close-Settles ws cause c =
    Settles-if (is_socket ws c.socket) c _ _ (socket_ended-Settles cause c) (quiet-Settles c)
