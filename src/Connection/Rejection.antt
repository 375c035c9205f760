-- ===== src/Connection/Rejection.antt =====
-- connection.go: what a rejected handshake and a lost socket do to the state.
use realtime_go.Common.{
  ℕ, ◌≡◌, refl, sym, ap, subst, ◌∙◌, inl, inr, Bool, true, false, ◌&&◌, ◌||◌, not, Option, none,
  some, List, ◌∷◌, ◌==◌, ==_iff, if◌then◌else◌, Bool-cases,
}
use realtime_go.Errors.{
  ConnectionState, conn_initialized, conn_connecting, conn_connected, conn_disconnected,
  conn_closing, conn_closed, conn_failed, Reason, auth_failed, connection_closed, websocket_closed,
}
use realtime_go.Wire.{ErrorFrame, ServerFrame, error}
use realtime_go.Connection.{Connection}
use realtime_go.Connection.Lifecycle.{code, eq_conn, is_closing, set_state, stop_keep_alive_locked}
use realtime_go.Connection.Backoff.{schedule_reconnect}
use realtime_go.Connection.Requests.{fail_pending}
use realtime_go.Connection.Publishes.{fail_outstanding}
use realtime_go.Connection.KeepAlive.{is_socket}
use realtime_go.Connection.Closing.{
  ◌then_also◌, fail_all, keep_or_fail, retry_later, ended_by, socket_ended, handle_socket_close,
  teardown_socket,
}
use realtime_go.Connection.Handshake.{is_auth_code, note_fatal, handshake_answered}

of_code : ℕ → ConnectionState
of_code n =
    if n == 0
    then conn_initialized
    else if n == 1
    then conn_connecting
    else if n == 2
    then conn_connected
    else if n == 3
    then conn_disconnected
    else if n == 4
    then conn_closing
    else if n == 5
    then conn_closed
    else conn_failed

of_code-code : (s : ConnectionState) → of_code (code s) ≡ s
unfolding of_code
of_code-code conn_initialized = refl
of_code-code conn_connecting = refl
of_code-code conn_connected = refl
of_code-code conn_disconnected = refl
of_code-code conn_closing = refl
of_code-code conn_closed = refl
of_code-code conn_failed = refl

pub eq_conn→eq : (s t : ConnectionState) → eq_conn s t ≡ true → s ≡ t
eq_conn→eq s t h =
    sym (of_code-code s) ∙ ap of_code ((==_iff (code s) (code t)).0 h) ∙ of_code-code t

pub set_state-record :
    (s : ConnectionState) (e : Option Reason) (c : Connection)
    → (set_state s e c).0 ≡ record c { state = s }
unfolding set_state
set_state-record s e c = elim (Bool-cases (eq_conn c.state s)) [
  | inl d ↦ rw d (ap (λ t. the_connection (record c { state = t })) (eq_conn→eq c.state s d))
  | inr d ↦ rw d refl
]
  where
    the_connection : Connection → Connection
    the_connection d = d

-- The state that the end of a socket leads to.
abbrev pub state_after : Bool → Option Reason → ConnectionState
state_after true fatal = conn_closed
state_after false none = conn_disconnected
state_after false (some e) = conn_failed

-- Whether a reconnect is due after it: by whether one was before, and whether the client turns them off.
abbrev pub due_after : Bool → Option Reason → Bool → Bool → Bool
due_after true fatal timer disabled = timer
due_after false none timer disabled = timer || not disabled
due_after false (some e) timer disabled = timer

-- Ended in a state, with a reconnect due or not.
abbrev pub Ends : ConnectionState → Bool → Connection → Type 0
Ends s due d = (d.state ≡ s) × (d.reconnect_timer ≡ due)

fail_all-Ends :
    (s : ConnectionState) (e : Option Reason) (r : Reason) (c : Connection)
    → Ends s c.reconnect_timer (set_state s e c then_also fail_all r).0
unfolding ◌then_also◌ fail_all fail_pending fail_outstanding
fail_all-Ends s e r c = rw (set_state-record s e c) (refl, refl)

or_false : (b : Bool) → b ≡ (b || false)
or_false true = refl
or_false false = refl

retry_later-Ends :
    (c : Connection)
    → Ends c.state (c.reconnect_timer || not c.opts.disable_auto_reconnect) (retry_later c).0
unfolding retry_later schedule_reconnect
retry_later-Ends c = elim (Bool-cases c.opts.disable_auto_reconnect) [
  | inl e ↦ rw e (refl, or_false c.reconnect_timer)
  | inr e ↦ rw e (elim (Bool-cases c.reconnect_timer) [
    | inl d ↦ rw d (refl, refl)
    | inr d ↦ rw d (refl, refl)
  ])
]

kept_fields : Connection → ConnectionState × (Bool × Bool)
kept_fields c = (c.state, (c.reconnect_timer, c.opts.disable_auto_reconnect))

keep_or_fail-fields : (c : Connection) → kept_fields (keep_or_fail c).0 ≡ kept_fields c
unfolding keep_or_fail fail_outstanding kept_fields
keep_or_fail-fields c =
    elim (Bool-cases (not c.opts.disable_auto_reconnect && not c.opts.disable_queueing)) [
      | inl e ↦ rw e refl
      | inr e ↦ rw e refl
    ]

dropped-fields :
    (e : Reason) (c : Connection)
    → kept_fields (keep_or_fail (set_state conn_disconnected (some e) (fail_pending e c).0).0).0
      ≡ (conn_disconnected, (c.reconnect_timer, c.opts.disable_auto_reconnect))
unfolding fail_pending kept_fields
dropped-fields e c =
    keep_or_fail-fields _
    ∙ ap kept_fields (set_state-record conn_disconnected (some e) (fail_pending e c).0)

retried-Ends :
    (c d : Connection)
    → kept_fields c ≡ (conn_disconnected, (d.reconnect_timer, d.opts.disable_auto_reconnect))
    → Ends conn_disconnected
        (d.reconnect_timer || not d.opts.disable_auto_reconnect)
        (retry_later c).0
unfolding kept_fields
retried-Ends c d h =
    let ends = retry_later-Ends c in
    (ends.0 ∙ ap (λ t. t.0) h, ends.1 ∙ ap (λ t. t.1.0 || not t.1.1) h)

ended_by-Ends :
    (fatal : Option Reason) (cause : Reason) (c : Connection)
    → Ends
        (state_after false fatal)
        (due_after false fatal c.reconnect_timer c.opts.disable_auto_reconnect)
        (ended_by fatal cause c).0
unfolding ◌then_also◌
ended_by-Ends (some e) cause c =
    fail_all-Ends conn_failed (some e) e (record c { fatal_err = none })
ended_by-Ends none cause c = retried-Ends _ c (dropped-fields (websocket_closed cause) c)

-- The current socket of a connection ends, whoever reports it. The connection is then closed if it
-- was closing or closed, failed if a fatal auth error was noted, and else disconnected; and only in
-- that last case, unless reconnecting is turned off, a reconnect is due that was not due before.
pub handle_socket_close-Ends :
    (ws : ℕ) (cause : Reason) (c : Connection)
    → is_socket ws c.socket ≡ true
    → Ends
        (state_after (is_closing c.state) c.fatal_err)
        (due_after (is_closing c.state) c.fatal_err c.reconnect_timer c.opts.disable_auto_reconnect)
        (handle_socket_close ws cause c).0
unfolding handle_socket_close socket_ended ◌then_also◌ stop_keep_alive_locked
handle_socket_close-Ends ws cause c h = rw h (elim (Bool-cases (is_closing c.state)) [
  | inl e ↦ rw e (fail_all-Ends conn_closed none connection_closed _)
  | inr e ↦ rw e (ended_by-Ends c.fatal_err cause _)
])

if_true : {A : Type 0} → (b : Bool) (x y : A) → b ≡ true → (if b then x else y) ≡ x
if_true true x y h = refl
if_true false x y h = absurd (cc h)

note_fatal-noted :
    (f : ErrorFrame) (e : Reason) (c : Connection)
    → is_auth_code f.code ≡ true
    → c.opts.has_auth_callback ≡ false
    → note_fatal f e c ≡ record c { fatal_err = some e }
note_fatal-noted f e c a b =
    if_true (is_auth_code f.code && not c.opts.has_auth_callback) _ c
      (both (is_auth_code f.code) _ a b)
  where
    both : (x y : Bool) → x ≡ true → y ≡ false → (x && not y) ≡ true
    both true y h k = ap not k
    both false y h k = h

-- An auth error in answer to the handshake, of a client with no callback for another credential, is
-- final: the connection is failed, and no reconnect is due that was not due before.
pub handshake_answered_fatal :
    (ws : ℕ) (f : ErrorFrame) (rest : List ServerFrame) (c : Connection)
    → is_socket ws c.socket ≡ true
    → is_closing c.state ≡ false
    → is_auth_code f.code ≡ true
    → c.opts.has_auth_callback ≡ false
    → Ends conn_failed c.reconnect_timer (handshake_answered ws (error f ∷ rest) c).0
unfolding handshake_answered teardown_socket
handshake_answered_fatal ws f rest c h k a b =
    let e = auth_failed (record { code = f.code; message = f.message }) in
    let noted : Connection = record c { fatal_err = some e } in
    let ends = handle_socket_close-Ends ws e noted h in
    subst (λ d. Ends conn_failed c.reconnect_timer (handle_socket_close ws e d).0)
      (sym (note_fatal-noted f e c a b)) (rw k at ends)
