-- ===== src/Connection/Recovery/Idle.antt =====
-- connection.go: what leaves the publishes alone and writes none, while none is in flight.
use realtime_go.Common.{
  ℕ, ◌≡◌, refl, ap, ap₂, ◌∙◌, Bool, true, false, Option, none, some, List, [], ◌∷◌, ◌++◌, map,
  Bytes, ◌==◌, if◌then◌else◌,
}
use realtime_go.Common.Int.{ℤ, pos, negsuc}
use realtime_go.Common.Maps.{find, member}
use realtime_go.Common.Strings.{eq_bytes}
use realtime_go.Errors.{ConnectionState, conn_connected, Reason}
use realtime_go.Wire.{
  ErrorFrame, ServerFrame, connected, ack, msg, presence_event, error, pong, history_response,
  fetch_response,
}
use realtime_go.Connection.{
  Connection, RequestKind, ack_request, history_request, fetch_request, Outcome, Effect,
  restore_presence, reenter_presence, restore_subscription,
}
use realtime_go.Connection.Lifecycle.{
  eq_conn, connect, set_state, stop_pinging, stop_keep_alive_locked,
}
use realtime_go.Connection.Backoff.{schedule_reconnect}
use realtime_go.Connection.Requests.{waiting, settle}
use realtime_go.Connection.Publishes.{settle_found, settle_publish}
use realtime_go.Connection.Subscriptions.{restore_all, restore_subscriptions}
use realtime_go.Connection.Inbound.{
  unscoped_error, settle_or, scoped_error, handle_error_frame, handle_frame, handle_frames,
}
use realtime_go.Connection.KeepAlive.{
  started, start_keep_alive_locked, arm_pong_deadline, clear_pong_deadline,
}
use realtime_go.Connection.Closing.{◌then_also◌, retry_later}
use realtime_go.Connection.Handshake.{reconnect_failed}
use realtime_go.Connection.Recovery.{written_to, written_to-append}

pub record Idle (c : Connection) (r : Connection × List Effect) : Type 0 where
  pub same_ids : r.0.publish_request_ids ≡ c.publish_request_ids
  pub same_outstanding : r.0.outstanding ≡ c.outstanding
  pub same_opts : r.0.opts ≡ c.opts
  pub same_fatal : r.0.fatal_err ≡ c.fatal_err
  pub silent : (ws : ℕ) → written_to ws r.1 ≡ []

abbrev pub idle :
    {c : Connection} {r : Connection × List Effect}
    → r.0.publish_request_ids ≡ c.publish_request_ids
    → r.0.outstanding ≡ c.outstanding
    → r.0.opts ≡ c.opts
    → r.0.fatal_err ≡ c.fatal_err
    → ((ws : ℕ) → written_to ws r.1 ≡ [])
    → Idle c r
idle e f g h k = record {
  same_ids = e;
  same_outstanding = f;
  same_opts = g;
  same_fatal = h;
  silent = k;
}

pub Idle_refl : (c : Connection) → Idle c (c, [])
Idle_refl c = idle refl refl refl refl (λ ws. refl)

pub Idle-if :
    (b : Bool) (c : Connection) (r q : Connection × List Effect)
    → Idle c r
    → Idle c q
    → Idle c (if b then r else q)
Idle-if true c r q h k = h
Idle-if false c r q h k = k

both_silent :
    (ws : ℕ) (xs ys : List Effect)
    → written_to ws xs ≡ []
    → written_to ws ys ≡ []
    → written_to ws (xs ++ ys) ≡ []
both_silent ws xs ys h k = written_to-append ws xs ys ∙ ap₂ ◌++◌ h k

-- Nothing is in flight, and `f` leaves the publishes alone when nothing is.
pub Idle-then_also :
    (c : Connection) (r : Connection × List Effect) (f : Connection → Connection × List Effect)
    → c.publish_request_ids ≡ []
    → Idle c r
    → ((d : Connection) → d.publish_request_ids ≡ [] → Idle d (f d))
    → Idle c (r then_also f)
unfolding ◌then_also◌
Idle-then_also c (d, out) f n h k =
    let later = k d (h.same_ids ∙ n) in
    idle (later.same_ids ∙ h.same_ids) (later.same_outstanding ∙ h.same_outstanding)
      (later.same_opts ∙ h.same_opts) (later.same_fatal ∙ h.same_fatal)
      (λ ws. both_silent ws out (f d).1 (h.silent ws) (later.silent ws))

pub set_state-Idle :
    (s : ConnectionState) (e : Option Reason) (c : Connection) → Idle c (set_state s e c)
unfolding set_state
set_state-Idle s e c =
    Idle-if (eq_conn c.state s) c _ _ (Idle_refl c) (idle refl refl refl refl (λ ws. refl))

pub connect-Idle : (c : Connection) → Idle c (connect c)
unfolding connect
connect-Idle c =
    Idle-if (eq_conn c.state conn_connected) c _ _ (Idle_refl c)
      (Idle-if c.connecting c _ _ (Idle_refl c) (idle refl refl refl refl (λ ws. refl)))

pub schedule_reconnect-Idle : (c : Connection) → Idle c (schedule_reconnect c)
unfolding schedule_reconnect
schedule_reconnect-Idle c =
    Idle-if c.reconnect_timer c _ _ (Idle_refl c) (idle refl refl refl refl (λ ws. refl))

pub retry_later-Idle : (c : Connection) → Idle c (retry_later c)
unfolding retry_later
retry_later-Idle c =
    Idle-if c.opts.disable_auto_reconnect c _ _ (Idle_refl c) (schedule_reconnect-Idle c)

pub reconnect_failed-Idle : (c : Connection) → Idle c (reconnect_failed c)
unfolding reconnect_failed
reconnect_failed-Idle c = Idle-if _ c _ _ (Idle_refl c) (schedule_reconnect-Idle c)

pub settle-Idle :
    (kind : RequestKind) (id : ℕ) (outcome : Outcome) (c : Connection)
    → Idle c (settle kind id outcome c)
unfolding settle
settle-Idle ack_request id outcome c =
    Idle-if (member ◌==◌ id c.pending) c _ _ (idle refl refl refl refl (λ ws. refl)) (Idle_refl c)
settle-Idle history_request id outcome c =
    Idle-if (member ◌==◌ id c.pending_hist) c _ _ (idle refl refl refl refl (λ ws. refl))
      (Idle_refl c)
settle-Idle fetch_request id outcome c =
    Idle-if (member ◌==◌ id c.pending_fetch) c _ _ (idle refl refl refl refl (λ ws. refl))
      (Idle_refl c)

settle_publish_none :
    (id : ℕ) (e : Option Reason) (c : Connection)
    → c.publish_request_ids ≡ []
    → settle_publish id e c ≡ (false, (c, []))
unfolding settle_publish find
settle_publish_none id e c h = ap (λ ids. settle_found (find ◌==◌ id ids) id e c) h

settle_or-Idle :
    (kind : RequestKind) (id : ℕ) (e : Reason) (otherwise : Connection × List Effect)
    → (c : Connection) → Idle c otherwise
    → Idle c (settle_or kind id e otherwise c)
settle_or-Idle kind id e otherwise c h =
    Idle-if (member ◌==◌ id (waiting kind c)) c _ _ (settle-Idle kind id _ c) h

unscoped_error-Idle : (e : Reason) (c : Connection) → Idle c (unscoped_error e c)
unfolding unscoped_error
unscoped_error-Idle e c = idle refl refl refl refl (λ ws. refl)

scoped_error-Idle :
    (id : ℕ) (e : Reason) (c : Connection)
    → c.publish_request_ids ≡ []
    → Idle c (scoped_error id e c)
scoped_error-Idle id e c n = settle_or-Idle ack_request id e _ c (
    rw (settle_publish_none id (some e) c n) (
      settle_or-Idle history_request id e _ c
        (settle_or-Idle fetch_request id e _ c (unscoped_error-Idle e c))))

handle_error_frame-Idle :
    (f : ErrorFrame) (c : Connection) → c.publish_request_ids ≡ [] → Idle c (handle_error_frame f c)
unfolding handle_error_frame
handle_error_frame-Idle f c n =
    Idle-if (f.id == 0) c _ _ (unscoped_error-Idle _ c) (scoped_error-Idle f.id _ c n)

event_silent :
    (b : Bool) (c : Connection) (e : Effect)
    → ((ws : ℕ) → written_to ws (e ∷ []) ≡ [])
    → Idle c (c, if b then e ∷ [] else [])
event_silent true c e h = idle refl refl refl refl h
event_silent false c e h = Idle_refl c

handle_frame-Idle :
    (f : ServerFrame) (c : Connection) → c.publish_request_ids ≡ [] → Idle c (handle_frame f c)
unfolding handle_frame
handle_frame-Idle (ack f) c n =
    Idle-if (member ◌==◌ f.id c.pending) c _ _ (settle-Idle ack_request f.id _ c)
      (rw (settle_publish_none f.id none c n) (Idle_refl c))
handle_frame-Idle (error f) c n = handle_error_frame-Idle f c n
handle_frame-Idle (msg f) c n = event_silent _ c _ (λ ws. refl)
handle_frame-Idle (presence_event f) c n = event_silent _ c _ (λ ws. refl)
handle_frame-Idle (history_response f) c n = settle-Idle history_request f.id _ c
handle_frame-Idle (fetch_response f) c n = settle-Idle fetch_request f.id _ c
handle_frame-Idle (connected f) c n = Idle_refl c
handle_frame-Idle pong c n = Idle_refl c

pub handle_frames-Idle :
    (fs : List ServerFrame) (c : Connection)
    → c.publish_request_ids ≡ []
    → Idle c (handle_frames fs c)
unfolding handle_frames ◌then_also◌
handle_frames-Idle [] c n = Idle_refl c
handle_frames-Idle (f ∷ fs) c n =
    Idle-then_also c (handle_frame f c) (handle_frames fs) n (handle_frame-Idle f c n)
      (λ d k. handle_frames-Idle fs d k)

pub arm_pong_deadline-Idle : (c : Connection) → Idle c (arm_pong_deadline c)
unfolding arm_pong_deadline
arm_pong_deadline-Idle c =
    Idle-if c.pong_deadline c _ _ (Idle_refl c) (idle refl refl refl refl (λ ws. refl))

pub clear_pong_deadline-Idle : (c : Connection) → Idle c (clear_pong_deadline c)
unfolding clear_pong_deadline
clear_pong_deadline-Idle c =
    Idle-if c.pong_deadline c _ _ (idle refl refl refl refl (λ ws. refl)) (Idle_refl c)

stopping_silent : (ws : ℕ) (o : Option ℕ) → written_to ws (stop_pinging o) ≡ []
stopping_silent ws none = refl
stopping_silent ws (some s) = refl

if_silent :
    (ws : ℕ) (b : Bool) (xs : List Effect)
    → written_to ws xs ≡ []
    → written_to ws (if b then xs else []) ≡ []
if_silent ws true xs h = h
if_silent ws false xs h = refl

pub stop_keep_alive-Idle : (c : Connection) → Idle c (stop_keep_alive_locked c)
unfolding stop_keep_alive_locked
stop_keep_alive-Idle c = idle refl refl refl refl (λ ws.
    both_silent ws (stop_pinging c.keep_alive) _ (stopping_silent ws c.keep_alive)
      (if_silent ws c.pong_deadline _ refl))

started-Idle :
    (ws : ℕ) (interval : ℤ) (c : Connection) (r : Connection × List Effect)
    → Idle c r
    → Idle c (started ws interval r)
started-Idle ws (negsuc n) c r h = h
started-Idle ws (pos interval) c r h = Idle-if _ c _ _ h (
    idle h.same_ids h.same_outstanding h.same_opts h.same_fatal
      (λ s. both_silent s r.1 _ (h.silent s) refl))

pub start_keep_alive-Idle :
    (ws : ℕ) (interval : ℤ) (c : Connection) → Idle c (start_keep_alive_locked ws interval c)
unfolding start_keep_alive_locked
start_keep_alive-Idle ws interval c =
    started-Idle ws interval c (stop_keep_alive_locked c) (stop_keep_alive-Idle c)

map_silent :
    (ws : ℕ) (f : Bytes → Effect) (names : List Bytes)
    → ((name : Bytes) → written_to ws (f name ∷ []) ≡ [])
    → written_to ws (map f names) ≡ []
map_silent ws f [] h = refl
map_silent ws f (name ∷ names) h =
    both_silent ws (f name ∷ []) (map f names) (h name) (map_silent ws f names h)

pub restore_silent :
    (ws : ℕ) (is_reconnect : Bool) (c : Connection)
    → written_to ws (restore_subscriptions is_reconnect c) ≡ []
unfolding restore_subscriptions restore_all
restore_silent ws is_reconnect c = if_silent ws is_reconnect (restore_all c) (
    both_silent ws
      (map (λ name. restore_subscription name (member eq_bytes name c.hooks)) c.desired_subs) _
      (map_silent ws _ c.desired_subs (λ name. refl))
      (both_silent ws (map restore_presence c.desired_presence) (map reenter_presence c.hooks)
        (map_silent ws restore_presence c.desired_presence (λ name. refl))
        (map_silent ws reenter_presence c.hooks (λ name. refl))))
