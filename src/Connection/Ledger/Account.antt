-- ===== src/Connection/Ledger/Account.antt =====
-- connection.go: the account over whatever happens to a connection.
use realtime_go.Common.{
  ℕ, ◌+◌, ◌≤◌, ◌≡◌, ap, sym, ◌∙◌, refl, inl, inr, ◌==◌, Bool-cases, Bytes, Option, none, some, List,
  [], ◌∷◌, ◌++◌, arith,
}
use realtime_go.Common.Maps.{keys, find, count}
use realtime_go.Common.Strings.{eq_bytes}
use realtime_go.Errors.{Reason}
use realtime_go.Connection.{
  Connection, Options, RequestKind, failed_with, Effect, publish_returns, auth_methods,
  new_connection, fresh_connection, bump, ack_request, history_request, fetch_request,
}
use realtime_go.Connection.Lifecycle.{connect_ended}
use realtime_go.Connection.Subscriptions.{
  or_zero, register_channel, unregister_channel, remember_subscription, forget_subscription,
  remember_presence, forget_presence,
}
use realtime_go.Connection.Requests.{request_abandoned, fail_pending}
use realtime_go.Connection.Publishes.{publish_abandoned, publish_unsent, fail_outstanding}
use realtime_go.Connection.Closing.{◌then_also◌, fail_all, finish_close}
use realtime_go.Connection.Events.{
  Event, react, react_all, connect_event, begin_close_event, finish_close_event, request_event,
  request_abandoned_event, publish_event, publish_abandoned_event, register_event, unregister_event,
  remember_event, forget_event, remember_presence_event, forget_presence_event,
  connect_started_event, connect_ended_event, connect_failed_event, socket_opened_event,
  handshake_answered_event, auth_send_failed_event, handshake_read_failed_event, frames_event,
  other_message_event, read_failed_event, publish_unsent_event, ping_event, ping_sent_event,
  pong_deadline_event, timer_event, reconnect_failed_event,
}
use realtime_go.Connection.Ledger.{
  Item, a_publish, a_request, publish_answers, request_answers, answered, answered-append,
  open_items, IsOnce,
}
use realtime_go.Connection.Ledger.Settled.{settle-IsSettled, same_items}
use realtime_go.Connection.Ledger.Operations.{
  Settles, Settles-quiet, Settles-tells, Settles-then_also, quiet-Settles, publish_unsent-Settles,
  handle_socket_close-Settles,
}
use realtime_go.Connection.Ledger.Frames.{
  handle_frames-Settles, arm_pong_deadline-Settles, clear_pong_deadline-Settles,
  pong_deadline_passed-Settles, begin_close-Settles, finish_close-Settles,
}
use realtime_go.Connection.Ledger.Attempts.{
  connect-Settles, connect_started-Settles, connect_failed-Settles, socket_opened-Settles,
  handshake_answered-Settles, auth_send_failed-Settles, handshake_read_failed-Settles,
  timer_fired-Settles, reconnect_failed-Settles, ping_tick-Settles,
}
use realtime_go.Connection.Ledger.Calls.{IsAccounted, request-IsAccounted, publish_call-IsAccounted}

-- The callers that start to wait, at an event: one for a publish, by its message id, and one for a
-- request, by the id that it takes.
abbrev pub started_items : Event → Connection → Item → ℕ
started_items (publish_event f) c item = publish_answers item f.message_id
started_items (request_event kind build) c item = request_answers item kind (bump c.next_id)
started_items e c item = 0

-- Nobody waits for what a caller starts to wait for.
abbrev pub IsNew : Event → Connection → Type 0
IsNew e c = (item : Item) → started_items e c item + open_items item c ≤ 1

waiters-IsOnce : (e : Event) (c : Connection) → IsNew e c → IsOnce c
waiters-IsOnce e c n item = omega (arith, n item)

settled-IsAccounted :
    (c : Connection) (r : Connection × List Effect)
    → IsOnce c
    → Settles c r
    → IsAccounted (λ item. 0) c r
settled-IsAccounted c r o h item = omega (arith, h o item)

renamed-Settles :
    (c d : Connection)
    → d.pending ≡ c.pending
    → d.pending_hist ≡ c.pending_hist
    → d.pending_fetch ≡ c.pending_fetch
    → d.outstanding ≡ c.outstanding
    → Settles c (d, [])
renamed-Settles c d e f g h =
    Settles-quiet c d [] (λ item. refl) (λ item. same_items c d item e f g (ap keys h))

forget-Settles :
    (name : Bytes) (epoch : Option ℕ) (c : Connection)
    → Settles c (forget_subscription name epoch c, [])
unfolding forget_subscription
forget-Settles name none c = renamed-Settles c _ refl refl refl refl
forget-Settles name (some epoch) c =
    elim (Bool-cases (epoch == or_zero (find eq_bytes name c.sub_epochs))) [
      | inl e ↦ rw e (renamed-Settles c _ refl refl refl refl)
      | inr e ↦ rw e (quiet-Settles c)
    ]

request_abandoned-Settles :
    (kind : RequestKind) (id : ℕ) (e : Reason) (c : Connection)
    → Settles c (request_abandoned kind id e c)
unfolding request_abandoned
request_abandoned-Settles kind id e c = settle-IsSettled kind id (failed_with e) c

publish_abandoned-Settles :
    (key : Bytes) (e : Reason) (c : Connection) → Settles c (publish_abandoned key e c)
unfolding publish_abandoned
publish_abandoned-Settles key e c =
    Settles-tells c c (publish_returns key e) (λ item. refl) (λ item. refl)

pub react-IsAccounted :
    (e : Event) (c : Connection) → IsNew e c → IsAccounted (started_items e c) c (react e c)
unfolding react register_channel unregister_channel remember_subscription remember_presence
    forget_presence connect_ended
react-IsAccounted connect_event c n =
    settled-IsAccounted c _ (waiters-IsOnce connect_event c n) (connect-Settles c)
react-IsAccounted begin_close_event c n =
    settled-IsAccounted c _ (waiters-IsOnce begin_close_event c n) (begin_close-Settles c)
react-IsAccounted finish_close_event c n =
    settled-IsAccounted c _ (waiters-IsOnce finish_close_event c n) (finish_close-Settles c)
react-IsAccounted (request_event kind build) c n = request-IsAccounted kind build c n
react-IsAccounted (request_abandoned_event kind id e) c n =
    settled-IsAccounted c _ (waiters-IsOnce (request_abandoned_event kind id e) c n)
      (request_abandoned-Settles kind id e c)
react-IsAccounted (publish_event f) c n = publish_call-IsAccounted f c n
react-IsAccounted (publish_abandoned_event key e) c n =
    settled-IsAccounted c _ (waiters-IsOnce (publish_abandoned_event key e) c n)
      (publish_abandoned-Settles key e c)
react-IsAccounted (register_event name) c n =
    settled-IsAccounted c ((register_channel name c), []) (waiters-IsOnce (register_event name) c n)
      (renamed-Settles c (register_channel name c) refl refl refl refl)
react-IsAccounted (unregister_event name) c n =
    settled-IsAccounted c ((unregister_channel name c), [])
      (waiters-IsOnce (unregister_event name) c n)
      (renamed-Settles c (unregister_channel name c) refl refl refl refl)
react-IsAccounted (remember_event name) c n =
    settled-IsAccounted c ((remember_subscription name c), [])
      (waiters-IsOnce (remember_event name) c n)
      (renamed-Settles c (remember_subscription name c) refl refl refl refl)
react-IsAccounted (forget_event name epoch) c n =
    settled-IsAccounted c (forget_subscription name epoch c, [])
      (waiters-IsOnce (forget_event name epoch) c n) (forget-Settles name epoch c)
react-IsAccounted (remember_presence_event name) c n =
    settled-IsAccounted c ((remember_presence name c), [])
      (waiters-IsOnce (remember_presence_event name) c n)
      (renamed-Settles c (remember_presence name c) refl refl refl refl)
react-IsAccounted (forget_presence_event name) c n =
    settled-IsAccounted c ((forget_presence name c), [])
      (waiters-IsOnce (forget_presence_event name) c n)
      (renamed-Settles c (forget_presence name c) refl refl refl refl)
react-IsAccounted connect_started_event c n =
    settled-IsAccounted c _ (waiters-IsOnce connect_started_event c n) (connect_started-Settles c)
react-IsAccounted connect_ended_event c n =
    settled-IsAccounted c ((connect_ended c), []) (waiters-IsOnce connect_ended_event c n)
      (renamed-Settles c (connect_ended c) refl refl refl refl)
react-IsAccounted (connect_failed_event e) c n =
    settled-IsAccounted c _ (waiters-IsOnce (connect_failed_event e) c n)
      (connect_failed-Settles e c)
react-IsAccounted (socket_opened_event ws f) c n =
    settled-IsAccounted c _ (waiters-IsOnce (socket_opened_event ws f) c n)
      (socket_opened-Settles ws f c)
react-IsAccounted (handshake_answered_event ws fs) c n =
    settled-IsAccounted c _ (waiters-IsOnce (handshake_answered_event ws fs) c n)
      (handshake_answered-Settles ws fs c)
react-IsAccounted (auth_send_failed_event ws e) c n =
    settled-IsAccounted c _ (waiters-IsOnce (auth_send_failed_event ws e) c n)
      (auth_send_failed-Settles ws e c)
react-IsAccounted (handshake_read_failed_event ws e) c n =
    settled-IsAccounted c _ (waiters-IsOnce (handshake_read_failed_event ws e) c n)
      (handshake_read_failed-Settles ws e c)
react-IsAccounted (frames_event fs) c n =
    settled-IsAccounted c _ (waiters-IsOnce (frames_event fs) c n)
      (Settles-then_also c _ _ (clear_pong_deadline-Settles c) (handle_frames-Settles fs))
react-IsAccounted other_message_event c n =
    settled-IsAccounted c _ (waiters-IsOnce other_message_event c n) (clear_pong_deadline-Settles c)
react-IsAccounted (read_failed_event ws e) c n =
    settled-IsAccounted c _ (waiters-IsOnce (read_failed_event ws e) c n)
      (handle_socket_close-Settles ws e c)
react-IsAccounted (publish_unsent_event id key) c n =
    settled-IsAccounted c (publish_unsent id key c, [])
      (waiters-IsOnce (publish_unsent_event id key) c n) (publish_unsent-Settles id key c)
react-IsAccounted (ping_event ws) c n =
    settled-IsAccounted c _ (waiters-IsOnce (ping_event ws) c n) (ping_tick-Settles ws c)
react-IsAccounted ping_sent_event c n =
    settled-IsAccounted c _ (waiters-IsOnce ping_sent_event c n) (arm_pong_deadline-Settles c)
react-IsAccounted (pong_deadline_event ws) c n =
    settled-IsAccounted c _ (waiters-IsOnce (pong_deadline_event ws) c n)
      (pong_deadline_passed-Settles ws c)
react-IsAccounted timer_event c n =
    settled-IsAccounted c _ (waiters-IsOnce timer_event c n) (timer_fired-Settles c)
react-IsAccounted reconnect_failed_event c n =
    settled-IsAccounted c _ (waiters-IsOnce reconnect_failed_event c n) (reconnect_failed-Settles c)

-- `IsNew`, of each event of a run from a connection.
abbrev pub IsNewAll : List Event → Connection → Type 0
IsNewAll [] c = IsOnce c
IsNewAll (e ∷ es) c = IsNew e c × IsNewAll es (react e c).0

-- The callers that start to wait in a run.
abbrev pub started_in : List Event → Connection → Item → ℕ
started_in [] c item = 0
started_in (e ∷ es) c item = started_items e c item + started_in es (react e c).0 item

-- In any run from any connection (calls, frames, sockets and timers in any order), where at each
-- event nothing is waited for twice, a publish takes no message id that is outstanding and a request
-- no id that is waited for: the answers that a publish or a request gets and the waits for it that
-- are open at the end are as many as those that were open at the start and those that were started.
-- No answer is lost, none is given twice, and none to who does not wait.
pub answered-react_all :
    (es : List Event) (c : Connection)
    → IsNewAll es c
    → (item : Item)
    → answered item (react_all es c).1 + open_items item (react_all es c).0
      ≡ started_in es c item + open_items item c
unfolding react_all
answered-react_all [] c n item = refl
answered-react_all (e ∷ es) c n item = omega (
  arith,
  react-IsAccounted e c n.0 item,
  answered-react_all es (react e c).0 n.1 item,
  answered-append item (react e c).1 (react_all es (react e c).0).1,
)

new_connection-fresh_connection :
    (opts : Options) (c : Connection) → new_connection opts ≡ some c → fresh_connection opts ≡ c
unfolding new_connection
new_connection-fresh_connection opts c h = elim (Bool-cases (auth_methods opts == 1)) [
  | inl e ↦ cc (rw e at h)
  | inr e ↦ cc (rw e at h)
]

fresh-open_items : (opts : Options) (item : Item) → open_items item (fresh_connection opts) ≡ 0
unfolding open_items count
fresh-open_items opts (a_publish k) = refl
fresh-open_items opts (a_request ack_request id) = refl
fresh-open_items opts (a_request history_request id) = refl
fresh-open_items opts (a_request fetch_request id) = refl

-- `Close` has answered whoever waited.
finish_close-open_items : (c : Connection) (item : Item) → open_items item (finish_close c).0 ≡ 0
unfolding finish_close ◌then_also◌ fail_all fail_pending fail_outstanding open_items count
finish_close-open_items c (a_publish k) = refl
finish_close-open_items c (a_request ack_request id) = refl
finish_close-open_items c (a_request history_request id) = refl
finish_close-open_items c (a_request fetch_request id) = refl

react_all-IsOnce : (es : List Event) (c : Connection) → IsNewAll es c → IsOnce (react_all es c).0
unfolding react_all
react_all-IsOnce [] c n = n
react_all-IsOnce (e ∷ es) c n = react_all-IsOnce es (react e c).0 n.1

-- A client that is made and used in any way, where message ids and request ids are fresh as above,
-- and that is then closed has answered every caller, one time each for every wait it started: the
-- answers that the run and the end of Close give are as many as the waits, and nobody waits after.
pub closed_run-answered :
    (opts : Options) (c : Connection) (es : List Event)
    → new_connection opts ≡ some c
    → IsNewAll es c
    → (item : Item)
    → (answered item ((react_all es c).1 ++ (finish_close (react_all es c).0).1)
        ≡ started_in es c item)
      × (open_items item (finish_close (react_all es c).0).0 ≡ 0)
closed_run-answered opts c es h n item =
    let run = react_all es c in
    let starts : open_items item c ≡ 0 =
      ap (open_items item) (sym (new_connection-fresh_connection opts c h))
      ∙ fresh-open_items opts item in
    (
      omega (
        arith,
        starts,
        answered-react_all es c n item,
        answered-append item run.1 (finish_close run.0).1,
        finish_close-Settles run.0 (react_all-IsOnce es c n) item,
        finish_close-open_items run.0 item,
      ),
      finish_close-open_items run.0 item,
    )
