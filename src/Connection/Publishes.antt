-- ===== src/Connection/Publishes.antt =====
-- connection.go: publishes, which are kept until the server answers them and sent again after a
-- reconnect.
use realtime_go.Common.{
  ℕ, Bool, true, false, ◌||◌, not, Option, none, some, List, [], ◌∷◌, ◌++◌, map, Bytes, ◌==◌,
  if◌then◌else◌,
}
use realtime_go.Common.Maps.{keys, find, delete, insert, member}
use realtime_go.Common.Strings.{eq_bytes}
use realtime_go.Errors.{
  ConnectionState, conn_initialized, conn_connecting, conn_connected, conn_disconnected, Reason,
  cannot_publish,
}
use realtime_go.Wire.{PublishFrame, publish}
use realtime_go.Connection.{
  Connection, OutstandingPublish, Effect, answer_publish, publish_returns, write_frame,
  kick_connect, bump,
}
use realtime_go.Connection.Lifecycle.{eq_conn}

abbrev pub is_queueable : ConnectionState → Bool
is_queueable s =
    eq_conn s conn_initialized || eq_conn s conn_connecting || eq_conn s conn_disconnected

-- `outstanding.requestID = id` on the publish of a message id.
unfoldable pub set_request_id :
    Bytes → ℕ → List (Bytes × OutstandingPublish) → List (Bytes × OutstandingPublish)
set_request_id key id [] = []
set_request_id key id (e ∷ es) =
    let rest = set_request_id key id es in
    if eq_bytes key e.0
    then (e.0, record { frame = record e.1.frame { id = id }; request_id = id }) ∷ rest
    else e ∷ rest

-- `outstanding.requestID = 0`, which leaves the frame alone.
unfoldable pub clear_request_id :
    Bytes → List (Bytes × OutstandingPublish) → List (Bytes × OutstandingPublish)
clear_request_id key [] = []
clear_request_id key (e ∷ es) =
    let rest = clear_request_id key es in
    if eq_bytes key e.0 then (e.0, record e.1 { request_id = 0 }) ∷ rest else e ∷ rest

-- A publish that could not be written stays outstanding, to be sent on the next connect.
unfoldable pub publish_unsent : ℕ → Bytes → Connection → Connection
publish_unsent id key c = record c {
  publish_request_ids = delete ◌==◌ id c.publish_request_ids;
  outstanding = clear_request_id key c.outstanding;
}

abbrev pub write_publish :
    Option ℕ → ℕ → Bytes → PublishFrame → Connection → Connection × List Effect
write_publish none id key frame c = (publish_unsent id key c, [])
write_publish (some ws) id key frame c =
    (c, write_frame ws (publish (record frame { id = id })) ∷ [])

-- `sendPublish` for the publish of a message id. A failed write is reported by `publish_unsent`.
unfoldable pub send_publish : Bytes → PublishFrame → Connection → Connection × List Effect
send_publish key frame c =
    let id = bump c.next_id in
    write_publish c.socket id key frame (record c {
      next_id = id;
      publish_request_ids = insert ◌==◌ id key c.publish_request_ids;
      outstanding = set_request_id key id c.outstanding;
    })

abbrev pub keep_outstanding : PublishFrame → Connection → Connection
keep_outstanding frame c = record c {
  outstanding =
      insert eq_bytes frame.message_id (record { frame = frame; request_id = 0 }) c.outstanding;
}

-- `publish` up to the wait for the answer, for a frame with its fresh message id.
unfoldable pub publish_call : PublishFrame → Connection → Connection × List Effect
publish_call frame c =
    if eq_conn c.state conn_connected
    then send_publish frame.message_id frame (keep_outstanding frame c)
    else if c.opts.disable_queueing || not (is_queueable c.state)
    then (
      c,
      answer_publish frame.message_id (some (cannot_publish c.state c.opts.disable_queueing)) ∷ [],
    )
    else (keep_outstanding frame c, kick_connect ∷ [])

-- The end of `publish` when its context is done first: nobody waits for the answer any more, but the
-- message stays outstanding.
unfoldable pub publish_abandoned : Bytes → Reason → Connection → Connection × List Effect
publish_abandoned key e c = (c, publish_returns key e ∷ [])

-- The publishes that are not in flight.
unfoldable pub buffered : List (Bytes × OutstandingPublish) → List (Bytes × OutstandingPublish)
buffered [] = []
buffered (e ∷ es) = let rest = buffered es in if e.1.request_id == 0 then e ∷ rest else rest

unfoldable pub send_all : List (Bytes × OutstandingPublish) → Connection → Connection × List Effect
send_all [] c = (c, [])
send_all (e ∷ es) c =
    let (c1, out1) = send_publish e.0 e.1.frame c in
    let (c2, out2) = send_all es c1 in (c2, out1 ++ out2)

unfoldable pub flush_outstanding : Connection → Connection × List Effect
flush_outstanding c = send_all (buffered c.outstanding) c

-- The publish of a message id is answered, if it is still outstanding.
unfoldable pub settle_message : Bytes → Option Reason → Connection → Connection × List Effect
settle_message key e c =
    if member eq_bytes key (keys c.outstanding)
    then (record c { outstanding = delete eq_bytes key c.outstanding }, answer_publish key e ∷ [])
    else (c, [])

abbrev pub settle_found :
    Option Bytes → ℕ → Option Reason → Connection → Bool × (Connection × List Effect)
settle_found none id e c = (false, (c, []))
settle_found (some key) id e c = (
  true,
  settle_message key e (record c { publish_request_ids = delete ◌==◌ id c.publish_request_ids }),
)

-- `settlePublishLocked`; the flag says whether the id was a publish's.
unfoldable pub settle_publish : ℕ → Option Reason → Connection → Bool × (Connection × List Effect)
settle_publish id e c = settle_found (find ◌==◌ id c.publish_request_ids) id e c

unfoldable pub fail_outstanding : Reason → Connection → Connection × List Effect
fail_outstanding e c = (
  record c { publish_request_ids = []; outstanding = [] },
  map (λ key. answer_publish key (some e)) (keys c.outstanding),
)
