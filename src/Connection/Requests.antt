-- ===== src/Connection/Requests.antt =====
-- connection.go: requests, which wait for the frame that answers their id.
use realtime_go.Common.{ℕ, Option, none, some, List, [], ◌∷◌, ◌++◌, map, ◌==◌, if◌then◌else◌}
use realtime_go.Common.Maps.{member, discard}
use realtime_go.Errors.{Reason, socket_not_open}
use realtime_go.Wire.{ClientFrame}
use realtime_go.Connection.{
  Connection, RequestKind, ack_request, history_request, fetch_request, Outcome, failed_with,
  Effect, answer, write_frame, bump,
}

-- The pending map of a kind.
abbrev pub waiting : RequestKind → Connection → List ℕ
waiting ack_request c = c.pending
waiting history_request c = c.pending_hist
waiting fetch_request c = c.pending_fetch

abbrev pub set_waiting : RequestKind → List ℕ → Connection → Connection
set_waiting ack_request ids c = record c { pending = ids }
set_waiting history_request ids c = record c { pending_hist = ids }
set_waiting fetch_request ids c = record c { pending_fetch = ids }

-- `ch, ok := pending[id]` and then `delete(pending, id)` and the send on `ch`.
unfoldable pub settle : RequestKind → ℕ → Outcome → Connection → Connection × List Effect
settle kind id outcome c =
    if member ◌==◌ id (waiting kind c)
    then (set_waiting kind (discard ◌==◌ id (waiting kind c)) c, answer kind id outcome ∷ [])
    else (c, [])

-- The write of a request: with no socket, `send` fails and the request is taken back.
abbrev pub send_request :
    Option ℕ → RequestKind → ℕ → ClientFrame → Connection → Connection × List Effect
send_request none kind id frame c = settle kind id (failed_with socket_not_open) c
send_request (some ws) kind id frame c = (c, write_frame ws frame ∷ [])

-- `request`, `requestHistory` and `requestFetch` once connected, up to the wait; `build` puts the id
-- into the frame.
unfoldable pub request : RequestKind → (ℕ → ClientFrame) → Connection → Connection × List Effect
request kind build c =
    let id = bump c.next_id in
    send_request c.socket kind id (build id)
      (set_waiting kind (id ∷ discard ◌==◌ id (waiting kind c)) (record c { next_id = id }))

-- The write failed, or the caller's context ended: the request is taken back, and its caller returns
-- with the error.
unfoldable pub request_abandoned : RequestKind → ℕ → Reason → Connection → Connection × List Effect
request_abandoned kind id e c = settle kind id (failed_with e) c

-- `failPendingLocked`
unfoldable pub fail_kind : RequestKind → Reason → Connection → List Effect
fail_kind kind e c = map (λ id. answer kind id (failed_with e)) (waiting kind c)

unfoldable pub fail_pending : Reason → Connection → Connection × List Effect
fail_pending e c = (
  record c { pending = []; pending_hist = []; pending_fetch = [] },
  fail_kind ack_request e c ++ (fail_kind history_request e c ++ fail_kind fetch_request e c),
)
