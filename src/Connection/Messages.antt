-- ===== src/Connection/Messages.antt =====
-- connection.go: from the bytes of a WebSocket message to the callers that it answers.
use realtime_go.Common.{
  and_parts, ℕ, ◌≡◌, refl, ap, ◌∙◌, Bool, true, ◌&&◌, All, List, [], ◌∷◌, ◌++◌, map, ◌==◌,
}
use realtime_go.Common.Maps.{member, discard}
use realtime_go.Wire.{
  AckFrame, HistoryResponseFrame, FetchResponseFrame, ServerFrame, ack, history_response,
  fetch_response,
}
use realtime_go.Codec.Server.{encode_server_frame}
use realtime_go.Codec.Messages.Layout.{on_wire_member}
use realtime_go.Codec.Server.Layout.{on_wire}
use realtime_go.Codec.Records.Split.{frame_all}
use realtime_go.Codec.Records.Frames.{Sendable, decode_server_frames-frame_all}
use realtime_go.Connection.{
  Connection, RequestKind, ack_request, history_request, fetch_request, Outcome, acked,
  history_answer, fetch_answer, Effect, answer,
}
use realtime_go.Connection.Requests.{waiting, set_waiting, settle}
use realtime_go.Connection.Inbound.{handle_frame, handle_frames, handle_message}

-- A frame that answers a request.
pub data Reply : Type 0 where
  ack_reply : AckFrame → Reply
  history_reply : HistoryResponseFrame → Reply
  fetch_reply : FetchResponseFrame → Reply

abbrev pub frame_of : Reply → ServerFrame
frame_of (ack_reply f) = ack f
frame_of (history_reply f) = history_response f
frame_of (fetch_reply f) = fetch_response f

-- What its caller hears. Messages travel under the channel of the response.
abbrev pub answer_of : Reply → Effect
answer_of (ack_reply f) = answer ack_request f.id (acked f)
answer_of (history_reply f) =
    answer history_request f.id
      (history_answer (record f { messages = map (on_wire_member f.channel) f.messages }))
answer_of (fetch_reply f) =
    answer fetch_request f.id
      (fetch_answer (record f { messages = map (on_wire_member f.channel) f.messages }))

abbrev own_id : RequestKind → Reply → List ℕ
own_id ack_request (ack_reply f) = f.id ∷ []
own_id history_request (history_reply f) = f.id ∷ []
own_id fetch_request (fetch_reply f) = f.id ∷ []
own_id kind r = []

-- The ids that the replies of a kind answer.
abbrev pub ids_of : RequestKind → List Reply → List ℕ
ids_of kind [] = []
ids_of kind (r ∷ rs) = own_id kind r ++ ids_of kind rs

abbrev pub without : List ℕ → List ℕ → List ℕ
without [] waiters = waiters
without (id ∷ ids) waiters = without ids (discard ◌==◌ id waiters)

-- Each waits when its turn comes.
abbrev pub all_wait : List ℕ → List ℕ → Bool
all_wait [] waiters = true
all_wait (id ∷ ids) waiters =
    let rest = all_wait ids (discard ◌==◌ id waiters) in member ◌==◌ id waiters && rest

abbrev pub answered_all : List Reply → Connection → Connection
answered_all rs c = record c {
  pending = without (ids_of ack_request rs) c.pending;
  pending_hist = without (ids_of history_request rs) c.pending_hist;
  pending_fetch = without (ids_of fetch_request rs) c.pending_fetch;
}

settle-waiting :
    (kind : RequestKind) (id : ℕ) (outcome : Outcome) (c : Connection)
    → member ◌==◌ id (waiting kind c) ≡ true
    → settle kind id outcome c
      ≡ (set_waiting kind (discard ◌==◌ id (waiting kind c)) c, answer kind id outcome ∷ [])
unfolding settle
settle-waiting kind id outcome c h = rw h refl

handle_frame-ack :
    (f : AckFrame) (c : Connection)
    → member ◌==◌ f.id c.pending ≡ true
    → handle_frame (ack f) c ≡ settle ack_request f.id (acked f) c
unfolding handle_frame
handle_frame-ack f c h = rw h refl

handle_frames_after :
    (f : ServerFrame) (fs : List ServerFrame) (c : Connection)
    → (r s : Connection × List Effect) → handle_frame f c ≡ r
    → handle_frames fs r.0 ≡ s
    → handle_frames (f ∷ fs) c ≡ (s.0, r.1 ++ s.1)
unfolding handle_frames
handle_frames_after f fs c r s h k = rw (h, k) refl

replies :
    (rs : List Reply) (c : Connection)
    → all_wait (ids_of ack_request rs) c.pending ≡ true
    → all_wait (ids_of history_request rs) c.pending_hist ≡ true
    → all_wait (ids_of fetch_request rs) c.pending_fetch ≡ true
    → handle_frames (map on_wire (map frame_of rs)) c ≡ (answered_all rs c, map answer_of rs)
unfolding handle_frames handle_frame on_wire
replies [] c h k l = refl
replies (ack_reply f ∷ rs) c h k l =
    let parts = and_parts (member ◌==◌ f.id c.pending) _ h in
    let d = record c { pending = discard ◌==◌ f.id c.pending } in
    handle_frames_after (ack f) (map on_wire (map frame_of rs)) c (d, answer_of (ack_reply f) ∷ [])
      _ (handle_frame-ack f c parts.0 ∙ settle-waiting ack_request f.id (acked f) c parts.0)
      (replies rs d parts.1 k l)
replies (history_reply f ∷ rs) c h k l =
    let parts = and_parts (member ◌==◌ f.id c.pending_hist) _ k in
    let d = record c { pending_hist = discard ◌==◌ f.id c.pending_hist } in
    handle_frames_after (on_wire (history_response f)) (map on_wire (map frame_of rs)) c
      (d, answer_of (history_reply f) ∷ []) _ (settle-waiting history_request f.id _ c parts.0)
      (replies rs d h parts.1 l)
replies (fetch_reply f ∷ rs) c h k l =
    let parts = and_parts (member ◌==◌ f.id c.pending_fetch) _ l in
    let d = record c { pending_fetch = discard ◌==◌ f.id c.pending_fetch } in
    handle_frames_after (on_wire (fetch_response f)) (map on_wire (map frame_of rs)) c
      (d, answer_of (fetch_reply f) ∷ []) _ (settle-waiting fetch_request f.id _ c parts.0)
      (replies rs d h k parts.1)

-- A message into which the server coalesces the sendable frames of replies (acks, history and fetch
-- responses, mixed), each of them to a request that waits when its turn comes, answers these requests
-- and no other caller: one answer for each, in order, with its frame as the wire keeps it. The ids are
-- taken from the requests that wait, and nothing else changes.
pub handle_message-answers :
    (rs : List Reply) (c : Connection)
    → All Sendable (map frame_of rs)
    → all_wait (ids_of ack_request rs) c.pending ≡ true
    → all_wait (ids_of history_request rs) c.pending_hist ≡ true
    → all_wait (ids_of fetch_request rs) c.pending_fetch ≡ true
    → handle_message (frame_all (map encode_server_frame (map frame_of rs))) c
      ≡ (answered_all rs c, map answer_of rs)
unfolding handle_message
handle_message-answers rs c s h k l =
    ap (λ frames. handle_frames frames c) (decode_server_frames-frame_all (map frame_of rs) s)
    ∙ replies rs c h k l
