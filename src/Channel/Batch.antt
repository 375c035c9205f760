-- ===== src/Channel/Batch.antt =====
-- channel.go: publishing, and the buffer that groups fast publishes into batches.
pub mod Order
pub mod Full
use realtime_go.Common.{
  ℕ, ◌-◌, Bool, true, false, Option, none, some, List, [], ◌∷◌, ◌++◌, map, Bytes, length, leb,
  if◌then◌else◌,
}
use realtime_go.Wire.{WireMember, PublishFrame}
use realtime_go.Channel.{
  Channel, BufferedPublish, Reason, Effect, stop_timer, start_timer, send_batch, publish_frame,
}

-- "null".
abbrev pub null_json : Bytes
null_json = 110 ∷ 117 ∷ 108 ∷ 108 ∷ []

unfoldable pub cancel_timer : Channel → Channel × List Effect
cancel_timer ch =
    if ch.batch_timer then (record ch { batch_timer = false }, stop_timer ∷ []) else (ch, [])

-- `flushLocked` after the timer, for what is buffered.
unfoldable pub send_pending : ℕ → List BufferedPublish → Channel → Channel × List Effect
send_pending now [] ch = (ch, [])
send_pending now (p ∷ pending) ch =
    (record ch { batch_buf = []; last_flush = some now }, send_batch (p ∷ pending) ∷ [])

-- `now` is the monotonic clock, in nanoseconds.
unfoldable pub flush_locked : ℕ → Channel → Channel × List Effect
flush_locked now ch =
    let (ch1, out1) = cancel_timer ch in
    let (ch2, out2) = send_pending now ch1.batch_buf ch1 in (ch2, out1 ++ out2)

unfoldable pub flush : ℕ → Channel → Channel × List Effect
flush now ch = flush_locked now ch

-- What is left of the window since the last batch, 0 when none went out yet.
unfoldable pub throttle : ℕ → ℕ → Option ℕ → ℕ
throttle interval now none = 0
throttle interval now (some last) = interval - (now - last)

unfoldable pub schedule : ℕ → Channel → Channel × List Effect
schedule now ch = if ch.batch_timer then (ch, []) else (
  record ch { batch_timer = true },
  start_timer (throttle ch.batch_interval now ch.last_flush) ∷ [],
)

-- `enqueue` up to the wait for the ack; `done` names the waiting call.
unfoldable pub enqueue : ℕ → WireMember → ℕ → Channel → Channel × List Effect
enqueue now member done ch =
    let buffered : Channel = record ch {
      batch_buf = ch.batch_buf ++ record { member = member; done = done } ∷ [];
    } in
    if leb buffered.batch_max_messages (length buffered.batch_buf)
    then flush_locked now buffered
    else schedule now buffered

-- The frame of `sendBatch`. The connection gives it its ids.
unfoldable pub batch_frame : Bytes → List WireMember → Bool → PublishFrame
batch_frame channel members ephemeral = record {
  channel = channel;
  name = [];
  payload = null_json;
  members = members;
  ephemeral = ephemeral;
  message_id = [];
  encoding = [];
  id = 0;
}

-- `sendBatch` once the publish is answered: every waiting call gets the answer.
unfoldable pub settle_batch : Option Reason → List BufferedPublish → List (ℕ × Option Reason)
settle_batch answer pending = map (λ p. (p.done, answer)) pending

unfoldable pub send_batch_frame : Channel → List BufferedPublish → PublishFrame
send_batch_frame ch pending = batch_frame ch.name (map (λ p. p.member) pending) false

-- `Publish` once the member is built.
unfoldable pub publish : ℕ → Bool → WireMember → ℕ → Channel → Channel × List Effect
publish now ephemeral member done ch =
    if ephemeral
    then (
      ch,
      publish_frame (record {
        channel = ch.name;
        name = member.name;
        payload = member.payload;
        members = [];
        ephemeral = true;
        message_id = [];
        encoding = member.encoding;
        id = 0;
      })
          ∷ [],
    )
    else enqueue now member done ch

-- `PublishBatch` once the members are built.
unfoldable pub publish_batch : Bool → List WireMember → Channel → Channel × List Effect
publish_batch ephemeral members ch =
    (ch, publish_frame (batch_frame ch.name members ephemeral) ∷ [])
