-- ===== src/Channel/Steps.antt =====
-- channel.go: a channel as a state machine, with every event that can reach it as a step, in any
-- order in which the connection, the server and the callers interleave.
pub mod Sound
pub mod Invariant
use realtime_go.Common.{ℕ, ◌≡◌, Bool, true, Option, List, [], ◌++◌}
use realtime_go.Wire.{WireMember, MsgFrame, FetchResponseFrame}
use realtime_go.Channel.{Channel, Reason, Effect}
use realtime_go.Channel.Batch.{flush, enqueue}
use realtime_go.Channel.Lifecycle.{
  attach, AttachAnswer, attach_answered, detach, detach_answered, on_resumed, ConnectionState,
  on_connection_state,
}
use realtime_go.Channel.Lifecycle.Listeners.{
  Heard, heard_nothing, Heard-append, attach-IsHeard, attach_answered-IsHeard, detach-IsHeard,
  detach_answered-IsHeard, on_resumed-IsHeard, on_connection_state-IsHeard, flush-IsHeard,
  enqueue-IsHeard,
}
use realtime_go.Channel.Deliver.{deliver_message, backfill}
use realtime_go.Channel.Deliver.Listeners.{deliver_message-IsHeard, backfill-IsHeard}

-- `Step ch r`: in the channel `ch` an event can come that leaves the channel and effects `r`. An
-- attempt is answered while it is in flight, and so is a fetch.
pub data Step : Channel → Channel × List Effect → Type 0 where
  attach_step : (ch : Channel) → Step ch (attach ch)
  attach_answered_step :
      (ch : Channel) (a : AttachAnswer) → ch.attaching ≡ true → Step ch (attach_answered a ch)
  detach_step : (ch : Channel) (now : ℕ) → Step ch (detach now ch)
  detach_answered_step : (ch : Channel) (epoch : ℕ) → Step ch (detach_answered epoch ch)
  resumed_step : (ch : Channel) (resumed : Bool) → Step ch (on_resumed resumed ch)
  connection_step :
      (ch : Channel) (conn : ConnectionState) (reason : Option Reason)
      → Step ch (on_connection_state conn reason ch)
  message_step : (ch : Channel) (frame : MsgFrame) → Step ch (deliver_message frame ch)
  fetch_step :
      (ch : Channel) (answer : Option FetchResponseFrame)
      → ch.backfilling ≡ true
      → Step ch (backfill answer ch)
  publish_step :
      (ch : Channel) (now : ℕ) (member : WireMember) (done : ℕ)
      → Step ch (enqueue now member done ch)
  flush_step : (ch : Channel) (now : ℕ) → Step ch (flush now ch)

-- Any number of steps, with their effects one after the other.
pub data Steps : Channel → Channel × List Effect → Type 0 where
  no_step : (ch : Channel) → Steps ch (ch, [])
  more_steps :
      (ch : Channel) (r q : Channel × List Effect)
      → Step ch r
      → Steps r.0 q
      → Steps ch (q.0, r.1 ++ q.1)

Step-Heard : (ch : Channel) (r : Channel × List Effect) → Step ch r → Heard ch.state r.1 r.0.state
Step-Heard ch _ (attach_step _) = attach-IsHeard ch
Step-Heard ch _ (attach_answered_step _ a h) = attach_answered-IsHeard a ch
Step-Heard ch _ (detach_step _ now) = detach-IsHeard now ch
Step-Heard ch _ (detach_answered_step _ epoch) = detach_answered-IsHeard epoch ch
Step-Heard ch _ (resumed_step _ resumed) = on_resumed-IsHeard resumed ch
Step-Heard ch _ (connection_step _ conn reason) = on_connection_state-IsHeard conn reason ch
Step-Heard ch _ (message_step _ frame) = deliver_message-IsHeard frame ch
Step-Heard ch _ (fetch_step _ answer h) = backfill-IsHeard answer ch
Step-Heard ch _ (publish_step _ now member done) = enqueue-IsHeard now member done ch
Step-Heard ch _ (flush_step _ now) = flush-IsHeard now ch

-- Over any run of the channel, a state listener that starts from the state of the channel hears of
-- every transition: each change names the state it knows as the previous one and a different state
-- as the current one, each update names the state it knows, and after the last event it knows the
-- state of the channel.
pub Steps-Heard :
    (ch : Channel) (q : Channel × List Effect) → Steps ch q → Heard ch.state q.1 q.0.state
Steps-Heard ch _ (no_step _) = heard_nothing
Steps-Heard ch _ (more_steps _ r q s ss) = Heard-append (Step-Heard ch r s) (Steps-Heard r.0 q ss)
