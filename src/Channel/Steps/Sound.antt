-- ===== src/Channel/Steps/Sound.antt =====
-- channel.go: the cache and the buffer of a channel through its operations.
use realtime_go.Common.{
  ℕ, ◌≡◌, refl, Bool, true, false, Option, none, some, List, [], ◌∷◌, ◌++◌, length, leb,
  if◌then◌else◌,
}
use realtime_go.Errors.{is_capability_error}
use realtime_go.Channel.{
  Channel, ChannelState, attaching, attached, detaching, detached, suspended, failed,
  TransitionInfo, Reason, BufferedPublish, Effect,
}
use realtime_go.Channel.Dedup.Window.{IsValid}
use realtime_go.Channel.Batch.{cancel_timer, send_pending, flush_locked, flush, schedule, enqueue}
use realtime_go.Channel.Batch.Order.{enqueue_call, flush_call, call, buffer_with}
use realtime_go.Channel.Batch.Full.{IsBuffered, call-Keeps}
use realtime_go.Channel.Lifecycle.{
  eq_state, same_state, next_state, transition, is_live, begin_attach, attach, AttachAnswer, acked,
  refused, attach_answered, is_detached, begin_detach, detach, mark_detached, detach_answered,
  can_resume, rebase, on_resumed, ConnectionState, conn_initialized, conn_connecting,
  conn_connected, conn_disconnected, conn_closing, conn_closed, conn_failed, on_connection_state,
}

-- The cache is valid, and the buffer is below its limit with a flush coming while it holds anything.
abbrev pub IsSound : Channel → Type 0
IsSound ch = IsValid ch × IsBuffered ch

same_cache :
    (ch ch2 : Channel)
    → ch2.seen ≡ ch.seen
    → ch2.seen_order ≡ ch.seen_order
    → IsValid ch
    → IsValid ch2
same_cache ch ch2 e f v = record {
  bounded = rw f v.bounded;
  distinct = rw f v.distinct;
  same = rw (e, f) v.same;
}

pub same_buffer :
    (ch ch2 : Channel)
    → ch2.batch_buf ≡ ch.batch_buf
    → ch2.batch_timer ≡ ch.batch_timer
    → ch2.batch_max_messages ≡ ch.batch_max_messages
    → IsBuffered ch
    → IsBuffered ch2
same_buffer ch ch2 e f g v = record { below = rw (e, g) v.below; scheduled = rw (e, f) v.scheduled }

-- Other fields play no role.
pub with_fields :
    (ch : Channel) (state : ChannelState) (busy : Bool) (serial : ℕ) (backfilling : Bool)
    → IsSound ch
    → IsSound (record ch {
      state = state;
      attaching = busy;
      contiguous_serial = serial;
      backfilling = backfilling;
    })
with_fields ch state busy serial backfilling (v, w) =
    (same_cache ch _ refl refl v, same_buffer ch _ refl refl refl w)

pub guarded-IsSound :
    (b : Bool) (r q : Channel × List Effect)
    → IsSound r.0
    → IsSound q.0
    → IsSound (if b then r else q).0
guarded-IsSound true r q h k = h
guarded-IsSound false r q h k = k

same_state-IsSound :
    (info : Option TransitionInfo) (ch : Channel) → IsSound ch → IsSound (same_state info ch).0
unfolding same_state
same_state-IsSound none ch v = v
same_state-IsSound (some info) ch v = v

transition-IsSound :
    (next : ChannelState) (info : Option TransitionInfo) (ch : Channel)
    → IsSound ch
    → IsSound (transition next info ch).0
unfolding transition next_state
transition-IsSound next info ch v =
    guarded-IsSound (eq_state ch.state next) (same_state info ch) _ (same_state-IsSound info ch v)
      (with_fields ch next ch.attaching ch.contiguous_serial ch.backfilling v)

settled-IsSound :
    (busy : Bool) (ch : Channel) → IsSound ch → IsSound (record ch { attaching = busy })
settled-IsSound busy ch v = with_fields ch ch.state busy ch.contiguous_serial ch.backfilling v

pub attach-IsSound : (ch : Channel) → IsSound ch → IsSound (attach ch).0
unfolding attach begin_attach
attach-IsSound ch v = guarded-IsSound (eq_state ch.state attached) _ _ v (
    guarded-IsSound ch.attaching _ _ v
      (transition-IsSound attaching none _ (settled-IsSound true ch v)))

pub attach_answered-IsSound :
    (a : AttachAnswer) (ch : Channel) → IsSound ch → IsSound (attach_answered a ch).0
unfolding attach_answered
attach_answered-IsSound (acked resumed) ch v =
    guarded-IsSound (eq_state ch.state attached) _ _ (settled-IsSound false ch v)
      (transition-IsSound attached _ _ (settled-IsSound false ch v))
attach_answered-IsSound (refused e) ch v =
    guarded-IsSound (is_capability_error e) _ _
      (transition-IsSound failed _ _ (settled-IsSound false ch v))
      (transition-IsSound suspended _ _ (settled-IsSound false ch v))

-- The cache is none of the buffer's business.
guarded-IsValid :
    (b : Bool) (r q : Channel × List Effect)
    → IsValid r.0
    → IsValid q.0
    → IsValid (if b then r else q).0
guarded-IsValid true r q h k = h
guarded-IsValid false r q h k = k

send_pending-IsValid :
    (now : ℕ) (pending : List BufferedPublish) (ch : Channel)
    → IsValid ch
    → IsValid (send_pending now pending ch).0
unfolding send_pending
send_pending-IsValid now [] ch v = v
send_pending-IsValid now (p ∷ pending) ch v = same_cache ch _ refl refl v

flush_locked-IsValid : (now : ℕ) (ch : Channel) → IsValid ch → IsValid (flush_locked now ch).0
unfolding flush_locked cancel_timer
flush_locked-IsValid now ch v =
    send_pending-IsValid now _ _
      (guarded-IsValid ch.batch_timer _ _ (same_cache ch _ refl refl v) v)

pub flush-IsSound : (now : ℕ) (ch : Channel) → IsSound ch → IsSound (flush now ch).0
unfolding flush call
flush-IsSound now ch (v, w) = (flush_locked-IsValid now ch v, (call-Keeps (flush_call now) ch w).0)

schedule-IsValid : (now : ℕ) (ch : Channel) → IsValid ch → IsValid (schedule now ch).0
unfolding schedule
schedule-IsValid now ch v = guarded-IsValid ch.batch_timer _ _ v (same_cache ch _ refl refl v)

enqueue-IsValid :
    (now : ℕ) (p : BufferedPublish) (ch : Channel)
    → IsValid ch
    → IsValid (enqueue now p.member p.done ch).0
unfolding enqueue
enqueue-IsValid now p ch v =
    let buffered = same_cache ch (buffer_with p ch) refl refl v in
    guarded-IsValid (leb ch.batch_max_messages (length (ch.batch_buf ++ p ∷ []))) _ _
      (flush_locked-IsValid now (buffer_with p ch) buffered)
      (schedule-IsValid now (buffer_with p ch) buffered)

pub enqueue-IsSound :
    (now : ℕ) (p : BufferedPublish) (ch : Channel)
    → IsSound ch
    → IsSound (enqueue now p.member p.done ch).0
unfolding call
enqueue-IsSound now p ch (v, w) =
    (enqueue-IsValid now p ch v, (call-Keeps (enqueue_call now p) ch w).0)

pub detach-IsSound : (now : ℕ) (ch : Channel) → IsSound ch → IsSound (detach now ch).0
unfolding detach begin_detach
detach-IsSound now ch v =
    let flushed = flush-IsSound now ch v in
    guarded-IsSound (is_detached (flush now ch).0.state) _ _ flushed
      (transition-IsSound detaching none (flush now ch).0 flushed)

pub detach_answered-IsSound :
    (epoch : ℕ) (ch : Channel) → IsSound ch → IsSound (detach_answered epoch ch).0
unfolding detach_answered mark_detached
detach_answered-IsSound epoch ch v =
    guarded-IsSound (eq_state ch.state detaching) _ _ (transition-IsSound detached none ch v) v

rebase-IsSound : (resumed : Bool) (ch : Channel) → IsSound ch → IsSound (rebase resumed ch)
unfolding rebase
rebase-IsSound true ch v = v
rebase-IsSound false ch v = with_fields ch ch.state ch.attaching 0 ch.backfilling v

pub on_resumed-IsSound :
    (resumed : Bool) (ch : Channel) → IsSound ch → IsSound (on_resumed resumed ch).0
unfolding on_resumed
on_resumed-IsSound resumed ch v =
    guarded-IsSound (can_resume ch.state) _ _
      (transition-IsSound attached _ _ (rebase-IsSound resumed ch v)) (rebase-IsSound resumed ch v)

pub on_connection_state-IsSound :
    (conn : ConnectionState) (reason : Option Reason) (ch : Channel)
    → IsSound ch
    → IsSound (on_connection_state conn reason ch).0
unfolding on_connection_state
on_connection_state-IsSound conn_initialized reason ch v = v
on_connection_state-IsSound conn_connecting reason ch v = v
on_connection_state-IsSound conn_connected reason ch v =
    guarded-IsSound (eq_state ch.state suspended) _ _ (transition-IsSound attaching none ch v) v
on_connection_state-IsSound conn_disconnected reason ch v =
    guarded-IsSound (eq_state ch.state attached) _ _ (transition-IsSound suspended _ ch v) v
on_connection_state-IsSound conn_closing reason ch v = v
on_connection_state-IsSound conn_closed reason ch v =
    guarded-IsSound (is_live ch.state) _ _ (transition-IsSound detached none ch v) v
on_connection_state-IsSound conn_failed reason ch v =
    guarded-IsSound (is_live ch.state) _ _ (transition-IsSound failed _ ch v) v
