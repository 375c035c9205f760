-- ===== src/Channel/Steps/Invariant.antt =====
-- channel.go: the cache and the buffer of a channel through delivery and through runs.
use realtime_go.Common.{
  arith, ℕ, refl, inl, inr, Bool, true, false, ◌||◌, not, Option, none, some, List, [], ◌∷◌, ◌++◌,
  Bytes, length, ltb, leb, ◌==◌, ◌+◌, ◌%◌, ◌^◌, Bool-cases,
}
use realtime_go.Wire.{WireMember, BundledMessage, MsgFrame, FetchResponseFrame}
use realtime_go.Codec.Messages.{bundled_to_msg}
use realtime_go.Channel.{
  Channel, Cipher, BatchOptions, Message, Effect, dedup_cache_max, new_channel,
}
use realtime_go.Channel.Dedup.{
  dedup_key, has_key, evict, record_key, is_duplicate_key, is_duplicate,
}
use realtime_go.Channel.Dedup.Window.{is_duplicate-IsValid}
use realtime_go.Channel.Cursor.{start_gap_fill, is_receiving, record_serial}
use realtime_go.Channel.Batch.Full.{IsBuffered, new_channel-IsBuffered}
use realtime_go.Channel.Deliver.{
  emit_fresh, deliver_single, deliver_all, record_frame, deliver_record, deliver_members,
  deliver_frame, deliver_bundle, deliver_unwrapped, deliver_message, deliver_messages, apply_fetch,
  backfill,
}
use realtime_go.Channel.Steps.{
  Step, attach_step, attach_answered_step, detach_step, detach_answered_step, resumed_step,
  connection_step, message_step, fetch_step, publish_step, flush_step, Steps, no_step, more_steps,
}
use realtime_go.Channel.Steps.Sound.{
  IsSound, same_buffer, with_fields, guarded-IsSound, attach-IsSound, attach_answered-IsSound,
  flush-IsSound, enqueue-IsSound, detach-IsSound, detach_answered-IsSound, on_resumed-IsSound,
  on_connection_state-IsSound,
}

evict-IsBuffered : (ch : Channel) (order : List Bytes) → IsBuffered ch → IsBuffered (evict ch order)
unfolding evict
evict-IsBuffered ch [] v = v
evict-IsBuffered ch (o ∷ order) v = same_buffer ch _ refl refl refl v

record_key-IsBuffered :
    (key : Bytes) (ch : Channel) → IsBuffered ch → IsBuffered (record_key key ch)
unfolding record_key
record_key-IsBuffered key ch v =
    let added : IsBuffered
        (record ch { seen = key ∷ ch.seen; seen_order = ch.seen_order ++ key ∷ [] }) =
      same_buffer ch _ refl refl refl v in
    elim (Bool-cases (ltb dedup_cache_max (length (ch.seen_order ++ key ∷ [])))) [
      | inl e ↦ rw e (evict-IsBuffered _ (ch.seen_order ++ key ∷ []) added)
      | inr e ↦ rw e added
    ]

is_duplicate-IsBuffered :
    (m : Message) (ch : Channel) → IsBuffered ch → IsBuffered (is_duplicate m ch).1
unfolding is_duplicate is_duplicate_key
is_duplicate-IsBuffered m ch v = elim (Bool-cases (has_key (dedup_key m) ch.seen)) [
  | inl e ↦ rw e v
  | inr e ↦ rw e (record_key-IsBuffered (dedup_key m) ch v)
]

emit_fresh-IsSound : (m : Message) (r : Bool × Channel) → IsSound r.1 → IsSound (emit_fresh m r).0
emit_fresh-IsSound m (true, ch) v = v
emit_fresh-IsSound m (false, ch) v = v

deliver_single-IsSound : (m : Message) (ch : Channel) → IsSound ch → IsSound (deliver_single m ch).0
unfolding deliver_single
deliver_single-IsSound m ch (v, w) =
    emit_fresh-IsSound m (is_duplicate m ch)
      (is_duplicate-IsValid m ch v, is_duplicate-IsBuffered m ch w)

deliver_all-IsSound :
    (ms : List Message) (ch : Channel) → IsSound ch → IsSound (deliver_all ms ch).0
unfolding deliver_all
deliver_all-IsSound [] ch v = v
deliver_all-IsSound (m ∷ ms) ch v = deliver_all-IsSound ms _ (deliver_single-IsSound m ch v)

record_serial-IsSound : (seq : ℕ) (ch : Channel) → IsSound ch → IsSound (record_serial seq ch).0
unfolding record_serial start_gap_fill
record_serial-IsSound seq ch v = guarded-IsSound (seq == 0) _ _ v (
    guarded-IsSound (ch.contiguous_serial == 0 || seq == (ch.contiguous_serial + 1) % 2 ^ 64) _ _
      (with_fields ch ch.state ch.attaching seq ch.backfilling v)
      (guarded-IsSound (leb seq ch.contiguous_serial) _ _ v (
        guarded-IsSound (ch.backfilling || not (is_receiving ch.state) || ch.contiguous_serial == 0)
          _ _ v (with_fields ch ch.state ch.attaching ch.contiguous_serial true v))))

deliver_record-IsSound :
    (f : MsgFrame) (ms : List Message) (ch : Channel)
    → IsSound ch
    → IsSound (deliver_record f ms ch).0
unfolding deliver_record record_frame
deliver_record-IsSound f ms ch v =
    let delivered = deliver_all-IsSound ms ch v in
    guarded-IsSound f.ephemeral _ _ delivered (record_serial-IsSound f.seq _ delivered)

deliver_members-IsSound :
    (f : MsgFrame) (ms : List WireMember) (ch : Channel)
    → IsSound ch
    → IsSound (deliver_members f ms ch).0
unfolding deliver_members
deliver_members-IsSound f [] ch v = deliver_record-IsSound f _ ch v
deliver_members-IsSound f (m ∷ ms) ch v = deliver_record-IsSound f _ ch v

deliver_frame-IsSound : (f : MsgFrame) (ch : Channel) → IsSound ch → IsSound (deliver_frame f ch).0
unfolding deliver_frame
deliver_frame-IsSound f ch v = deliver_members-IsSound f f.members ch v

deliver_bundle-IsSound :
    (f : MsgFrame) (ms : List BundledMessage) (ch : Channel)
    → IsSound ch
    → IsSound (deliver_bundle f ms ch).0
unfolding deliver_bundle
deliver_bundle-IsSound f [] ch v = v
deliver_bundle-IsSound f (m ∷ ms) ch v =
    deliver_bundle-IsSound f ms _ (deliver_frame-IsSound (bundled_to_msg f.channel m) ch v)

deliver_unwrapped-IsSound :
    (f : MsgFrame) (ms : List BundledMessage) (ch : Channel)
    → IsSound ch
    → IsSound (deliver_unwrapped f ms ch).0
unfolding deliver_unwrapped
deliver_unwrapped-IsSound f [] ch v = deliver_frame-IsSound f ch v
deliver_unwrapped-IsSound f (m ∷ ms) ch v = deliver_bundle-IsSound f (m ∷ ms) ch v

deliver_message-IsSound :
    (f : MsgFrame) (ch : Channel) → IsSound ch → IsSound (deliver_message f ch).0
unfolding deliver_message
deliver_message-IsSound f ch v = deliver_unwrapped-IsSound f f.bundle ch v

deliver_messages-IsSound :
    (fs : List MsgFrame) (ch : Channel) → IsSound ch → IsSound (deliver_messages fs ch).0
unfolding deliver_messages
deliver_messages-IsSound [] ch v = v
deliver_messages-IsSound (f ∷ fs) ch v =
    deliver_messages-IsSound fs _ (deliver_message-IsSound f ch v)

apply_fetch-IsSound :
    (answer : Option FetchResponseFrame) (ch : Channel)
    → IsSound ch
    → IsSound (apply_fetch answer ch).0
unfolding apply_fetch
apply_fetch-IsSound none ch v = v
apply_fetch-IsSound (some r) ch v =
    guarded-IsSound r.resumed _ _ (deliver_messages-IsSound r.messages ch v)
      (on_resumed-IsSound false ch v)

backfill-IsSound :
    (answer : Option FetchResponseFrame) (ch : Channel)
    → IsSound ch
    → IsSound (backfill answer ch).0
unfolding backfill
backfill-IsSound answer ch v =
    let (ch1, out) = apply_fetch answer ch in
    with_fields ch1 ch1.state ch1.attaching ch1.contiguous_serial false
      (apply_fetch-IsSound answer ch v)

Step-IsSound : (ch : Channel) (r : Channel × List Effect) → Step ch r → IsSound ch → IsSound r.0
Step-IsSound ch _ (attach_step _) v = attach-IsSound ch v
Step-IsSound ch _ (attach_answered_step _ a h) v = attach_answered-IsSound a ch v
Step-IsSound ch _ (detach_step _ now) v = detach-IsSound now ch v
Step-IsSound ch _ (detach_answered_step _ epoch) v = detach_answered-IsSound epoch ch v
Step-IsSound ch _ (resumed_step _ resumed) v = on_resumed-IsSound resumed ch v
Step-IsSound ch _ (connection_step _ conn reason) v = on_connection_state-IsSound conn reason ch v
Step-IsSound ch _ (message_step _ frame) v = deliver_message-IsSound frame ch v
Step-IsSound ch _ (fetch_step _ answer h) v = backfill-IsSound answer ch v
Step-IsSound ch _ (publish_step _ now member done) v =
    enqueue-IsSound now (record { member = member; done = done }) ch v
Step-IsSound ch _ (flush_step _ now) v = flush-IsSound now ch v

Steps-keep : (ch : Channel) (q : Channel × List Effect) → Steps ch q → IsSound ch → IsSound q.0
Steps-keep ch _ (no_step _) v = v
Steps-keep ch _ (more_steps _ r q s ss) v = Steps-keep r.0 q ss (Step-IsSound ch r s v)

pub new_channel-IsSound :
    (name : Bytes) (cipher : Option Cipher) (batch : Option BatchOptions)
    → IsSound (new_channel name cipher batch)
unfolding new_channel has_key
new_channel-IsSound name cipher batch = (
  record { bounded = omega arith; distinct = tt; same = λ x. refl },
  new_channel-IsBuffered name cipher batch,
)

-- In every run of a new channel, whatever its name, cipher and batch options: the dedup cache holds
-- the keys of its insertion order, each once and at most 8192, and the publish buffer is below its
-- limit and has a flush scheduled while it holds anything.
pub Steps-IsSound :
    (name : Bytes) (cipher : Option Cipher) (batch : Option BatchOptions)
    (q : Channel × List Effect)
    → Steps (new_channel name cipher batch) q
    → IsSound q.0
Steps-IsSound name cipher batch q s = Steps-keep _ q s (new_channel-IsSound name cipher batch)
