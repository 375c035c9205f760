-- ===== src/Channel/Deliver/Listeners.antt =====
-- channel.go: what state listeners hear of delivery.
use realtime_go.Common.{
  ℕ, ◌≡◌, refl, subst, inl, inr, Bool, true, false, ◌||◌, not, Option, none, some, List, [], ◌∷◌,
  ◌++◌, Bytes, length, ltb, leb, ◌==◌, ◌+◌, ◌%◌, ◌^◌, if◌then◌else◌, Bool-cases,
}
use realtime_go.Wire.{WireMember, BundledMessage, MsgFrame, FetchResponseFrame}
use realtime_go.Codec.Messages.{bundled_to_msg}
use realtime_go.Channel.{
  Channel, ChannelState, Cipher, Message, Effect, emit_message, start_backfill, dedup_cache_max,
}
use realtime_go.Channel.Convert.{is_cipher_encoding, decrypt_message}
use realtime_go.Channel.Dedup.{
  dedup_key, has_key, evict, record_key, is_duplicate_key, is_duplicate,
}
use realtime_go.Channel.Cursor.{start_gap_fill, is_receiving, record_serial}
use realtime_go.Channel.Lifecycle.Listeners.{
  Heard, heard_nothing, heard_other, Heard-append, IsHeard, guarded-IsHeard, on_resumed-IsHeard,
}
use realtime_go.Channel.Deliver.{
  emit_decrypted, emit_readable, emit_fresh, deliver_single, deliver_all, record_frame,
  deliver_record, deliver_members, deliver_frame, deliver_bundle, deliver_unwrapped,
  deliver_message, deliver_messages, apply_fetch, backfill,
}

evict-state : (ch : Channel) (order : List Bytes) → (evict ch order).state ≡ ch.state
unfolding evict
evict-state ch [] = refl
evict-state ch (o ∷ order) = refl

record_key-state : (key : Bytes) (ch : Channel) → (record_key key ch).state ≡ ch.state
unfolding record_key
record_key-state key ch =
    elim (Bool-cases (ltb dedup_cache_max (length (ch.seen_order ++ key ∷ [])))) [
      | inl e ↦ rw e (evict-state _ (ch.seen_order ++ key ∷ []))
      | inr e ↦ rw e refl
    ]

is_duplicate-state : (m : Message) (ch : Channel) → (is_duplicate m ch).1.state ≡ ch.state
unfolding is_duplicate is_duplicate_key
is_duplicate-state m ch = elim (Bool-cases (has_key (dedup_key m) ch.seen)) [
  | inl e ↦ rw e refl
  | inr e ↦ rw e (record_key-state (dedup_key m) ch)
]

emit_decrypted-Heard : (s : ChannelState) (m : Option Message) → Heard s (emit_decrypted m) s
emit_decrypted-Heard s none = heard_nothing
emit_decrypted-Heard s (some m) = heard_other (emit_message m) tt heard_nothing

if-Heard :
    (b : Bool) (s : ChannelState) (xs ys : List Effect)
    → Heard s xs s
    → Heard s ys s
    → Heard s (if b then xs else ys) s
if-Heard true s xs ys h k = h
if-Heard false s xs ys h k = k

emit_readable-Heard :
    (s : ChannelState) (c : Option Cipher) (m : Message) → Heard s (emit_readable c m) s
unfolding emit_readable
emit_readable-Heard s none m = heard_other (emit_message m) tt heard_nothing
emit_readable-Heard s (some c) m =
    if-Heard (is_cipher_encoding m.encoding) s _ _ (emit_decrypted-Heard s (decrypt_message c m))
      (heard_other (emit_message m) tt heard_nothing)

emit_fresh-IsHeard : (m : Message) (r : Bool × Channel) → IsHeard r.1 (emit_fresh m r)
emit_fresh-IsHeard m (true, ch) = heard_nothing
emit_fresh-IsHeard m (false, ch) = emit_readable-Heard ch.state ch.cipher m

deliver_single-IsHeard : (m : Message) (ch : Channel) → IsHeard ch (deliver_single m ch)
unfolding deliver_single
deliver_single-IsHeard m ch =
    subst (λ s. Heard s (deliver_single m ch).1 (deliver_single m ch).0.state)
      (is_duplicate-state m ch) (emit_fresh-IsHeard m (is_duplicate m ch))

deliver_all-IsHeard : (ms : List Message) (ch : Channel) → IsHeard ch (deliver_all ms ch)
unfolding deliver_all
deliver_all-IsHeard [] ch = heard_nothing
deliver_all-IsHeard (m ∷ ms) ch =
    Heard-append (deliver_single-IsHeard m ch) (deliver_all-IsHeard ms (deliver_single m ch).0)

record_serial-IsHeard : (seq : ℕ) (ch : Channel) → IsHeard ch (record_serial seq ch)
unfolding record_serial start_gap_fill
record_serial-IsHeard seq ch = guarded-IsHeard (seq == 0) ch _ _ heard_nothing (
    guarded-IsHeard (ch.contiguous_serial == 0 || seq == (ch.contiguous_serial + 1) % 2 ^ 64) ch _ _
      heard_nothing
      (guarded-IsHeard (leb seq ch.contiguous_serial) ch _ _ heard_nothing (
        guarded-IsHeard (ch.backfilling || not (is_receiving ch.state) || ch.contiguous_serial == 0)
          ch _ _ heard_nothing (heard_other (start_backfill _) tt heard_nothing))))

record_frame-IsHeard : (f : MsgFrame) (ch : Channel) → IsHeard ch (record_frame f ch)
unfolding record_frame
record_frame-IsHeard f ch =
    guarded-IsHeard f.ephemeral ch _ _ heard_nothing (record_serial-IsHeard f.seq ch)

deliver_record-IsHeard :
    (f : MsgFrame) (ms : List Message) (ch : Channel) → IsHeard ch (deliver_record f ms ch)
unfolding deliver_record
deliver_record-IsHeard f ms ch =
    Heard-append (deliver_all-IsHeard ms ch) (record_frame-IsHeard f (deliver_all ms ch).0)

deliver_members-IsHeard :
    (f : MsgFrame) (ms : List WireMember) (ch : Channel) → IsHeard ch (deliver_members f ms ch)
unfolding deliver_members
deliver_members-IsHeard f [] ch = deliver_record-IsHeard f _ ch
deliver_members-IsHeard f (m ∷ ms) ch = deliver_record-IsHeard f _ ch

deliver_frame-IsHeard : (f : MsgFrame) (ch : Channel) → IsHeard ch (deliver_frame f ch)
unfolding deliver_frame
deliver_frame-IsHeard f ch = deliver_members-IsHeard f f.members ch

deliver_bundle-IsHeard :
    (f : MsgFrame) (ms : List BundledMessage) (ch : Channel) → IsHeard ch (deliver_bundle f ms ch)
unfolding deliver_bundle
deliver_bundle-IsHeard f [] ch = heard_nothing
deliver_bundle-IsHeard f (m ∷ ms) ch =
    Heard-append (deliver_frame-IsHeard (bundled_to_msg f.channel m) ch)
      (deliver_bundle-IsHeard f ms (deliver_frame (bundled_to_msg f.channel m) ch).0)

deliver_unwrapped-IsHeard :
    (f : MsgFrame) (ms : List BundledMessage) (ch : Channel)
    → IsHeard ch (deliver_unwrapped f ms ch)
unfolding deliver_unwrapped
deliver_unwrapped-IsHeard f [] ch = deliver_frame-IsHeard f ch
deliver_unwrapped-IsHeard f (m ∷ ms) ch = deliver_bundle-IsHeard f (m ∷ ms) ch

pub deliver_message-IsHeard : (f : MsgFrame) (ch : Channel) → IsHeard ch (deliver_message f ch)
unfolding deliver_message
deliver_message-IsHeard f ch = deliver_unwrapped-IsHeard f f.bundle ch

deliver_messages-IsHeard : (fs : List MsgFrame) (ch : Channel) → IsHeard ch (deliver_messages fs ch)
unfolding deliver_messages
deliver_messages-IsHeard [] ch = heard_nothing
deliver_messages-IsHeard (f ∷ fs) ch =
    Heard-append (deliver_message-IsHeard f ch)
      (deliver_messages-IsHeard fs (deliver_message f ch).0)

apply_fetch-IsHeard :
    (answer : Option FetchResponseFrame) (ch : Channel) → IsHeard ch (apply_fetch answer ch)
unfolding apply_fetch
apply_fetch-IsHeard none ch = heard_nothing
apply_fetch-IsHeard (some r) ch =
    guarded-IsHeard r.resumed ch _ _ (deliver_messages-IsHeard r.messages ch)
      (on_resumed-IsHeard false ch)

pub backfill-IsHeard :
    (answer : Option FetchResponseFrame) (ch : Channel) → IsHeard ch (backfill answer ch)
unfolding backfill
backfill-IsHeard answer ch = apply_fetch-IsHeard answer ch
