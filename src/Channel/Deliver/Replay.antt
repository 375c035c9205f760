-- ===== src/Channel/Deliver/Replay.antt =====
-- channel.go: the cursor over delivered frames and a gap-fill fetch.
use realtime_go.Common.{
  ℕ, suc, ◌+◌, ◌^◌, ◌<◌, ◌≡◌, refl, ◌∙◌, ap, Bool, true, false, some, List, [], ◌∷◌, inl, inr,
  Bytes, ◌++◌, length, ltb, if◌then◌else◌, Bool-cases,
}
use realtime_go.Wire.{WireMember, BundledMessage, MsgFrame, FetchResponseFrame}
use realtime_go.Channel.{Channel, Message, dedup_cache_max}
use realtime_go.Channel.Dedup.{
  dedup_key, has_key, evict, record_key, is_duplicate_key, is_duplicate,
}
use realtime_go.Channel.Cursor.Contiguous.{
  next_cursor, next_cursors, record_serial-cursor, serials_after, next_cursors-serials_after,
}
use realtime_go.Channel.Deliver.{
  emit_fresh, deliver_single, deliver_all, record_frame, deliver_record, deliver_frame,
  deliver_members, deliver_unwrapped, deliver_message, deliver_messages, apply_fetch, backfill,
}

evict-cursor :
    (ch : Channel) (order : List Bytes) → (evict ch order).contiguous_serial ≡ ch.contiguous_serial
unfolding evict
evict-cursor ch [] = refl
evict-cursor ch (o ∷ order) = refl

record_key-cursor :
    (key : Bytes) (ch : Channel) → (record_key key ch).contiguous_serial ≡ ch.contiguous_serial
unfolding record_key
record_key-cursor key ch =
    elim (Bool-cases (ltb dedup_cache_max (length (ch.seen_order ++ key ∷ [])))) [
      | inl e ↦ rw e (evict-cursor _ (ch.seen_order ++ key ∷ []))
      | inr e ↦ rw e refl
    ]

is_duplicate-cursor :
    (m : Message) (ch : Channel) → (is_duplicate m ch).1.contiguous_serial ≡ ch.contiguous_serial
unfolding is_duplicate is_duplicate_key
is_duplicate-cursor m ch = elim (Bool-cases (has_key (dedup_key m) ch.seen)) [
  | inl e ↦ rw e refl
  | inr e ↦ rw e (record_key-cursor (dedup_key m) ch)
]

emit_fresh-cursor :
    (m : Message) (r : Bool × Channel)
    → (emit_fresh m r).0.contiguous_serial ≡ r.1.contiguous_serial
emit_fresh-cursor m (true, ch) = refl
emit_fresh-cursor m (false, ch) = refl

deliver_single-cursor :
    (m : Message) (ch : Channel) → (deliver_single m ch).0.contiguous_serial ≡ ch.contiguous_serial
unfolding deliver_single
deliver_single-cursor m ch = emit_fresh-cursor m (is_duplicate m ch) ∙ is_duplicate-cursor m ch

deliver_all-cursor :
    (ms : List Message) (ch : Channel)
    → (deliver_all ms ch).0.contiguous_serial ≡ ch.contiguous_serial
unfolding deliver_all
deliver_all-cursor [] ch = refl
deliver_all-cursor (m ∷ ms) ch =
    deliver_all-cursor ms (deliver_single m ch).0 ∙ deliver_single-cursor m ch

-- What a frame with no bundle does to the cursor.
unfoldable pub frame_cursor : MsgFrame → ℕ → ℕ
frame_cursor f c = if f.ephemeral then c else next_cursor f.seq c

record_frame-cursor :
    (f : MsgFrame) (ch : Channel)
    → (record_frame f ch).0.contiguous_serial ≡ frame_cursor f ch.contiguous_serial
unfolding record_frame frame_cursor
record_frame-cursor f ch = elim (Bool-cases f.ephemeral) [
  | inl e ↦ rw e refl
  | inr e ↦ rw e (record_serial-cursor f.seq ch)
]

deliver_record-cursor :
    (f : MsgFrame) (ms : List Message) (ch : Channel)
    → (deliver_record f ms ch).0.contiguous_serial ≡ frame_cursor f ch.contiguous_serial
unfolding deliver_record
deliver_record-cursor f ms ch =
    record_frame-cursor f (deliver_all ms ch).0 ∙ ap (frame_cursor f) (deliver_all-cursor ms ch)

deliver_members-cursor :
    (f : MsgFrame) (ms : List WireMember) (ch : Channel)
    → (deliver_members f ms ch).0.contiguous_serial ≡ frame_cursor f ch.contiguous_serial
unfolding deliver_members
deliver_members-cursor f [] ch = deliver_record-cursor f _ ch
deliver_members-cursor f (m ∷ ms) ch = deliver_record-cursor f _ ch

-- A stored record, as a fetch returns it, with the serial `seq`.
abbrev pub IsStored : ℕ → MsgFrame → Type 0
IsStored seq f = (f.bundle ≡ []) × (f.ephemeral ≡ false) × (f.seq ≡ seq)

-- Stored records with the serials after `c`, in order.
abbrev pub AreStored : ℕ → List MsgFrame → Type 0
AreStored c [] = Unit {0}
AreStored c (f ∷ fs) = IsStored (suc c) f × AreStored (suc c) fs

frame_cursor-stored :
    (seq : ℕ) (f : MsgFrame) (c : ℕ) → IsStored seq f → frame_cursor f c ≡ next_cursor seq c
unfolding frame_cursor
frame_cursor-stored seq f c (b, e, s) = rw (e, s) refl

deliver_unwrapped-cursor :
    (f : MsgFrame) (bundle : List BundledMessage) (ch : Channel)
    → bundle ≡ []
    → (deliver_unwrapped f bundle ch).0.contiguous_serial ≡ frame_cursor f ch.contiguous_serial
unfolding deliver_unwrapped deliver_frame
deliver_unwrapped-cursor f [] ch e = deliver_members-cursor f f.members ch
deliver_unwrapped-cursor f (b ∷ bs) ch e = cc

deliver_messages-cursor :
    (c : ℕ) (fs : List MsgFrame) (ch : Channel)
    → AreStored c fs
    → (deliver_messages fs ch).0.contiguous_serial
      ≡ next_cursors (serials_after c (length fs)) ch.contiguous_serial
unfolding deliver_messages deliver_message next_cursors
deliver_messages-cursor c [] ch h = refl
deliver_messages-cursor c (f ∷ fs) ch (h, hs) =
    deliver_messages-cursor (suc c) fs (deliver_message f ch).0 hs
    ∙ ap (next_cursors (serials_after (suc c) (length fs)))
        (deliver_unwrapped-cursor f f.bundle ch h.0 ∙ frame_cursor-stored (suc c) f _ h)

-- A fetch from the cursor that is answered with the stored records right after it, in order, moves
-- the cursor past all of them, and the channel is ready for another fetch.
pub backfill_heals :
    (response : FetchResponseFrame) (ch : Channel)
    → response.resumed ≡ true
    → AreStored ch.contiguous_serial response.messages
    → ch.contiguous_serial + length response.messages < 2 ^ 64
    → ((backfill (some response) ch).0.contiguous_serial
        ≡ ch.contiguous_serial + length response.messages)
      × ((backfill (some response) ch).0.backfilling ≡ false)
unfolding backfill apply_fetch
backfill_heals response ch r h l = rw r (
  deliver_messages-cursor ch.contiguous_serial response.messages ch h
      ∙ next_cursors-serials_after ch.contiguous_serial (length response.messages) l,
  refl,
)
