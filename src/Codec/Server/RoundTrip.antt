-- ===== src/Codec/Server/RoundTrip.antt =====
-- Server frames, encoded and decoded.
use realtime_go.Common.{
  ℕ, ◌≤◌, ◌≡◌, refl, ap, Bool, true, false, Option, none, some, List, [], ◌∷◌, ◌++◌, map,
  append-nil, Bytes, length, length-map, All, arith, ltb, ◌==◌, if◌then◌else◌, Bool-cases, inl, inr,
}
use realtime_go.Common.Int.{u64_of_int-lt, int_of_u64-u64_of_int}
use realtime_go.Wire.{
  BundledMessage, MsgFrame, ServerFrame, connected, ack, msg, presence_event, error, pong,
  history_response, fetch_response,
}
use realtime_go.Codec.Opcodes.{flag_response_set}
use realtime_go.Codec.Uvarint.{IsU64}
use realtime_go.Codec.Writer.{has_flag}
use realtime_go.Codec.Reads.{
  Reads, IsField, Reads-eq, Reads-last, Reads-byte, Reads-bounded, Reads-uvarint_then, reads_rules,
}
use realtime_go.Codec.Client.RoundTrip.{flag-ephemeral, presence_action_from-byte}
use realtime_go.Codec.Messages.{no_frame, bundled_to_msg}
use realtime_go.Codec.Messages.Layout.{
  FitsMessage, on_wire_member, message_bytes, Reads-batch_fields, Reads-member,
}
use realtime_go.Codec.Messages.Loops.{
  messages_bytes, room_for_messages, Reads-messages, bundle_all, bundle_all_cons, Reads-bundle,
}
use realtime_go.Codec.Server.{
  ack_flags, ack_resumed, read_bounded_bundle, decode_message_of, decode_message, Response,
  read_response_messages, decode_response, decode_server_frame_body, decode_server_frame,
  server_outcome, encode_server_frame,
}
use realtime_go.Codec.Server.Layout.{
  FitsServer, FitsResponse, unbundle, on_wire_message, on_wire, bundle_bytes, response_bytes,
  msg_layout, server_layout, encode_server_frame-layout,
}

module _ (f : MsgFrame) (hc : IsField f.channel) where
  Reads-one :
      (g : MsgFrame)
      → FitsMessage g
      → Reads (decode_message_of 1) (message_bytes g f.channel) (some (on_wire_member f.channel g))
  unfolding decode_message_of
  Reads-one g h = Reads-last _ _ (Reads-member g f.channel h hc)

  Reads-many :
      (count : ℕ) (m : MsgFrame) (ms : List MsgFrame)
      → count ≡ length (m ∷ ms)
      → 2 ≤ count
      → All FitsMessage (m ∷ ms)
      → Reads
          (decode_message_of count)
          (messages_bytes f.channel (m ∷ ms))
          (some (bundle_all f.channel no_frame (m ∷ ms)))
  unfolding decode_message_of read_bounded_bundle
  Reads-many count m ms e two h =
      let more : (count == 1) ≡ false = ground arith in
      rw (more, e)
        (Reads-bounded _ _ _ (room_for_messages f.channel (m ∷ ms))
          (Reads-last _ _ (Reads-bundle f.channel no_frame (m ∷ ms) hc h)))

  Reads-unbundle :
      (bs : List BundledMessage)
      → FitsMessage f
      → IsU64 (length bs)
      → All FitsMessage (map (bundled_to_msg f.channel) bs)
      → Reads decode_message (bundle_bytes bs f) (some (unbundle bs f))
  unfolding decode_message bundle_bytes unbundle messages_bytes
  Reads-unbundle [] h n hs = Reads-uvarint_then _ 1 (omega arith) (Reads-one f h)
  Reads-unbundle (b ∷ []) h n hs =
      Reads-uvarint_then _ 1 (omega arith)
        (rw append-nil (Reads-one (bundled_to_msg f.channel b) hs.0))
  Reads-unbundle (b ∷ c ∷ bs) h n hs = Reads-uvarint_then _ _ n (
      Reads-eq
        (ap some (
          bundle_all_cons f.channel (bundled_to_msg f.channel b)
            (map (bundled_to_msg f.channel) (c ∷ bs))))
        (Reads-many (length (b ∷ c ∷ bs)) (bundled_to_msg f.channel b)
          (map (bundled_to_msg f.channel) (c ∷ bs))
          (omega (arith, length-map (bundled_to_msg f.channel) bs)) (omega arith) hs))

flag-response : (b : Bool) → has_flag (if b then flag_response_set else 0) flag_response_set ≡ b
flag-response true = refl
flag-response false = refl

-- The id, channel, flag and messages of a response.
Reads-response :
    (r : Response)
    → FitsResponse r.id r.channel r.messages
    → Reads decode_response
        ((if r.flag then flag_response_set else 0) ∷ response_bytes r.id r.channel r.messages)
        (record r { messages = map (on_wire_member r.channel) r.messages })
unfolding decode_response read_response_messages
Reads-response r h = search (reads_rules, at_messages) depth 12
  where
    header : Bool → Response
    header b = record { id = r.id; channel = r.channel; messages = []; flag = b }

    at_messages :
        Reads
          (read_response_messages
            (header (has_flag (if r.flag then flag_response_set else 0) flag_response_set))
            (length r.messages))
          (messages_bytes r.channel r.messages)
          (record r { messages = map (on_wire_member r.channel) r.messages })
    at_messages = Reads-bounded _ _ _ (room_for_messages r.channel r.messages) (
        Reads-eq
          (ap (λ b. record r { messages = map (on_wire_member r.channel) r.messages; flag = b })
            (flag-response r.flag))
          (Reads-last _ _ (Reads-messages r.channel r.messages h.1 h.3)))

ack_resumed-ack_flags : (o : Option Bool) → ack_resumed (ack_flags o) ≡ o
ack_resumed-ack_flags none = refl
ack_resumed-ack_flags (some true) = refl
ack_resumed-ack_flags (some false) = refl

Reads-msg :
    (f : MsgFrame)
    → FitsServer (msg f)
    → Reads
        (decode_server_frame_body (msg_layout f).0)
        (msg_layout f).1
        (some (msg (on_wire_message f)))
unfolding decode_server_frame_body msg_layout on_wire_message
Reads-msg f h = elim (Bool-cases (ltb 0 (length f.members))) [
  | inl batch ↦ rw batch (
      Reads-last _ _ (
        Reads-byte _ _ (
          Reads-last _ msg
            (Reads-batch_fields _ f f.channel h.1 h.0 (flag-ephemeral f.ephemeral)))))
  | inr other ↦ rw other (Reads-last _ _ (Reads-unbundle f h.0 f.bundle h.1 h.2 h.3))
]

pub Reads-body :
    (f : ServerFrame)
    → FitsServer f
    → Reads (decode_server_frame_body (server_layout f).0) (server_layout f).1 (some (on_wire f))
unfolding decode_server_frame_body server_layout on_wire
Reads-body pong h = search reads_rules
Reads-body (connected f) h = Reads-last _ _ (search reads_rules depth 12)
Reads-body (ack f) h =
    Reads-last _ _ (search (reads_rules, ack_resumed-ack_flags f.resumed) depth 12)
Reads-body (msg f) h = Reads-msg f h
Reads-body (presence_event f) h =
    Reads-last _ _ (search (reads_rules, presence_action_from-byte f.action h.0) depth 12)
Reads-body (error f) h =
    Reads-last _ _
      (search (reads_rules, u64_of_int-lt f.code h.1, int_of_u64-u64_of_int f.code h.1) depth 12)
Reads-body (history_response f) h = Reads-last _ _ (
    Reads-last _ _ (
      Reads-response
        (record { id = f.id; channel = f.channel; messages = f.messages; flag = f.more }) h))
Reads-body (fetch_response f) h = Reads-last _ _ (
    Reads-last _ _ (
      Reads-response
        (record { id = f.id; channel = f.channel; messages = f.messages; flag = f.resumed }) h))

-- The record of a server frame that fits, with any bytes after it, decodes to what the wire keeps of
-- the frame.
pub decode_server_frame-encode :
    (f : ServerFrame) (extra : Bytes)
    → FitsServer f
    → decode_server_frame (encode_server_frame f ++ extra) ≡ some (on_wire f)
unfolding decode_server_frame
decode_server_frame-encode f extra h =
    rw (encode_server_frame-layout f) (ap server_outcome ((Reads-body f h).runs extra))
