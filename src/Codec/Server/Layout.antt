-- ===== src/Codec/Server/Layout.antt =====
-- The bytes of a server frame, and what the wire keeps of it.
use realtime_go.Common.{
  ℕ, suc, ◌≡◌, refl, ◌∙◌, Bool, List, [], ◌∷◌, ◌++◌, map, Bytes, length, All, arith, ltb,
  if◌then◌else◌, Bool-cases, inl, inr, lt→ltb,
}
use realtime_go.Common.Int.{IsI64, u64_of_int}
use realtime_go.Wire.{
  BundledMessage, MsgFrame, ServerFrame, connected, ack, msg, presence_event, error, pong,
  history_response, fetch_response,
}
use realtime_go.Codec.Opcodes.{flag_ephemeral, flag_response_set}
use realtime_go.Codec.Uvarint.{IsU64, put_uvarint}
use realtime_go.Codec.Writer.{append_uvarint, presence_action_byte}
use realtime_go.Codec.Reads.{IsField, field}
use realtime_go.Codec.Members.Layout.{layout_rules}
use realtime_go.Codec.Client.RoundTrip.{IsNamed}
use realtime_go.Codec.Messages.{no_frame, push_member, bundled_to_msg, push_bundle}
use realtime_go.Codec.Messages.Layout.{
  FitsMessage, batch_form, on_wire_member, batch_bytes, message_bytes, push_batch_fields-bytes,
  push_member-bytes,
}
use realtime_go.Codec.Messages.Loops.{
  messages_bytes, push_messages-bytes, push_bundle-messages, on_wire_bundled,
}
use realtime_go.Codec.Server.{encode_message, encode_response, ack_flags, encode_server_frame}

abbrev pub FitsMsgFrame : MsgFrame → Type 0
FitsMsgFrame f =
    IsField f.channel
    × FitsMessage f
    × IsU64 (length f.bundle)
    × All FitsMessage (map (bundled_to_msg f.channel) f.bundle)

abbrev pub FitsResponse : ℕ → Bytes → List MsgFrame → Type 0
FitsResponse id channel messages =
    IsU64 id × IsField channel × IsU64 (length messages) × All FitsMessage messages

-- Numbers are uint64s, lengths too, the error code is an int64, and the presence action is named.
abbrev pub FitsServer : ServerFrame → Type 0
FitsServer (connected f) = IsField f.connection_id × IsU64 f.keep_alive_ms × IsField f.client_id
FitsServer (ack f) = IsU64 f.id × IsU64 f.seq
FitsServer (msg f) = FitsMsgFrame f
FitsServer (presence_event f) =
    IsNamed f.action
    × IsU64 f.timestamp
    × IsField f.channel
    × IsField f.client_id
    × IsField f.connection_id
    × IsField f.payload
    × IsField f.encoding
FitsServer (error f) = IsU64 f.id × IsI64 f.code × IsField f.message
FitsServer pong = Unit {0}
FitsServer (history_response f) = FitsResponse f.id f.channel f.messages
FitsServer (fetch_response f) = FitsResponse f.id f.channel f.messages

-- A message frame that is no batch: a bundle of one is a single message, a longer one keeps only
-- the channel and the members.
unfoldable pub unbundle : List BundledMessage → MsgFrame → MsgFrame
unbundle [] f = on_wire_member f.channel f
unbundle (b ∷ []) f = on_wire_member f.channel (bundled_to_msg f.channel b)
unbundle (b ∷ c ∷ bs) f = record no_frame {
  channel = f.channel;
  bundle = map (on_wire_bundled f.channel) (map (bundled_to_msg f.channel) (b ∷ c ∷ bs));
}

unfoldable pub on_wire_message : MsgFrame → MsgFrame
unfolding unbundle
on_wire_message f = if ltb 0 (length f.members) then batch_form f.channel f else unbundle f.bundle f

-- What the wire keeps of a frame: members of a response travel under its channel.
unfoldable pub on_wire : ServerFrame → ServerFrame
on_wire (msg f) = msg (on_wire_message f)
on_wire (history_response f) =
    history_response (record f { messages = map (on_wire_member f.channel) f.messages })
on_wire (fetch_response f) =
    fetch_response (record f { messages = map (on_wire_member f.channel) f.messages })
on_wire f = f

unfoldable pub bundle_bytes : List BundledMessage → MsgFrame → Bytes
bundle_bytes [] f = put_uvarint 1 ++ message_bytes f f.channel
bundle_bytes (b ∷ bs) f =
    put_uvarint (length (b ∷ bs))
    ++ messages_bytes f.channel (map (bundled_to_msg f.channel) (b ∷ bs))

abbrev pub response_bytes : ℕ → Bytes → List MsgFrame → Bytes
response_bytes id channel messages =
    put_uvarint id
    ++ (field channel ++ (put_uvarint (length messages) ++ messages_bytes channel messages))

unfoldable pub msg_layout : MsgFrame → ℕ × Bytes
unfolding bundle_bytes
msg_layout f =
    if ltb 0 (length f.members)
    then (19, (if f.ephemeral then flag_ephemeral else 0) ∷ batch_bytes f f.channel)
    else (13, bundle_bytes f.bundle f)

-- The opcode and what follows it, field by field.
unfoldable pub server_layout : ServerFrame → ℕ × Bytes
server_layout (connected f) =
    (11, field f.connection_id ++ (put_uvarint f.keep_alive_ms ++ (field f.client_id ++ [])))
server_layout (ack f) = (12, ack_flags f.resumed ∷ (put_uvarint f.id ++ (put_uvarint f.seq ++ [])))
server_layout (msg f) = msg_layout f
server_layout (presence_event f) = (
  14,
  presence_action_byte f.action
      ∷ (put_uvarint f.timestamp
          ++ (field f.channel
              ++ (field f.client_id
                  ++ (field f.connection_id ++ (field f.payload ++ (field f.encoding ++ [])))))),
)
server_layout (error f) =
    (15, put_uvarint f.id ++ (put_uvarint (u64_of_int f.code) ++ (field f.message ++ [])))
server_layout pong = (16, [])
server_layout (history_response f) =
    (17, (if f.more then flag_response_set else 0) ∷ response_bytes f.id f.channel f.messages)
server_layout (fetch_response f) =
    (18, (if f.resumed then flag_response_set else 0) ∷ response_bytes f.id f.channel f.messages)

encode_response-layout :
    (op id : ℕ) (channel : Bytes) (messages : List MsgFrame) (flag : Bool)
    → encode_response op id channel messages flag
      ≡ op ∷ (if flag then flag_response_set else 0) ∷ response_bytes id channel messages
unfolding encode_response
encode_response-layout op id channel messages flag =
    push_messages-bytes _ channel messages ∙ simp layout_rules

encode_bundle-layout :
    (bs : List BundledMessage) (f : MsgFrame)
    → (if ltb 0 (length bs)
        then push_bundle (append_uvarint (13 ∷ []) (length bs)) f.channel bs
        else push_member (append_uvarint (13 ∷ []) 1) f f.channel)
      ≡ 13 ∷ bundle_bytes bs f
unfolding bundle_bytes
encode_bundle-layout [] f =
    push_member-bytes (append_uvarint (13 ∷ []) 1) f f.channel ∙ simp layout_rules
encode_bundle-layout (b ∷ bs) f = rw (lt→ltb 0 (suc (length bs)) (omega arith)) (
    push_bundle-messages _ f.channel (b ∷ bs)
    ∙ push_messages-bytes _ f.channel (map (bundled_to_msg f.channel) (b ∷ bs))
    ∙ simp layout_rules)

encode_message-layout : (f : MsgFrame) → encode_message f ≡ (msg_layout f).0 ∷ (msg_layout f).1
unfolding encode_message msg_layout
encode_message-layout f = elim (Bool-cases (ltb 0 (length f.members))) [
  | inl batch ↦ rw batch (push_batch_fields-bytes _ f f.channel)
  | inr other ↦ rw other (encode_bundle-layout f.bundle f)
]

pub encode_server_frame-layout :
    (f : ServerFrame) → encode_server_frame f ≡ (server_layout f).0 ∷ (server_layout f).1
unfolding encode_server_frame server_layout
encode_server_frame-layout pong = refl
encode_server_frame-layout (msg f) = encode_message-layout f
encode_server_frame-layout (history_response f) = encode_response-layout _ _ _ f.messages f.more
encode_server_frame-layout (fetch_response f) = encode_response-layout _ _ _ f.messages f.resumed
encode_server_frame-layout f = simp layout_rules
