-- ===== src/Codec/Messages.antt =====
-- binary.go: the message members that deliveries, bundles and responses are made of.
pub mod Layout
pub mod Loops
use realtime_go.Common.{
  ℕ, zero, suc, ◌+◌, ◌/◌, Bool, true, false, List, [], ◌∷◌, ◌++◌, Bytes, length, ltb, if◌then◌else◌,
  bit_or,
}
use realtime_go.Wire.{WireMember, BundledMessage, MsgFrame}
use realtime_go.Codec.Opcodes.{flag_ephemeral, flag_batch}
use realtime_go.Codec.Writer.{append_uvarint, append_bytes, append_string, has_flag}
use realtime_go.Codec.Reader.{Read, pure, ◌>>=◌, byte, uvarint, str, json_field, bounded}
use realtime_go.Codec.Members.{append_members, read_wire_members}

-- `var frame msgFrame`
abbrev pub no_frame : MsgFrame
no_frame = record {
  channel = [];
  name = [];
  payload = [];
  timestamp = 0;
  message_id = [];
  client_id = [];
  encoding = [];
  seq = 0;
  ephemeral = false;
  members = [];
  bundle = [];
}

unfoldable pub push_batch_fields : Bytes → MsgFrame → Bytes → Bytes
push_batch_fields out frame channel =
    let out1 = append_uvarint out frame.timestamp in
    let out2 = append_string out1 channel in
    let out3 = append_string out2 frame.message_id in
    let out4 = append_string out3 frame.client_id in
    let out5 = append_uvarint out4 frame.seq in
    let out6 = append_uvarint out5 (length frame.members) in append_members out6 frame.members

-- The flags byte of a frame: bit 0 for ephemeral, bit 1 if the frame is a batch.
abbrev pub member_flags : Bool → Bool → ℕ
member_flags ephemeral is_batch =
    bit_or (if ephemeral then flag_ephemeral else 0) (if is_batch then flag_batch else 0)

unfoldable pub push_member : Bytes → MsgFrame → Bytes → Bytes
push_member out frame channel =
    let is_batch = ltb 0 (length frame.members) in
    let out0 = out ++ member_flags frame.ephemeral is_batch ∷ [] in
    let out1 = append_uvarint out0 frame.timestamp in
    let out2 = append_string out1 channel in
    let out3 = append_string out2 frame.name in
    let out4 = append_bytes out3 frame.payload in
    let out5 = append_string out4 frame.message_id in
    let out6 = append_string out5 frame.client_id in
    let out7 = append_string out6 frame.encoding in
    if is_batch then push_batch_fields out0 frame channel else append_uvarint out7 frame.seq

unfoldable pub to_bundled : MsgFrame → BundledMessage
to_bundled member = record {
  name = member.name;
  payload = member.payload;
  timestamp = member.timestamp;
  message_id = member.message_id;
  client_id = member.client_id;
  encoding = member.encoding;
  seq = member.seq;
  ephemeral = member.ephemeral;
  members = member.members;
}

unfoldable pub bundled_to_msg : Bytes → BundledMessage → MsgFrame
bundled_to_msg channel member = record {
  channel = channel;
  name = member.name;
  payload = member.payload;
  timestamp = member.timestamp;
  message_id = member.message_id;
  client_id = member.client_id;
  encoding = member.encoding;
  seq = member.seq;
  ephemeral = member.ephemeral;
  members = member.members;
  bundle = [];
}

-- The loops over the members of a bundle and of a response: `for _, member := range frame.bundle { ... }`
unfoldable pub push_bundle : Bytes → Bytes → List BundledMessage → Bytes
push_bundle out channel [] = out
push_bundle out channel (m ∷ ms) =
    push_bundle (push_member out (bundled_to_msg channel m) channel) channel ms

-- `for i := range messages { ... }`
unfoldable pub push_messages : Bytes → Bytes → List MsgFrame → Bytes
push_messages out channel [] = out
push_messages out channel (m ∷ ms) = push_messages (push_member out m channel) channel ms

-- The bound on the member count, and the members.
unfoldable pub read_batch_members : MsgFrame → ℕ → Read MsgFrame
read_batch_members frame count =
    bounded count (λ r. length r.buf / 3) frame
      do members ← read_wire_members count; pure (record frame { members = members })

unfoldable pub read_batch_fields : ℕ → Read MsgFrame
read_batch_fields flags = do
  timestamp ← uvarint
  channel ← str
  message_id ← str
  client_id ← str
  seq ← uvarint
  count ← uvarint
  let frame : MsgFrame = record no_frame {
    timestamp = timestamp;
    channel = channel;
    message_id = message_id;
    client_id = client_id;
    seq = seq;
    ephemeral = has_flag flags flag_ephemeral;
  }
  read_batch_members frame count

-- The layout of a member that is no batch, after its flags byte.
unfoldable pub read_single_fields : ℕ → Read MsgFrame
read_single_fields flags = do
  timestamp ← uvarint
  channel ← str
  name ← str
  payload ← json_field
  message_id ← str
  client_id ← str
  encoding ← str
  seq ← uvarint
  pure (record {
    channel = channel;
    name = name;
    payload = payload;
    timestamp = timestamp;
    message_id = message_id;
    client_id = client_id;
    encoding = encoding;
    seq = seq;
    ephemeral = has_flag flags flag_ephemeral;
    members = [];
    bundle = [];
  })

unfoldable pub read_member : Read MsgFrame
read_member = do
  flags ← byte
  if has_flag flags flag_batch then read_batch_fields flags else read_single_fields flags

-- The body of the loop of `decodeMessage`: a member sets the channel and joins the bundle.
unfoldable pub add_to_bundle : MsgFrame → MsgFrame → MsgFrame
unfolding to_bundled
add_to_bundle frame member = record frame {
  channel = member.channel;
  bundle = frame.bundle ++ to_bundled member ∷ [];
}

unfoldable pub read_bundle : ℕ → MsgFrame → Read MsgFrame
read_bundle zero frame = pure frame
read_bundle (suc count) frame = do
  member ← read_member
  read_bundle count (add_to_bundle frame member)

-- The loop of `decodeResponse`.
unfoldable pub read_messages : ℕ → Read (List MsgFrame)
read_messages zero = pure []
read_messages (suc count) = do
  member ← read_member
  messages ← read_messages count
  pure (member ∷ messages)
