-- ===== src/Codec/Client.antt =====
-- binary.go: the frames that the client sends, encoded, and decoded as an edge does.
pub mod RoundTrip
pub mod Truncated
use realtime_go.Common.{
  ℕ, ◌/◌, false, Option, none, some, [], ◌∷◌, Bytes, length, ◌==◌, if◌then◌else◌,
}
use realtime_go.Wire.{
  PublishFrame, ClientFrame, auth, subscribe, unsubscribe, publish, presence, presence_subscribe,
  presence_unsubscribe, history, fetch, ping,
}
use realtime_go.Codec.Opcodes.{
  op_auth, op_sub, op_unsub, op_pub, op_pres, op_pres_sub, op_pres_unsub, op_hist, op_fetch,
  op_ping, flag_ephemeral, auth_protocol_version,
}
use realtime_go.Codec.Writer.{
  append_uvarint, append_bytes, append_string, presence_action_byte, presence_action_from, has_flag,
}
use realtime_go.Codec.Reader.{
  truncated, unknown_opcode, Result, ok, err, Read, reader, pure, ◌>>=◌, ◌>>◌, BinReader, byte,
  uvarint, str, json_field, bounded,
}
use realtime_go.Codec.Members.{append_members, read_wire_members}

unfoldable pub encode_chan_frame : ℕ → ℕ → Bytes → Bytes
encode_chan_frame op id channel = append_string (append_uvarint (op ∷ []) id) channel

unfoldable pub encode_binary_publish : PublishFrame → Bytes
encode_binary_publish f =
    let flags : ℕ = if f.ephemeral then flag_ephemeral else 0 in
    let out1 = append_uvarint (op_pub ∷ flags ∷ []) f.id in
    let out2 = append_string out1 f.channel in
    let out3 = append_string out2 f.name in
    let out4 = append_bytes out3 f.payload in
    let out5 = append_string out4 f.encoding in
    let out6 = append_string out5 f.message_id in
    let out7 = append_uvarint out6 0 in
    let out8 = append_uvarint out7 (length f.members) in append_members out8 f.members

unfoldable pub encode_client_frame : ClientFrame → Bytes
unfolding encode_chan_frame
encode_client_frame (auth f) =
    let out1 = append_string (op_auth ∷ auth_protocol_version ∷ []) f.token in
    let out2 = append_string out1 f.key in
    let out3 = append_string out2 f.client_id in append_string out3 f.resume_connection_id
encode_client_frame (subscribe f) =
    let out1 = append_uvarint (op_sub ∷ []) f.id in
    let out2 = append_uvarint out1 f.last_serial in append_string out2 f.channel
encode_client_frame (unsubscribe f) = encode_chan_frame op_unsub f.id f.channel
encode_client_frame (publish f) = encode_binary_publish f
encode_client_frame (presence f) =
    let out1 = append_uvarint (op_pres ∷ presence_action_byte f.action ∷ []) f.id in
    let out2 = append_string out1 f.channel in
    let out3 = append_bytes out2 f.payload in append_string out3 f.encoding
encode_client_frame (presence_subscribe f) = encode_chan_frame op_pres_sub f.id f.channel
encode_client_frame (presence_unsubscribe f) = encode_chan_frame op_pres_unsub f.id f.channel
encode_client_frame (history f) =
    let out1 = append_uvarint (op_hist ∷ []) f.id in
    let out2 = append_uvarint out1 f.limit in
    let out3 = append_string out2 f.channel in append_uvarint out3 f.before
encode_client_frame (fetch f) =
    let out1 = append_uvarint (op_fetch ∷ []) f.id in
    let out2 = append_uvarint out1 f.from_serial in append_string out2 f.channel
encode_client_frame ping = op_ping ∷ []

-- The bound on the member count, the members, and the flag.
unfoldable pub read_publish_members : ℕ → PublishFrame → ℕ → Read PublishFrame
read_publish_members flags frame count =
    bounded count (λ r. length r.buf / 3) frame
      do
        members ← read_wire_members count
        pure (record frame { members = members; ephemeral = has_flag flags flag_ephemeral })

unfoldable pub decode_client_publish : Read PublishFrame
decode_client_publish = do
  flags ← byte
  id ← uvarint
  channel ← str
  name ← str
  payload ← json_field
  encoding ← str
  message_id ← str
  uvarint
  count ← uvarint
  let frame : PublishFrame = record {
    channel = channel;
    name = name;
    payload = payload;
    members = [];
    ephemeral = false;
    message_id = message_id;
    encoding = encoding;
    id = id;
  }
  read_publish_members flags frame count

read_auth : Read ClientFrame
read_auth = do
  byte
  token ← str
  key ← str
  client_id ← str
  resume ← str
  pure (
      auth
        (record { token = token; key = key; client_id = client_id; resume_connection_id = resume }))

read_subscribe : Read ClientFrame
read_subscribe = do
  id ← uvarint
  last_serial ← uvarint
  channel ← str
  pure (subscribe (record { channel = channel; id = id; last_serial = last_serial }))

-- `id` then `channel`, the layout of three of the frames.
read_chan_frame : (ℕ → Bytes → ClientFrame) → Read ClientFrame
read_chan_frame frame = do id ← uvarint; channel ← str; pure (frame id channel)

read_presence : Read ClientFrame
read_presence = do
  action ← byte
  id ← uvarint
  channel ← str
  payload ← json_field
  encoding ← str
  pure (
      presence (record {
        channel = channel;
        action = presence_action_from action;
        payload = payload;
        encoding = encoding;
        id = id;
      }))

read_history : Read ClientFrame
read_history = do
  id ← uvarint
  limit ← uvarint
  channel ← str
  before ← uvarint
  pure (history (record { channel = channel; limit = limit; before = before; id = id }))

read_fetch : Read ClientFrame
read_fetch = do
  id ← uvarint
  from_serial ← uvarint
  channel ← str
  pure (fetch (record { channel = channel; from_serial = from_serial; id = id }))

read_publish : Read ClientFrame
read_publish = do frame ← decode_client_publish; pure (publish frame)

abbrev found : Read ClientFrame → Read (Option ClientFrame)
found m = do frame ← m; pure (some frame)

unfoldable pub decode_client_record_body : ℕ → Read (Option ClientFrame)
unfolding read_auth read_subscribe read_chan_frame read_presence read_history read_fetch
    read_publish
decode_client_record_body op =
    if op == op_auth
    then found read_auth
    else if op == op_sub
    then found read_subscribe
    else if op == op_unsub
    then found (read_chan_frame (λ i c. unsubscribe (record { channel = c; id = i })))
    else if op == op_pub
    then found read_publish
    else if op == op_pres
    then found read_presence
    else if op == op_pres_sub
    then found (read_chan_frame (λ i c. presence_subscribe (record { channel = c; id = i })))
    else if op == op_pres_unsub
    then found (read_chan_frame (λ i c. presence_unsubscribe (record { channel = c; id = i })))
    else if op == op_hist
    then found read_history
    else if op == op_fetch
    then found read_fetch
    else if op == op_ping
    then pure (some ping)
    else pure none

-- The answer of `decodeClientRecord` from the frame that was read and the reader that is left.
abbrev client_outcome : ℕ → Option ClientFrame × BinReader → Result ClientFrame
client_outcome op (none, r) = err (unknown_opcode op)
client_outcome op (some frame, r) = elim r.err [ some e ↦ err e | none ↦ ok frame ]

unfoldable pub decode_client_record : Bytes → Result ClientFrame
decode_client_record [] = err truncated
decode_client_record (op ∷ rest) = client_outcome op (decode_client_record_body op (reader rest))
