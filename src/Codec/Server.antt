-- ===== src/Codec/Server.antt =====
-- binary.go: the frames that the server sends, decoded, and encoded as an edge does.
pub mod Layout
pub mod RoundTrip
pub mod Truncated
use realtime_go.Common.{
  ℕ, ◌+◌, ◌/◌, Bool, true, false, Option, none, some, List, [], ◌∷◌, Bytes, length, ltb, ◌==◌,
  if◌then◌else◌, bit_or,
}
use realtime_go.Common.Int.{int_of_u64, u64_of_int}
use mathlib.Core.Option
use realtime_go.Wire.{
  BundledMessage, MsgFrame, ServerFrame, connected, ack, msg, presence_event, error, pong,
  history_response, fetch_response,
}
use realtime_go.Codec.Opcodes.{
  op_connected, op_ack, op_msg, op_pres_evt, op_err, op_pong, op_hist_res, op_fetch_res, op_batch,
  flag_ephemeral, flag_response_set,
}
use realtime_go.Codec.Writer.{
  append_uvarint, append_bytes, append_string, presence_action_byte, presence_action_from, has_flag,
}
use realtime_go.Codec.Reader.{
  BinReader, Read, reader, pure, ◌>>=◌, byte, uvarint, str, json_field, bounded,
}
use realtime_go.Codec.Messages.{
  push_bundle, push_messages, no_frame, push_batch_fields, push_member, read_batch_fields,
  read_member, bundled_to_msg, read_bundle, read_messages,
}

unfoldable pub encode_message : MsgFrame → Bytes
encode_message f =
    let flags : ℕ = if f.ephemeral then flag_ephemeral else 0 in
    if ltb 0 (length f.members)
    then push_batch_fields (op_batch ∷ flags ∷ []) f f.channel
    else if ltb 0 (length f.bundle)
    then push_bundle (append_uvarint (op_msg ∷ []) (length f.bundle)) f.channel f.bundle
    else push_member (append_uvarint (op_msg ∷ []) 1) f f.channel

unfoldable pub encode_response : ℕ → ℕ → Bytes → List MsgFrame → Bool → Bytes
encode_response op id channel messages flag =
    let flags : ℕ = if flag then flag_response_set else 0 in
    let out1 = append_uvarint (op ∷ flags ∷ []) id in
    let out2 = append_string out1 channel in
    let out3 = append_uvarint out2 (length messages) in push_messages out3 channel messages

-- Bit 0: there is a resume outcome; bit 1: it is true.
abbrev ack_flags : Option Bool → ℕ
ack_flags none = 0
ack_flags (some resumed) = if resumed then bit_or 1 2 else 1

unfoldable pub encode_server_frame : ServerFrame → Bytes
unfolding encode_message encode_response
encode_server_frame (connected f) =
    let out1 = append_string (op_connected ∷ []) f.connection_id in
    let out2 = append_uvarint out1 f.keep_alive_ms in append_string out2 f.client_id
encode_server_frame (ack f) =
    append_uvarint (append_uvarint (op_ack ∷ ack_flags f.resumed ∷ []) f.id) f.seq
encode_server_frame (msg f) = encode_message f
encode_server_frame (presence_event f) =
    let out1 = append_uvarint (op_pres_evt ∷ presence_action_byte f.action ∷ []) f.timestamp in
    let out2 = append_string out1 f.channel in
    let out3 = append_string out2 f.client_id in
    let out4 = append_string out3 f.connection_id in
    let out5 = append_bytes out4 f.payload in append_string out5 f.encoding
encode_server_frame (error f) =
    append_string (append_uvarint (append_uvarint (op_err ∷ []) f.id) (u64_of_int f.code)) f.message
encode_server_frame pong = op_pong ∷ []
encode_server_frame (history_response f) =
    encode_response op_hist_res f.id f.channel f.messages f.more
encode_server_frame (fetch_response f) =
    encode_response op_fetch_res f.id f.channel f.messages f.resumed

-- The bundle of `decodeMessage`. `none` is the nil pointer that stands beside a truncation error.
unfoldable pub read_bounded_bundle : ℕ → Read (Option MsgFrame)
read_bounded_bundle count =
    bounded count (λ r. length r.buf / 9 + 1) none
      do frame ← read_bundle count no_frame; pure (some frame)

-- `decodeMessage` once the count is read.
unfoldable pub decode_message_of : ℕ → Read (Option MsgFrame)
decode_message_of count =
    if count == 1 then (do frame ← read_member; pure (some frame)) else read_bounded_bundle count

unfoldable pub decode_message : Read (Option MsgFrame)
decode_message = do count ← uvarint; decode_message_of count

-- The id, channel, messages and flag of a history or fetch response.
pub record Response : Type 0 where
  pub id : ℕ
  pub channel : Bytes
  pub messages : List MsgFrame
  pub flag : Bool

unfoldable pub read_response_messages : Response → ℕ → Read Response
read_response_messages response count =
    bounded count (λ r. length r.buf / 9 + 1) response
      do messages ← read_messages count; pure (record response { messages = messages })

unfoldable pub decode_response : Read Response
decode_response = do
  flags ← byte
  id ← uvarint
  channel ← str
  count ← uvarint
  read_response_messages
      (record {
        id = id;
        channel = channel;
        messages = [];
        flag = has_flag flags flag_response_set;
      })
      count

read_connected : Read ServerFrame
read_connected = do
  connection_id ← str
  keep_alive_ms ← uvarint
  client_id ← str
  pure (
      connected (record {
        connection_id = connection_id;
        keep_alive_ms = keep_alive_ms;
        client_id = client_id;
      }))

abbrev ack_resumed : ℕ → Option Bool
ack_resumed flags = if has_flag flags 1 then some (has_flag flags 2) else none

read_ack : Read ServerFrame
read_ack = do
  flags ← byte
  id ← uvarint
  seq ← uvarint
  pure (ack (record { id = id; resumed = ack_resumed flags; seq = seq }))

read_batch : Read ServerFrame
read_batch = do flags ← byte; frame ← read_batch_fields flags; pure (msg frame)

read_presence_event : Read ServerFrame
read_presence_event = do
  action ← byte
  timestamp ← uvarint
  channel ← str
  client_id ← str
  connection_id ← str
  payload ← json_field
  encoding ← str
  pure (
      presence_event (record {
        channel = channel;
        action = presence_action_from action;
        client_id = client_id;
        connection_id = connection_id;
        payload = payload;
        encoding = encoding;
        timestamp = timestamp;
      }))

read_error : Read ServerFrame
read_error = do
  id ← uvarint
  code ← uvarint
  message ← str
  pure (error (record { id = id; code = int_of_u64 code; message = message }))

read_history_response : Read ServerFrame
read_history_response = do
  r ← decode_response
  pure (
      history_response
        (record { id = r.id; channel = r.channel; messages = r.messages; more = r.flag }))

read_fetch_response : Read ServerFrame
read_fetch_response = do
  r ← decode_response
  pure (
      fetch_response
        (record { id = r.id; channel = r.channel; messages = r.messages; resumed = r.flag }))

abbrev found : Read ServerFrame → Read (Option ServerFrame)
found m = do frame ← m; pure (some frame)

unfoldable pub decode_server_frame_body : ℕ → Read (Option ServerFrame)
unfolding read_connected read_ack read_batch read_presence_event read_error read_history_response
    read_fetch_response
decode_server_frame_body op =
    if op == op_connected
    then found read_connected
    else if op == op_ack
    then found read_ack
    else if op == op_msg
    then (do frame ← decode_message; pure (Option.map msg frame))
    else if op == op_batch
    then found read_batch
    else if op == op_pres_evt
    then found read_presence_event
    else if op == op_err
    then found read_error
    else if op == op_pong
    then pure (some pong)
    else if op == op_hist_res
    then found read_history_response
    else if op == op_fetch_res
    then found read_fetch_response
    else pure none

-- `if reader.err != nil { return nil }`
abbrev server_outcome : Option ServerFrame × BinReader → Option ServerFrame
server_outcome (frame, r) = elim r.err [ some e ↦ none | none ↦ frame ]

unfoldable pub decode_server_frame : Bytes → Option ServerFrame
decode_server_frame [] = none
decode_server_frame (op ∷ rest) = server_outcome (decode_server_frame_body op (reader rest))
