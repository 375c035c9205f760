-- ===== src/Channel/Deliver.antt =====
-- channel.go: inbound frames, delivered to the listeners of the channel.
pub mod Replay
pub mod Listeners
use realtime_go.Common.{Bool, true, false, Option, none, some, List, [], ◌∷◌, ◌++◌, if◌then◌else◌}
use realtime_go.Wire.{WireMember, BundledMessage, MsgFrame, FetchResponseFrame}
use realtime_go.Codec.Messages.{bundled_to_msg}
use realtime_go.Channel.{Channel, Cipher, Message, Effect, emit_message}
use realtime_go.Channel.Convert.{
  frame_to_message, member_messages, is_cipher_encoding, decrypt_message,
}
use realtime_go.Channel.Dedup.{is_duplicate}
use realtime_go.Channel.Cursor.{record_serial}
use realtime_go.Channel.Lifecycle.{on_resumed}

-- A message that cannot be decrypted is logged and dropped.
abbrev pub emit_decrypted : Option Message → List Effect
emit_decrypted none = []
emit_decrypted (some message) = emit_message message ∷ []

-- The end of `deliverSingle`, for a message that is no repeat.
unfoldable pub emit_readable : Option Cipher → Message → List Effect
emit_readable none message = emit_message message ∷ []
emit_readable (some cipher) message =
    if is_cipher_encoding message.encoding
    then emit_decrypted (decrypt_message cipher message)
    else emit_message message ∷ []

abbrev pub emit_fresh : Message → Bool × Channel → Channel × List Effect
emit_fresh message (true, ch) = (ch, [])
emit_fresh message (false, ch) = (ch, emit_readable ch.cipher message)

unfoldable pub deliver_single : Message → Channel → Channel × List Effect
deliver_single message ch = emit_fresh message (is_duplicate message ch)

-- `for index := range frame.members { ... }`
unfoldable pub deliver_all : List Message → Channel → Channel × List Effect
deliver_all [] ch = (ch, [])
deliver_all (m ∷ ms) ch =
    let (ch1, out1) = deliver_single m ch in
    let (ch2, out2) = deliver_all ms ch1 in (ch2, out1 ++ out2)

-- An ephemeral record never moves the cursor.
unfoldable pub record_frame : MsgFrame → Channel → Channel × List Effect
record_frame frame ch = if frame.ephemeral then (ch, []) else record_serial frame.seq ch

-- The messages of a record and then its serial.
unfoldable pub deliver_record : MsgFrame → List Message → Channel → Channel × List Effect
deliver_record frame messages ch =
    let (ch1, out1) = deliver_all messages ch in
    let (ch2, out2) = record_frame frame ch1 in (ch2, out1 ++ out2)

-- `deliverMessage` for a frame with no bundle, by its members.
unfoldable pub deliver_members : MsgFrame → List WireMember → Channel → Channel × List Effect
deliver_members frame [] ch = deliver_record frame (frame_to_message frame ∷ []) ch
deliver_members frame (m ∷ ms) ch = deliver_record frame (member_messages frame 0 (m ∷ ms)) ch

unfoldable pub deliver_frame : MsgFrame → Channel → Channel × List Effect
deliver_frame frame ch = deliver_members frame frame.members ch

-- A bundle's members, widened and delivered again; a member has no bundle of its own.
unfoldable pub deliver_bundle : MsgFrame → List BundledMessage → Channel → Channel × List Effect
deliver_bundle frame [] ch = (ch, [])
deliver_bundle frame (m ∷ ms) ch =
    let (ch1, out1) = deliver_frame (bundled_to_msg frame.channel m) ch in
    let (ch2, out2) = deliver_bundle frame ms ch1 in (ch2, out1 ++ out2)

-- `deliverMessage`, by the bundle of the frame.
unfoldable pub deliver_unwrapped : MsgFrame → List BundledMessage → Channel → Channel × List Effect
deliver_unwrapped frame [] ch = deliver_frame frame ch
deliver_unwrapped frame (m ∷ ms) ch = deliver_bundle frame (m ∷ ms) ch

unfoldable pub deliver_message : MsgFrame → Channel → Channel × List Effect
deliver_message frame ch = deliver_unwrapped frame frame.bundle ch

-- `for i := range response.messages { ... }`
unfoldable pub deliver_messages : List MsgFrame → Channel → Channel × List Effect
deliver_messages [] ch = (ch, [])
deliver_messages (f ∷ fs) ch =
    let (ch1, out1) = deliver_message f ch in
    let (ch2, out2) = deliver_messages fs ch1 in (ch2, out1 ++ out2)

-- What the answer of a fetch does; `none` is an error.
unfoldable pub apply_fetch : Option FetchResponseFrame → Channel → Channel × List Effect
apply_fetch none ch = (ch, [])
apply_fetch (some response) ch =
    if response.resumed then deliver_messages response.messages ch else on_resumed false ch

-- `backfill` from the answer on.
unfoldable pub backfill : Option FetchResponseFrame → Channel → Channel × List Effect
backfill answer ch =
    let (ch1, out) = apply_fetch answer ch in (record ch1 { backfilling = false }, out)
