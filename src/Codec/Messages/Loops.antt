-- ===== src/Codec/Messages/Loops.antt =====
-- The loops over several message members: a bundle, and the messages of a response.
use realtime_go.Common.{
  ◌+◌, ◌*◌, ◌/◌, ◌≤◌, ◌≡◌, refl, sym, ap, ◌∙◌, List, [], ◌∷◌, ◌++◌, map, append_assoc, append-nil,
  Bytes, length, length-append, All, arith,
}
use realtime_go.Wire.{BundledMessage, MsgFrame}
use realtime_go.Codec.Reads.{Reads, IsField, Reads-pure, Reads-bind, Reads-last}
use realtime_go.Codec.Messages.{
  no_frame, push_member, add_to_bundle, to_bundled, bundled_to_msg, read_bundle, read_messages,
  push_bundle, push_messages,
}
use realtime_go.Codec.Messages.Layout.{
  FitsMessage, on_wire_member, message_bytes, push_member-bytes, Reads-member, length-message_bytes,
}

-- The members one after the other, each under the same channel.
unfoldable pub messages_bytes : Bytes → List MsgFrame → Bytes
messages_bytes channel [] = []
messages_bytes channel (m ∷ ms) = message_bytes m channel ++ messages_bytes channel ms

pub push_messages-bytes :
    (out channel : Bytes) (ms : List MsgFrame)
    → push_messages out channel ms ≡ out ++ messages_bytes channel ms
unfolding push_messages messages_bytes
push_messages-bytes out channel [] = sym (append-nil out)
push_messages-bytes out channel (m ∷ ms) =
    push_messages-bytes (push_member out m channel) channel ms
    ∙ rw (push_member-bytes out m channel)
        (append_assoc out (message_bytes m channel) (messages_bytes channel ms))

pub push_bundle-messages :
    (out channel : Bytes) (ms : List BundledMessage)
    → push_bundle out channel ms ≡ push_messages out channel (map (bundled_to_msg channel) ms)
unfolding push_bundle push_messages
push_bundle-messages out channel [] = refl
push_bundle-messages out channel (m ∷ ms) =
    push_bundle-messages (push_member out (bundled_to_msg channel m) channel) channel ms

pub length-messages_bytes :
    (channel : Bytes) (ms : List MsgFrame) → 9 * length ms ≤ length (messages_bytes channel ms)
unfolding messages_bytes
length-messages_bytes channel [] = omega arith
length-messages_bytes channel (m ∷ ms) = omega (
  arith,
  length-append (message_bytes m channel) (messages_bytes channel ms),
  length-message_bytes m channel,
  length-messages_bytes channel ms,
)

-- The bound that both loops are under.
pub room_for_messages :
    (channel : Bytes) (ms : List MsgFrame) (rest : Bytes)
    → length ms ≤ length (messages_bytes channel ms ++ rest) / 9 + 1
room_for_messages channel ms rest =
    omega (arith, length-append (messages_bytes channel ms) rest, length-messages_bytes channel ms)

pub Reads-messages :
    (channel : Bytes) (ms : List MsgFrame)
    → IsField channel
    → All FitsMessage ms
    → Reads
        (read_messages (length ms))
        (messages_bytes channel ms)
        (map (on_wire_member channel) ms)
unfolding read_messages messages_bytes
Reads-messages channel [] hc h = Reads-pure []
Reads-messages channel (m ∷ ms) hc (h, hs) = Reads-bind _ _ (Reads-member m channel h hc) (
    Reads-last _ (λ (r : List MsgFrame). on_wire_member channel m ∷ r)
      (Reads-messages channel ms hc hs))

-- What the loop of `decodeMessage` leaves in its frame, by the same accumulation.
abbrev pub bundle_all : Bytes → MsgFrame → List MsgFrame → MsgFrame
bundle_all channel frame [] = frame
bundle_all channel frame (m ∷ ms) =
    bundle_all channel (add_to_bundle frame (on_wire_member channel m)) ms

-- A bundle member as the client receives it.
unfoldable pub on_wire_bundled : Bytes → MsgFrame → BundledMessage
on_wire_bundled channel m = to_bundled (on_wire_member channel m)

channel-on_wire_member :
    (channel : Bytes) (m : MsgFrame) → (on_wire_member channel m).channel ≡ channel
unfolding on_wire_member
channel-on_wire_member channel m = ground arith

add_to_bundle-on_wire :
    (channel : Bytes) (frame m : MsgFrame)
    → add_to_bundle frame (on_wire_member channel m)
      ≡ record frame { channel = channel; bundle = frame.bundle ++ on_wire_bundled channel m ∷ [] }
unfolding add_to_bundle on_wire_bundled
add_to_bundle-on_wire channel frame m = rw (channel-on_wire_member channel m)

bundle_all-map :
    (channel : Bytes) (frame : MsgFrame) (ms : List MsgFrame) (b : List BundledMessage)
    → bundle_all channel (record frame { channel = channel; bundle = b }) ms
      ≡ record frame { channel = channel; bundle = b ++ map (on_wire_bundled channel) ms }
bundle_all-map channel frame [] b = rw append-nil
bundle_all-map channel frame (m ∷ ms) b =
    ap (λ f. bundle_all channel f ms)
      (add_to_bundle-on_wire channel (record frame { channel = channel; bundle = b }) m)
    ∙ bundle_all-map channel frame ms (b ++ on_wire_bundled channel m ∷ [])
    ∙ ap (λ l. record frame { channel = channel; bundle = l })
        (append_assoc b (on_wire_bundled channel m ∷ []) (map (on_wire_bundled channel) ms))

-- From the empty frame the loop leaves the channel and the members in order.
pub bundle_all_cons :
    (channel : Bytes) (m : MsgFrame) (ms : List MsgFrame)
    → bundle_all channel no_frame (m ∷ ms)
      ≡ record no_frame { channel = channel; bundle = map (on_wire_bundled channel) (m ∷ ms) }
bundle_all_cons channel m ms =
    ap (λ f. bundle_all channel f ms) (add_to_bundle-on_wire channel no_frame m)
    ∙ bundle_all-map channel no_frame ms (on_wire_bundled channel m ∷ [])

pub Reads-bundle :
    (channel : Bytes) (frame : MsgFrame) (ms : List MsgFrame)
    → IsField channel
    → All FitsMessage ms
    → Reads
        (read_bundle (length ms) frame)
        (messages_bytes channel ms)
        (bundle_all channel frame ms)
unfolding read_bundle messages_bytes
Reads-bundle channel frame [] hc h = Reads-pure frame
Reads-bundle channel frame (m ∷ ms) hc (h, hs) =
    Reads-bind _ _ (Reads-member m channel h hc)
      (Reads-bundle channel (add_to_bundle frame (on_wire_member channel m)) ms hc hs)
