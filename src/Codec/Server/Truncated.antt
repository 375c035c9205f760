-- ===== src/Codec/Server/Truncated.antt =====
-- Server records that are cut off.
use realtime_go.Common.{ℕ, zero, suc, ◌≡◌, refl, sym, ◌∙◌, none, [], ◌∷◌, ◌++◌, Bytes}
use realtime_go.Wire.{MsgFrame, ServerFrame}
use realtime_go.Codec.Stable.{
  Stable, Stable-pure, Stable-bind, Stable-bounded, Stable-truncated, stable_rules,
}
use realtime_go.Codec.Members.Truncated.{Stable-wire_members, third_grows, ninth_grows}
use realtime_go.Codec.Messages.{
  read_batch_members, read_batch_fields, read_single_fields, read_member, add_to_bundle,
  read_bundle, read_messages,
}
use realtime_go.Codec.Server.{
  read_bounded_bundle, decode_message_of, decode_message, Response, read_response_messages,
  decode_response, decode_server_frame_body, decode_server_frame, encode_server_frame,
}
use realtime_go.Codec.Server.Layout.{FitsServer, server_layout, encode_server_frame-layout}
use realtime_go.Codec.Server.RoundTrip.{Reads-body}

Stable-batch_members : (frame : MsgFrame) (count : ℕ) → Stable (read_batch_members frame count)
unfolding read_batch_members
Stable-batch_members frame count =
    Stable-bounded count _ _ _ third_grows (search (stable_rules, Stable-wire_members))

Stable-batch_fields : (flags : ℕ) → Stable (read_batch_fields flags)
unfolding read_batch_fields
Stable-batch_fields flags = search (stable_rules, Stable-batch_members) depth 20

Stable-single_fields : (flags : ℕ) → Stable (read_single_fields flags)
unfolding read_single_fields
Stable-single_fields flags = search stable_rules depth 20

Stable-member : Stable read_member
unfolding read_member
Stable-member = search (stable_rules, Stable-batch_fields, Stable-single_fields)

Stable-bundle : (count : ℕ) (frame : MsgFrame) → Stable (read_bundle count frame)
unfolding read_bundle
Stable-bundle zero frame = Stable-pure frame
Stable-bundle (suc count) frame =
    Stable-bind _ _ Stable-member (λ m. Stable-bundle count (add_to_bundle frame m))

Stable-messages : (count : ℕ) → Stable (read_messages count)
unfolding read_messages
Stable-messages zero = Stable-pure []
Stable-messages (suc count) =
    Stable-bind _ _ Stable-member
      (λ m. Stable-bind _ _ (Stable-messages count) (λ ms. Stable-pure (m ∷ ms)))

Stable-bounded_bundle : (count : ℕ) → Stable (read_bounded_bundle count)
unfolding read_bounded_bundle
Stable-bounded_bundle count =
    Stable-bounded count _ _ _ ninth_grows (search (stable_rules, Stable-bundle))

Stable-message_of : (count : ℕ) → Stable (decode_message_of count)
unfolding decode_message_of
Stable-message_of count = search (stable_rules, Stable-member, Stable-bounded_bundle)

Stable-message : Stable decode_message
unfolding decode_message
Stable-message = search (stable_rules, Stable-message_of)

Stable-response_messages :
    (response : Response) (count : ℕ) → Stable (read_response_messages response count)
unfolding read_response_messages
Stable-response_messages response count =
    Stable-bounded count _ _ _ ninth_grows (search (stable_rules, Stable-messages))

Stable-response : Stable decode_response
unfolding decode_response
Stable-response = search (stable_rules, Stable-response_messages) depth 12

pub Stable-body : (op : ℕ) → Stable (decode_server_frame_body op)
unfolding decode_server_frame_body
Stable-body op =
    search (stable_rules, Stable-message, Stable-batch_fields, Stable-response) depth 40

-- A proper prefix of the record of a server frame that fits decodes to no frame.
pub decode_server_frame_truncated :
    (f : ServerFrame) (front : Bytes) (x : ℕ) (back : Bytes)
    → FitsServer f
    → encode_server_frame f ≡ front ++ x ∷ back
    → decode_server_frame front ≡ none
unfolding decode_server_frame
decode_server_frame_truncated f [] x back h e = refl
decode_server_frame_truncated f (op ∷ front) x back h e =
    let whole : (server_layout f).0 ∷ (server_layout f).1 ≡ op ∷ (front ++ x ∷ back) =
      sym (encode_server_frame-layout f) ∙ e in
    let same_op : (server_layout f).0 ≡ op = cc whole in
    let same_rest : (server_layout f).1 ≡ front ++ x ∷ back = cc whole in
    rw (← same_op)
      (rw (Stable-truncated front x back (Stable-body _) (rw same_rest at (Reads-body f h))))
