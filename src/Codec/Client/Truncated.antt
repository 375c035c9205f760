-- ===== src/Codec/Client/Truncated.antt =====
-- Client records that are cut off.
use realtime_go.Common.{ℕ, ◌≡◌, refl, sym, ◌∙◌, Option, none, some, [], ◌∷◌, ◌++◌, Bytes}
use realtime_go.Wire.{PublishFrame, ClientFrame, ping}
use realtime_go.Codec.Reader.{truncated, err, BinReader, reader, pure, ◌>>=◌}
use realtime_go.Codec.Stable.{Stable, Stable-bounded, Stable-truncated, stable_rules}
use realtime_go.Codec.Members.Truncated.{Stable-wire_members, third_grows}
use realtime_go.Codec.Client.{
  read_publish_members, decode_client_publish, decode_client_record_body, decode_client_record,
  encode_client_frame, client_outcome,
}
use realtime_go.Codec.Client.RoundTrip.{
  FitsClient, client_layout, encode_client_frame-layout, Reads-body,
}

Stable-publish_members :
    (flags : ℕ) (frame : PublishFrame) (count : ℕ) → Stable (read_publish_members flags frame count)
unfolding read_publish_members
Stable-publish_members flags frame count =
    Stable-bounded count _ _ _ third_grows (search (stable_rules, Stable-wire_members))

Stable-publish : Stable decode_client_publish
unfolding decode_client_publish
Stable-publish = search (stable_rules, Stable-publish_members) depth 30

Stable-body : (op : ℕ) → Stable (decode_client_record_body op)
unfolding decode_client_record_body
Stable-body op = search (stable_rules, Stable-publish) depth 40

-- Each opcode of a frame is known, so the body gives a frame whatever it reads.
body_found :
    (f : ClientFrame) (r : BinReader)
    → (g : ClientFrame) × ((decode_client_record_body (client_layout f).0 r).0 ≡ some g)
unfolding decode_client_record_body client_layout ◌>>=◌ pure
body_found ping r = (_, refl)
body_found f r = (_, refl)

client_outcome_truncated :
    (op : ℕ) (p : Option ClientFrame × BinReader) {g : ClientFrame}
    → p.0 ≡ some g
    → p.1.err ≡ some truncated
    → client_outcome op p ≡ err truncated
client_outcome_truncated op (none, r) e h = cc
client_outcome_truncated op (some f, r) e h = rw h

-- A proper prefix of the record of a client frame that fits is refused with the error `truncated`.
pub decode_client_record_truncated :
    (f : ClientFrame) (front : Bytes) (x : ℕ) (back : Bytes)
    → FitsClient f
    → encode_client_frame f ≡ front ++ x ∷ back
    → decode_client_record front ≡ err truncated
unfolding decode_client_record
decode_client_record_truncated f [] x back h e = refl
decode_client_record_truncated f (op ∷ front) x back h e =
    let whole : (client_layout f).0 ∷ (client_layout f).1 ≡ op ∷ (front ++ x ∷ back) =
      sym (encode_client_frame-layout f) ∙ e in
    let same_op : (client_layout f).0 ≡ op = cc whole in
    let same_rest : (client_layout f).1 ≡ front ++ x ∷ back = cc whole in
    rw (← same_op) (
      client_outcome_truncated _ _ (body_found f (reader front)).1
        (Stable-truncated front x back (Stable-body _) (rw same_rest at (Reads-body f h))))
