-- ===== src/Codec/Client/RoundTrip.antt =====
-- Client frames, encoded and decoded.
use realtime_go.Common.{
  ℕ, ◌/◌, ◌≤◌, ◌≡◌, refl, ◌∙◌, sym, ap, some, List, [], ◌∷◌, ◌++◌, Bool, true, false, Bytes, length,
  length-append, All, arith, if◌then◌else◌,
}
use realtime_go.Wire.{
  PresenceAction, enter, leave, update, other, WireMember, PublishFrame, ClientFrame, auth,
  subscribe, unsubscribe, publish, presence, presence_subscribe, presence_unsubscribe, history,
  fetch, ping,
}
use realtime_go.Codec.Opcodes.{flag_ephemeral}
use realtime_go.Codec.Uvarint.{IsU64, put_uvarint}
use realtime_go.Codec.Writer.{has_flag, presence_action_byte, presence_action_from}
use realtime_go.Codec.Reader.{ok}
use realtime_go.Codec.Reads.{
  Reads, Reads-eq, IsField, field, Reads-last, Reads-bounded, reads_rules,
}
use realtime_go.Codec.Members.Layout.{
  FitsMember, layout_rules, members_bytes, append_members-bytes, Reads-members,
  length-members_bytes,
}
use realtime_go.Codec.Client.{
  encode_binary_publish, encode_client_frame, decode_client_publish, read_publish_members,
  decode_client_record_body, decode_client_record, client_outcome,
}

-- One of the three actions that the protocol names.
abbrev pub IsNamed : PresenceAction → Type 0
IsNamed (other name) = ⊥
IsNamed _ = Unit {0}

pub record FitsPublish (f : PublishFrame) : Type 0 where
  pub id : IsU64 f.id
  pub channel : IsField f.channel
  pub name : IsField f.name
  pub payload : IsField f.payload
  pub encoding : IsField f.encoding
  pub message_id : IsField f.message_id
  pub count : IsU64 (length f.members)
  pub members : All FitsMember f.members

-- Every number is a uint64, every length too, and the presence action is a named one.
abbrev pub FitsClient : ClientFrame → Type 0
FitsClient (auth f) =
    IsField f.token × IsField f.key × IsField f.client_id × IsField f.resume_connection_id
FitsClient (subscribe f) = IsU64 f.id × IsU64 f.last_serial × IsField f.channel
FitsClient (unsubscribe f) = IsU64 f.id × IsField f.channel
FitsClient (publish f) = FitsPublish f
FitsClient (presence f) =
    IsNamed f.action × IsU64 f.id × IsField f.channel × IsField f.payload × IsField f.encoding
FitsClient (presence_subscribe f) = IsU64 f.id × IsField f.channel
FitsClient (presence_unsubscribe f) = IsU64 f.id × IsField f.channel
FitsClient (history f) = IsU64 f.id × IsU64 f.limit × IsField f.channel × IsU64 f.before
FitsClient (fetch f) = IsU64 f.id × IsU64 f.from_serial × IsField f.channel
FitsClient ping = Unit {0}

abbrev pub publish_flags : PublishFrame → ℕ
publish_flags f = if f.ephemeral then flag_ephemeral else 0

unfoldable pub publish_bytes : PublishFrame → Bytes
publish_bytes f =
    put_uvarint f.id
    ++ (field f.channel
        ++ (field f.name
            ++ (field f.payload
                ++ (field f.encoding
                    ++ (field f.message_id
                        ++ (put_uvarint 0
                            ++ (put_uvarint (length f.members) ++ members_bytes f.members)))))))

-- The opcode and what follows it, field by field.
unfoldable pub client_layout : ClientFrame → ℕ × Bytes
client_layout (auth f) = (
  1,
  0
      ∷ (field f.token
          ++ (field f.key ++ (field f.client_id ++ (field f.resume_connection_id ++ [])))),
)
client_layout (subscribe f) =
    (2, put_uvarint f.id ++ (put_uvarint f.last_serial ++ (field f.channel ++ [])))
client_layout (unsubscribe f) = (3, put_uvarint f.id ++ (field f.channel ++ []))
client_layout (publish f) = (4, publish_flags f ∷ publish_bytes f)
client_layout (presence f) = (
  5,
  presence_action_byte f.action
      ∷ (put_uvarint f.id ++ (field f.channel ++ (field f.payload ++ (field f.encoding ++ [])))),
)
client_layout (presence_subscribe f) = (6, put_uvarint f.id ++ (field f.channel ++ []))
client_layout (presence_unsubscribe f) = (7, put_uvarint f.id ++ (field f.channel ++ []))
client_layout (history f) = (
  8,
  put_uvarint f.id ++ (put_uvarint f.limit ++ (field f.channel ++ (put_uvarint f.before ++ []))),
)
client_layout (fetch f) =
    (9, put_uvarint f.id ++ (put_uvarint f.from_serial ++ (field f.channel ++ [])))
client_layout ping = (10, [])

pub encode_client_frame-layout :
    (f : ClientFrame) → encode_client_frame f ≡ (client_layout f).0 ∷ (client_layout f).1
unfolding encode_client_frame encode_binary_publish client_layout publish_bytes
encode_client_frame-layout ping = refl
encode_client_frame-layout (publish f) = append_members-bytes _ f.members ∙ simp layout_rules
encode_client_frame-layout f = simp layout_rules

pub presence_action_from-byte :
    (a : PresenceAction) → IsNamed a → presence_action_from (presence_action_byte a) ≡ a
unfolding presence_action_from presence_action_byte
presence_action_from-byte (other name) h = absurd h
presence_action_from-byte enter h = refl
presence_action_from-byte leave h = refl
presence_action_from-byte update h = refl

pub flag-ephemeral : (b : Bool) → has_flag (if b then flag_ephemeral else 0) flag_ephemeral ≡ b
flag-ephemeral true = refl
flag-ephemeral false = refl

room_for_members :
    (ms : List WireMember) (rest : Bytes) → length ms ≤ length (members_bytes ms ++ rest) / 3
room_for_members ms rest =
    omega (arith, length-append (members_bytes ms) rest, length-members_bytes ms)

Reads-publish_members :
    (f g : PublishFrame)
    → FitsPublish f
    → f ≡ record g { members = f.members; ephemeral = f.ephemeral }
    → Reads
        (read_publish_members (publish_flags f) g (length f.members))
        (members_bytes f.members)
        f
unfolding read_publish_members
Reads-publish_members f g h same = Reads-bounded _ _ _ (room_for_members f.members) (
    Reads-eq
      (ap (λ b. record g { members = f.members; ephemeral = b }) (flag-ephemeral f.ephemeral)
        ∙ sym same)
      (Reads-last _ _ (Reads-members f.members h.members)))

zero_fits : IsU64 0
zero_fits = omega arith

Reads-publish :
    (f : PublishFrame)
    → FitsPublish f
    → Reads decode_client_publish (publish_flags f ∷ publish_bytes f) f
unfolding decode_client_publish publish_bytes
Reads-publish f h = search (reads_rules, zero_fits, Reads-publish_members f) depth 12

pub Reads-body :
    (f : ClientFrame)
    → FitsClient f
    → Reads (decode_client_record_body (client_layout f).0) (client_layout f).1 (some f)
unfolding decode_client_record_body client_layout
Reads-body ping h = search reads_rules
Reads-body (publish f) h = Reads-last _ _ (Reads-last _ _ (Reads-publish f h))
Reads-body (presence f) h =
    Reads-last _ _ (search (reads_rules, presence_action_from-byte f.action h.0) depth 12)
Reads-body f h = Reads-last _ _ (search reads_rules depth 12)

-- The record of a client frame that fits, with any bytes after it, decodes to this frame.
pub decode_client_record-encode :
    (f : ClientFrame) (extra : Bytes)
    → FitsClient f
    → decode_client_record (encode_client_frame f ++ extra) ≡ ok f
unfolding decode_client_record
decode_client_record-encode f extra h =
    rw (encode_client_frame-layout f)
      (ap (client_outcome (client_layout f).0) ((Reads-body f h).runs extra))
