-- ===== src/Codec/Messages/Layout.antt =====
-- The bytes of message members, and what is read back from them.
use realtime_go.Common.{
  ℕ, ◌+◌, ◌/◌, ◌≤◌, ◌<◌, ◌≡◌, refl, sym, ap, ◌∙◌, Bool, true, false, List, [], ◌∷◌, ◌++◌, Bytes,
  length, length-append, All, arith, ltb, if◌then◌else◌, Bool-cases, inl, inr,
}
use realtime_go.Wire.{WireMember, MsgFrame}
use realtime_go.Codec.Opcodes.{flag_ephemeral, flag_batch}
use realtime_go.Codec.Uvarint.{IsU64, put_uvarint, put_uvarint_shape}
use realtime_go.Codec.Writer.{has_flag}
use realtime_go.Codec.Reads.{
  Reads, IsField, field, Reads-eq, Reads-byte, Reads-last, Reads-bounded, reads_rules, length-field,
}
use realtime_go.Codec.Members.Layout.{
  FitsMember, layout_rules, members_bytes, append_members-bytes, Reads-members,
  length-members_bytes,
}
use realtime_go.Codec.Messages.{
  no_frame, push_batch_fields, member_flags, push_member, read_batch_members, read_batch_fields,
  read_single_fields, read_member,
}

abbrev is_batch : MsgFrame → Bool
is_batch f = ltb 0 (length f.members)

pub record FitsMessage (f : MsgFrame) : Type 0 where
  pub timestamp : IsU64 f.timestamp
  pub name : IsField f.name
  pub payload : IsField f.payload
  pub message_id : IsField f.message_id
  pub client_id : IsField f.client_id
  pub encoding : IsField f.encoding
  pub seq : IsU64 f.seq
  pub count : IsU64 (length f.members)
  pub members : All FitsMember f.members

-- What the wire keeps of a batch: its header and its members.
abbrev pub batch_form : Bytes → MsgFrame → MsgFrame
batch_form channel f = record f {
  channel = channel;
  name = [];
  payload = [];
  encoding = [];
  bundle = [];
}

-- What the wire keeps of a member that travels under `channel`.
unfoldable pub on_wire_member : Bytes → MsgFrame → MsgFrame
on_wire_member channel f =
    if is_batch f then batch_form channel f else record f { channel = channel; bundle = [] }

unfoldable pub batch_bytes : MsgFrame → Bytes → Bytes
batch_bytes f channel =
    put_uvarint f.timestamp
    ++ (field channel
        ++ (field f.message_id
            ++ (field f.client_id
                ++ (put_uvarint f.seq
                    ++ (put_uvarint (length f.members) ++ members_bytes f.members)))))

single_bytes : MsgFrame → Bytes → Bytes
single_bytes f channel =
    put_uvarint f.timestamp
    ++ (field channel
        ++ (field f.name
            ++ (field f.payload
                ++ (field f.message_id
                    ++ (field f.client_id ++ (field f.encoding ++ (put_uvarint f.seq ++ [])))))))

unfoldable pub message_bytes : MsgFrame → Bytes → Bytes
unfolding batch_bytes single_bytes
message_bytes f channel =
    member_flags f.ephemeral (is_batch f)
    ∷ (if is_batch f then batch_bytes f channel else single_bytes f channel)

pub push_batch_fields-bytes :
    (out : Bytes) (f : MsgFrame) (channel : Bytes)
    → push_batch_fields out f channel ≡ out ++ batch_bytes f channel
unfolding push_batch_fields batch_bytes
push_batch_fields-bytes out f channel = append_members-bytes _ f.members ∙ simp layout_rules

pub push_member-bytes :
    (out : Bytes) (f : MsgFrame) (channel : Bytes)
    → push_member out f channel ≡ out ++ message_bytes f channel
unfolding push_member message_bytes
push_member-bytes out f channel = elim (Bool-cases (is_batch f)) [
  | inl batch ↦ rw batch (push_batch_fields-bytes _ f channel ∙ simp layout_rules)
  | inr single ↦ rw single (simp layout_rules)
]

room_for_members :
    (ms : List WireMember) (rest : Bytes) → length ms ≤ length (members_bytes ms ++ rest) / 3
room_for_members ms rest =
    omega (arith, length-append (members_bytes ms) rest, length-members_bytes ms)

Reads-batch_members :
    (g f : MsgFrame)
    → All FitsMember f.members
    → f ≡ record g { members = f.members }
    → Reads (read_batch_members g (length f.members)) (members_bytes f.members) f
unfolding read_batch_members
Reads-batch_members g f h same =
    Reads-bounded _ _ _ (room_for_members f.members)
      (Reads-eq (sym same) (Reads-last _ _ (Reads-members f.members h)))

pub Reads-batch_fields :
    (flags : ℕ) (f : MsgFrame) (channel : Bytes)
    → FitsMessage f
    → IsField channel
    → has_flag flags flag_ephemeral ≡ f.ephemeral
    → Reads (read_batch_fields flags) (batch_bytes f channel) (batch_form channel f)
unfolding read_batch_fields batch_bytes
Reads-batch_fields flags f channel h hc e = search (reads_rules, at_members) depth 12
  where
    header : MsgFrame
    header = record no_frame {
      timestamp = f.timestamp;
      channel = channel;
      message_id = f.message_id;
      client_id = f.client_id;
      seq = f.seq;
      ephemeral = has_flag flags flag_ephemeral;
    }

    at_members :
        Reads
          (read_batch_members header (length f.members))
          (members_bytes f.members)
          (batch_form channel f)
    at_members =
        Reads-batch_members header (batch_form channel f) h.members
          (ap (λ b. record (batch_form channel f) { ephemeral = b }) (sym e))

Reads-single_fields :
    (flags : ℕ) (f : MsgFrame) (channel : Bytes)
    → FitsMessage f
    → IsField channel
    → has_flag flags flag_ephemeral ≡ f.ephemeral
    → f.members ≡ []
    → Reads
        (read_single_fields flags)
        (single_bytes f channel)
        (record f { channel = channel; bundle = [] })
unfolding read_single_fields single_bytes
Reads-single_fields flags f channel h hc e none = search (reads_rules, e, none) depth 12

flags_of_member :
    (ephemeral batch : Bool)
    → (has_flag (member_flags ephemeral batch) flag_ephemeral ≡ ephemeral)
      × (has_flag (member_flags ephemeral batch) flag_batch ≡ batch)
flags_of_member true true = (refl, refl)
flags_of_member true false = (refl, refl)
flags_of_member false true = (refl, refl)
flags_of_member false false = (refl, refl)

members_of_single : (ms : List WireMember) → ltb 0 (length ms) ≡ false → ms ≡ []
members_of_single [] e = refl
members_of_single (m ∷ ms) e = absurd (ground arith)

pub Reads-member :
    (f : MsgFrame) (channel : Bytes)
    → FitsMessage f
    → IsField channel
    → Reads read_member (message_bytes f channel) (on_wire_member channel f)
unfolding read_member message_bytes on_wire_member
Reads-member f channel h hc = elim (Bool-cases (is_batch f)) [
  | inl batch ↦ rw batch (
      Reads-byte _ _ (
        rw (flags_of_member f.ephemeral true).1
          (Reads-batch_fields _ f channel h hc (flags_of_member f.ephemeral true).0)))
  | inr single ↦ rw single (
      Reads-byte _ _ (
        rw (flags_of_member f.ephemeral false).1 (
          Reads-single_fields _ f channel h hc (flags_of_member f.ephemeral false).0
            (members_of_single f.members single))))
]

length-put_uvarint : (v : ℕ) → 1 ≤ length (put_uvarint v)
length-put_uvarint v = (put_uvarint_shape v).1

length-bytes_append : (xs ys : Bytes) → length (xs ++ ys) ≡ length xs + length ys
length-bytes_append = length-append

ruleset lengths =
    (arith, length-bytes_append, length-field, length-put_uvarint, length-members_bytes)

length-single_bytes : (f : MsgFrame) (channel : Bytes) → 8 ≤ length (single_bytes f channel)
unfolding single_bytes
length-single_bytes f channel = omega lengths

length-batch_bytes :
    (f : MsgFrame) (channel : Bytes) → 0 < length f.members → 8 ≤ length (batch_bytes f channel)
unfolding batch_bytes
length-batch_bytes f channel h = omega lengths

-- The smallest member is a flags byte plus eight fields.
pub length-message_bytes : (f : MsgFrame) (channel : Bytes) → 9 ≤ length (message_bytes f channel)
unfolding message_bytes
length-message_bytes f channel = elim (Bool-cases (is_batch f)) [
  | inl batch ↦ rw batch (omega (arith, length-batch_bytes f channel (ground arith)))
  | inr single ↦ rw single (omega (arith, length-single_bytes f channel))
]
