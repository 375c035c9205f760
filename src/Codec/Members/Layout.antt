-- ===== src/Codec/Members/Layout.antt =====
-- The bytes of batch members, and that they are read back.
use realtime_go.Common.{
  ℕ, suc, ◌+◌, ◌*◌, ◌≤◌, ◌≡◌, refl, sym, ◌∙◌, List, [], ◌∷◌, ◌++◌, append_assoc, append-nil, Bytes,
  length, length-append, All, arith,
}
use realtime_go.Wire.{WireMember}
use realtime_go.Codec.Uvarint.{put_uvarint}
use realtime_go.Codec.Writer.{append_uvarint, append_bytes, append_string}
use realtime_go.Codec.Reads.{
  Reads, IsField, field, Reads-pure, Reads-bind, Reads-last, length-field, reads_rules,
}
use realtime_go.Codec.Members.{append_members, read_wire_member, read_wire_members}

pub record FitsMember (m : WireMember) : Type 0 where
  pub name : IsField m.name
  pub payload : IsField m.payload
  pub encoding : IsField m.encoding

pub append_string-field : (dst s : Bytes) → append_string dst s ≡ dst ++ field s
unfolding append_string field
append_string-field dst s = append_assoc dst (put_uvarint (length s)) s

pub append_bytes-field : (dst s : Bytes) → append_bytes dst s ≡ dst ++ field s
unfolding append_bytes field
append_bytes-field dst s = append_assoc dst (put_uvarint (length s)) s

pub append_uvarint-put : (dst : Bytes) (v : ℕ) → append_uvarint dst v ≡ dst ++ put_uvarint v
unfolding append_uvarint
append_uvarint-put dst v = refl

pub ruleset layout_rules =
    (append_string-field, append_bytes-field, append_uvarint-put, append_assoc, append-nil)

unfoldable pub member_bytes : WireMember → Bytes
member_bytes m = field m.name ++ (field m.payload ++ (field m.encoding ++ []))

unfoldable pub members_bytes : List WireMember → Bytes
members_bytes [] = []
members_bytes (m ∷ ms) = member_bytes m ++ members_bytes ms

pub append_members-bytes :
    (out : Bytes) (ms : List WireMember) → append_members out ms ≡ out ++ members_bytes ms
unfolding append_members members_bytes member_bytes
append_members-bytes out [] = sym (append-nil out)
append_members-bytes out (m ∷ ms) =
    append_members-bytes
      (append_string (append_bytes (append_string out m.name) m.payload) m.encoding) ms
    ∙ simp layout_rules

Reads-member : (m : WireMember) → FitsMember m → Reads read_wire_member (member_bytes m) m
unfolding read_wire_member member_bytes
Reads-member m h = search reads_rules depth 12

pub Reads-members :
    (ms : List WireMember)
    → All FitsMember ms
    → Reads (read_wire_members (length ms)) (members_bytes ms) ms
unfolding read_wire_members members_bytes
Reads-members [] h = Reads-pure []
Reads-members (m ∷ ms) (h, hs) =
    Reads-bind _ _ (Reads-member m h)
      (Reads-last _ (λ (r : List WireMember). m ∷ r) (Reads-members ms hs))

pub length-members_bytes : (ms : List WireMember) → 3 * length ms ≤ length (members_bytes ms)
unfolding members_bytes member_bytes
length-members_bytes [] = omega arith
length-members_bytes (m ∷ ms) = omega (
  arith,
  length-append (member_bytes m) (members_bytes ms),
  length-append (field m.name) (field m.payload ++ (field m.encoding ++ [])),
  length-append (field m.payload) (field m.encoding ++ []),
  length-append (field m.encoding) [],
  length-field m.name,
  length-field m.payload,
  length-field m.encoding,
  length-members_bytes ms,
)
