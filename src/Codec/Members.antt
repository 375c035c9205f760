-- ===== src/Codec/Members.antt =====
-- binary.go: the name, data and encoding of each member of a batch, written and read.
pub mod Layout
pub mod Truncated
use realtime_go.Common.{ℕ, zero, suc, List, [], ◌∷◌, Bytes}
use realtime_go.Wire.{WireMember}
use realtime_go.Codec.Writer.{append_bytes, append_string}
use realtime_go.Codec.Reader.{Read, pure, ◌>>=◌, str, json_field}

-- `for i := range members { ... }`
unfoldable pub append_members : Bytes → List WireMember → Bytes
append_members out [] = out
append_members out (m ∷ ms) =
    append_members (append_string (append_bytes (append_string out m.name) m.payload) m.encoding) ms

unfoldable pub read_wire_member : Read WireMember
read_wire_member = do
  name ← str
  payload ← json_field
  encoding ← str
  pure (record { name = name; payload = payload; encoding = encoding })

-- `for i := uint64(0); i < count; i++ { ... }`
unfoldable pub read_wire_members : ℕ → Read (List WireMember)
read_wire_members zero = pure []
read_wire_members (suc count) = do
  member ← read_wire_member
  members ← read_wire_members count
  pure (member ∷ members)
