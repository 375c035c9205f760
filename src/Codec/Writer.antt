-- ===== src/Codec/Writer.antt =====
-- binary.go: the write helpers, and the byte of a presence action.
use realtime_go.Common.{ℕ, ◌++◌, [], Bytes, length, Bool, ◌==◌, if◌then◌else◌, bit_and, not}
use realtime_go.Wire.{PresenceAction, enter, leave, update, other}
use realtime_go.Codec.Uvarint.{put_uvarint}

unfoldable pub append_uvarint : Bytes → ℕ → Bytes
append_uvarint dst value = dst ++ put_uvarint value

unfoldable pub append_bytes : Bytes → Bytes → Bytes
unfolding append_uvarint
append_bytes dst field = append_uvarint dst (length field) ++ field

unfoldable pub append_string : Bytes → Bytes → Bytes
unfolding append_uvarint
append_string dst value = append_uvarint dst (length value) ++ value

-- `flags&mask != 0`
abbrev pub has_flag : ℕ → ℕ → Bool
has_flag flags mask = not (bit_and flags mask == 0)

unfoldable pub presence_action_byte : PresenceAction → ℕ
presence_action_byte enter = 1
presence_action_byte leave = 2
presence_action_byte update = 3
presence_action_byte (other name) = 0

unfoldable pub presence_action_from : ℕ → PresenceAction
presence_action_from value = if value == 2 then leave else if value == 3 then update else enter

unfoldable pub frame_binary_record : Bytes → Bytes
unfolding append_uvarint
frame_binary_record rec = append_uvarint [] (length rec) ++ rec
