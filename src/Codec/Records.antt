-- ===== src/Codec/Records.antt =====
-- binary.go: length-prefixed records in one WebSocket message, and the frames decoded from it.
pub mod Split
pub mod Frames
use realtime_go.Common.{
  ℕ, zero, suc, Bool, true, false, Option, none, some, List, [], ◌∷◌, ◌++◌, Bytes, length,
}
use mathlib.Core.Option
use realtime_go.Wire.{ServerFrame}
use realtime_go.Codec.Reader.{BinReader, reader, slice, done}
use realtime_go.Codec.Server.{decode_server_frame}

-- The body of the loop of `splitBinaryRecords` once a record is read; `again` is the next round.
abbrev split_next :
    (BinReader → List Bytes → Option (List Bytes))
    → List Bytes
    → Bytes × BinReader
    → Option (List Bytes)
split_next again records (rec, r) = elim r.err [
  | some e ↦ some records
  | none ↦ again r (records ++ rec ∷ [])
]

-- `none` means that the fuel ran out.
unfoldable pub split_loop : ℕ → BinReader → List Bytes → Option (List Bytes)
split_loop zero r records = elim (done r) [ true ↦ some records | false ↦ none ]
split_loop (suc fuel) r records = elim (done r) [
  | true ↦ some records
  | false ↦ split_next (split_loop fuel) records (slice r)
]

-- Each round takes a byte at least, so the length of the message is fuel enough.
unfoldable pub split_binary_records : Bytes → List Bytes
unfolding split_loop
split_binary_records body = Option.get_or (split_loop (length body) (reader body) []) []

-- `if frame := decodeServerFrame(record); frame != nil { frames = append(frames, frame) }`
abbrev keep_frame : Option ServerFrame → List ServerFrame → List ServerFrame
keep_frame none frames = frames
keep_frame (some f) frames = f ∷ frames

decode_records : List Bytes → List ServerFrame
decode_records [] = []
decode_records (rec ∷ records) = keep_frame (decode_server_frame rec) (decode_records records)

unfoldable pub decode_server_frames : Bytes → List ServerFrame
unfolding decode_records
decode_server_frames body = decode_records (split_binary_records body)
